-- ===== src/Handler/Types.antt =====
-- src/picket/execution/handler.py and runbooks.py: the records that an execution handles, and what it
-- takes from the world around it.
use picket_mcp.Prelude.{ℕ, ℤ, Text, Bool, Option, none, some, List}
use picket_mcp.Core.Json.{Json}
use picket_mcp.Core.Models.{PredicateSpec}

pub data RunbookType : Type 0 where
  prompt exec : RunbookType

pub record Runbook : Type 0 where
  pub id : Text
  pub type : RunbookType
  pub entry : Text
  pub description : Text
  pub allowed_tools : List Text
  pub content_hash : Text
  pub version : ℕ

-- How to run a runbook. `kind` is the runbook's type; `env` is added to the environment.
pub record Invocation : Type 0 where
  pub kind : RunbookType
  pub env : List (Text × Text)
  pub payload_file : Text
  pub entry_path : Text
  pub prompt_text : Option Text

pub record HandlerResult : Type 0 where
  pub returncode : Option ℤ
  pub stdout : Text
  pub stderr : Text
  pub pid : Option ℕ
  pub timed_out : Bool

-- What the runner does with a command: a process that started and ended, or an OSError.
pub data Launch : Type 0 where
  ran : HandlerResult → Launch
  os_error : Text → Launch

-- Files, processes, clocks and the libraries for JSON, TOML and SHA-256. An Option is none where the
-- call raises; `toml` reads a file that may be missing. `files` is the entry of a runbook and the
-- files under its `scripts`, each as its relative path and its content. `seconds` is the str of
-- this number of seconds as a float.
pub record World (N : Type 0) : Type 0 where
  pub home : Text
  pub temp : Text
  pub claude : Text
  pub toml : Text → Option (Option Runbook)
  pub files : Text → Text → Option (List (Text × Text))
  pub sha256 : Text → Text
  pub read_text : Text → Option Text
  pub dumps : Json N → Text
  pub dumps_indented : Json N → Text
  pub loads : Text → Option (Json N)
  pub truth : Json N → Bool
  pub model_dump : PredicateSpec N → Json N
  pub strip : Text → Text
  pub launch : ℕ → List Text → ℕ → List (Text × Text) → Launch
  pub send : Text → Text → Bool
  pub repr : Text → Text
  pub seconds : ℕ → Text
  pub iso : ℕ → Text
  pub clock : ℕ → ℕ

-- What follows a call that may raise.
infixl 5 ◌>>=◌
abbrev pub ◌>>=◌ {ℓ κ} : {A : Type ℓ} {B : Type κ} → Option A → (A → Option B) → Option B
none >>= f = none
some a >>= f = f a
