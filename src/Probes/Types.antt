-- ===== src/Probes/Types.antt =====
-- src/picket/conditions/probes.py: the records, and what a probe's run takes from outside.
use picket_mcp.Prelude.{ℕ, ℤ, Text, Bool, Option, List}
use picket_mcp.Core.Json.{Json, Fields}
use picket_mcp.Handler.Types.{World}

pub data Language : Type 0 where
  python sh : Language

pub record Probe : Type 0 where
  pub id : Text
  pub language : Language
  pub entry : Text
  pub description : Text
  pub content_hash : Text
  pub version : ℕ

pub record ProbeResult (N : Type 0) : Type 0 where
  pub fire : Bool
  pub value : Json N
  pub payload : Fields N

-- How `subprocess.run` ends: with the process's code, stdout and stderr, by TimeoutExpired, by an
-- OSError, or by another exception (output that is no UTF-8).
pub data Process : Type 0 where
  exited : ℤ → Text → Text → Process
  timed_out : Process
  os_error : Text → Process
  undecodable : Process

-- The world of the handler, and Python's interpreter, the file probe.toml, `splitlines`, `lower`, the
-- message of a JSONDecodeError and the processes. `toml` is none where reading raises.
pub record ProbeWorld (N : Type 0) : Type 0 where
  pub base : World N
  pub executable : Text
  pub toml : Text → Option (Option Probe)
  pub lines : Text → List Text
  pub lower : Text → Text
  pub decode_error : Text → Text
  pub execute : List Text → List (Text × Text) → Process
