-- ===== src/Watches/Request.antt =====
-- src/picket/runtime/watches.py: what `arm_watch` takes, reads and returns, the steps that may refuse,
-- and `_await_identity`.
use picket_mcp.Prelude.{
  ℕ, ℤ, Text, codes, Bool, true, false, Option, none, some, List, [], ◌∷◌, is_some, if◌then◌else◌,
}
use picket_mcp.Core.Json.{Json}
use picket_mcp.Core.Errors.{Tried, passed, refused, raised, or_refused, ErrorCode}
use picket_mcp.Core.Models.{WatchState, WatchStatus, CadenceSpec, EndpointSpec, PredicateSpec}
use picket_mcp.Core.Validate.{RawCadence}
use picket_mcp.Core.WatchSpec.{RawWatch}
use picket_mcp.Condition.Extract.{Observed, ok, observe_error, crash}
use picket_mcp.Probes.Types.{ProbeWorld}

-- The tool's arguments.
pub record Request (N : Type 0) : Type 0 where
  pub runbook_id : Text
  pub endpoint : Option (Json N)
  pub predicate : Option (Json N)
  pub cadence : Json N
  pub probe_id : Option Text
  pub probe_params : Json N
  pub label : Option Text
  pub max_fires : Option ℤ
  pub recurring : Bool
  pub ttl_seconds : Option ℤ
  pub debounce_seconds : ℤ
  pub cooldown_seconds : ℤ
  pub max_retries : ℤ
  pub drift_policy : Text
  pub notify_runbook : Option Text
  pub delivery_events : Option (List Text)
  pub skip_permissions : Bool
  pub confirm_skip : Bool

-- `cadence_of`, `endpoint_of` and `predicate_of` are none where the dict does not fit the field types;
-- `spec_error` and `watch_error` are the messages of a ValidationError. `spawn` is the message of an
-- OSError, if there is one. `readings` are the rows that `_await_identity` reads before its deadline
-- and `last_reading` the one after it.
pub record ArmWorld (N : Type 0) : Type 0 where
  pub probes : ProbeWorld N
  pub decimal : ℕ → Bool
  pub zone : Text → Bool
  pub cadence_of : Json N → Option RawCadence
  pub endpoint_of : Json N → Option (EndpointSpec N)
  pub predicate_of : Json N → Option (PredicateSpec N)
  pub spec_error : Json N → Text
  pub watch_error : RawWatch N → Text
  pub fetch : EndpointSpec N → Observed (Json N)
  pub find : Text → Json N → Option (List (Json N))
  pub spawn : Text → Option Text
  pub readings : List (Option (WatchState N))
  pub last_reading : Option (WatchState N)

pub record Armed (N : Type 0) : Type 0 where
  pub watch_id : Text
  pub status : WatchStatus
  pub pid : Option ℕ
  pub pgid : Option ℕ
  pub baseline : Json N
  pub trial_value : Json N
  pub max_fires : Option ℕ

-- `except ProbeError` and `except ObserveError`.
abbrev pub trying {ℓ} : {A : Type ℓ} → ErrorCode → Observed A → Tried A
trying code (ok a) = passed a
trying code (observe_error err) = refused code err
trying code crash = raised

-- A registration that may raise, and may be missing.
abbrev pub registered {ℓ} : {A : Type ℓ} → ErrorCode → Text → Option (Option A) → Tried A
registered code message none = raised
registered code message (some found) = or_refused code message found

-- What the condition's source gives at arm time.
pub record Trial (N : Type 0) : Type 0 where
  pub probe_rev : Option Text
  pub trial_value : Json N
  pub baseline : Json N

-- The specs of a request.
pub record Specs (N : Type 0) : Type 0 where
  pub cadence : CadenceSpec
  pub endpoint : Option (EndpointSpec N)
  pub predicate : Option (PredicateSpec N)

abbrev pub all_events : List Text
all_events = codes "completed" ∷ codes "failed" ∷ codes "timed_out" ∷ codes "dead_lettered" ∷ []

-- `delivery_events or list(DELIVERY_EVENTS)`
abbrev pub events_or_all : Option (List Text) → List Text
events_or_all (some (e ∷ es)) = e ∷ es
events_or_all _ = all_events

-- `None if recurring else 1` where no number is given.
abbrev pub limit_of : Option ℤ → Bool → Option ℤ
limit_of (some m) recurring = some m
limit_of none true = none
limit_of none false = some (ℤ.pos 1)

abbrev pub has_pid : {N : Type 0} → Option (WatchState N) → Bool
has_pid none = false
has_pid (some state) = is_some state.pid

unfoldable pub await_identity :
    {N : Type 0} → List (Option (WatchState N)) → Option (WatchState N) → Option (WatchState N)
await_identity [] last = last
await_identity (state ∷ states) last =
    let rest = await_identity states last in if has_pid state then state else rest
