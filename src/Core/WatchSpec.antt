-- ===== src/Core/WatchSpec.antt =====
-- src/picket/core/models.py: the validation of a watch's record as `arm_watch` makes it.
use picket_mcp.Prelude.{
  ℕ, ℤ, Text, codes, text_eq, Bool, true, false, not, ◌&&◌, Option, none, some, List, [], ◌∷◌,
  is_some, if◌then◌else◌,
}
use picket_mcp.Core.Models.{
  WatchState, EndpointSpec, PredicateSpec, DriftPolicy, block, run, DeliveryEvent, completed,
  failed, timed_out, dead_lettered,
}
use picket_mcp.Core.Validate.{◌>>=◌, check, natural, positive, truthy_text}

-- What `arm_watch` passes: `state` holds the fields that no validator of the program looks at and the
-- condition's source, and its other fields are those below once they are checked.
pub record RawWatch (N : Type 0) : Type 0 where
  pub state : WatchState N
  pub max_fires : Option ℤ
  pub ttl_seconds : Option ℤ
  pub debounce_seconds : ℤ
  pub cooldown_seconds : ℤ
  pub max_retries : ℤ
  pub drift_policy : Text
  pub delivery_events : List Text

abbrev pub positive_optional : Option ℤ → Option (Option ℕ)
positive_optional none = some none
positive_optional (some v) = positive v >>= λ n. some (some n)

unfoldable pub drift_policy_of : Text → Option DriftPolicy
unfolding text_eq
drift_policy_of s =
    if text_eq s (codes "block")
    then some block
    else if text_eq s (codes "run")
    then some run
    else none

unfoldable pub event_of : Text → Option DeliveryEvent
unfolding text_eq
event_of s =
    if text_eq s (codes "completed")
    then some completed
    else if text_eq s (codes "failed")
    then some failed
    else if text_eq s (codes "timed_out")
    then some timed_out
    else if text_eq s (codes "dead_lettered")
    then some dead_lettered
    else none

unfoldable pub known_events : List Text → Option (List DeliveryEvent)
unfolding event_of
known_events [] = some []
known_events (e ∷ es) = event_of e >>= λ event. known_events es >>= λ events. some (event ∷ events)

abbrev pub has_endpoint : {N : Type 0} → Option (EndpointSpec N) → Option (PredicateSpec N) → Bool
has_endpoint endpoint predicate = is_some endpoint && is_some predicate

-- a == b of two truth values
abbrev pub same_truth : Bool → Bool → Bool
same_truth true b = b
same_truth false b = not b

-- Exactly one of (endpoint and predicate) and probe_id.
abbrev pub one_source : {N : Type 0} → WatchState N → Bool
one_source state =
    not (same_truth (has_endpoint state.endpoint state.predicate) (truthy_text state.probe_id))

unfoldable pub validate_watch : {N : Type 0} → RawWatch N → Option (WatchState N)
unfolding drift_policy_of known_events
validate_watch raw = positive_optional raw.max_fires >>= λ max_fires.
    positive_optional raw.ttl_seconds >>= λ ttl_seconds.
    natural raw.debounce_seconds >>= λ debounce. natural raw.cooldown_seconds >>= λ cooldown.
    natural raw.max_retries >>= λ max_retries. drift_policy_of raw.drift_policy >>= λ drift_policy.
    known_events raw.delivery_events >>= λ events. check (one_source raw.state) (record raw.state {
      max_fires = max_fires;
      ttl_seconds = ttl_seconds;
      debounce_seconds = debounce;
      cooldown_seconds = cooldown;
      max_retries = max_retries;
      drift_policy = drift_policy;
      delivery_events = events;
    })
