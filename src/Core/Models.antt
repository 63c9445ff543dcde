-- ===== src/Core/Models.antt =====
-- src/picket/core/models.py: the specs and the watch record, as they are after validation. A time
-- is a number of microseconds since the epoch and a duration a number of microseconds, the
-- resolution of the program's timestamps, but `handler_timeout_seconds` counts seconds; what validation keeps positive is a natural number.
use picket_mcp.Prelude.{ℕ, Text, Bool, Option, List}
use picket_mcp.Core.Json.{Json}

pub data PredicateOp : Type 0 where
  on_change lt gt lte gte eq ne pct_change crosses_above crosses_below : PredicateOp

pub data BaselineMode : Type 0 where
  last_value arm_time prior_close absolute : BaselineMode

-- `float | str`
pub data Threshold (N : Type 0) : Type 0 where
  number : N → Threshold N
  text : Text → Threshold N

pub record EndpointSpec (N : Type 0) : Type 0 where
  pub url : Text
  pub method : Text
  pub headers : List (Text × Text)
  pub body : Json N
  pub auth_ref : Option Text

pub record PredicateSpec (N : Type 0) : Type 0 where
  pub path : Text
  pub op : PredicateOp
  pub value : Option (Threshold N)
  pub baseline_mode : BaselineMode
  pub baseline_value : Option N
  pub baseline_path : Option Text

-- `start` and `end` are texts of the form HH:MM; weekdays count from 0 for Monday.
pub record ActiveWindow : Type 0 where
  pub tz : Text
  pub start : Text
  pub end : Text
  pub days : List ℕ

pub record CadenceSpec : Type 0 where
  pub interval_seconds : ℕ
  pub jitter_seconds : ℕ
  pub active_window : Option ActiveWindow

pub data WatchStatus : Type 0 where
  active paused stopping stopped errored : WatchStatus

pub data DesiredStatus : Type 0 where
  active paused stopped : DesiredStatus

pub data DriftPolicy : Type 0 where
  block run : DriftPolicy

pub data DeliveryEvent : Type 0 where
  completed failed timed_out dead_lettered : DeliveryEvent

-- `Any` fields hold JSON values, with None as null. `overlap_policy` has the one value "drop".
pub record WatchState (N : Type 0) : Type 0 where
  pub watch_id : Text
  pub runbook_id : Text
  pub runbook_rev : Option Text
  pub endpoint : Option (EndpointSpec N)
  pub predicate : Option (PredicateSpec N)
  pub probe_id : Option Text
  pub probe_rev : Option Text
  pub probe_params : Json N
  pub cadence : CadenceSpec
  pub label : Option Text
  pub status : WatchStatus
  pub desired_status : DesiredStatus
  pub max_fires : Option ℕ
  pub ttl_seconds : Option ℕ
  pub debounce_seconds : ℕ
  pub cooldown_seconds : ℕ
  pub handler_timeout_seconds : ℕ
  pub max_retries : ℕ
  pub drift_policy : DriftPolicy
  pub notify_runbook : Option Text
  pub delivery_events : List DeliveryEvent
  pub skip_permissions : Bool
  pub created_at : Option ℕ
  pub baseline : Json N
  pub last_value : Json N
  pub last_observed_at : Option ℕ
  pub last_error : Option Text
  pub satisfied : Bool
  pub satisfied_since : Option ℕ
  pub fired_this_episode : Bool
  pub episode_seq : ℕ
  pub heartbeat_at : Option ℕ
  pub fire_count : ℕ
  pub last_fire_at : Option ℕ
  pub pid : Option ℕ
  pub pgid : Option ℕ
  pub proc_create_time : Option ℕ
