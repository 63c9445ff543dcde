-- ===== src/Watches/Liveness.antt =====
-- src/picket/runtime/watches.py: `is_alive`, `_heartbeat_stale`, `effective_status`. A process is
-- known by the time at which it was created, in microseconds.
use picket_mcp.Prelude.{
  ℕ, zero, suc, ◌+◌, ◌-◌, ◌*◌, max, Bool, true, false, not, ◌&&◌, ◌||◌, Option, none, some, ltb,
  if◌then◌else◌,
}
use picket_mcp.Core.Models.{WatchState, WatchStatus}

-- The creation time of the process that runs under a pid: none where there is no such process.
abbrev pub ProcessTable : Type 0
ProcessTable = ℕ → Option ℕ

abbrev distance : ℕ → ℕ → ℕ
distance a b = (a - b) + (b - a)

-- abs(proc.create_time() - state.proc_create_time) > 1.0 refuses.
abbrev matches_time : ℕ → Option ℕ → Bool
matches_time created none = true
matches_time created (some recorded) = not (ltb 1000000 (distance created recorded))

abbrev matches_process : Option ℕ → Option ℕ → Bool
matches_process none recorded = false
matches_process (some created) recorded = matches_time created recorded

-- None and 0 are false.
abbrev alive_as : ProcessTable → Option ℕ → Option ℕ → Bool
alive_as processes none recorded = false
alive_as processes (some zero) recorded = false
alive_as processes (some (suc p)) recorded = matches_process (processes (suc p)) recorded

abbrev pub is_active_status : WatchStatus → Bool
is_active_status WatchStatus.active = true
is_active_status _ = false

abbrev stale_since : ℕ → ℕ → Option ℕ → Bool
stale_since now interval none = false
stale_since now interval (some beat) = ltb (beat + max 60000000 (3 * interval)) now

module _ {N : Type 0} where
  unfoldable pub is_alive : ProcessTable → WatchState N → Bool
  is_alive processes state = alive_as processes state.pid state.proc_create_time

  unfoldable pub heartbeat_stale : ℕ → WatchState N → Bool
  heartbeat_stale now state = stale_since now state.cadence.interval_seconds state.heartbeat_at

  unfoldable pub effective_status : ProcessTable → ℕ → WatchState N → WatchStatus
  unfolding is_alive heartbeat_stale
  effective_status processes now state =
      if is_active_status state.status
        && (not (is_alive processes state) || heartbeat_stale now state)
      then WatchStatus.errored
      else state.status
