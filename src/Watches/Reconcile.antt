-- ===== src/Watches/Reconcile.antt =====
-- src/picket/runtime/supervisor.py: `reconcile`, with the OSError of a process that cannot be spawned.
use picket_mcp.Prelude.{
  ℕ, Text, Bool, true, false, not, ◌&&◌, Option, none, some, List, [], ◌∷◌, if◌then◌else◌,
}
use picket_mcp.Core.Models.{WatchState, WatchStatus, DesiredStatus}
use picket_mcp.Store.History.{recover_abandoned, prune_results}
use picket_mcp.Store.Watches.{WatchRow, read_watch, watch_ids_by_desired}
use picket_mcp.Daemon.Poll.{Db}
use picket_mcp.Watches.Liveness.{ProcessTable, is_alive}

-- state.status in ("active", "errored")
abbrev pub may_restart : WatchStatus → Bool
may_restart WatchStatus.active = true
may_restart WatchStatus.errored = true
may_restart _ = false

-- The reply, and the database after the sweep.
pub record Sweep (N : Type 0) : Type 0 where
  pub restarted : List Text
  pub recovered : ℕ
  pub pruned : ℕ
  pub db : Db N

abbrev pub spawn_one : Text → Option Text → List Text × Bool → List Text × Bool
spawn_one w none (spawned, failed) = (w ∷ spawned, failed)
spawn_one w (some err) rest = ([], true)

-- The daemons that are spawned, and whether an OSError leaves the loop.
unfoldable pub spawn_each : (Text → Option Text) → List Text → List Text × Bool
spawn_each spawn [] = ([], false)
spawn_each spawn (w ∷ ws) = spawn_one w (spawn w) (spawn_each spawn ws)

module _ {N : Type 0} where
  abbrev pub is_dead : ProcessTable → Option (WatchState N) → Bool
  is_dead processes none = false
  is_dead processes (some state) = may_restart state.status && not (is_alive processes state)

  -- The loop over the ids: those whose daemon is spawned.
  unfoldable pub restarts : ProcessTable → List (WatchRow N) → List Text → List Text
  unfolding read_watch is_alive
  restarts processes table [] = []
  restarts processes table (w ∷ ws) =
      let rest = restarts processes table ws in
      if is_dead processes (read_watch w table) then w ∷ rest else rest

  -- The sweep if every process is spawned.
  unfoldable pub reconcile : ProcessTable → ℕ → ℕ → Db N → Sweep N
  unfolding restarts watch_ids_by_desired recover_abandoned prune_results
  reconcile processes now result_retention db =
      let restarted =
        restarts processes db.watches (watch_ids_by_desired DesiredStatus.active db.watches) in
      let (fires, recovered) = recover_abandoned now none db.fires in
      let (fires', _, pruned) = prune_results result_retention fires in
      record {
        restarted = restarted;
        recovered = recovered;
        pruned = pruned;
        db = record db { fires = fires' };
      }

  -- `spawn` gives the text of the OSError if it raises one. What is spawned, and the sweep, or none if
  -- the exception left it before recovery and retention, with the database as it was.
  unfoldable pub reconcile_spawning :
      (Text → Option Text) → ProcessTable → ℕ → ℕ → Db N → List Text × Option (Sweep N)
  unfolding reconcile spawn_each
  reconcile_spawning spawn processes now result_retention db =
      let sweep = reconcile processes now result_retention db in
      let (spawned, failed) = spawn_each spawn sweep.restarted in
      (spawned, if failed then none else some sweep)
