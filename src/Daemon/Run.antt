-- ===== src/Daemon/Run.antt =====
-- src/picket/runtime/daemon.py: `_record_identity`, `run` and `_shutdown`. What the worker and other
-- processes do to the tables between two rounds, and while `_shutdown` waits for the worker, is given
-- as a function. The sleeps and the log lines are not modelled, and the store's operations succeed.
use picket_mcp.Prelude.{ℕ, zero, suc, ◌+◌, Text, Bool, false, Option, none, some, if◌then◌else◌}
use picket_mcp.Core.Json.{Numbers}
use picket_mcp.Core.Models.{WatchState, WatchStatus}
use picket_mcp.Store.History.{recover_abandoned}
use picket_mcp.Store.Watches.{read_watch, write_watch}
use picket_mcp.Store.Commands.{CommandTable}
use picket_mcp.Daemon.Window.{LocalTime}
use picket_mcp.Daemon.Poll.{Sources, Db}
use picket_mcp.Daemon.Loop.{LoopState, save, iteration, mark_stopped}

-- pid, process group and creation time of the daemon's process.
pub record Identity : Type 0 where
  pub pid : ℕ
  pub pgid : ℕ
  pub created : ℕ

-- What a round takes from outside. `meanwhile` is what others did to the tables since the last round.
pub record Round (N : Type 0) : Type 0 where
  pub world : Sources N
  pub clock : ℕ → ℕ
  pub local : LocalTime
  pub fire_id : Text
  pub meanwhile : Db N → CommandTable → Db N × CommandTable

-- if state.status in ("stopping", "errored")
abbrev pub restarted : WatchStatus → WatchStatus
restarted WatchStatus.stopping = WatchStatus.active
restarted WatchStatus.errored = WatchStatus.active
restarted status = status

module _ {N : Type 0} where
  unfoldable pub record_identity : Identity → WatchState N → WatchState N
  record_identity self state = record state {
    pid = some self.pid;
    pgid = some self.pgid;
    proc_create_time = some self.created;
  }

  -- What comes before the loop. `clock 10` and `clock 11` are the readings of the store.
  unfoldable pub start :
      Identity → (ℕ → ℕ) → Text → WatchState N → Db N → CommandTable → LoopState N
  unfolding record_identity recover_abandoned write_watch
  start self clock watch_id state db commands =
      let known = record_identity self state in
      let state' = record known { status = restarted known.status } in
      record {
        state = state';
        db =
            save (clock 11) state'
              (record db { fires = (recover_abandoned (clock 10) (some watch_id) db.fires).0 });
        commands = commands;
        stopped = false;
      }

  abbrev pub one_round : Numbers N → Round N → LoopState N → LoopState N
  one_round num round s =
      let (db, commands) = round.meanwhile s.db s.commands in
      iteration num round.world round.clock round.local round.fire_id s.state db commands

  -- The loop, for `n` more rounds at most, the next one being `rounds i`.
  unfoldable pub rounds_from : Numbers N → ℕ → ℕ → (ℕ → Round N) → LoopState N → LoopState N
  unfolding iteration
  rounds_from num zero i rounds s = s
  rounds_from num (suc n) i rounds s =
      let next = one_round num (rounds i) s in
      let rest = rounds_from num n (i + 1) rounds next in if next.stopped then next else rest

  -- `_shutdown`: `drained` is what the worker and others do until the worker has ended.
  unfoldable pub shutdown : (Bool → Db N → Db N) → ℕ → Text → LoopState N → Db N
  unfolding mark_stopped
  shutdown drained now watch_id loop =
      mark_stopped now watch_id loop.stopped (drained loop.stopped loop.db)

  abbrev run_found :
      Numbers N
      → Identity
      → (ℕ → ℕ)
      → ℕ
      → (ℕ → Round N)
      → (Bool → Db N → Db N)
      → Text
      → Db N
      → CommandTable
      → Option (WatchState N)
      → Db N
  run_found num self clock iterations rounds drained watch_id db commands none = db
  run_found num self clock iterations rounds drained watch_id db commands (some state) =
      shutdown drained (clock 12) watch_id
        (rounds_from num iterations 0 rounds (start self clock watch_id state db commands))

  -- The tables after `run` with this number of iterations.
  unfoldable pub run :
      Numbers N
      → Identity
      → (ℕ → ℕ)
      → ℕ
      → (ℕ → Round N)
      → (Bool → Db N → Db N)
      → Text
      → Db N
      → CommandTable
      → Db N
  unfolding start rounds_from shutdown read_watch
  run num self clock iterations rounds drained watch_id db commands =
      run_found num self clock iterations rounds drained watch_id db commands
        (read_watch watch_id db.watches)
