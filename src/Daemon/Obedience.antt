-- ===== src/Daemon/Obedience.antt =====
-- src/picket/runtime/daemon.py: what one round of the loop of `run` does with a command.
use picket_mcp.Prelude.{ℕ, Text, ◌≡◌, refl, inl, inr, true, none, some, Bool-cases}
use picket_mcp.Core.Json.{Numbers}
use picket_mcp.Core.Models.{WatchState, WatchStatus, DesiredStatus}
use picket_mcp.Store.Commands.{pause, stop, CommandTable, poll_command}
use picket_mcp.Store.Channel.{IsChannel, poll-ack}
use picket_mcp.Store.Watches.{read_watch, read_watch-write_watch_self}
use picket_mcp.Daemon.Window.{LocalTime, ttl_expired}
use picket_mcp.Daemon.Poll.{Sources, Db}
use picket_mcp.Daemon.Loop.{LoopState, save, take_command, attend, iteration}

module _ {N : Type 0} where
  -- The ledger is as it was, the row of the watch is the daemon's state, which has these statuses, and
  -- no command of the watch is left.
  -- The fields that a poll would write are those of the state that was told.
  pub record Obeyed (state : WatchState N) (db : Db N) (st : WatchStatus) (want : DesiredStatus)
      (r : LoopState N) : Type 0 where
    pub ledger : r.db.fires ≡ db.fires
    pub row : read_watch state.watch_id r.db.watches ≡ some r.state
    pub status : r.state.status ≡ st
    pub desired : r.state.desired_status ≡ want
    pub commands : poll_command state.watch_id r.commands ≡ none
    pub observed : r.state.last_observed_at ≡ state.last_observed_at
    pub value : r.state.last_value ≡ state.last_value
    pub error : r.state.last_error ≡ state.last_error
    pub baseline : r.state.baseline ≡ state.baseline
    pub satisfied : r.state.satisfied ≡ state.satisfied
    pub fired : r.state.fired_this_episode ≡ state.fired_this_episode
    pub episode : r.state.episode_seq ≡ state.episode_seq

  module _ (num : Numbers N) (world : Sources N) (clock : ℕ → ℕ) (local : LocalTime)
      (fire_id : Text) (state : WatchState N) (db : Db N) (table : CommandTable) (id : ℕ) where
    -- A round that finds a pause command acknowledges it and all before it, observes nothing and
    -- leaves the ledger as it was, and leaves the watch paused, in its row as in the daemon.
    pub iteration-pause :
        IsChannel table
        → poll_command state.watch_id table ≡ some (id, pause)
        → Obeyed state db WatchStatus.paused DesiredStatus.paused
            (iteration num world clock local fire_id state db table)
    unfolding iteration take_command attend
    iteration-pause channel found =
        let settled = poll-ack (clock 6) state.watch_id table id pause channel found in
        let told = record state {
          status = WatchStatus.paused;
          desired_status = DesiredStatus.paused;
        } in
        rw found (elim (Bool-cases (ttl_expired told (clock 7))) [
          | inl old ↦ rw old (record {
            ledger = refl;
            row = read_watch-write_watch_self (clock 5) told db.watches;
            status = refl;
            desired = refl;
            commands = settled.0;
            observed = refl;
            value = refl;
            error = refl;
            baseline = refl;
            satisfied = refl;
            fired = refl;
            episode = refl;
          })
          | inr young ↦ rw young (record {
            ledger = refl;
            row =
                read_watch-write_watch_self (clock 9)
                  (record told { heartbeat_at = some (clock 8) }) (save (clock 5) told db).watches;
            status = refl;
            desired = refl;
            commands = settled.0;
            observed = refl;
            value = refl;
            error = refl;
            baseline = refl;
            satisfied = refl;
            fired = refl;
            episode = refl;
          })
        ])

    -- A round that finds a stop command acknowledges it and all before it, leaves the loop without an
    -- observation and the ledger as it was, and leaves the watch stopping, its desired status kept.
    pub iteration-stop :
        IsChannel table
        → poll_command state.watch_id table ≡ some (id, stop)
        → Obeyed state db WatchStatus.stopping state.desired_status
            (iteration num world clock local fire_id state db table)
          × ((iteration num world clock local fire_id state db table).stopped ≡ true)
    unfolding iteration take_command
    iteration-stop channel found =
        let settled = poll-ack (clock 6) state.watch_id table id stop channel found in
        let told = record state { status = WatchStatus.stopping } in
        rw found (
          record {
            ledger = refl;
            row = read_watch-write_watch_self (clock 5) told db.watches;
            status = refl;
            desired = refl;
            commands = settled.0;
            observed = refl;
            value = refl;
            error = refl;
            baseline = refl;
            satisfied = refl;
            fired = refl;
            episode = refl;
          },
          refl,
        )
