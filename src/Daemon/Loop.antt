-- ===== src/Daemon/Loop.antt =====
-- src/picket/runtime/daemon.py: the body of the loop of `run`, from the command to the poll, and the
-- end of `_shutdown`. The log line of a caught exception is not modelled.
use picket_mcp.Prelude.{
  ℕ, Text, Bool, true, false, not, ◌&&◌, ◌||◌, Option, none, some, leb, if◌then◌else◌,
}
use picket_mcp.Core.Json.{Numbers}
use picket_mcp.Core.Models.{WatchState, WatchStatus, DesiredStatus}
use picket_mcp.Store.Ledger.{count_fires}
use picket_mcp.Store.Commands.{
  Command, pause, resume, stop, CommandTable, poll_command, ack_command,
}
use picket_mcp.Store.Watches.{read_watch, write_watch}
use picket_mcp.Daemon.Window.{LocalTime, in_active_window, ttl_expired}
use picket_mcp.Daemon.Poll.{Sources, Db, Polled, poll_once}

abbrev pub is_paused : WatchStatus → Bool
is_paused WatchStatus.paused = true
is_paused _ = false

-- max_fires is not None and count >= max_fires
abbrev pub max_reached : Option ℕ → ℕ → Bool
max_reached none count = false
max_reached (some m) count = leb m count

abbrev pub ends_loop : Command → Bool
ends_loop stop = true
ends_loop _ = false

-- The daemon's state object, the tables, and whether the loop was left for good.
pub record LoopState (N : Type 0) : Type 0 where
  pub state : WatchState N
  pub db : Db N
  pub commands : CommandTable
  pub stopped : Bool

module _ {N : Type 0} where
  -- What a command makes of the state.
  abbrev pub obey : Command → WatchState N → WatchState N
  obey stop state = record state { status = WatchStatus.stopping }
  obey pause state = record state {
    status = WatchStatus.paused;
    desired_status = DesiredStatus.paused;
  }
  obey resume state = record state {
    status = WatchStatus.active;
    desired_status = DesiredStatus.active;
  }

  abbrev pub save : ℕ → WatchState N → Db N → Db N
  save now state db = record db { watches = write_watch now state db.watches }

  unfoldable pub take_command :
      (ℕ → ℕ) → Option (ℕ × Command) → WatchState N → Db N → CommandTable → LoopState N
  take_command clock none state db commands = record {
    state = state;
    db = db;
    commands = commands;
    stopped = false;
  }
  take_command clock (some (id, command)) state db commands =
      let told = obey command state in
      record {
        state = told;
        db = save (clock 5) told db;
        commands = ack_command (clock 6) state.watch_id id commands;
        stopped = ends_loop command;
      }

  -- After the poll: an exception is caught before the count is asked.
  unfoldable pub after_poll : Polled N → CommandTable → LoopState N
  unfolding count_fires
  after_poll polled commands = record {
    state = polled.state;
    db = polled.db;
    commands = commands;
    stopped =
        not polled.raised
        && max_reached polled.state.max_fires (count_fires polled.state.watch_id polled.db.fires);
  }

  abbrev pub wait : (ℕ → ℕ) → LoopState N → LoopState N
  wait clock loop =
      let beating = record loop.state { heartbeat_at = some (clock 8) } in
      record loop { state = beating; db = save (clock 9) beating loop.db }

  -- The rest of the body, after a command that does not end the loop.
  unfoldable pub attend :
      Numbers N → Sources N → (ℕ → ℕ) → LocalTime → Text → LoopState N → LoopState N
  unfolding ttl_expired in_active_window poll_once after_poll
  attend num world clock local fire_id loop =
      if ttl_expired loop.state (clock 7)
      then record loop { stopped = true }
      else if is_paused loop.state.status || not (in_active_window loop.state.cadence local)
      then wait clock loop
      else after_poll (poll_once num world clock fire_id loop.state loop.db) loop.commands

  unfoldable pub iteration :
      Numbers N
      → Sources N
      → (ℕ → ℕ)
      → LocalTime
      → Text
      → WatchState N
      → Db N
      → CommandTable
      → LoopState N
  unfolding poll_command take_command attend
  iteration num world clock local fire_id state db commands =
      let told = take_command clock (poll_command state.watch_id commands) state db commands in
      if told.stopped then told else attend num world clock local fire_id told

  abbrev stopped_state : WatchState N → WatchState N
  stopped_state state = record state {
    status = WatchStatus.stopped;
    desired_status = DesiredStatus.stopped;
  }

  abbrev mark : ℕ → Option (WatchState N) → Db N → Db N
  mark now none db = db
  mark now (some state) db = save now (stopped_state state) db

  -- `_shutdown` once the worker has ended.
  unfoldable pub mark_stopped : ℕ → Text → Bool → Db N → Db N
  unfolding read_watch write_watch
  mark_stopped now watch_id true db = mark now (read_watch watch_id db.watches) db
  mark_stopped now watch_id false db = db
