-- ===== src/Watches/Overtaking.antt =====
-- src/picket/runtime/watches.py and daemon.py: a stop that the daemon never sees.
use mathlib.Core.Path.{subst}
use picket_mcp.Store.Channel.{IsChannel, poll-enqueue}
use picket_mcp.Prelude.{ℕ, Text, ◌≡◌, [], refl, ap, ◌∙◌, true, false, some}
use picket_mcp.Core.Json.{Numbers}
use picket_mcp.Core.Errors.{success}
use picket_mcp.Core.Models.{WatchState, WatchStatus, DesiredStatus}
use picket_mcp.Store.Commands.{pause, stop, enqueue_command, poll_command}
use picket_mcp.Store.Watches.{read_watch}
use picket_mcp.Daemon.Window.{LocalTime}
use picket_mcp.Daemon.Poll.{Sources, poll_once}
use picket_mcp.Daemon.Loop.{iteration}
use picket_mcp.Daemon.Obedience.{Obeyed}
use picket_mcp.Daemon.Overwrite.{poll_once-overwrites}
use picket_mcp.Watches.Liveness.{ProcessTable, is_alive}
use picket_mcp.Watches.Control.{
  Tables, is_stopped, is_immediate, halt, stop_live, stop_found, stop_watch, control_found,
  send_control, pause_watch,
}
use picket_mcp.Watches.Pausing.{pause_watch-Obeyed}
use picket_mcp.Server.Changes.{IsSound, Changes-IsSound, stop_watch-Changes}

module _ {N : Type 0} where
  pause_watch-accepted :
      (now : ℕ) (w : Text) (tables : Tables N) (state : WatchState N)
      → read_watch w tables.db.watches ≡ some state
      → is_stopped state.status ≡ false
      → (pause_watch now w tables).reply ≡ some (success pause)
  unfolding send_control control_found
  pause_watch-accepted now w tables state found awake = rw found (rw awake refl)

  pause_watch-Obeyed_at :
      (num : Numbers N) (world : Sources N) (clock : ℕ → ℕ) (local : LocalTime) (fire_id : Text)
      (state : WatchState N) (now : ℕ) (tables : Tables N) {w : Text}
      → state.watch_id ≡ w
      → IsChannel tables.commands
      → (pause_watch now w tables).reply ≡ some (success pause)
      → let after = (pause_watch now w tables).tables in
        Obeyed state after.db WatchStatus.paused DesiredStatus.paused
          (iteration num world clock local fire_id state after.db after.commands)
  pause_watch-Obeyed_at num world clock local fire_id state now tables same channel =
      subst
        (λ w.
          (pause_watch now w tables).reply ≡ some (success pause)
          → Obeyed state (pause_watch now w tables).tables.db WatchStatus.paused
              DesiredStatus.paused
              (iteration num world clock local fire_id state (pause_watch now w tables).tables.db
                (pause_watch now w tables).tables.commands))
        same (pause_watch-Obeyed num world clock local fire_id state now pause tables channel)

  -- A stop that is not immediate, of a watch whose daemon runs, is the command that waits last.
  stop_watch-sent :
      (processes : ProcessTable) (clock : ℕ → ℕ) (w mode : Text) (tables : Tables N)
      (row : WatchState N)
      → IsChannel tables.commands
      → read_watch w tables.db.watches ≡ some row
      → is_stopped row.status ≡ false
      → is_alive processes row ≡ true
      → is_immediate mode ≡ false
      → let after = (stop_watch processes clock w mode tables).tables in
        (id : ℕ) × (poll_command w after.commands ≡ some (id, stop))
  unfolding stop_watch stop_found stop_live halt
  stop_watch-sent processes clock w mode tables row channel found awake alive graceful = (
    (enqueue_command (clock 0) w stop tables.commands).0.last_id,
    rw found (
        rw awake
          (rw alive (rw graceful (poll-enqueue (clock 0) w stop tables.commands channel).1))),
  )

  -- After a stop_watch that is not immediate, of a watch that is not stopped and whose daemon runs, a
  -- stop command is what the daemon would find next. But if that daemon, whose own state is not
  -- stopped, ends the poll it was in without an exception, then a pause succeeds, and the daemon's
  -- next round acknowledges all commands, the stop among them, and leaves the watch paused, in its
  -- row as in the daemon.
  pub stop_watch-overtaken :
      (num : Numbers N) (processes : ProcessTable) (clock : ℕ → ℕ) (mode : Text) (tables : Tables N)
      (state row : WatchState N) (world : Sources N) (polls : ℕ → ℕ) (fire_id : Text) (now : ℕ)
      (world' : Sources N) (rounds : ℕ → ℕ) (local : LocalTime) (fire_id' : Text)
      → IsSound tables
      → read_watch state.watch_id tables.db.watches ≡ some row
      → is_stopped row.status ≡ false
      → is_alive processes row ≡ true
      → is_immediate mode ≡ false
      → is_stopped state.status ≡ false
      → let stopping = (stop_watch processes clock state.watch_id mode tables).tables in
        let polled = poll_once num world polls fire_id state stopping.db in
        let before : Tables N = record stopping { db = polled.db } in
        let pausing = pause_watch now state.watch_id before in
        polled.raised ≡ false
        → ((id : ℕ) × (poll_command state.watch_id before.commands ≡ some (id, stop)))
          × (pausing.reply ≡ some (success pause))
          × Obeyed polled.state pausing.tables.db WatchStatus.paused DesiredStatus.paused (
              iteration num world' rounds local fire_id' polled.state pausing.tables.db
                pausing.tables.commands)
  stop_watch-overtaken num processes clock mode tables state row world polls fire_id now world'
        rounds local fire_id' sound listed alert alive graceful awake quiet =
      let stopping = (stop_watch processes clock state.watch_id mode tables).tables in
      let polled = poll_once num world polls fire_id state stopping.db in
      let before : Tables N = record stopping { db = polled.db } in
      let (written, same) = poll_once-overwrites num world polls fire_id state stopping.db quiet in
      let after =
        Changes-IsSound
          (stop_watch-Changes [] processes clock state.watch_id mode tables sound.keyed) sound in
      let accepted =
        pause_watch-accepted now state.watch_id before polled.state written
          (ap (λ s. is_stopped s) same.status ∙ awake) in
      (
        stop_watch-sent processes clock state.watch_id mode tables row sound.channel listed alert
            alive graceful,
        accepted,
        pause_watch-Obeyed_at num world' rounds local fire_id' polled.state now before same.watch_id
            after.channel accepted,
      )
