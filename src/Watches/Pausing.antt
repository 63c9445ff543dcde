-- ===== src/Watches/Pausing.antt =====
-- src/picket/runtime/watches.py and daemon.py: a pause that the server accepts reaches the daemon.
use mathlib.Core.Path.{subst}
use picket_mcp.Prelude.{ℕ, Text, ◌≡◌, refl, sym, some, arith, Option-cases, Bool-cases, inl, inr}
use picket_mcp.Core.Json.{Numbers}
use picket_mcp.Core.Errors.{success}
use picket_mcp.Core.Models.{WatchState, WatchStatus, DesiredStatus}
use picket_mcp.Store.Commands.{Command, pause}
use picket_mcp.Store.Channel.{IsChannel, poll-enqueue}
use picket_mcp.Store.Watches.{read_watch}
use picket_mcp.Daemon.Window.{LocalTime}
use picket_mcp.Daemon.Poll.{Sources}
use picket_mcp.Daemon.Loop.{iteration}
use picket_mcp.Daemon.Obedience.{Obeyed, iteration-pause}
use picket_mcp.Watches.Control.{Tables, is_stopped, send, control_found, send_control, pause_watch}

module _ {N : Type 0} where
  -- What succeeds has enqueued the command.
  send_control-sent :
      (now : ℕ) (w : Text) (command c : Command) (tables : Tables N)
      → (send_control now w command tables).reply ≡ some (success c)
      → (send_control now w command tables).tables ≡ send now w command tables
  unfolding send_control control_found
  send_control-sent now w command c tables h =
      elim (Option-cases (read_watch w tables.db.watches)) [
        | inl absent ↦ absurd (ground (arith, rw absent at h))
        | inr (state, e) ↦ elim (Bool-cases (is_stopped state.status)) [
          | inl over ↦ absurd (ground (arith, rw (e, over) at h))
          | inr live ↦ rw (e, live) refl
        ]
      ]

  pub pause_watch-Obeyed :
      (num : Numbers N) (world : Sources N) (clock : ℕ → ℕ) (local : LocalTime) (fire_id : Text)
      (state : WatchState N) (now : ℕ) (c : Command) (tables : Tables N)
      → IsChannel tables.commands
      → (pause_watch now state.watch_id tables).reply ≡ some (success c)
      → let after = (pause_watch now state.watch_id tables).tables in
        Obeyed state after.db WatchStatus.paused DesiredStatus.paused
          (iteration num world clock local fire_id state after.db after.commands)
  pause_watch-Obeyed num world clock local fire_id state now c tables channel h =
      let w = state.watch_id in
      let sent = send now w pause tables in
      let (older, polled, channel') = poll-enqueue now w pause tables.commands channel in
      subst
        (λ (t : Tables N).
          Obeyed state t.db WatchStatus.paused DesiredStatus.paused
            (iteration num world clock local fire_id state t.db t.commands))
        (sym (send_control-sent now w pause c tables h))
        (iteration-pause num world clock local fire_id state sent.db sent.commands
          sent.commands.last_id channel' polled)
