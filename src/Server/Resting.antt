-- ===== src/Server/Resting.antt =====
-- src/picket/server.py: what the tools can do to a watch that is stopped.
use picket_mcp.Prelude.{
  ℕ, Text, text_eq, text_eq_iff, ◌≡◌, refl, sym, ap, ◌∙◌, true, false, not, ◌&&◌, Option, some, inl,
  inr, arith, Bool-cases,
}
use mathlib.Core.Option.{some-injective}
use picket_mcp.Core.Models.{WatchState, WatchStatus}
use picket_mcp.Store.Commands.{Command, poll_command}
use picket_mcp.Store.Delivery.{poll-enqueue_other}
use picket_mcp.Store.Watches.{read_watch, write_watch, read_watch-write_watch}
use picket_mcp.Watches.Liveness.{ProcessTable, is_alive}
use picket_mcp.Watches.Reconcile.{may_restart, is_dead, reconcile}
use picket_mcp.Watches.Control.{Tables, is_stopped}
use picket_mcp.Watches.Sweeps.{has, reconcile-restarted}
use picket_mcp.Server.Changes.{sent, written, armed, swept, done, next, IsAwake, Change, Changes}

module _ {N : Type 0} (w : Text) (row : WatchState N) (stopped : is_stopped row.status ≡ true) where
  -- The row is this one and the command that waits for the daemon, if any, is `waiting`.
  pub record IsAtRest (waiting : Option (ℕ × Command)) (t : Tables N) : Type 0 where
    pub read : read_watch w t.db.watches ≡ some row
    pub quiet : poll_command w t.commands ≡ waiting

  not_awake :
      (v : Text) (t : Tables N)
      → read_watch w t.db.watches ≡ some row
      → IsAwake v t
      → text_eq v w ≡ false
  not_awake v t read awake = elim (Bool-cases (text_eq v w)) [
    | inr e ↦ e
    | inl e ↦
        let same = (text_eq_iff v w).0 e in
        let found : read_watch w t.db.watches ≡ some awake.state = rw same at awake.read in
        let equal = some-injective row awake.state (sym read ∙ found) in
        absurd (ground (arith, stopped, awake.awake, ap (λ s. is_stopped s.status) equal))
  ]

  write_other :
      (now : ℕ) (state : WatchState N) (t : Tables N)
      → read_watch w t.db.watches ≡ some row
      → text_eq state.watch_id w ≡ false
      → read_watch w (write_watch now state t.db.watches) ≡ some row
  write_other now state t read other =
      read_watch-write_watch now state w t.db.watches ∙ rw other read

  Change-IsAtRest :
      {new : Text} {t u : Tables N} (waiting : Option (ℕ × Command))
      → text_eq new w ≡ false
      → Change new t u
      → IsAtRest waiting t
      → IsAtRest waiting u
  Change-IsAtRest {t = t} waiting fresh (sent now v c awake) rest = record {
    read = rest.read;
    quiet = poll-enqueue_other now v w c t.commands (not_awake v t rest.read awake) ∙ rest.quiet;
  }
  Change-IsAtRest {t = t} waiting fresh (written now v state awake same) rest = record {
    read = write_other now state t rest.read (rw same (not_awake v t rest.read awake));
    quiet = rest.quiet;
  }
  Change-IsAtRest {t = t} waiting fresh (armed now state same) rest = record {
    read = write_other now state t rest.read (rw same fresh);
    quiet = rest.quiet;
  }
  Change-IsAtRest waiting fresh (swept fires distinct fewer) rest = record {
    read = rest.read;
    quiet = rest.quiet;
  }

  pub Changes-IsAtRest :
      {new : Text} {t u : Tables N} (waiting : Option (ℕ × Command))
      → text_eq new w ≡ false
      → Changes new t u
      → IsAtRest waiting t
      → IsAtRest waiting u
  Changes-IsAtRest waiting fresh done rest = rest
  Changes-IsAtRest waiting fresh (next step steps) rest =
      Changes-IsAtRest waiting fresh steps (Change-IsAtRest waiting fresh step rest)

  is_dead-stopped :
      (processes : ProcessTable) (found : Option (WatchState N))
      → found ≡ some row
      → is_dead processes found ≡ false
  is_dead-stopped processes found e = rw e (not_restarted row.status stopped)
    where
      not_restarted :
          (status : WatchStatus)
          → is_stopped status ≡ true
          → may_restart status && not (is_alive processes row) ≡ false
      not_restarted WatchStatus.stopped h = refl
      not_restarted WatchStatus.active h = absurd (ground (arith, h))
      not_restarted WatchStatus.paused h = absurd (ground (arith, h))
      not_restarted WatchStatus.stopping h = absurd (ground (arith, h))
      not_restarted WatchStatus.errored h = absurd (ground (arith, h))

  pub restarted-rest :
      (processes : ProcessTable) (now retention : ℕ) (waiting : Option (ℕ × Command)) (t : Tables N)
      → IsAtRest waiting t
      → has w (reconcile processes now retention t.db).restarted ≡ false
  restarted-rest processes now retention waiting t rest =
      reconcile-restarted processes now retention t.db w
      ∙ rw (is_dead-stopped processes (read_watch w t.db.watches) rest.read) (ground arith)
