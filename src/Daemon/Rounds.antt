-- ===== src/Daemon/Rounds.antt =====
-- src/picket/runtime/daemon.py: what a round of the loop does to the fires in flight.
use picket_mcp.Prelude.{
  ℕ, ◌≤◌, Text, text_eq, text_eq_iff, ◌≡◌, refl, sym, ap, ◌∙◌, false, not, ◌||◌, Option, none, some,
  List, inl, inr, arith, count_where, Bool-cases,
}
use mathlib.Core.Path.{subst}
use picket_mcp.Core.Json.{Json, null, Numbers}
use picket_mcp.Core.Models.{WatchState}
use picket_mcp.Condition.Extract.{Observed, ok, observe_error, crash}
use picket_mcp.Store.Fire.{Fire, pending, skipped_overlap}
use picket_mcp.Store.Ledger.{active_of}
use picket_mcp.Store.Integrity.{IsUnique}
use picket_mcp.Store.Commands.{Command, CommandTable, poll_command}
use picket_mcp.Daemon.Window.{LocalTime, ttl_expired, in_active_window}
use picket_mcp.Daemon.Poll.{
  Sources, Db, Observation, idem_of, observe, edge, enqueue, fire_branch, decide, poll_with,
  poll_once,
}
use picket_mcp.Daemon.System.{begun}
use picket_mcp.Daemon.Enqueue.{count_where-create_fire, watch_id-edge}
use picket_mcp.Daemon.Episodes.{poll_with-active, poll_with-IsUnique}
use picket_mcp.Daemon.Upkeep.{if-elim}
use picket_mcp.Daemon.Loop.{LoopState, is_paused, take_command, after_poll, attend, iteration}

module _ {N : Type 0} where
  enqueue-other :
      (v : Text) (clock : ℕ → ℕ) (fire_id : Text) (now : ℕ) (seen : Observation N)
      (state : WatchState N) (fires : List (Fire (Json N)))
      → text_eq state.watch_id v ≡ false
      → count_where (active_of v) (enqueue clock fire_id now seen state fires).1
        ≤ count_where (active_of v) fires
  unfolding enqueue
  enqueue-other v clock fire_id now seen state fires other = ground (
    arith,
    count_where-create_fire (active_of v) clock fire_id state.watch_id skipped_overlap
        (some state.runbook_id) none null none fires,
    count_where-create_fire (active_of v) clock fire_id state.watch_id pending
        (some state.runbook_id) (some (idem_of state)) seen.value seen.payload fires,
  )

  poll_with-other :
      (v : Text) (clock : ℕ → ℕ) (fire_id : Text) (now : ℕ) (seen : Observed (Observation N))
      (state : WatchState N) (db : Db N)
      → text_eq state.watch_id v ≡ false
      → count_where (active_of v) (poll_with clock fire_id now seen state db).db.fires
        ≤ count_where (active_of v) db.fires
  unfolding poll_with decide fire_branch
  poll_with-other v clock fire_id now (ok o) state db other =
      let begun = record state { last_value = o.value; last_error = none } in
      let on = edge now o.satisfied begun in
      let apart : text_eq on.watch_id v ≡ false =
        ap (λ w. text_eq w v) (watch_id-edge now o.satisfied begun) ∙ other in
      ground (arith, enqueue-other v clock fire_id now o on db.fires apart)
  poll_with-other v clock fire_id now (observe_error e) state db other = omega arith
  poll_with-other v clock fire_id now crash state db other = omega arith

  -- No two fires share an id or an idempotency key, and no watch has two fires in flight.
  pub record IsOrdered (fires : List (Fire (Json N))) : Type 0 where
    pub unique : IsUnique fires
    pub in_flight : (v : Text) → count_where (active_of v) fires ≤ 1

  poll_with-IsOrdered :
      (clock : ℕ → ℕ) (fire_id : Text) (now : ℕ) (seen : Observed (Observation N))
      (state : WatchState N) (db : Db N)
      → IsOrdered db.fires
      → IsOrdered (poll_with clock fire_id now seen state db).db.fires
  poll_with-IsOrdered clock fire_id now seen state db ordered = record {
    unique = poll_with-IsUnique clock fire_id now state db seen ordered.unique;
    in_flight = λ v. elim (Bool-cases (text_eq state.watch_id v)) [
      | inl e ↦
          subst
            (λ w.
              count_where (active_of w) (poll_with clock fire_id now seen state db).db.fires ≤ 1)
            ((text_eq_iff state.watch_id v).0 e)
            (poll_with-active clock fire_id now state db seen (ordered.in_flight state.watch_id))
      | inr e ↦
          omega (arith, poll_with-other v clock fire_id now seen state db e, ordered.in_flight v)
    ];
  }

  abbrev LedgerOrdered : LoopState N → Type 0
  LedgerOrdered s = IsOrdered s.db.fires

  take_command-fires :
      (clock : ℕ → ℕ) (command : Option (ℕ × Command)) (state : WatchState N) (db : Db N)
      (commands : CommandTable)
      → (take_command clock command state db commands).db.fires ≡ db.fires
  unfolding take_command
  take_command-fires clock none state db commands = refl
  take_command-fires clock (some (i, command)) state db commands = refl

  module _ (num : Numbers N) (world : Sources N) (clock : ℕ → ℕ) (local : LocalTime)
      (fire_id : Text) where
    attend-IsOrdered :
        (s : LoopState N)
        → IsOrdered s.db.fires
        → IsOrdered (attend num world clock local fire_id s).db.fires
    unfolding attend poll_once after_poll
    attend-IsOrdered s ordered =
        let polled =
          poll_with-IsOrdered clock fire_id (clock 4)
            (observe num world (begun clock s.state) s.state.probe_id) (begun clock s.state) s.db
            ordered in
        if-elim LedgerOrdered (ttl_expired s.state (clock 7)) ordered (
          if-elim LedgerOrdered
            (is_paused s.state.status || not (in_active_window s.state.cadence local)) ordered
            polled)

    pub iteration-IsOrdered :
        (state : WatchState N) (db : Db N) (commands : CommandTable)
        → IsOrdered db.fires
        → IsOrdered (iteration num world clock local fire_id state db commands).db.fires
    unfolding iteration
    iteration-IsOrdered state db commands ordered =
        let command = poll_command state.watch_id commands in
        let told = take_command clock command state db commands in
        let taken : IsOrdered told.db.fires =
          subst (λ fires. IsOrdered fires)
            (sym (take_command-fires clock command state db commands)) ordered in
        if-elim LedgerOrdered told.stopped taken (attend-IsOrdered told taken)
