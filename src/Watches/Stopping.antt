-- ===== src/Watches/Stopping.antt =====
-- src/picket/runtime/watches.py: what `stop_watch` does.
use picket_mcp.Prelude.{
  ℕ, Text, codes, text_eq, text_eq_refl, ◌≡◌, refl, ap, ◌∙◌, Bool, true, false, some, List, arith,
  Bool-cases, Option-cases, inl, inr, if◌then◌else◌, ◌++◌, [],
}
use picket_mcp.Core.Errors.{failure, success, already_stopped}
use picket_mcp.Core.Models.{WatchState, WatchStatus, DesiredStatus}
use picket_mcp.Store.Ledger.{has_active_fire}
use picket_mcp.Store.Watches.{read_watch, write_watch, read_watch-write_watch}
use picket_mcp.Store.Keyed.{IsKeyed, read_watch-id}
use picket_mcp.Daemon.Poll.{Db}
use picket_mcp.Watches.Liveness.{ProcessTable, is_alive}
use picket_mcp.Watches.Control.{
  Tables, Stopped, is_stopped, stopped_of, halt, quoted, replies, ended, Signal, stop_live,
  stop_found, stop_watch,
}

module _ {N : Type 0} (processes : ProcessTable) (clock : ℕ → ℕ) (w mode : Text)
    (tables : Tables N) where
  -- The row of the watch is now stopped, every other watch and the ledger are as they were, and a later
  -- stop, in whatever mode and whatever runs then, finds it stopped, changes nothing and sends no signal.
  pub record IsSettled (after : Tables N) : Type 0 where
    pub before : WatchState N
    pub read : read_watch w tables.db.watches ≡ some before
    pub stopped :
        read_watch w after.db.watches
        ≡ some
            (record before { status = WatchStatus.stopped; desired_status = DesiredStatus.stopped })
    pub others :
        (v : Text)
        → text_eq w v ≡ false
        → read_watch v after.db.watches ≡ read_watch v tables.db.watches
    pub ledger : after.db.fires ≡ tables.db.fires
    pub again :
        (processes' : ProcessTable) (clock' : ℕ → ℕ) (mode' : Text)
        → stop_watch processes' clock' w mode' after
          ≡ replies (failure already_stopped (quoted w ++ codes " already stopped")) after

  halt-keeps : (state : WatchState N) → (halt clock w mode state tables).0.db ≡ tables.db
  unfolding halt
  halt-keeps state = ground arith

  module _ (state : WatchState N) (keyed : IsKeyed tables.db.watches)
      (read : read_watch w tables.db.watches ≡ some state) where
    read-written :
        (now : ℕ) (v : Text)
        → read_watch v (write_watch now (stopped_of state) tables.db.watches)
          ≡ (if text_eq w v then some (stopped_of state) else read_watch v tables.db.watches)
    read-written now v =
        read_watch-write_watch now (stopped_of state) v tables.db.watches
        ∙ ap (λ x. if text_eq x v then some (stopped_of state) else read_watch v tables.db.watches)
            (read_watch-id w tables.db.watches state keyed read)

    written-IsSettled :
        (now : ℕ) (after : Tables N)
        → after.db
          ≡ record tables.db { watches = write_watch now (stopped_of state) tables.db.watches }
        → IsSettled after
    unfolding stop_watch stop_found
    written-IsSettled now after e =
        let here : read_watch w after.db.watches ≡ some (stopped_of state) =
          ap (λ (d : Db N). read_watch w d.watches) e
          ∙ read-written now w
          ∙ rw (text_eq_refl w) refl in
        record {
          before = state;
          read = read;
          stopped = here;
          others =
              λ v ne. ap (λ (d : Db N). read_watch v d.watches) e ∙ read-written now v ∙ rw ne refl;
          ledger = ap (λ (d : Db N). d.fires) e;
          again = λ processes' clock' mode'. rw here refl;
        }

    ended-IsSettled :
        (now : ℕ) (in_flight : Bool) (halted : Tables N × (List Signal × Bool)) (s : Stopped)
        → halted.0.db ≡ tables.db
        → (ended now state in_flight halted).reply ≡ some (success s)
        → IsSettled (ended now state in_flight halted).tables
    ended-IsSettled now in_flight (t, (signals, true)) s e h = absurd (ground (arith, h))
    ended-IsSettled now in_flight (t, (signals, false)) s e h =
        written-IsSettled now _
          (ap (λ (d : Db N). record d { watches = write_watch now (stopped_of state) d.watches }) e)

    stop_live-IsSettled :
        (s : Stopped)
        → (stop_live processes clock w mode tables state).reply ≡ some (success s)
        → IsSettled (stop_live processes clock w mode tables state).tables
    unfolding stop_live
    stop_live-IsSettled s h =
        ended-IsSettled (clock 1) (has_active_fire w tables.db.fires)
          (if is_alive processes state
            then halt clock w mode state tables
            else (tables, ([], false)))
          s (ground (arith, halt-keeps state)) h

  -- A stop that succeeds leaves the watch stopped, in its row and as what is desired, and every other
  -- watch and the ledger as they were; a second stop then replies ALREADY_STOPPED, changes nothing and
  -- sends no signal, whatever its mode is and whatever runs.
  pub stop_watch-IsSettled :
      (s : Stopped)
      → IsKeyed tables.db.watches
      → (stop_watch processes clock w mode tables).reply ≡ some (success s)
      → IsSettled (stop_watch processes clock w mode tables).tables
  unfolding stop_watch stop_found
  stop_watch-IsSettled s keyed h = elim (Option-cases (read_watch w tables.db.watches)) [
    | inl absent ↦ absurd (ground (arith, rw absent at h))
    | inr (state, e) ↦ elim (Bool-cases (is_stopped state.status)) [
      | inl over ↦ absurd (ground (arith, rw (e, over) at h))
      | inr live ↦ rw (e, live) (stop_live-IsSettled state keyed e s (rw (e, live) at h))
    ]
  ]
