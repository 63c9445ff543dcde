-- ===== src/Daemon/Episodes.antt =====
-- src/picket/runtime/daemon.py: once per episode, and one fire in flight, over every interleaving of
-- polls with workers and the supervisor.
use mathlib.Core.Path.{subst}
use picket_mcp.Prelude.{
  ℕ, ◌+◌, ◌≤◌, Text, ◌≡◌, refl, ◌∙◌, Bool, true, false, not, ◌&&◌, none, List, [], ◌∷◌, arith,
  one_if, count_where, All,
}
use picket_mcp.Core.Json.{Numbers}
use picket_mcp.Core.Models.{WatchState}
use picket_mcp.Condition.Extract.{Observed, ok, observe_error, crash}
use picket_mcp.Store.Ledger.{active_of}
use picket_mcp.Store.Integrity.{IsUnique, apply-IsUnique}
use picket_mcp.Daemon.Poll.{Db, Observation, observe, poll_with, poll_once, edge, settle}
use picket_mcp.Daemon.System.{
  System, Turn, poll, work, IsTurn, queued_of, turn, run_turns, begun, rises, rises_with, rises_in,
  held_with, held_after,
}
use picket_mcp.Daemon.Work.{work-queued, work-active}
use picket_mcp.Daemon.Enqueue.{
  decide-queued, decide-active, decide-spent, decide-IsUnique, watch_id-decide, watch_id-edge,
  decide-holds, predicate-edge, edge-open,
}

rises_kept :
    (held satisfied holds : Bool)
    → (held ≡ true → satisfied ≡ true)
    → one_if (holds && not satisfied) ≤ one_if (holds && not held)
rises_kept true false holds kept = absurd (ground (arith, kept refl))
rises_kept true true holds kept = omega arith
rises_kept false true holds kept = ground arith
rises_kept false false holds kept = omega arith

module _ {N : Type 0} where
  -- The condition holds, and its episode has not fired.
  abbrev pub armed : WatchState N → Bool
  armed state = state.satisfied && not state.fired_this_episode

  module _ (clock : ℕ → ℕ) (fire_id : Text) (now : ℕ) (state : WatchState N) (db : Db N) where
    watch_id-poll_with :
        (seen : Observed (Observation N))
        → (poll_with clock fire_id now seen state db).state.watch_id ≡ state.watch_id
    unfolding poll_with settle
    watch_id-poll_with (ok seen) =
        let begun = record state { last_value = seen.value; last_error = none } in
        watch_id-decide clock fire_id now seen (edge now seen.satisfied begun) db.fires
        ∙ watch_id-edge now seen.satisfied begun
    watch_id-poll_with (observe_error m) = refl
    watch_id-poll_with crash = refl

    -- What holds at the last good observation is what the flag says, but for a change.
    poll_with-held :
        (seen : Observed (Observation N)) (held : Bool)
        → (held ≡ true → state.satisfied ≡ true)
        → held_with state.predicate held seen ≡ true
        → (poll_with clock fire_id now seen state db).state.satisfied ≡ true
    unfolding poll_with settle
    poll_with-held (ok seen) held kept h =
        let begun = record state { last_value = seen.value; last_error = none } in
        decide-holds clock fire_id now seen (edge now seen.satisfied begun) db.fires (ground arith)
          (rw (predicate-edge now seen.satisfied begun) (ground arith))
    poll_with-held (observe_error m) held kept h = kept h
    poll_with-held crash held kept h = kept h

    poll_with-queued :
        (seen : Observed (Observation N)) (held : Bool)
        → (held ≡ true → state.satisfied ≡ true)
        → let after = poll_with clock fire_id now seen state db in
          count_where (queued_of state.watch_id) after.db.fires + one_if (armed after.state)
          ≤ count_where (queued_of state.watch_id) db.fires
            + one_if (armed state)
            + one_if (rises_with held seen)
    unfolding poll_with settle
    poll_with-queued (ok seen) held kept =
        let begun = record state { last_value = seen.value; last_error = none } in
        let on = edge now seen.satisfied begun in
        omega (
          arith,
          decide-queued clock fire_id now seen on db.fires (watch_id-edge now seen.satisfied begun),
          decide-spent clock fire_id now seen on db.fires,
          edge-open now seen.satisfied begun,
          rises_kept held state.satisfied seen.satisfied kept,
        )
    poll_with-queued (observe_error m) held kept = omega arith
    poll_with-queued crash held kept = omega arith

    pub poll_with-active :
        (seen : Observed (Observation N))
        → count_where (active_of state.watch_id) db.fires ≤ 1
        → count_where
            (active_of state.watch_id)
            (poll_with clock fire_id now seen state db).db.fires
          ≤ 1
    unfolding poll_with
    poll_with-active (ok seen) h =
        let begun = record state { last_value = seen.value; last_error = none } in
        decide-active clock fire_id now seen (edge now seen.satisfied begun) db.fires
          (watch_id-edge now seen.satisfied begun) h
    poll_with-active (observe_error m) h = h
    poll_with-active crash h = h

    pub poll_with-IsUnique :
        (seen : Observed (Observation N))
        → IsUnique db.fires
        → IsUnique (poll_with clock fire_id now seen state db).db.fires
    unfolding poll_with
    poll_with-IsUnique (ok seen) u =
        let begun = record state { last_value = seen.value; last_error = none } in
        decide-IsUnique clock fire_id now seen (edge now seen.satisfied begun) db.fires u
    poll_with-IsUnique (observe_error m) u = u
    poll_with-IsUnique crash u = u

module _ {N : Type 0} (num : Numbers N) where
  watch_id-turn : (t : Turn N) (s : System N) → (turn num t s).state.watch_id ≡ s.state.watch_id
  unfolding turn poll_once
  watch_id-turn (poll world clock fire_id) s =
      watch_id-poll_with clock fire_id (clock 4) (begun clock s.state) s.db
        (observe num world (begun clock s.state) s.state.probe_id)
  watch_id-turn (work t) s = refl

  turn-held :
      (t : Turn N) (s : System N) (held : Bool)
      → (held ≡ true → s.state.satisfied ≡ true)
      → held_after num t s held ≡ true
      → (turn num t s).state.satisfied ≡ true
  unfolding turn poll_once held_after
  turn-held (poll world clock fire_id) s held kept =
      poll_with-held clock fire_id (clock 4) (begun clock s.state) s.db
        (observe num world (begun clock s.state) s.state.probe_id) held kept
  turn-held (work t) s held kept = kept

  turn-queued :
      (t : Turn N) (s : System N) (held : Bool)
      → IsTurn t
      → (held ≡ true → s.state.satisfied ≡ true)
      → count_where (queued_of s.state.watch_id) (turn num t s).db.fires
          + one_if (armed (turn num t s).state)
        ≤ count_where (queued_of s.state.watch_id) s.db.fires
          + one_if (armed s.state)
          + one_if (rises num t s held)
  unfolding turn poll_once rises
  turn-queued (poll world clock fire_id) s held h kept =
      poll_with-queued clock fire_id (clock 4) (begun clock s.state) s.db
        (observe num world (begun clock s.state) s.state.probe_id) held kept
  turn-queued (work t) s held h kept = omega (arith, work-queued s.state.watch_id t s.db.fires h)

  turn-active :
      (t : Turn N) (s : System N)
      → IsTurn t
      → IsUnique s.db.fires
      → count_where (active_of s.state.watch_id) s.db.fires ≤ 1
      → count_where (active_of s.state.watch_id) (turn num t s).db.fires ≤ 1
  unfolding turn poll_once
  turn-active (poll world clock fire_id) s h u few =
      poll_with-active clock fire_id (clock 4) (begun clock s.state) s.db
        (observe num world (begun clock s.state) s.state.probe_id) few
  turn-active (work t) s h u few = omega (arith, work-active s.state.watch_id t s.db.fires h u)

  turn-IsUnique :
      (t : Turn N) (s : System N) → IsUnique s.db.fires → IsUnique (turn num t s).db.fires
  unfolding turn poll_once
  turn-IsUnique (poll world clock fire_id) s u =
      poll_with-IsUnique clock fire_id (clock 4) (begun clock s.state) s.db
        (observe num world (begun clock s.state) s.state.probe_id) u
  turn-IsUnique (work t) s u = apply-IsUnique t s.db.fires u

  -- From a ledger with at most one fire of the watch in flight, whatever the polls observe and
  -- however workers, recovery and retention interleave with them, at most one is in flight.
  pub one_in_flight :
      (ts : List (Turn N)) (s : System N) (w : Text)
      → s.state.watch_id ≡ w
      → All IsTurn ts
      → IsUnique s.db.fires
      → count_where (active_of w) s.db.fires ≤ 1
      → count_where (active_of w) (run_turns num ts s).db.fires ≤ 1
  unfolding run_turns
  one_in_flight [] s w e h u few = few
  one_in_flight (t ∷ ts) s w e h u few =
      one_in_flight ts (turn num t s) w (watch_id-turn t s ∙ e) h.1 (turn-IsUnique t s u) (
        subst
          (λ v.
            count_where (active_of v) s.db.fires ≤ 1
            → count_where (active_of v) (turn num t s).db.fires ≤ 1)
          e (turn-active t s h.0 u) few)

  -- Over every interleaving, the polls queue at most one fire each time that the observations show
  -- the condition as satisfied and the last good one before did not, or show another change where
  -- the predicate is on_change, and one for an episode that was under way and had not fired. Whether
  -- the condition held before the first turn is given, and the daemon knows it where it did.
  pub once_per_episode :
      (ts : List (Turn N)) (s : System N) (w : Text) (held : Bool)
      → s.state.watch_id ≡ w
      → (held ≡ true → s.state.satisfied ≡ true)
      → All IsTurn ts
      → count_where (queued_of w) (run_turns num ts s).db.fires
        ≤ count_where (queued_of w) s.db.fires + one_if (armed s.state) + rises_in num ts s held
  unfolding run_turns rises_in
  once_per_episode [] s w held e kept h = omega arith
  once_per_episode (t ∷ ts) s w held e kept h = omega (
    arith,
    once_per_episode ts (turn num t s) w (held_after num t s held) (watch_id-turn t s ∙ e)
        (turn-held t s held kept) h.1,
    subst
        (λ v.
          count_where (queued_of v) (turn num t s).db.fires + one_if (armed (turn num t s).state)
          ≤ count_where (queued_of v) s.db.fires
            + one_if (armed s.state)
            + one_if (rises num t s held))
        e (turn-queued t s held h.0 kept),
  )
