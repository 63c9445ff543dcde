-- ===== src/Daemon/Enqueue.antt =====
-- src/picket/runtime/daemon.py: what a poll adds to the ledger.
use mathlib.Core.Path.{subst}
use picket_mcp.Prelude.{
  ℕ, ◌+◌, ◌≤◌, Text, ◌≡◌, Bool, true, false, not, ◌&&◌, Option, none, some, List, [], ◌∷◌, arith,
  inl, inr, one_if, count_where, Bool-cases, count_where-append, exists_where-eq-false,
  if◌then◌else◌,
}
use picket_mcp.Core.Json.{Json, null}
use picket_mcp.Core.Models.{WatchState}
use picket_mcp.Store.Fire.{Fire, FireStatus, pending, skipped_overlap}
use picket_mcp.Store.Ledger.{new_row, create_fire, has_active_fire, active_of}
use picket_mcp.Store.Integrity.{IsUnique, create-IsUnique}
use picket_mcp.Daemon.Poll.{
  Observation, idem_of, enqueue, fire_branch, wants_fire, decide, edge, watches_change,
}
use picket_mcp.Daemon.System.{queued_of}

module _ {V : Type 0} where
  pub count_where-create_fire :
      (q : Fire V → Bool) (clock : ℕ → ℕ) (id w : Text) (st : FireStatus) (rb key : Option Text)
      (v : V) (p : Option V) (fires : List (Fire V))
      → count_where q (create_fire clock id w st rb key v p fires).0
        ≡ count_where q fires
          + (if (create_fire clock id w st rb key v p fires).1
              then one_if (q (new_row clock id w st rb key v p))
              else 0)
  unfolding create_fire
  count_where-create_fire q clock id w st rb key v p fires =
      ground (arith, count_where-append q fires (new_row clock id w st rb key v p ∷ []))

  pub no_active :
      (w : Text) (fires : List (Fire V))
      → has_active_fire w fires ≡ false
      → count_where (active_of w) fires ≡ 0
  unfolding has_active_fire
  no_active w fires h = exists_where-eq-false (active_of w) fires h

module _ {N : Type 0} (clock : ℕ → ℕ) (fire_id : Text) (now : ℕ) (seen : Observation N)
    (state : WatchState N) (fires : List (Fire (Json N))) where
  enqueue-queued :
      count_where (queued_of state.watch_id) (enqueue clock fire_id now seen state fires).1
      ≤ count_where (queued_of state.watch_id) fires + 1
  unfolding enqueue
  enqueue-queued = ground (
    arith,
    count_where-create_fire (queued_of state.watch_id) clock fire_id state.watch_id skipped_overlap
        (some state.runbook_id) none null none fires,
    count_where-create_fire (queued_of state.watch_id) clock fire_id state.watch_id pending
        (some state.runbook_id) (some (idem_of state)) seen.value seen.payload fires,
  )

  enqueue-active :
      count_where (active_of state.watch_id) fires ≤ 1
      → count_where (active_of state.watch_id) (enqueue clock fire_id now seen state fires).1 ≤ 1
  unfolding enqueue
  enqueue-active h = ground (
    arith,
    no_active state.watch_id fires,
    count_where-create_fire (active_of state.watch_id) clock fire_id state.watch_id skipped_overlap
        (some state.runbook_id) none null none fires,
    count_where-create_fire (active_of state.watch_id) clock fire_id state.watch_id pending
        (some state.runbook_id) (some (idem_of state)) seen.value seen.payload fires,
  )

  watch_id-enqueue : (enqueue clock fire_id now seen state fires).0.watch_id ≡ state.watch_id
  unfolding enqueue
  watch_id-enqueue = ground arith

  pub watch_id-decide : (decide clock fire_id now seen state fires).0.0.watch_id ≡ state.watch_id
  unfolding decide fire_branch
  watch_id-decide = ground (arith, watch_id-enqueue)

  decide-queued_own :
      count_where (queued_of state.watch_id) (decide clock fire_id now seen state fires).0.1
      ≤ count_where (queued_of state.watch_id) fires + one_if (wants_fire now seen.satisfied state)
  unfolding decide fire_branch
  decide-queued_own = ground (arith, enqueue-queued)

  decide-active_own :
      count_where (active_of state.watch_id) fires ≤ 1
      → count_where (active_of state.watch_id) (decide clock fire_id now seen state fires).0.1 ≤ 1
  unfolding decide fire_branch
  decide-active_own h = ground (arith, enqueue-active)

  pub decide-queued :
      {w : Text}
      → state.watch_id ≡ w
      → count_where (queued_of w) (decide clock fire_id now seen state fires).0.1
        ≤ count_where (queued_of w) fires + one_if (wants_fire now seen.satisfied state)
  decide-queued e =
      subst
        (λ w.
          count_where (queued_of w) (decide clock fire_id now seen state fires).0.1
          ≤ count_where (queued_of w) fires + one_if (wants_fire now seen.satisfied state))
        e decide-queued_own

  pub decide-active :
      {w : Text}
      → state.watch_id ≡ w
      → count_where (active_of w) fires ≤ 1
      → count_where (active_of w) (decide clock fire_id now seen state fires).0.1 ≤ 1
  decide-active e =
      subst
        (λ w.
          count_where (active_of w) fires ≤ 1
          → count_where (active_of w) (decide clock fire_id now seen state fires).0.1 ≤ 1)
        e decide-active_own

  -- After a decision to fire, the episode is spent.
  pub decide-spent :
      let ((state', fires'), holds) = decide clock fire_id now seen state fires in
      one_if (holds && not state'.fired_this_episode) + one_if (wants_fire now seen.satisfied state)
      ≤ one_if (seen.satisfied && not state.fired_this_episode)
  unfolding decide fire_branch wants_fire
  decide-spent = ground arith

  -- A condition other than a change is as it was observed.
  pub decide-holds :
      seen.satisfied ≡ true
      → watches_change state.predicate ≡ false
      → (decide clock fire_id now seen state fires).1 ≡ true
  unfolding decide fire_branch
  decide-holds holds fixed = ground arith

  enqueue-IsUnique : IsUnique fires → IsUnique (enqueue clock fire_id now seen state fires).1
  unfolding enqueue
  enqueue-IsUnique u = elim (Bool-cases (has_active_fire state.watch_id fires)) [
    | inl busy ↦ rw busy (
        create-IsUnique clock fire_id state.watch_id skipped_overlap (some state.runbook_id) none
          null none fires u)
    | inr free ↦ rw free (
        create-IsUnique clock fire_id state.watch_id pending (some state.runbook_id)
          (some (idem_of state)) seen.value seen.payload fires u)
  ]

  pub decide-IsUnique : IsUnique fires → IsUnique (decide clock fire_id now seen state fires).0.1
  unfolding decide fire_branch
  decide-IsUnique u = elim (Bool-cases (wants_fire now seen.satisfied state)) [
    | inr wait ↦ rw wait u
    | inl go ↦ rw go (elim (Bool-cases (watches_change state.predicate)) [
      | inl change ↦ rw change (enqueue-IsUnique u)
      | inr fixed ↦ rw fixed (enqueue-IsUnique u)
    ])
  ]

module _ {N : Type 0} (now : ℕ) (holds : Bool) (state : WatchState N) where
  pub watch_id-edge : (edge now holds state).watch_id ≡ state.watch_id
  unfolding edge
  watch_id-edge = ground arith

  pub predicate-edge : (edge now holds state).predicate ≡ state.predicate
  unfolding edge
  predicate-edge = ground arith

  -- An episode opens only where the condition rises.
  pub edge-open :
      one_if (holds && not (edge now holds state).fired_this_episode)
      ≤ one_if (state.satisfied && not state.fired_this_episode)
        + one_if (holds && not state.satisfied)
  unfolding edge
  edge-open = ground arith
