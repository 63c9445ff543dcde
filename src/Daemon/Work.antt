-- ===== src/Daemon/Work.antt =====
-- src/picket/runtime/daemon.py and supervisor.py: what workers and the supervisor do to the ledger
-- between two polls never adds a queued fire nor one in flight.
use native.Mathlib.Nat.{le_of_eq}
use picket_mcp.Prelude.{
  ℕ, ◌≤◌, Text, ◌≡◌, refl, true, Option, none, some, List, arith, count_where, select, All,
  All-mono, count_where-update_where, count_where-update_where-le, count_where-update_where-All,
}
use picket_mcp.Core.Json.{Json}
use picket_mcp.Store.Fire.{Fire, is_pending}
use picket_mcp.Store.Ledger.{
  has_id, active_of, pending_of, oldest, lease_row, finish_row, delivery_row, pid_row, claim_row,
}
use picket_mcp.Store.History.{is_abandoned, recover_row, expired_rows}
use picket_mcp.Store.Claim.{only_pending}
use picket_mcp.Store.Integrity.{IsUnique}
use picket_mcp.Store.Leases.{count_where-delete_rows-le}
use picket_mcp.Store.Trace.{
  Transaction, create, claim, finish, deliver, set_pid, recover, prune, apply,
}
use picket_mcp.Daemon.System.{IsWork, queued_of}

module _ {N : Type 0} (w : Text) where
  claim_row-queued :
      (clock : ℕ → ℕ) (pid lease : ℕ) (fires : List (Fire (Json N)))
      (found : Option (Fire (Json N)))
      → count_where (queued_of w) (claim_row clock pid lease fires found).0
        ≤ count_where (queued_of w) fires
  claim_row-queued clock pid lease fires none = omega arith
  claim_row-queued clock pid lease fires (some row) = le_of_eq (
      count_where-update_where (queued_of w) (has_id row.fire_id) (lease_row clock pid lease) fires
        (λ r _. refl))

  claim_row-active :
      (clock : ℕ → ℕ) (pid lease : ℕ) (fires : List (Fire (Json N)))
      (found : Option (Fire (Json N)))
      → ((row : Fire (Json N))
          → found ≡ some row
          → All (λ r. has_id row.fire_id r ≡ true → is_pending r.status ≡ true) fires)
      → count_where (active_of w) (claim_row clock pid lease fires found).0
        ≤ count_where (active_of w) fires
  claim_row-active clock pid lease fires none only = omega arith
  claim_row-active clock pid lease fires (some row) only =
      count_where-update_where-All (active_of w) (has_id row.fire_id) (lease_row clock pid lease)
        fires
        (All-mono (λ r. has_id row.fire_id r ≡ true → is_pending r.status ≡ true) _ fires
          (λ r k t a. ground (arith, k t)) (only row refl))

  pub work-queued :
      (t : Transaction (Json N)) (fires : List (Fire (Json N)))
      → IsWork t
      → count_where (queued_of w) (apply t fires) ≤ count_where (queued_of w) fires
  unfolding apply
  work-queued (create _ _ _ _ _ _ _ _) fires h = absurd h
  work-queued (claim clock v pid lease) fires h =
      claim_row-queued clock pid lease fires (oldest (select (pending_of v) fires))
  work-queued (finish now id st args) fires h = le_of_eq (
      count_where-update_where (queued_of w) (has_id id) (finish_row now st args) fires
        (λ r _. refl))
  work-queued (deliver now id st) fires h =
      le_of_eq (
        count_where-update_where (queued_of w) (has_id id) (delivery_row now st) fires
          (λ r _. refl))
  work-queued (set_pid id pid) fires h =
      le_of_eq
        (count_where-update_where (queued_of w) (has_id id) (pid_row pid) fires (λ r _. refl))
  work-queued (recover now v) fires h = le_of_eq (
      count_where-update_where (queued_of w) (is_abandoned now v) (recover_row now) fires
        (λ r _. refl))
  work-queued (prune keep) fires h =
      count_where-delete_rows-le (queued_of w) (expired_rows keep fires) fires

  pub work-active :
      (t : Transaction (Json N)) (fires : List (Fire (Json N)))
      → IsWork t
      → IsUnique fires
      → count_where (active_of w) (apply t fires) ≤ count_where (active_of w) fires
  unfolding apply
  work-active (create _ _ _ _ _ _ _ _) fires h u = absurd h
  work-active (claim clock v pid lease) fires h u =
      claim_row-active clock pid lease fires (oldest (select (pending_of v) fires))
        (only_pending v fires u)
  work-active (finish now id st args) fires h u =
      count_where-update_where-le (active_of w) (has_id id) (finish_row now st args) fires
        (λ r t. ground arith)
  work-active (deliver now id st) fires h u =
      le_of_eq (
        count_where-update_where (active_of w) (has_id id) (delivery_row now st) fires
          (λ r _. refl))
  work-active (set_pid id pid) fires h u =
      le_of_eq
        (count_where-update_where (active_of w) (has_id id) (pid_row pid) fires (λ r _. refl))
  work-active (recover now v) fires h u =
      count_where-update_where-le (active_of w) (is_abandoned now v) (recover_row now) fires
        (λ r t. ground arith)
  work-active (prune keep) fires h u =
      count_where-delete_rows-le (active_of w) (expired_rows keep fires) fires
