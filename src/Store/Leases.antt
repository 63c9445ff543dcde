-- ===== src/Store/Leases.antt =====
-- src/picket/persistence/store.py: at most once. Over every history of the ledger a fire is leased to
-- a worker at most as often as its row is created.
use picket_mcp.Prelude.{
  ℕ, ◌≤◌, ◌+◌, Text, text_eq, text_eq_iff, text_eq_refl, ◌≡◌, refl, Bool, not, Option, none, some,
  List, [], ◌∷◌, arith, inl, inr, one_if, select, count_where, update_where, All,
  count_where-append, count_where-update_where, count_where-update_where-le, count_where-select-le,
  Bool-cases,
}
use picket_mcp.Store.Fire.{Fire, FireStatus}
use picket_mcp.Store.Ledger.{
  has_id, new_row, oldest, pending_of, lease_row, finish_row, delivery_row, pid_row, claim_row,
  create_fire,
}
use picket_mcp.Store.History.{is_abandoned, recover_row, delete_rows, expired_rows}
use picket_mcp.Store.Claim.{waits, count_where-waits}
use picket_mcp.Store.Trace.{
  Transaction, create, claim, finish, deliver, set_pid, recover, prune, apply, id_is, leases,
  creates, IsCall,
}

module _ {V : Type 0} where
  -- How often the transactions, from a table on, lease the fire `x`.
  unfoldable pub leases_in : Text → List (Transaction V) → List (Fire V) → ℕ
  leases_in x [] fires = 0
  leases_in x (t ∷ ts) fires = one_if (leases x t fires) + leases_in x ts (apply t fires)

  -- How often they ask for a row with the id `x`.
  unfoldable pub creates_in : Text → List (Transaction V) → ℕ
  creates_in x [] = 0
  creates_in x (t ∷ ts) = one_if (creates x t) + creates_in x ts

  waits-lease_row :
      (clock : ℕ → ℕ) (pid lease : ℕ) (x : Text) (fires : List (Fire V))
      → count_where (waits x) (update_where (has_id x) (lease_row clock pid lease) fires) ≡ 0
  waits-lease_row clock pid lease x [] = refl
  waits-lease_row clock pid lease x (r ∷ fires) =
      ground (arith, waits-lease_row clock pid lease x fires)

  waits-claim_row :
      (clock : ℕ → ℕ) (pid lease : ℕ) (x w : Text) (fires : List (Fire V)) (found : Option (Fire V))
      → oldest (select (pending_of w) fires) ≡ found
      → one_if (id_is x (claim_row clock pid lease fires found).1)
          + count_where (waits x) (claim_row clock pid lease fires found).0
        ≤ count_where (waits x) fires
  waits-claim_row clock pid lease x w fires none e = omega arith
  waits-claim_row clock pid lease x w fires (some row) e =
      elim (Bool-cases (text_eq row.fire_id x)) [
        | inl same ↦
            rw (← (text_eq_iff row.fire_id x).0 same, text_eq_refl row.fire_id)
              (omega (
                arith,
                waits-lease_row clock pid lease row.fire_id fires,
                count_where-waits w fires row e,
              ))
        | inr other ↦ rw other (
            omega (
              arith,
              count_where-update_where-le (waits x) (has_id row.fire_id) (lease_row clock pid lease)
                  fires (λ r h. ground arith),
            ))
      ]

  pub count_where-delete_rows-le :
      (p : Fire V → Bool) (rows fires : List (Fire V))
      → count_where p (delete_rows rows fires) ≤ count_where p fires
  unfolding delete_rows
  count_where-delete_rows-le p [] fires = omega arith
  count_where-delete_rows-le p (row ∷ rows) fires =
      let keeps = λ (other : Fire V). not (has_id row.fire_id other) in
      omega (
        arith,
        count_where-delete_rows-le p rows (select keeps fires),
        count_where-select-le p keeps fires,
      )

  waits-create_fire :
      (clock : ℕ → ℕ) (id w : Text) (st : FireStatus) (rb key : Option Text) (v : V) (p : Option V)
      (x : Text) (fires : List (Fire V))
      → count_where (waits x) (create_fire clock id w st rb key v p fires).0
        ≤ one_if (text_eq id x) + count_where (waits x) fires
  unfolding create_fire
  waits-create_fire clock id w st rb key v p x fires =
      ground (arith, count_where-append (waits x) fires (new_row clock id w st rb key v p ∷ []))

  -- One transaction: a lease uses up a waiting row, and only a creation makes one.
  apply-waits :
      (x : Text) (t : Transaction V) (fires : List (Fire V))
      → IsCall t
      → one_if (leases x t fires) + count_where (waits x) (apply t fires)
        ≤ one_if (creates x t) + count_where (waits x) fires
  unfolding apply leases creates
  apply-waits x (create clock id w st rb key v p) fires call =
      omega (arith, waits-create_fire clock id w st rb key v p x fires)
  apply-waits x (claim clock w pid lease) fires call =
      omega (arith, waits-claim_row clock pid lease x w fires _ refl)
  apply-waits x (finish now id st args) fires call = omega (
    arith,
    count_where-update_where-le (waits x) (has_id id) (finish_row now st args) fires
        (λ r h. ground arith),
  )
  apply-waits x (deliver now id st) fires call = omega (
    arith,
    count_where-update_where (waits x) (has_id id) (delivery_row now st) fires (λ r _. refl),
  )
  apply-waits x (set_pid id pid) fires call =
      omega
        (arith, count_where-update_where (waits x) (has_id id) (pid_row pid) fires (λ r _. refl))
  apply-waits x (recover now w) fires call = omega (
    arith,
    count_where-update_where-le (waits x) (is_abandoned now w) (recover_row now) fires
        (λ r h. ground arith),
  )
  apply-waits x (prune keep) fires call =
      omega (arith, count_where-delete_rows-le (waits x) (expired_rows keep fires) fires)

  leases_in-le :
      (x : Text) (ts : List (Transaction V)) (fires : List (Fire V))
      → All IsCall ts
      → leases_in x ts fires ≤ creates_in x ts + count_where (waits x) fires
  unfolding leases_in creates_in
  leases_in-le x [] fires calls = omega arith
  leases_in-le x (t ∷ ts) fires calls =
      omega (arith, apply-waits x t fires calls.0, leases_in-le x ts (apply t fires) calls.1)

  -- At most once: from an empty ledger, whatever transactions the program makes, crash recovery,
  -- retention and interleaved workers included, a fire is leased to a worker at most as often as
  -- `create_fire` is called with its id.
  pub at_most_once :
      (x : Text) (ts : List (Transaction V)) → All IsCall ts → leases_in x ts [] ≤ creates_in x ts
  at_most_once x ts calls = omega (arith, leases_in-le x ts [] calls)
