-- ===== src/Store/Rows.antt =====
-- src/picket/persistence/store.py: what the column comments of the schema say of one row.
use picket_mcp.Prelude.{
  ℕ, Text, ◌≡◌, refl, true, false, not, ◌⊎◌, inl, inr, Option, none, some, List, [], ◌∷◌, arith,
  is_some, exists_where, select, All, Bool-cases, All-append, All-select, All-update_where, All-and,
}
use picket_mcp.Store.Fire.{
  Fire, FireStatus, pending, running, skipped_overlap, is_pending, is_running, is_active,
}
use picket_mcp.Store.Ledger.{
  has_id, conflicts, started_of, ended_of, new_row, lease_row, finish_row, delivery_row, pid_row,
  create_fire, oldest, pending_of, claim_row,
}
use picket_mcp.Store.History.{is_abandoned, recover_row, delete_rows, expired_rows}
use picket_mcp.Store.Claim.{only_pending}
use picket_mcp.Store.Integrity.{IsUnique, apply-IsUnique}
use picket_mcp.Store.Trace.{
  Transaction, create, claim, finish, deliver, set_pid, recover, prune, apply, history, IsCall,
}

module _ {V : Type 0} where
  -- A row has an end exactly if it is not in flight, a lease only while it runs, and no start and
  -- no lease while it is pending.
  pub record IsRow (row : Fire V) : Type 0 where
    pub ended : is_some row.ended_at ≡ not (is_active row.status)
    pub leased : is_some row.lease_expires_at ≡ true → is_running row.status ≡ true
    pub unstarted : is_pending row.status ≡ true → is_some row.started_at ≡ false

  new_row-IsRow :
      (clock : ℕ → ℕ) (id w : Text) (st : FireStatus) (rb key : Option Text) (v : V) (p : Option V)
      → (st ≡ pending) ⊎ (st ≡ running) ⊎ (st ≡ skipped_overlap)
      → IsRow (new_row clock id w st rb key v p)
  unfolding started_of ended_of
  new_row-IsRow clock id w st rb key v p h = ground arith

  create-IsRow :
      (clock : ℕ → ℕ) (id w : Text) (st : FireStatus) (rb key : Option Text) (v : V) (p : Option V)
      (fires : List (Fire V))
      → (st ≡ pending) ⊎ (st ≡ running) ⊎ (st ≡ skipped_overlap)
      → All IsRow fires
      → All IsRow (create_fire clock id w st rb key v p fires).0
  unfolding create_fire
  create-IsRow clock id w st rb key v p fires call h =
      elim (Bool-cases (exists_where (conflicts id key) fires)) [
        | inl taken ↦ rw taken h
        | inr free ↦
            rw free (All-append IsRow fires h (new_row-IsRow clock id w st rb key v p call))
      ]

  claimed :
      (clock : ℕ → ℕ) (pid lease : ℕ) (r : Fire V)
      → is_pending r.status ≡ true
      → IsRow r
      → IsRow (lease_row clock pid lease r)
  claimed clock pid lease r p ok = ground arith

  claim_row-IsRow :
      (clock : ℕ → ℕ) (pid lease : ℕ) (fires : List (Fire V)) (found : Option (Fire V))
      → ((row : Fire V)
          → found ≡ some row
          → All (λ r. has_id row.fire_id r ≡ true → is_pending r.status ≡ true) fires)
      → All IsRow fires
      → All IsRow (claim_row clock pid lease fires found).0
  claim_row-IsRow clock pid lease fires none only h = h
  claim_row-IsRow clock pid lease fires (some row) only h =
      All-update_where _ IsRow (has_id row.fire_id) (lease_row clock pid lease) fires
        (λ r t ok. claimed clock pid lease r (ok.0 t) ok.1) (λ r t ok. ok.1)
        (All-and _ IsRow fires (only row refl) h)

  delete_rows-IsRow :
      (rows fires : List (Fire V)) → All IsRow fires → All IsRow (delete_rows rows fires)
  unfolding delete_rows
  delete_rows-IsRow [] fires h = h
  delete_rows-IsRow (row ∷ rows) fires h =
      delete_rows-IsRow rows _ (All-select IsRow (λ other. not (has_id row.fire_id other)) fires h)

  -- A transaction of the program keeps `IsRow` on every row.
  pub apply-IsRow :
      (t : Transaction V) (fires : List (Fire V))
      → IsCall t
      → IsUnique fires
      → All IsRow fires
      → All IsRow (apply t fires)
  unfolding apply
  apply-IsRow (create clock id w st rb key v p) fires call u h =
      create-IsRow clock id w st rb key v p fires call h
  apply-IsRow (claim clock w pid lease) fires call u h =
      claim_row-IsRow clock pid lease fires (oldest (select (pending_of w) fires))
        (only_pending w fires u) h
  apply-IsRow (finish now id st args) fires call u h =
      All-update_where IsRow IsRow (has_id id) (finish_row now st args) fires
        (λ r t ok. ground arith) (λ r t ok. ok) h
  apply-IsRow (deliver now id st) fires call u h =
      All-update_where IsRow IsRow (has_id id) (delivery_row now st) fires (λ r t ok. ground arith)
        (λ r t ok. ok) h
  apply-IsRow (set_pid id pid) fires call u h =
      All-update_where IsRow IsRow (has_id id) (pid_row pid) fires (λ r t ok. ground arith)
        (λ r t ok. ok) h
  apply-IsRow (recover now w) fires call u h =
      All-update_where IsRow IsRow (is_abandoned now w) (recover_row now) fires
        (λ r t ok. ground arith) (λ r t ok. ok) h
  apply-IsRow (prune keep) fires call u h = delete_rows-IsRow (expired_rows keep fires) fires h

  -- From a table with unique ids and keys and rows as the schema describes them, whatever the
  -- program's transactions, the table keeps both.
  pub history-IsRow :
      (ts : List (Transaction V)) (fires : List (Fire V))
      → All IsCall ts
      → IsUnique fires
      → All IsRow fires
      → IsUnique (history ts fires) × All IsRow (history ts fires)
  unfolding history
  history-IsRow [] fires calls u h = (u, h)
  history-IsRow (t ∷ ts) fires calls u h =
      history-IsRow ts (apply t fires) calls.1 (apply-IsUnique t fires u)
        (apply-IsRow t fires calls.0 u h)
