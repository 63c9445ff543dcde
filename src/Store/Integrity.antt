-- ===== src/Store/Integrity.antt =====
-- src/picket/persistence/store.py: what the constraints of the table `fires` and the column comments
-- of its schema promise, kept by every transaction.
use picket_mcp.Prelude.{
  ℕ, ◌+◌, ◌≤◌, Text, text_eq, text_eq_iff, ◌≡◌, refl, Bool, true, false, not, inl, inr, ◌||◌,
  Option, none, some, List, [], ◌∷◌, arith, one_if, count_where, exists_where, select, update_where,
  Bool-cases, count_where-append, count_where-update_where, count_where-select-le,
  exists_where-eq-false, count_where_mono,
}
use picket_mcp.Store.Fire.{Fire, FireStatus}
use picket_mcp.Store.Ledger.{
  same_key, has_id, conflicts, new_row, create_fire, oldest, pending_of, claim_row,
}
use picket_mcp.Store.History.{delete_rows, expired_rows}
use picket_mcp.Store.Trace.{
  Transaction, create, claim, finish, deliver, set_pid, recover, prune, apply, history,
}

module _ {V : Type 0} where
  abbrev pub has_key : Text → Fire V → Bool
  has_key k row = same_key row.idem_key (some k)

  -- PRIMARY KEY and the partial UNIQUE index: no two rows share an id or a key that is not NULL.
  pub record IsUnique (fires : List (Fire V)) : Type 0 where
    pub ids : (x : Text) → count_where (has_id x) fires ≤ 1
    pub keys : (k : Text) → count_where (has_key k) fires ≤ 1

  update-IsUnique :
      (test : Fire V → Bool) (change : Fire V → Fire V) (fires : List (Fire V))
      → ((row : Fire V) → (change row).fire_id ≡ row.fire_id)
      → ((row : Fire V) → (change row).idem_key ≡ row.idem_key)
      → IsUnique fires
      → IsUnique (update_where test change fires)
  update-IsUnique test change fires same_id same_idem u = record {
    ids = λ x.
        rw (count_where-update_where (has_id x) test change fires (λ row _. ap_eq row x)) (u.ids x);
    keys = λ k.
        rw (count_where-update_where (has_key k) test change fires (λ row _. rw (same_idem row)))
          (u.keys k);
  }
    where
      ap_eq : (row : Fire V) (x : Text) → has_id x (change row) ≡ has_id x row
      ap_eq row x = rw (same_id row)

  pub select-IsUnique :
      (test : Fire V → Bool) (fires : List (Fire V)) → IsUnique fires → IsUnique (select test fires)
  select-IsUnique test fires u = record {
    ids = λ x. omega (arith, count_where-select-le (has_id x) test fires, u.ids x);
    keys = λ k. omega (arith, count_where-select-le (has_key k) test fires, u.keys k);
  }

  pub delete_rows-IsUnique :
      (rows fires : List (Fire V)) → IsUnique fires → IsUnique (delete_rows rows fires)
  unfolding delete_rows
  delete_rows-IsUnique [] fires u = u
  delete_rows-IsUnique (row ∷ rows) fires u =
      delete_rows-IsUnique rows _
        (select-IsUnique (λ other. not (has_id row.fire_id other)) fires u)

  -- A row that the constraints do not refuse is the only one of its id and of its key.
  no_conflict_id :
      (id : Text) (key : Option Text) (x : Text) (fires : List (Fire V))
      → exists_where (conflicts id key) fires ≡ false
      → text_eq id x ≡ true
      → count_where (has_id x) fires ≡ 0
  no_conflict_id id key x fires free same =
      let none_left = exists_where-eq-false (conflicts id key) fires free in
      let fewer =
        count_where_mono (has_id x) (conflicts id key) fires
          (λ row h. ground (arith, text_eq_iff id x, text_eq_iff row.fire_id x)) in
      omega arith

  no_conflict_key :
      (id : Text) (key : Option Text) (k : Text) (fires : List (Fire V))
      → exists_where (conflicts id key) fires ≡ false
      → same_key key (some k) ≡ true
      → count_where (has_key k) fires ≡ 0
  unfolding same_key
  no_conflict_key id none k fires free same = ground arith
  no_conflict_key id (some j) k fires free same =
      let none_left = exists_where-eq-false (conflicts id (some j)) fires free in
      let fewer =
        count_where_mono (has_key k) (conflicts id (some j)) fires
          (λ row h. keyed row.idem_key (has_id id row) h) in
      omega arith
    where
      keyed :
          (o : Option Text) (b : Bool)
          → same_key o (some k) ≡ true
          → (b || same_key o (some j)) ≡ true
      keyed none b h = ground arith
      keyed (some i) b h = ground (arith, text_eq_iff j k, text_eq_iff i k, text_eq_iff i j)

  pub create-IsUnique :
      (clock : ℕ → ℕ) (id w : Text) (st : FireStatus) (rb key : Option Text) (v : V) (p : Option V)
      (fires : List (Fire V))
      → IsUnique fires
      → IsUnique (create_fire clock id w st rb key v p fires).0
  unfolding create_fire
  create-IsUnique clock id w st rb key v p fires u =
      elim (Bool-cases (exists_where (conflicts id key) fires)) [
        | inl taken ↦ rw taken u
        | inr free ↦ rw free (record {
          ids = λ x. rw (count_where-append (has_id x) fires (row ∷ [])) (ids_after free x);
          keys = λ k. rw (count_where-append (has_key k) fires (row ∷ [])) (keys_after free k);
        })
      ]
    where
      row : Fire V
      row = new_row clock id w st rb key v p

      ids_after :
          exists_where (conflicts id key) fires ≡ false
          → (x : Text) → count_where (has_id x) fires + (one_if (text_eq id x) + 0) ≤ 1
      ids_after free x = elim (Bool-cases (text_eq id x)) [
        | inl same ↦ rw (same, no_conflict_id id key x fires free same) (omega arith)
        | inr other ↦ rw other (omega (arith, u.ids x))
      ]

      keys_after :
          exists_where (conflicts id key) fires ≡ false
          → (k : Text) → count_where (has_key k) fires + (one_if (same_key key (some k)) + 0) ≤ 1
      keys_after free k = elim (Bool-cases (same_key key (some k))) [
        | inl same ↦ rw (same, no_conflict_key id key k fires free same) (omega arith)
        | inr other ↦ rw other (omega (arith, u.keys k))
      ]

  claim_row-IsUnique :
      (clock : ℕ → ℕ) (pid lease : ℕ) (fires : List (Fire V)) (found : Option (Fire V))
      → IsUnique fires
      → IsUnique (claim_row clock pid lease fires found).0
  claim_row-IsUnique clock pid lease fires none u = u
  claim_row-IsUnique clock pid lease fires (some row) u =
      update-IsUnique _ _ fires (λ r. refl) (λ r. refl) u

  -- Every transaction keeps the primary key and the unique index on the idempotency keys.
  pub apply-IsUnique :
      (t : Transaction V) (fires : List (Fire V)) → IsUnique fires → IsUnique (apply t fires)
  unfolding apply
  apply-IsUnique (create clock id w st rb key v p) fires u =
      create-IsUnique clock id w st rb key v p fires u
  apply-IsUnique (claim clock w pid lease) fires u =
      claim_row-IsUnique clock pid lease fires (oldest (select (pending_of w) fires)) u
  apply-IsUnique (finish now id st args) fires u =
      update-IsUnique _ _ fires (λ r. refl) (λ r. refl) u
  apply-IsUnique (deliver now id st) fires u = update-IsUnique _ _ fires (λ r. refl) (λ r. refl) u
  apply-IsUnique (set_pid id pid) fires u = update-IsUnique _ _ fires (λ r. refl) (λ r. refl) u
  apply-IsUnique (recover now w) fires u = update-IsUnique _ _ fires (λ r. refl) (λ r. refl) u
  apply-IsUnique (prune keep) fires u = delete_rows-IsUnique (expired_rows keep fires) fires u

  -- After any transactions on an empty table no two rows share an id or an idempotency key.
  pub history-IsUnique :
      (ts : List (Transaction V)) (fires : List (Fire V))
      → IsUnique fires
      → IsUnique (history ts fires)
  unfolding history
  history-IsUnique [] fires u = u
  history-IsUnique (t ∷ ts) fires u = history-IsUnique ts (apply t fires) (apply-IsUnique t fires u)
