-- ===== src/Store/Claim.antt =====
-- src/picket/persistence/store.py: which fire `claim_next_fire` leases, and what it changes.
use picket_mcp.Prelude.{
  ℕ, ◌+◌, update_where, ◌<◌, ◌≤◌, Text, text_eq_iff, text_eq_refl, ◌≡◌, refl, Bool, true, ◌&&◌,
  Option, none, some, List, [], ◌∷◌, arith, select, count_where, All, All-count_where, length,
  Memᴰ-select, Memᴰ, ◌⊎◌, length-select, All-mono, All-select_imp, Option-cases, inl, inr,
  count_where_mono, count_where-select,
}
use picket_mcp.Store.Fire.{Fire, is_pending, running}
use picket_mcp.Store.Ledger.{has_id, oldest, pending_of, lease_row, claim_row, claim_next_fire}
use picket_mcp.Store.Integrity.{IsUnique}
use picket_mcp.Store.Rowwise.{Rowwise, update_where-Rowwise}

module _ {V : Type 0} where
  -- The row that is picked passes the tests that the count counts.
  pub oldest-count_where :
      (q : Fire V → Bool) (rows : List (Fire V)) (row : Fire V)
      → oldest rows ≡ some row
      → q row ≡ true
      → 0 < count_where q rows
  unfolding oldest
  oldest-count_where q [] row e t = ground arith
  oldest-count_where q (r ∷ rows) row e t = ground (arith, oldest-count_where q rows row)

  -- The fire `x`, waiting for a worker.
  abbrev pub waits : Text → Fire V → Bool
  waits x row = is_pending row.status && has_id x row

  pub count_where-waits :
      (w : Text) (fires : List (Fire V)) (row : Fire V)
      → oldest (select (pending_of w) fires) ≡ some row
      → 0 < count_where (waits row.fire_id) fires
  count_where-waits w fires row e =
      let x = row.fire_id in
      let found =
        oldest-count_where (has_id x) (select (pending_of w) fires) row e (text_eq_refl x) in
      let same = count_where-select (has_id x) (pending_of w) fires in
      let fewer =
        count_where_mono (λ r. pending_of w r && has_id x r) (waits x) fires
          (λ r h. ground arith) in
      omega arith

  -- With unique ids, the rows that a claim updates are pending.
  pub only_pending :
      (w : Text) (fires : List (Fire V))
      → IsUnique fires
      → (row : Fire V) → oldest (select (pending_of w) fires) ≡ some row
      → All (λ r. has_id row.fire_id r ≡ true → is_pending r.status ≡ true) fires
  only_pending w fires u row e =
      All-count_where (has_id row.fire_id) (λ r. is_pending r.status) fires
        (omega (arith, u.ids row.fire_id, count_where-waits w fires row e))

  oldest-none : (P : Fire V → Type 0) (rows : List (Fire V)) → oldest rows ≡ none → All P rows
  unfolding oldest
  oldest-none P [] e = tt
  oldest-none P (r ∷ rows) e = absurd (ground arith)

  -- Of the rows given, none was created before the one that `oldest` picks.
  oldest-le :
      (rows : List (Fire V)) (row : Fire V)
      → oldest rows ≡ some row
      → All (λ r. row.created_at ≤ r.created_at) rows
  unfolding oldest
  oldest-le [] row e = tt
  oldest-le (r ∷ rows) row e = elim (Option-cases (oldest rows)) [
    | inl n ↦ (ground arith, oldest-none _ rows n)
    | inr (o, eo) ↦ (
      ground arith,
      All-mono (λ r'. o.created_at ≤ r'.created_at) _ rows (λ r' h. ground arith)
          (oldest-le rows o eo),
    )
  ]

  length-oldest-none : (rows : List (Fire V)) → oldest rows ≡ none → length rows ≡ 0
  unfolding oldest
  length-oldest-none [] e = refl
  length-oldest-none (r ∷ rows) e = absurd (ground arith)

  oldest_cases :
      (r : Fire V) (rows : List (Fire V)) (row : Fire V)
      → oldest (r ∷ rows) ≡ some row
      → (row ≡ r) ⊎ (oldest rows ≡ some row)
  unfolding oldest
  oldest_cases r rows row e = ground arith

  oldest-Memᴰ : (rows : List (Fire V)) (row : Fire V) → oldest rows ≡ some row → Memᴰ row rows
  oldest-Memᴰ [] row e = absurd (unfold oldest in ground arith)
  oldest-Memᴰ (r ∷ rows) row e = elim (oldest_cases r rows row e) [
    | inl p ↦ Memᴰ.head p
    | inr e' ↦ Memᴰ.tail (oldest-Memᴰ rows row e')
  ]

  -- The row is leased to a worker until a time, and stands for the fire that it stood for.
  pub record LeasedFrom (pid until since : ℕ) (old new : Fire V) : Type 0 where
    pub status : new.status ≡ running
    pub worker : new.worker_pid ≡ some pid
    pub lease : new.lease_expires_at ≡ some until
    pub started : new.started_at ≡ some since
    pub id : new.fire_id ≡ old.fire_id
    pub watch : new.watch_id ≡ old.watch_id
    pub key : new.idem_key ≡ old.idem_key
    pub created : new.created_at ≡ old.created_at

  -- A row of the fire `x` is leased, a row of another fire is as it was.
  pub record ClaimedRow (x : Text) (pid until since : ℕ) (old new : Fire V) : Type 0 where
    pub taken : old.fire_id ≡ x → LeasedFrom pid until since old new
    pub other : ¬ (old.fire_id ≡ x) → new ≡ old

  lease_row-ClaimedRow :
      (clock : ℕ → ℕ) (x : Text) (pid lease : ℕ) (fires : List (Fire V))
      → Rowwise
          (ClaimedRow x pid (clock 0 + lease) (clock 1))
          fires
          (update_where (has_id x) (lease_row clock pid lease) fires)
  lease_row-ClaimedRow clock x pid lease fires =
      update_where-Rowwise _ (has_id x) (lease_row clock pid lease) fires
        (λ r h. record {
          taken = λ e. record {
            status = refl;
            worker = refl;
            lease = refl;
            started = refl;
            id = refl;
            watch = refl;
            key = refl;
            created = refl;
          };
          other = λ n. absurd (n ((text_eq_iff r.fire_id x).0 h));
        })
        (λ r h. record {
          taken = λ e. absurd (ground (arith, (text_eq_iff r.fire_id x).1 e, h));
          other = λ n. refl;
        })

  -- What `claim_next_fire` promises: with no pending fire of the watch it returns None and changes
  -- nothing; otherwise it returns a pending fire of the watch than which no other is older, and the
  -- rows of this fire, and no others, are leased.
  abbrev pub ClaimOf :
      (ℕ → ℕ) → Text → ℕ → ℕ → List (Fire V) → List (Fire V) × Option (Fire V) → Type 0
  ClaimOf clock w pid lease fires (after, none) =
      (count_where (pending_of w) fires ≡ 0) × (after ≡ fires)
  ClaimOf clock w pid lease fires (after, some row) =
      Memᴰ row fires
      × (row.watch_id ≡ w)
      × (is_pending row.status ≡ true)
      × All (λ r. pending_of w r ≡ true → row.created_at ≤ r.created_at) fires
      × Rowwise (ClaimedRow row.fire_id pid (clock 0 + lease) (clock 1)) fires after

  pub claim_row-ClaimOf :
      (clock : ℕ → ℕ) (w : Text) (pid lease : ℕ) (fires : List (Fire V)) (found : Option (Fire V))
      → oldest (select (pending_of w) fires) ≡ found
      → ClaimOf clock w pid lease fires (claim_row clock pid lease fires found)
  claim_row-ClaimOf clock w pid lease fires none e =
      (omega (arith, length-select (pending_of w) fires, length-oldest-none _ e), refl)
  claim_row-ClaimOf clock w pid lease fires (some row) e =
      let (m, t) = Memᴰ-select (pending_of w) fires (oldest-Memᴰ _ row e) in
      (
        m,
        ground (arith, text_eq_iff row.watch_id w),
        ground arith,
        All-select_imp (λ r. row.created_at ≤ r.created_at) (pending_of w) fires
            (oldest-le _ row e),
        lease_row-ClaimedRow clock row.fire_id pid lease fires,
      )

  -- If the watch has no pending fire, claim_next_fire returns None and changes nothing; otherwise it
  -- returns a pending fire of the watch than which no pending fire of the watch was created earlier,
  -- and in the table the rows of this fire are running, leased to the worker until the lease's end and
  -- else of the same fire, watch, key and creation, and every other row is as it was.
  pub claim_next_fire-ClaimOf :
      (clock : ℕ → ℕ) (w : Text) (pid lease : ℕ) (fires : List (Fire V))
      → ClaimOf clock w pid lease fires (claim_next_fire clock w pid lease fires)
  unfolding claim_next_fire
  claim_next_fire-ClaimOf clock w pid lease fires = claim_row-ClaimOf clock w pid lease fires _ refl
