-- ===== src/Store/Retention.antt =====
-- src/picket/persistence/store.py: what `prune_results` keeps and drops.
use picket_mcp.Prelude.{
  ℕ, ◌≤◌, ◌+◌, ◌-◌, min, Text, text_eq, text_eq_iff, text_eq_refl, ◌≡◌, refl, Bool, true, not, ◌&&◌,
  List, [], ◌∷◌, arith, length, select, count_where, length-select, length-drop, count_where-select,
  count_where-select-not, count_where-drop-le, count_where_mono, count_where-none,
  count_where_disjoint, count_where_cover, Bool-cases, inl, inr,
}
use picket_mcp.Store.Fire.{Fire, is_active}
use picket_mcp.Store.Ledger.{has_id, count_fires, counts_for, active_of}
use picket_mcp.Store.History.{
  insert_row, newest_first, is_terminal_row, expired_rows, delete_rows, prune_results,
}
use picket_mcp.Store.Integrity.{IsUnique, select-IsUnique}

module _ {V : Type 0} where
  count_where-insert_row :
      (p : Fire V → Bool) (row : Fire V) (rows : List (Fire V))
      → count_where p (insert_row row rows) ≡ count_where p (row ∷ rows)
  unfolding insert_row
  count_where-insert_row p row [] = refl
  count_where-insert_row p row (r ∷ rows) = ground (arith, count_where-insert_row p row rows)

  -- Sorting rearranges the rows.
  pub count_where-newest_first :
      (p : Fire V → Bool) (rows : List (Fire V))
      → count_where p (newest_first rows) ≡ count_where p rows
  unfolding newest_first
  count_where-newest_first p [] = refl
  count_where-newest_first p (row ∷ rows) =
      omega
        (arith, count_where-insert_row p row (newest_first rows), count_where-newest_first p rows)

  length-insert_row :
      (row : Fire V) (rows : List (Fire V)) → length (insert_row row rows) ≡ length (row ∷ rows)
  unfolding insert_row
  length-insert_row row [] = refl
  length-insert_row row (r ∷ rows) = ground (arith, length-insert_row row rows)

  length-newest_first : (rows : List (Fire V)) → length (newest_first rows) ≡ length rows
  unfolding newest_first
  length-newest_first [] = refl
  length-newest_first (row ∷ rows) =
      omega (arith, length-insert_row row (newest_first rows), length-newest_first rows)

  abbrev keeps : Fire V → Fire V → Bool
  keeps row other = not (has_id row.fire_id other)

  -- `rows` are terminal rows of the table, each listed once.
  abbrev AreExpired : List (Fire V) → List (Fire V) → Type 0
  AreExpired rows fires =
      (x : Text)
      → count_where (has_id x) rows ≤ count_where (λ r. is_terminal_row r && has_id x r) fires

  AreExpired-select :
      (row : Fire V) (rows fires : List (Fire V))
      → IsUnique fires
      → AreExpired (row ∷ rows) fires
      → AreExpired rows (select (keeps row) fires)
  AreExpired-select row rows fires u h x =
      let kept =
        count_where-select-not (λ r. is_terminal_row r && has_id x r) (has_id row.fire_id) fires in
      elim (Bool-cases (text_eq row.fire_id x)) [
        | inl same ↦
            let h' = rw same at (h x) in
            let fewer =
              count_where_mono (λ r. is_terminal_row r && has_id x r) (has_id x) fires
                (λ r t. ground arith) in
            omega (arith, u.ids x)
        | inr other ↦
            let h' = rw other at (h x) in
            let apart =
              count_where-none (λ r. has_id row.fire_id r && (is_terminal_row r && has_id x r))
                fires
                (λ r. ground (
                  arith,
                  text_eq_iff r.fire_id row.fire_id,
                  text_eq_iff r.fire_id x,
                  text_eq_iff row.fire_id x,
                )) in
            omega arith
      ]

  -- Deleting terminal rows takes out just those rows.
  count_where-delete_rows :
      (rows fires : List (Fire V))
      → IsUnique fires
      → AreExpired rows fires
      → (count_where is_terminal_row (delete_rows rows fires) + length rows
          ≡ count_where is_terminal_row fires)
        × ((p : Fire V → Bool)
            → ((r : Fire V) → p r ≡ true → is_active r.status ≡ true)
            → count_where p (delete_rows rows fires) ≡ count_where p fires)
  unfolding delete_rows
  count_where-delete_rows [] fires u h = (omega arith, λ p imp. refl)
  count_where-delete_rows (row ∷ rows) fires u h =
      let x = row.fire_id in
      let fires' = select (keeps row) fires in
      let (terminal, others) =
        count_where-delete_rows rows fires' (select-IsUnique (keeps row) fires u)
          (AreExpired-select row rows fires u h) in
      let listed = rw (text_eq_refl x) at (h x) in
      (
        omega (
          arith,
          u.ids x,
          count_where-select-not is_terminal_row (has_id x) fires,
          count_where_mono (λ r. is_terminal_row r && has_id x r)
              (λ r. has_id x r && is_terminal_row r) fires (λ r t. ground arith),
          count_where_mono (λ r. has_id x r && is_terminal_row r) (has_id x) fires
              (λ r t. ground arith),
        ),
        λ p imp. omega (
          arith,
          others p imp,
          u.ids x,
          count_where-select-not p (has_id x) fires,
          count_where_disjoint (has_id x) p is_terminal_row fires (λ r t. ground (arith, imp r t)),
        ),
      )

  AreExpired-expired_rows :
      (keep : ℕ) (fires : List (Fire V)) → AreExpired (expired_rows keep fires) fires
  unfolding expired_rows
  AreExpired-expired_rows keep fires x =
      let terminal = select is_terminal_row fires in
      omega (
        arith,
        count_where-drop-le (has_id x) keep (newest_first terminal),
        count_where-newest_first (has_id x) terminal,
        count_where-select (has_id x) is_terminal_row fires,
      )

  length-expired_rows :
      (keep : ℕ) (fires : List (Fire V))
      → length (expired_rows keep fires) ≡ count_where is_terminal_row fires - keep
  unfolding expired_rows
  length-expired_rows keep fires =
      let terminal = select is_terminal_row fires in
      omega (
        arith,
        length-drop keep (newest_first terminal),
        length-newest_first terminal,
        length-select is_terminal_row fires,
      )

  -- Retention leaves min(keep, n) of n terminal fires and reports how many it dropped, and it
  -- leaves every fire in flight: each test that only fires in flight pass has the count it had.
  pub prune_results-counts :
      (keep : ℕ) (fires : List (Fire V))
      → IsUnique fires
      → let (after, _, removed) = prune_results keep fires in
        (count_where is_terminal_row after ≡ min keep (count_where is_terminal_row fires))
        × (removed ≡ count_where is_terminal_row fires - keep)
        × ((p : Fire V → Bool)
            → ((r : Fire V) → p r ≡ true → is_active r.status ≡ true)
            → count_where p after ≡ count_where p fires)
  unfolding prune_results
  prune_results-counts keep fires u =
      let (terminal, others) =
        count_where-delete_rows (expired_rows keep fires) fires u
          (AreExpired-expired_rows keep fires) in
      (omega (arith, length-expired_rows keep fires), length-expired_rows keep fires, others)

  -- After retention with `keep`, the fires that count toward `max_fires` are at most `keep` and
  -- those in flight, however often the watch has fired.
  pub count_fires-prune_results-le :
      (w : Text) (keep : ℕ) (fires : List (Fire V))
      → IsUnique fires
      → count_fires w (prune_results keep fires).0 ≤ keep + count_where (active_of w) fires
  unfolding count_fires
  count_fires-prune_results-le w keep fires u =
      let after = (prune_results keep fires).0 in
      let (terminal, _, others) = prune_results-counts keep fires u in
      omega (
        arith,
        others (active_of w) (λ r t. ground arith),
        count_where_cover (counts_for w) is_terminal_row (active_of w) after (λ r t. ground arith),
      )
