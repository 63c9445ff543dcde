-- ===== src/Store/History.antt =====
-- src/picket/persistence/store.py: crash recovery, retention, and the queries on the fire history.
use picket_mcp.Prelude.{
  ℕ, ℤ, pos, negsuc, Text, codes, text_eq, Bool, true, false, not, ◌&&◌, Option, none, some, List,
  [], ◌∷◌, map, ltb, leb, select, count_where, update_where, length, take, drop, if◌then◌else◌,
}
use picket_mcp.Store.Fire.{Fire, FireDict, failed, is_running, is_active, fire_dict}
use picket_mcp.Store.Ledger.{of_watch, has_id}

abbrev pub lease_lost : Text
lease_lost = codes "recovered: worker lease expired (crash)"

-- `if watch_id` of an optional id: None and the empty text are false.
abbrev pub truthy : Option Text → Bool
truthy (some (c ∷ s)) = true
truthy _ = false

-- lease_expires_at IS NOT NULL AND lease_expires_at < now
abbrev pub before : Option ℕ → ℕ → Bool
before none now = false
before (some lease) now = ltb lease now

module _ {V : Type 0} where
  -- The clause on the watch that is added only for a truthy `watch_id`.
  abbrev pub in_scope : Option Text → Fire V → Bool
  in_scope (some (c ∷ s)) row = of_watch (c ∷ s) row
  in_scope _ row = true

  abbrev pub is_abandoned : ℕ → Option Text → Fire V → Bool
  is_abandoned now watch_id row =
      is_running row.status && before row.lease_expires_at now && in_scope watch_id row

  abbrev pub recover_row : ℕ → Fire V → Fire V
  recover_row now row = record row {
    status = failed;
    error = some lease_lost;
    ended_at = some now;
    lease_expires_at = none;
  }

  -- The table, and the number of rows that were updated.
  unfoldable pub recover_abandoned : ℕ → Option Text → List (Fire V) → List (Fire V) × ℕ
  unfolding text_eq
  recover_abandoned now watch_id fires = (
    update_where (is_abandoned now watch_id) (recover_row now) fires,
    count_where (is_abandoned now watch_id) fires,
  )

  abbrev pub first_dict : List (Fire V) → Option (FireDict V)
  first_dict [] = none
  first_dict (row ∷ rows) = some (fire_dict row)

  unfoldable pub read_fire : Text → List (Fire V) → Option (FireDict V)
  unfolding fire_dict text_eq
  read_fire fire_id fires = first_dict (select (has_id fire_id) fires)

  -- ORDER BY created_at DESC, rowid DESC: `row` has a smaller rowid than all of the sorted rows.
  unfoldable pub insert_row : Fire V → List (Fire V) → List (Fire V)
  insert_row row [] = row ∷ []
  insert_row row (other ∷ rows) =
      if leb row.created_at other.created_at
      then other ∷ insert_row row rows
      else row ∷ other ∷ rows

  unfoldable pub newest_first : List (Fire V) → List (Fire V)
  unfolding insert_row
  newest_first [] = []
  newest_first (row ∷ rows) = insert_row row (newest_first rows)

  -- LIMIT: a negative limit is no limit.
  abbrev pub limited : ℤ → List (Fire V) → List (Fire V)
  limited (pos n) rows = take n rows
  limited (negsuc n) rows = rows

  unfoldable pub recent_fires : Option Text → ℤ → List (Fire V) → List (FireDict V)
  unfolding newest_first fire_dict text_eq
  recent_fires watch_id limit fires =
      map fire_dict (limited limit (newest_first (select (in_scope watch_id) fires)))

  abbrev pub head_of : List (FireDict V) → Option (FireDict V)
  head_of [] = none
  head_of (d ∷ ds) = some d

  unfoldable pub most_recent_fire : Text → List (Fire V) → Option (FireDict V)
  unfolding recent_fires
  most_recent_fire watch_id fires = head_of (recent_fires (some watch_id) (pos 1) fires)

  abbrev pub is_terminal_row : Fire V → Bool
  is_terminal_row row = not (is_active row.status)

  -- LIMIT -1 OFFSET keep
  unfoldable pub expired_rows : ℕ → List (Fire V) → List (Fire V)
  unfolding newest_first
  expired_rows keep fires = drop keep (newest_first (select is_terminal_row fires))

  -- The loop over the rows: a DELETE for each.
  unfoldable pub delete_rows : List (Fire V) → List (Fire V) → List (Fire V)
  unfolding text_eq
  delete_rows [] fires = fires
  delete_rows (row ∷ rows) fires =
      delete_rows rows (select (λ other. not (has_id row.fire_id other)) fires)

  -- The result files that the loop unlinks.
  unfoldable pub unlinked : List (Fire V) → List Text
  unlinked [] = []
  unlinked (row ∷ rows) =
      let rest = unlinked rows in
      elim row.result_path [ some (c ∷ path) ↦ (c ∷ path) ∷ rest | _ ↦ rest ]

  -- The table, the files removed, and the number of rows dropped.
  unfoldable pub prune_results : ℕ → List (Fire V) → List (Fire V) × List Text × ℕ
  unfolding expired_rows delete_rows unlinked
  prune_results keep fires =
      let expired = expired_rows keep fires in
      (delete_rows expired fires, unlinked expired, length expired)
