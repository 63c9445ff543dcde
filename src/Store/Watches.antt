-- ===== src/Store/Watches.antt =====
-- src/picket/persistence/store.py: the table `watches`. The column `data` holds the watch as JSON;
-- the model holds the record.
use picket_mcp.Prelude.{
  ◌≡◌, refl, arith, inl, inr, false, text_eq_iff, text_eq_refl, Bool-cases, ℕ, Text, text_eq,
  text_le, Bool, true, Option, none, some, List, [], ◌∷◌, ◌++◌, map, select, update_where,
  exists_where, if◌then◌else◌,
}
use picket_mcp.Core.Models.{WatchState, WatchStatus, DesiredStatus}

pub record WatchRow (N : Type 0) : Type 0 where
  pub watch_id : Text
  pub state : WatchState N
  pub status : WatchStatus
  pub desired : DesiredStatus
  pub updated_at : ℕ

abbrev pub desired_eq : DesiredStatus → DesiredStatus → Bool
desired_eq DesiredStatus.active DesiredStatus.active = true
desired_eq DesiredStatus.paused DesiredStatus.paused = true
desired_eq DesiredStatus.stopped DesiredStatus.stopped = true
desired_eq _ _ = false

-- ORDER BY watch_id
unfoldable pub insert_id : Text → List Text → List Text
unfolding text_le
insert_id w [] = w ∷ []
insert_id w (x ∷ xs) = let rest = insert_id w xs in if text_le w x then w ∷ x ∷ xs else x ∷ rest

unfoldable pub sort_ids : List Text → List Text
unfolding insert_id
sort_ids [] = []
sort_ids (w ∷ ws) = insert_id w (sort_ids ws)

module _ {N : Type 0} where
  abbrev pub row_of : Text → WatchRow N → Bool
  row_of watch_id row = text_eq row.watch_id watch_id

  abbrev pub watch_row : ℕ → WatchState N → WatchRow N
  watch_row now state = record {
    watch_id = state.watch_id;
    state = state;
    status = state.status;
    desired = state.desired_status;
    updated_at = now;
  }

  -- INSERT … ON CONFLICT(watch_id) DO UPDATE
  unfoldable pub write_watch : ℕ → WatchState N → List (WatchRow N) → List (WatchRow N)
  unfolding text_eq
  write_watch now state table =
      if exists_where (row_of state.watch_id) table
      then update_where (row_of state.watch_id) (λ row. watch_row now state) table
      else table ++ watch_row now state ∷ []

  unfoldable pub read_watch : Text → List (WatchRow N) → Option (WatchState N)
  unfolding text_eq
  read_watch watch_id [] = none
  read_watch watch_id (row ∷ rows) =
      if row_of watch_id row then some row.state else read_watch watch_id rows

  unfoldable pub all_watch_ids : List (WatchRow N) → List Text
  unfolding sort_ids
  all_watch_ids table = sort_ids (map (λ row. row.watch_id) table)

  unfoldable pub watch_ids_by_desired : DesiredStatus → List (WatchRow N) → List Text
  unfolding sort_ids
  watch_ids_by_desired desired table =
      sort_ids (map (λ row. row.watch_id) (select (λ row. desired_eq row.desired desired) table))

  read_watch-update_ne :
      (now : ℕ) (state : WatchState N) (w : Text) (table : List (WatchRow N))
      → text_eq state.watch_id w ≡ false
      → read_watch w (update_where (row_of state.watch_id) (λ row. watch_row now state) table)
        ≡ read_watch w table
  unfolding read_watch
  read_watch-update_ne now state w [] ne = refl
  read_watch-update_ne now state w (row ∷ rows) ne = ground (
    arith,
    text_eq_iff row.watch_id state.watch_id,
    text_eq_iff row.watch_id w,
    text_eq_iff state.watch_id w,
    read_watch-update_ne now state w rows ne,
  )

  read_watch-update_self :
      (now : ℕ) (state : WatchState N) (table : List (WatchRow N))
      → exists_where (row_of state.watch_id) table ≡ true
      → read_watch state.watch_id
          (update_where (row_of state.watch_id) (λ row. watch_row now state) table)
        ≡ some state
  unfolding read_watch
  read_watch-update_self now state [] found = absurd (ground arith)
  read_watch-update_self now state (row ∷ rows) found =
      ground (arith, text_eq_refl state.watch_id, read_watch-update_self now state rows)

  read_watch-append :
      (now : ℕ) (state : WatchState N) (w : Text) (table : List (WatchRow N))
      → exists_where (row_of state.watch_id) table ≡ false
      → read_watch w (table ++ watch_row now state ∷ [])
        ≡ (if text_eq state.watch_id w then some state else read_watch w table)
  unfolding read_watch
  read_watch-append now state w [] absent = refl
  read_watch-append now state w (row ∷ rows) absent = ground (
    arith,
    text_eq_iff row.watch_id state.watch_id,
    text_eq_iff row.watch_id w,
    text_eq_iff state.watch_id w,
    read_watch-append now state w rows,
  )

  -- A write is read back, and the other watches are as they were.
  pub read_watch-write_watch :
      (now : ℕ) (state : WatchState N) (w : Text) (table : List (WatchRow N))
      → read_watch w (write_watch now state table)
        ≡ (if text_eq state.watch_id w then some state else read_watch w table)
  unfolding write_watch
  read_watch-write_watch now state w table =
      elim (Bool-cases (exists_where (row_of state.watch_id) table)) [
        | inr absent ↦ rw absent (read_watch-append now state w table absent)
        | inl found ↦ rw found (elim (Bool-cases (text_eq state.watch_id w)) [
          | inr ne ↦ rw ne (read_watch-update_ne now state w table ne)
          | inl same ↦ rw same (
              rw (← (text_eq_iff state.watch_id w).0 same)
                (read_watch-update_self now state table found))
        ])
      ]

  pub read_watch-write_watch_self :
      (now : ℕ) (state : WatchState N) (table : List (WatchRow N))
      → read_watch state.watch_id (write_watch now state table) ≡ some state
  read_watch-write_watch_self now state table =
      rw (read_watch-write_watch now state state.watch_id table)
        (rw (text_eq_refl state.watch_id) refl)
