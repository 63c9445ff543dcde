-- ===== src/Store/Keyed.antt =====
-- src/picket/persistence/store.py: the key of a row of `watches` is the id of the watch in it.
use mathlib.Core.Option.{some-injective}
use picket_mcp.Prelude.{
  ℕ, Text, text_eq_iff, ◌≡◌, refl, some, List, [], ◌∷◌, ◌++◌, All, arith, exists_where,
  update_where, Bool-cases, inl, inr, ap, sym, ◌∙◌,
}
use picket_mcp.Core.Models.{WatchState}
use picket_mcp.Store.Watches.{WatchRow, row_of, watch_row, read_watch, write_watch}

module _ {N : Type 0} where
  abbrev pub IsKeyed : List (WatchRow N) → Type 0
  IsKeyed table = All (λ row. row.state.watch_id ≡ row.watch_id) table

  pub read_watch-id :
      (w : Text) (table : List (WatchRow N)) (state : WatchState N)
      → IsKeyed table
      → read_watch w table ≡ some state
      → state.watch_id ≡ w
  unfolding read_watch
  read_watch-id w [] state k h = absurd (ground arith)
  read_watch-id w (row ∷ rows) state k h = elim (Bool-cases (row_of w row)) [
    | inl e ↦
        ap (λ s. s.watch_id) (sym (some-injective _ _ (rw e at h)))
        ∙ k.0
        ∙ (text_eq_iff row.watch_id w).0 e
    | inr e ↦ read_watch-id w rows state k.1 (rw e at h)
  ]

  update-IsKeyed :
      (now : ℕ) (state : WatchState N) (w : Text) (table : List (WatchRow N))
      → IsKeyed table
      → IsKeyed (update_where (row_of w) (λ row. watch_row now state) table)
  update-IsKeyed now state w [] k = tt
  update-IsKeyed now state w (row ∷ rows) k = ground (arith, update-IsKeyed now state w rows k.1)

  append-IsKeyed :
      (now : ℕ) (state : WatchState N) (table : List (WatchRow N))
      → IsKeyed table
      → IsKeyed (table ++ watch_row now state ∷ [])
  append-IsKeyed now state [] k = (refl, tt)
  append-IsKeyed now state (row ∷ rows) k = (k.0, append-IsKeyed now state rows k.1)

  pub write_watch-IsKeyed :
      (now : ℕ) (state : WatchState N) (table : List (WatchRow N))
      → IsKeyed table
      → IsKeyed (write_watch now state table)
  unfolding write_watch
  write_watch-IsKeyed now state table k =
      elim (Bool-cases (exists_where (row_of state.watch_id) table)) [
        | inl e ↦ rw e (update-IsKeyed now state state.watch_id table k)
        | inr e ↦ rw e (append-IsKeyed now state table k)
      ]
