-- ===== src/Store/Channel.antt =====
-- src/picket/persistence/store.py: the control channel delivers the newest command and loses none.
use picket_mcp.Prelude.{
  ℕ, ◌<◌, ◌≤◌, ◌+◌, Text, text_eq, text_eq_iff, text_eq_refl, ◌≡◌, refl, Bool, true, false, not,
  ◌&&◌, none, some, List, [], ◌∷◌, ◌++◌, arith, select, update_where, All, All-mono, All-append,
  All-select, All-select_imp, leb, inl, inr, Option-cases,
}
use picket_mcp.Store.Commands.{
  Command, CommandRow, CommandTable, for_watch, max_generation, new_command, enqueue_command,
  is_unacked, newest, poll_command, is_acked_by, ack_row, ack_command,
}

-- AUTOINCREMENT: no id is above the last one given out.
abbrev pub IsChannel : CommandTable → Type 0
IsChannel table = All (λ row. row.id ≤ table.last_id) table.rows

max_generation-le :
    (rows : List CommandRow) → All (λ row. row.generation ≤ max_generation rows) rows
unfolding max_generation
max_generation-le [] = tt
max_generation-le (row ∷ rows) = (
  omega arith,
  All-mono (λ r. r.generation ≤ max_generation rows) _ rows (λ r h. omega arith)
      (max_generation-le rows),
)

newest-snoc :
    (rows : List CommandRow) (row : CommandRow)
    → All (λ r. r.id < row.id) rows
    → newest (rows ++ row ∷ []) ≡ some row
unfolding newest
newest-snoc [] row h = refl
newest-snoc (r ∷ rows) row h = ground (arith, newest-snoc rows row h.1)

pub select-snoc {ℓ} :
    {A : Type ℓ} (test : A → Bool) (xs : List A) (x : A)
    → test x ≡ true
    → select test (xs ++ x ∷ []) ≡ select test xs ++ x ∷ []
select-snoc test [] x h = rw h
select-snoc test (y ∷ xs) x h = ground (arith, select-snoc test xs x h)

older :
    (w : Text) (table : CommandTable)
    → IsChannel table
    → All (λ r. r.id < table.last_id + 1) (select (is_unacked w) table.rows)
older w table h =
    All-select _ (is_unacked w) table.rows (All-mono _ _ table.rows (λ r k. omega arith) h)

newest-none : (P : CommandRow → Type 0) (rows : List CommandRow) → newest rows ≡ none → All P rows
unfolding newest
newest-none P [] e = tt
newest-none P (r ∷ rows) e = absurd (ground arith)

-- A new command gets a generation above all that the watch had, and is what a poll returns next.
pub poll-enqueue :
    (now : ℕ) (w : Text) (c : Command) (table : CommandTable)
    → IsChannel table
    → let (after, gen) = enqueue_command now w c table in
      All (λ row. for_watch w row ≡ true → row.generation < gen) table.rows
      × (poll_command w after ≡ some (after.last_id, c))
      × IsChannel after
unfolding enqueue_command poll_command
poll-enqueue now w c table h =
    let row =
      new_command (table.last_id + 1) w c (max_generation (select (for_watch w) table.rows) + 1)
        now in
    (
      All-select_imp (λ r. r.generation < row.generation) (for_watch w) table.rows
          (All-mono _ _ (select (for_watch w) table.rows) (λ r k. omega arith)
            (max_generation-le _)),
      rw (select-snoc (is_unacked w) table.rows row (ground (arith, text_eq_refl w)))
          (rw (newest-snoc (select (is_unacked w) table.rows) row (older w table h))),
      All-append _ table.rows (All-mono _ _ table.rows (λ r k. omega arith) h) (omega arith),
    )

-- What is unacked after an acknowledgement: the commands that are newer than it.
pub select-ack :
    (now : ℕ) (w : Text) (i : ℕ) (rows : List CommandRow)
    → select (is_unacked w) (update_where (is_acked_by w i) (ack_row now) rows)
      ≡ select (λ r. is_unacked w r && not (leb r.id i)) rows
select-ack now w i [] = refl
select-ack now w i (r ∷ rows) = ground (arith, select-ack now w i rows)

select-none {ℓ} :
    {A : Type ℓ} (p q : A → Bool) (xs : List A)
    → All (λ x. p x ≡ true → q x ≡ true) xs
    → select (λ x. p x && not (q x)) xs ≡ []
select-none p q [] h = refl
select-none p q (x ∷ xs) h = ground (arith, h.0, select-none p q xs h.1)

-- The newest row is a row, and no id is above its id.
newest-le :
    (rows : List CommandRow) (row : CommandRow)
    → newest rows ≡ some row
    → All (λ r. r.id ≤ row.id) rows
unfolding newest
newest-le [] row e = tt
newest-le (r ∷ rows) row e = elim (Option-cases (newest rows)) [
  | inl n ↦ (ground arith, newest-none _ rows n)
  | inr (o, eo) ↦ (
    ground arith,
    All-mono (λ r'. r'.id ≤ o.id) _ rows (λ r' h. ground arith) (newest-le rows o eo),
  )
]

pub newest-All :
    (bound : ℕ) (rows : List CommandRow) (row : CommandRow)
    → newest rows ≡ some row
    → All (λ r. r.id ≤ bound) rows
    → row.id ≤ bound
unfolding newest
newest-All bound [] row e h = absurd (ground arith)
newest-All bound (r ∷ rows) row e h = ground (arith, newest-All bound rows row)

pub poll-newest :
    (w : Text) (table : CommandTable) (i : ℕ) (c : Command)
    → poll_command w table ≡ some (i, c)
    → (row : CommandRow) × (newest (select (is_unacked w) table.rows) ≡ some row) × (row.id ≡ i)
unfolding poll_command
poll-newest w table i c e = elim (Option-cases (newest (select (is_unacked w) table.rows))) [
  | inl n ↦ absurd (ground arith)
  | inr (row, er) ↦ (row, er, ground arith)
]

-- Acknowledging the command that was polled settles all that the watch had: the next poll finds
-- nothing, and a command that came between the poll and the acknowledgement is still delivered.
pub poll-ack :
    (now : ℕ) (w : Text) (table : CommandTable) (i : ℕ) (c : Command)
    → IsChannel table
    → poll_command w table ≡ some (i, c)
    → (poll_command w (ack_command now w i table) ≡ none)
      × ((later : ℕ) (c' : Command)
          → let after = (enqueue_command later w c' table).0 in
            poll_command w (ack_command now w i after) ≡ some (after.last_id, c'))
unfolding poll_command ack_command enqueue_command
poll-ack now w table i c h e =
    let (row, found, same) = poll-newest w table i c e in
    let all_older =
      All-select_imp (λ r. r.id ≤ row.id) (is_unacked w) table.rows (newest-le _ row found) in
    let in_range =
      newest-All table.last_id _ row found (All-select _ (is_unacked w) table.rows h) in
    let settled =
      select-none (is_unacked w) (λ r. leb r.id i) table.rows
        (All-mono _ _ table.rows (λ r k t. ground (arith, k t)) all_older) in
    (
      rw (select-ack now w i table.rows) (rw settled refl),
      λ later c'.
          let row' =
            new_command (table.last_id + 1) w c'
              (max_generation (select (for_watch w) table.rows) + 1) later in
          rw (select-ack now w i (table.rows ++ row' ∷ [])) (
            rw
              (select-snoc (λ r. is_unacked w r && not (leb r.id i)) table.rows row'
                (ground (arith, text_eq_refl w)))
              (rw settled refl)),
    )

-- Commands of other watches are not touched: what they poll stays the same.
pub poll-ack_other :
    (now : ℕ) (w w' : Text) (i : ℕ) (table : CommandTable)
    → text_eq w w' ≡ false
    → poll_command w' (ack_command now w i table) ≡ poll_command w' table
unfolding poll_command ack_command
poll-ack_other now w w' i table other = rw (select-ack_other table.rows)
  where
    select-ack_other :
        (rows : List CommandRow)
        → select (is_unacked w') (update_where (is_acked_by w i) (ack_row now) rows)
          ≡ select (is_unacked w') rows
    select-ack_other [] = refl
    select-ack_other (r ∷ rows) = ground (
      arith,
      text_eq_iff r.watch_id w,
      text_eq_iff r.watch_id w',
      text_eq_iff w w',
      select-ack_other rows,
    )
