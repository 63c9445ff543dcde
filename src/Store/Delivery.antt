-- ===== src/Store/Delivery.antt =====
-- src/picket/persistence/store.py: the control channel of a watch behaves like a mailbox for one command.
use picket_mcp.Prelude.{
  ℕ, ◌<◌, ◌≤◌, Text, text_eq, text_eq_iff, ◌≡◌, refl, sym, ap, ◌∙◌, ◌≢◌, Bool, true, false, not,
  ◌&&◌, Option, none, some, List, [], ◌∷◌, ◌++◌, arith, select, update_where, All, All-select, leb,
  inl, inr, Option-cases, Bool-cases, if◌then◌else◌,
}
use picket_mcp.Store.Commands.{
  Command, CommandRow, CommandTable, enqueue_command, is_unacked, newest, poll_command, newer_of,
  is_acked_by, ack_row, ack_command, id_and_name,
}
use picket_mcp.Store.Channel.{
  IsChannel, poll-enqueue, poll-ack, poll-ack_other, select-ack, newest-All, poll-newest,
}
use picket_mcp.Store.Mailbox.{
  Event, sent, polled, acked, acked_other, Channel, id_of, command_of, ack_held, channel_step,
  channel_run, Mailbox, is_waiting, mailbox_step, mailbox_run,
}

-- The id that a poll found lies above the id that is held, if the command is one that came later.
abbrev HeldBelow : Option ℕ → Option (ℕ × Command) → Type 0
HeldBelow none p = Unit
HeldBelow (some j) none = Unit
HeldBelow (some j) (some (i, c)) = j < i

abbrev HeldKnown : Option ℕ → ℕ → Type 0
HeldKnown none last = Unit
HeldKnown (some j) last = j ≤ last

abbrev HeldIs : Bool → Option ℕ → Option (ℕ × Command) → Type 0
HeldIs true held p = (held ≡ id_of p) × (p ≢ none)
HeldIs false held p = HeldBelow held p

-- The mailbox is what the table holds for the watch.
record Refines (w : Text) (s : Channel) (m : Mailbox) : Type 0 where
  channel : IsChannel s.table
  known : HeldKnown s.held s.table.last_id
  waiting : command_of (poll_command w s.table) ≡ m.waiting
  read : HeldIs m.was_read s.held (poll_command w s.table)

-- The row, unless an acknowledgement up to `j` reaches it.
abbrev above : ℕ → Option CommandRow → Option CommandRow
above j none = none
above j (some row) = if leb row.id j then none else some row

above-newer_of :
    (j : ℕ) (r : CommandRow) (o : Option CommandRow)
    → above j (newer_of r o) ≡ (if leb r.id j then above j o else newer_of r (above j o))
above-newer_of j r none = ground arith
above-newer_of j r (some o) = elim (Bool-cases (leb r.id j)) [
  | inl h ↦ elim (Bool-cases (leb o.id r.id)) [ inl k ↦ ground arith | inr k ↦ rw (h, k) refl ]
  | inr h ↦ elim (Bool-cases (leb o.id r.id)) [
    | inl k ↦ elim (Bool-cases (leb o.id j)) [
      | inl l ↦ rw (h, k, l) (rw h refl)
      | inr l ↦ rw (h, k, l) (rw (h, k) refl)
    ]
    | inr k ↦ ground arith
  ]
]

newest-above :
    (w : Text) (j : ℕ) (rows : List CommandRow)
    → newest (select (λ r. is_unacked w r && not (leb r.id j)) rows)
      ≡ above j (newest (select (is_unacked w) rows))
unfolding newest
newest-above w j [] = refl
newest-above w j (r ∷ rows) = elim (Bool-cases (is_unacked w r)) [
  | inr h ↦ rw h (newest-above w j rows)
  | inl h ↦
      let head = above-newer_of j r (newest (select (is_unacked w) rows)) in
      let rest = newest-above w j rows in
      elim (Bool-cases (leb r.id j)) [
        | inl l ↦ rw (h, l) (rest ∙ sym (head ∙ rw l refl))
        | inr l ↦ rw (h, l) (ap (newer_of r) rest ∙ sym (head ∙ rw l refl))
      ]
]

-- What a poll finds after an acknowledgement up to `j`.
pub poll-ack_above :
    (now : ℕ) (w : Text) (j : ℕ) (table : CommandTable)
    → poll_command w (ack_command now w j table)
      ≡ id_and_name (above j (newest (select (is_unacked w) table.rows)))
unfolding poll_command ack_command
poll-ack_above now w j table =
    ap (λ rows. id_and_name (newest rows)) (select-ack now w j table.rows)
    ∙ ap id_and_name (newest-above w j table.rows)

select-append_other :
    (w : Text) (rows : List CommandRow) (row : CommandRow)
    → is_unacked w row ≡ false
    → select (is_unacked w) (rows ++ row ∷ []) ≡ select (is_unacked w) rows
select-append_other w [] row h = rw h refl
select-append_other w (r ∷ rows) row h = ground (arith, select-append_other w rows row h)

pub poll-enqueue_other :
    (now : ℕ) (v w : Text) (c : Command) (table : CommandTable)
    → text_eq v w ≡ false
    → poll_command w (enqueue_command now v c table).0 ≡ poll_command w table
unfolding poll_command enqueue_command
poll-enqueue_other now v w c table other =
    ap (λ rows. id_and_name (newest rows))
      (select-append_other w table.rows _ (ground (arith, other)))

pub ack-IsChannel :
    (now : ℕ) (v : Text) (i : ℕ) (table : CommandTable)
    → IsChannel table
    → IsChannel (ack_command now v i table)
unfolding ack_command
ack-IsChannel now v i table h = go table.rows h
  where
    go :
        (rows : List CommandRow)
        → All (λ row. row.id ≤ table.last_id) rows
        → All (λ row. row.id ≤ table.last_id) (update_where (is_acked_by v i) (ack_row now) rows)
    go [] k = tt
    go (r ∷ rows) k = (ground (arith, k.0), go rows k.1)

-- A command that a poll finds was given an id.
poll-known :
    (w : Text) (table : CommandTable)
    → IsChannel table
    → HeldKnown (id_of (poll_command w table)) table.last_id
poll-known w table h = elim (Option-cases (poll_command w table)) [
  | inl e ↦ rw e tt
  | inr ((i, c), e) ↦
      let (row, found, same) = poll-newest w table i c e in
      rw e (
        omega (
          arith,
          same,
          newest-All table.last_id _ row found (All-select _ (is_unacked w) table.rows h),
        ))
]

-- An acknowledgement of an older command than the one that waits leaves this one waiting.
poll-ack_below :
    (now : ℕ) (w : Text) (j : ℕ) (table : CommandTable)
    → HeldBelow (some j) (poll_command w table)
    → poll_command w (ack_command now w j table) ≡ poll_command w table
unfolding poll_command
poll-ack_below now w j table below =
    poll-ack_above now w j table ∙ keeps (newest (select (is_unacked w) table.rows)) below
  where
    keeps :
        (o : Option CommandRow)
        → HeldBelow (some j) (id_and_name o)
        → id_and_name (above j o) ≡ id_and_name o
    keeps none b = refl
    keeps (some row) b = ground arith

sent_self-Refines :
    (w : Text) (now : ℕ) (c : Command) (s : Channel) (m : Mailbox)
    → Refines w s m
    → Refines w
        (record s { table = (enqueue_command now w c s.table).0 })
        (record { waiting = some c; was_read = false })
unfolding enqueue_command
sent_self-Refines w now c s m r =
    let (older, polled_new, channel) = poll-enqueue now w c s.table r.channel in
    record {
      channel = channel;
      known = known s.held r.known;
      waiting = ap command_of polled_new;
      read = below s.held r.known _ polled_new;
    }
  where
    known :
        (held : Option ℕ)
        → HeldKnown held s.table.last_id
        → HeldKnown held (enqueue_command now w c s.table).0.last_id
    known none k = tt
    known (some j) k = omega (arith, k)

    below :
        (held : Option ℕ)
        → HeldKnown held s.table.last_id
        → (p : Option (ℕ × Command)) → p ≡ some ((enqueue_command now w c s.table).0.last_id, c)
        → HeldBelow held p
    below none k p e = tt
    below (some j) k p e = rw e (omega (arith, k))

sent_other-Refines :
    (w v : Text) (now : ℕ) (c : Command) (s : Channel) (m : Mailbox)
    → text_eq v w ≡ false
    → Refines w s m
    → Refines w (record s { table = (enqueue_command now v c s.table).0 }) m
unfolding enqueue_command
sent_other-Refines w v now c s m other r =
    let (older, polled_new, channel) = poll-enqueue now v c s.table r.channel in
    let same = poll-enqueue_other now v w c s.table other in
    record {
      channel = channel;
      known = known s.held r.known;
      waiting = ap command_of same ∙ r.waiting;
      read = rw same r.read;
    }
  where
    known :
        (held : Option ℕ)
        → HeldKnown held s.table.last_id
        → HeldKnown held (enqueue_command now v c s.table).0.last_id
    known none k = tt
    known (some j) k = omega (arith, k)

polled-Refines :
    (w : Text) (s : Channel) (m : Mailbox)
    → Refines w s m
    → Refines w (channel_step w polled s) (mailbox_step w polled m)
unfolding channel_step mailbox_step
polled-Refines w s m r = record {
  channel = r.channel;
  known = poll-known w s.table r.channel;
  waiting = r.waiting;
  read = rw (sym r.waiting) (found (poll_command w s.table));
}
  where
    found : (p : Option (ℕ × Command)) → HeldIs (is_waiting (command_of p)) (id_of p) p
    found none = tt
    found (some (i, c)) = (refl, λ e. cc)

ack_held-IsChannel :
    (now : ℕ) (w : Text) (held : Option ℕ) (table : CommandTable)
    → IsChannel table
    → IsChannel (ack_held now w held table)
ack_held-IsChannel now w none table h = h
ack_held-IsChannel now w (some i) table h = ack-IsChannel now w i table h

-- Acknowledging what is held empties the mailbox exactly if the waiting command was read.
ack_held-command :
    (now : ℕ) (w : Text) (was_read : Bool) (held : Option ℕ) (table : CommandTable)
    → IsChannel table
    → HeldIs was_read held (poll_command w table)
    → command_of (poll_command w (ack_held now w held table))
      ≡ (if was_read then none else command_of (poll_command w table))
ack_held-command now w false none table h r = refl
ack_held-command now w false (some j) table h r = ap command_of (poll-ack_below now w j table r)
ack_held-command now w true held table h (e, ne) = elim (Option-cases (poll_command w table)) [
  | inl absent ↦ absurd (ne absent)
  | inr ((i, c), q) ↦
      let same : held ≡ some i = e ∙ ap id_of q in
      rw same (ap command_of (poll-ack now w table i c h q).0)
]

acked-Refines :
    (w : Text) (now : ℕ) (s : Channel) (m : Mailbox)
    → Refines w s m
    → Refines w (channel_step w (acked now) s) (mailbox_step w (acked now) m)
unfolding channel_step mailbox_step
acked-Refines w now s m r = record {
  channel = ack_held-IsChannel now w s.held s.table r.channel;
  known = tt;
  waiting =
      ack_held-command now w m.was_read s.held s.table r.channel r.read
      ∙ ap (λ c. if m.was_read then none else c) r.waiting;
  read = tt;
}

step-Refines :
    (w : Text) (e : Event) (s : Channel) (m : Mailbox)
    → Refines w s m
    → Refines w (channel_step w e s) (mailbox_step w e m)
unfolding channel_step mailbox_step ack_command
step-Refines w (sent now v c) s m r = elim (Bool-cases (text_eq v w)) [
  | inl same ↦ rw same (rw ((text_eq_iff v w).0 same) (sent_self-Refines w now c s m r))
  | inr other ↦ rw other (sent_other-Refines w v now c s m other r)
]
step-Refines w polled s m r = polled-Refines w s m r
step-Refines w (acked now) s m r = acked-Refines w now s m r
step-Refines w (acked_other now v i) s m r = elim (Bool-cases (text_eq v w)) [
  | inl same ↦ rw same r
  | inr other ↦
      let kept = poll-ack_other now v w i s.table other in
      rw other (record {
        channel = ack-IsChannel now v i s.table r.channel;
        known = r.known;
        waiting = ap command_of kept ∙ r.waiting;
        read = rw kept r.read;
      })
]

run-Refines :
    (w : Text) (es : List Event) (s : Channel) (m : Mailbox)
    → Refines w s m
    → channel_run w es s ≡ mailbox_run w es m
unfolding channel_run mailbox_run
run-Refines w [] s m r = refl
run-Refines w (polled ∷ es) s m r =
    let rest = run-Refines w es _ _ (step-Refines w polled s m r) in
    ap (λ c. c ∷ channel_run w es (channel_step w polled s)) r.waiting
    ∙ ap (λ cs. m.waiting ∷ cs) rest
run-Refines w (sent now v c ∷ es) s m r = run-Refines w es _ _ (step-Refines w (sent now v c) s m r)
run-Refines w (acked now ∷ es) s m r = run-Refines w es _ _ (step-Refines w (acked now) s m r)
run-Refines w (acked_other now v i ∷ es) s m r =
    run-Refines w es _ _ (step-Refines w (acked_other now v i) s m r)

-- From an empty table, whatever is sent, polled and acknowledged, and in whatever order, what the
-- daemon of a watch sees at its polls is what it would see in a mailbox that holds one command: a new command replaces
-- the one that waits, an acknowledgement removes it only if it has been polled, and the commands of other watches do not matter.
pub channel_run-mailbox_run :
    (w : Text) (es : List Event)
    → channel_run w es (record { table = record { rows = []; last_id = 0 }; held = none })
      ≡ mailbox_run w es (record { waiting = none; was_read = false })
unfolding poll_command
channel_run-mailbox_run w es =
    run-Refines w es _ _ (record { channel = tt; known = tt; waiting = refl; read = tt })
