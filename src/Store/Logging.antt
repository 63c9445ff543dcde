-- ===== src/Store/Logging.antt =====
-- src/picket/persistence/store.py: how large `append_log` lets a log become, and which lines are read.
use mathlib.Core.List.{append_assoc, append-nil}
use picket_mcp.Prelude.{
  ℕ, ℤ, ◌+◌, ◌≤◌, ◌<◌, Text, ◌≡◌, refl, sym, ap, ◌∙◌, true, false, Option, none, some, List, [],
  ◌∷◌, ◌++◌, arith, inl, inr, Bool-cases, Option-cases, All, All-append,
}
use picket_mcp.Store.Logs.{
  size, Log, rstrip, exceeds, roll_over, append_log, universal, is_break, splitlines,
  slice_from_end, log_tail, content_or_empty,
}

-- The lines in the order in which they are appended.
unfoldable pub append_all : ℕ → List Text → Log → Log
unfolding append_log
append_all max_bytes [] log = log
append_all max_bytes (line ∷ lines) log = append_all max_bytes lines (append_log max_bytes line log)

-- A file, if there is one, has no more bytes.
abbrev pub FileWithin : ℕ → Option Text → Type 0
FileWithin bound none = Unit
FileWithin bound (some content) = size content ≤ bound

abbrev pub LogWithin : ℕ → Log → Type 0
LogWithin bound log = FileWithin bound log.current × FileWithin bound log.rolled

size-append : (s t : Text) → size (s ++ t) ≡ size s + size t
unfolding size
size-append [] t = omega arith
size-append (c ∷ s) t = ground (arith, size-append s t)

size-rstrip : (s : Text) → size (rstrip s) ≤ size s
unfolding size rstrip
size-rstrip [] = omega arith
size-rstrip (c ∷ s) = ground (arith, size-rstrip s)

added :
    (content line : Text) → size (content ++ rstrip line ++ 10 ∷ []) ≤ size content + size line + 1
unfolding size
added content line = omega (
  arith,
  size-append (content ++ rstrip line) (10 ∷ []),
  size-append content (rstrip line),
  size-rstrip line,
)

append_log-LogWithin :
    (max_bytes longest : ℕ) (line : Text) (log : Log)
    → size line ≤ longest
    → LogWithin (max_bytes + longest + 1) log
    → LogWithin (max_bytes + longest + 1) (append_log max_bytes line log)
unfolding append_log roll_over
append_log-LogWithin max_bytes longest line log short within = elim (Option-cases log.current) [
  | inl e ↦ rw e (omega (arith, added [] line), within.1)
  | inr (content, e) ↦ rw e (elim (Bool-cases (exceeds max_bytes (some content))) [
    | inl big ↦ rw big (omega (arith, added [] line), rw e at within.0)
    | inr small ↦ rw small (ground (arith, small, added content line), within.1)
  ])
]

-- However many lines are appended, the log and the file it was rolled over to both stay within the cap
-- and one line of the largest size, if they were within it before.
pub append_all-LogWithin :
    (max_bytes longest : ℕ) (lines : List Text) (log : Log)
    → All (λ line. size line ≤ longest) lines
    → LogWithin (max_bytes + longest + 1) log
    → LogWithin (max_bytes + longest + 1) (append_all max_bytes lines log)
unfolding append_all
append_all-LogWithin max_bytes longest [] log short within = within
append_all-LogWithin max_bytes longest (line ∷ lines) log short within =
    append_all-LogWithin max_bytes longest lines _ short.1
      (append_log-LogWithin max_bytes longest line log short.0 within)

-- No character of the line ends a line.
abbrev pub IsPlain : Text → Type 0
IsPlain line = All (λ c. is_break c ≡ false) line

-- The content of a log with these lines.
abbrev pub content_of : List Text → Text
content_of [] = []
content_of (line ∷ lines) = line ++ 10 ∷ content_of lines

universal-line :
    (line rest : Text) → IsPlain line → universal (line ++ 10 ∷ rest) ≡ line ++ 10 ∷ universal rest
unfolding universal
universal-line [] rest plain = refl
universal-line (c ∷ line) rest plain = ground (arith, universal-line line rest plain.1)

splitlines-line :
    (line rest : Text) → IsPlain line → splitlines (line ++ 10 ∷ rest) ≡ line ∷ splitlines rest
unfolding splitlines
splitlines-line [] rest plain = refl
splitlines-line (c ∷ line) rest plain = rw plain.0 (rw (splitlines-line line rest plain.1) refl)

read_lines :
    (lines : List Text) → All IsPlain lines → splitlines (universal (content_of lines)) ≡ lines
unfolding splitlines universal
read_lines [] plain = refl
read_lines (line ∷ lines) plain = rw (universal-line line (content_of lines) plain.0) (
    rw (splitlines-line line (universal (content_of lines)) plain.0)
      (ap (λ ls. line ∷ ls) (read_lines lines plain.1)))

rstrip-plain : (line : Text) → IsPlain line → rstrip line ≡ line
unfolding rstrip
rstrip-plain [] plain = refl
rstrip-plain (c ∷ line) plain = ground (arith, plain.0, rstrip-plain line plain.1)

content_of-append : (xs ys : List Text) → content_of (xs ++ ys) ≡ content_of xs ++ content_of ys
content_of-append [] ys = refl
content_of-append (x ∷ xs) ys =
    ap (λ r. x ++ 10 ∷ r) (content_of-append xs ys)
    ∙ sym (append_assoc x (10 ∷ content_of xs) (content_of ys))

content_of-snoc :
    (lines : List Text) (line : Text)
    → content_of (lines ++ line ∷ []) ≡ content_of lines ++ line ++ 10 ∷ []
content_of-snoc lines line =
    content_of-append lines (line ∷ []) ∙ sym (append_assoc (content_of lines) line (10 ∷ []))

written :
    (content : Text) (kept : List Text) (line : Text)
    → IsPlain line
    → content ≡ content_of kept
    → content ++ rstrip line ++ 10 ∷ [] ≡ content_of (kept ++ line ∷ [])
written content kept line plain same =
    rw (rstrip-plain line plain)
      (ap (λ r. r ++ line ++ 10 ∷ []) same ∙ sym (content_of-snoc kept line))

-- The log holds the last of these lines, all of them if they fit the cap.
record IsTail (max_bytes : ℕ) (lines : List Text) (log : Log) : Type 0 where
  dropped : List Text
  kept : List Text
  split : lines ≡ dropped ++ kept
  plain : All IsPlain kept
  content : content_or_empty log.current ≡ content_of kept
  whole : size (content_of lines) ≤ max_bytes → dropped ≡ []

grown :
    (lines : List Text) (line : Text)
    → size (content_of lines) ≤ size (content_of (lines ++ line ∷ []))
grown lines line = omega (
  arith,
  ap size (content_of-append lines (line ∷ [])),
  size-append (content_of lines) (content_of (line ∷ [])),
)

exceeds_lt :
    (max_bytes : ℕ) (file : Option Text)
    → exceeds max_bytes file ≡ true
    → max_bytes < size (content_or_empty file)
exceeds_lt max_bytes none big = absurd (ground (arith, big))
exceeds_lt max_bytes (some content) big = ground (arith, big)

too_big :
    (max_bytes : ℕ) (lines : List Text) (log : Log)
    → exceeds max_bytes log.current ≡ true
    → IsTail max_bytes lines log
    → max_bytes < size (content_of lines)
too_big max_bytes lines log big tail = omega (
  arith,
  exceeds_lt max_bytes log.current big,
  ap size tail.content,
  ap (λ ls. size (content_of ls)) tail.split,
  ap size (content_of-append tail.dropped tail.kept),
  size-append (content_of tail.dropped) (content_of tail.kept),
)

append_log-IsTail :
    (max_bytes : ℕ) (lines : List Text) (line : Text) (log : Log)
    → IsPlain line
    → IsTail max_bytes lines log
    → IsTail max_bytes (lines ++ line ∷ []) (append_log max_bytes line log)
unfolding append_log roll_over
append_log-IsTail max_bytes lines line log plain tail =
    elim (Bool-cases (exceeds max_bytes log.current)) [
      | inl big ↦ rw big (record {
        dropped = lines;
        kept = line ∷ [];
        split = refl;
        plain = (plain, tt);
        content = rw (rstrip-plain line plain) refl;
        whole =
            λ fits. absurd (ground (arith, grown lines line, too_big max_bytes lines log big tail));
      })
      | inr small ↦ rw small (record {
        dropped = tail.dropped;
        kept = tail.kept ++ line ∷ [];
        split =
            ap (λ r. r ++ line ∷ []) tail.split ∙ append_assoc tail.dropped tail.kept (line ∷ []);
        plain = All-append _ tail.kept tail.plain plain;
        content = written _ tail.kept line plain tail.content;
        whole = λ fits. tail.whole (ground (arith, grown lines line));
      })
    ]

append_all-IsTail :
    (max_bytes : ℕ) (before lines : List Text) (log : Log)
    → All IsPlain lines
    → IsTail max_bytes before log
    → IsTail max_bytes (before ++ lines) (append_all max_bytes lines log)
unfolding append_all
append_all-IsTail max_bytes before [] log plain tail = rw (append-nil before) tail
append_all-IsTail max_bytes before (line ∷ lines) log plain tail =
    rw (← append_assoc before (line ∷ []) lines) (
      append_all-IsTail max_bytes (before ++ line ∷ []) lines _ plain.1
        (append_log-IsTail max_bytes before line log plain.0 tail))

abbrev pub no_log : Log
no_log = record { current = none; rolled = none }

-- Of plain lines that are appended to a log that is not there yet, the log holds the last ones, the
-- last one among them, and all of them while those before it fit the cap; whatever number of lines is
-- asked for, a reader is given that slice of the lines that the log holds.
pub log_tail-append_all :
    (max_bytes : ℕ) (lines : List Text) (line : Text)
    → All IsPlain lines
    → IsPlain line
    → let log = append_log max_bytes line (append_all max_bytes lines no_log) in
      (dropped : List Text) × (kept : List Text) × (lines ≡ dropped ++ kept)
      × ((n : ℤ) → log_tail n log ≡ slice_from_end n (kept ++ line ∷ []))
      × (size (content_of lines) ≤ max_bytes → dropped ≡ [])
unfolding log_tail append_log roll_over
log_tail-append_all max_bytes lines line plain last =
    let log = append_all max_bytes lines no_log in
    let empty : IsTail max_bytes [] no_log = record {
      dropped = [];
      kept = [];
      split = refl;
      plain = tt;
      content = refl;
      whole = λ fits. refl;
    } in
    let tail = append_all-IsTail max_bytes [] lines no_log plain empty in
    elim (Bool-cases (exceeds max_bytes log.current)) [
      | inl big ↦ rw big (
        lines,
        [],
        sym (append-nil lines),
        (λ n.
            ap (slice_from_end n)
              (rw (rstrip-plain line last) (read_lines (line ∷ []) (last, tt)))),
        λ fits. absurd (omega (arith, too_big max_bytes lines log big tail)),
      )
      | inr small ↦ rw small (
        tail.dropped,
        tail.kept,
        tail.split,
        (λ n.
            ap (λ text. slice_from_end n (splitlines (universal text)))
              (written _ tail.kept line last tail.content)
            ∙ ap (slice_from_end n)
                (read_lines (tail.kept ++ line ∷ []) (All-append _ tail.kept tail.plain last))),
        tail.whole,
      )
    ]
