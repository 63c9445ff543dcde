-- ===== src/Store/Logs.antt =====
-- src/picket/persistence/store.py: `append_log`, and the lines of a log as runtime/watches.py and
-- persistence/audit.py read them. A file is a text that is encoded as UTF-8; its directory is there.
use picket_mcp.Prelude.{
  ℕ, zero, suc, ℤ, pos, negsuc, ◌+◌, ◌-◌, Text, Bool, true, false, ◌&&◌, Option, none, some, List,
  [], ◌∷◌, ◌++◌, ltb, ◌==◌, exists_where, length, drop, if◌then◌else◌,
}

-- Bytes of a code point in UTF-8.
abbrev pub utf8_size : ℕ → ℕ
utf8_size c = if ltb c 128 then 1 else if ltb c 2048 then 2 else if ltb c 65536 then 3 else 4

unfoldable pub size : Text → ℕ
size [] = 0
size (c ∷ s) = utf8_size c + size s

-- A log and the file that it was rolled over to: none where there is no file.
pub record Log : Type 0 where
  pub current : Option Text
  pub rolled : Option Text

abbrev is_nil : Text → Bool
is_nil [] = true
is_nil _ = false

-- line.rstrip("\n")
unfoldable pub rstrip : Text → Text
rstrip [] = []
rstrip (c ∷ s) = let rest = rstrip s in if c == 10 && is_nil rest then [] else c ∷ rest

-- path.exists() and path.stat().st_size > max_bytes
abbrev pub exceeds : ℕ → Option Text → Bool
exceeds max_bytes none = false
exceeds max_bytes (some content) = ltb max_bytes (size content)

unfoldable pub roll_over : ℕ → Log → Log
unfolding size
roll_over max_bytes log =
    if exceeds max_bytes log.current then record { current = none; rolled = log.current } else log

-- The text that open("a") writes after.
abbrev pub content_or_empty : Option Text → Text
content_or_empty none = []
content_or_empty (some content) = content

unfoldable pub append_log : ℕ → Text → Log → Log
unfolding roll_over rstrip
append_log max_bytes line log =
    let kept = roll_over max_bytes log in
    record kept { current = some (content_or_empty kept.current ++ rstrip line ++ b'\n' ∷ []) }

abbrev pub starts_line : Text → Bool
starts_line (c ∷ s) = c == 10
starts_line [] = false

-- What read_text makes of the line ends: "\r\n" and "\r" are "\n".
unfoldable pub universal : Text → Text
universal [] = []
universal (c ∷ s) =
    let rest = universal s in
    if c == 13 then (if starts_line s then rest else 10 ∷ rest) else c ∷ rest

-- The characters at which str.splitlines ends a line.
abbrev pub is_break : ℕ → Bool
is_break c = exists_where (λ d. c == d) (10 ∷ 11 ∷ 12 ∷ 13 ∷ 28 ∷ 29 ∷ 30 ∷ 133 ∷ 8232 ∷ 8233 ∷ [])

abbrev pub prepend : ℕ → List Text → List Text
prepend c [] = (c ∷ []) ∷ []
prepend c (line ∷ lines) = (c ∷ line) ∷ lines

unfoldable pub splitlines : Text → List Text
splitlines [] = []
splitlines (c ∷ s) =
    let rest = splitlines s in
    if is_break c then (if c == 13 && starts_line s then rest else [] ∷ rest) else prepend c rest

-- lines[-n:]: minus zero is zero, and a negative n leaves out the first lines.
unfoldable pub slice_from_end : ℤ → List Text → List Text
slice_from_end (pos zero) lines = lines
slice_from_end (pos (suc n)) lines = drop (length lines - suc n) lines
slice_from_end (negsuc n) lines = drop (suc n) lines

-- log.read_text().splitlines()[-n:] if log.exists() else []
unfoldable pub log_tail : ℤ → Log → List Text
unfolding universal splitlines slice_from_end
log_tail n log = elim log.current [
  | none ↦ []
  | some content ↦ slice_from_end n (splitlines (universal content))
]
