-- ===== src/Probes/Verdicts.antt =====
-- src/picket/conditions/probes.py: which line of a probe's output counts.
use picket_mcp.Prelude.{Text, ◌≡◌, refl, true, false, some, List, [], ◌∷◌, ◌++◌, All, select, arith}
use picket_mcp.Probes.Types.{ProbeWorld}
use picket_mcp.Probes.Verdict.{last_line, has_text, verdict_of, parse_line, parse_verdict}

last_line-snoc : (xs : List Text) (x : Text) → last_line (xs ++ x ∷ []) ≡ some x
unfolding last_line
last_line-snoc [] x = refl
last_line-snoc (y ∷ []) x = refl
last_line-snoc (y ∷ z ∷ xs) x = last_line-snoc (z ∷ xs) x

module _ {N : Type 0} (world : ProbeWorld N) where
  abbrev IsBlankLine : Text → Type 0
  IsBlankLine line = has_text world line ≡ false

  select-blank : (blanks : List Text) → All IsBlankLine blanks → select (has_text world) blanks ≡ []
  select-blank [] h = refl
  select-blank (b ∷ blanks) h = rw h.0 (select-blank blanks h.1)

  select-last :
      (before : List Text) (line : Text) (blanks : List Text)
      → has_text world line ≡ true
      → All IsBlankLine blanks
      → select (has_text world) (before ++ line ∷ blanks)
        ≡ select (has_text world) before ++ line ∷ []
  select-last [] line blanks t h = rw t (rw (select-blank blanks h) refl)
  select-last (b ∷ before) line blanks t h = ground (arith, select-last before line blanks t h)

  -- Only the last line with more than white space counts: whatever lines a probe prints before it and
  -- whatever blank lines follow it, the verdict is that of this line alone.
  pub parse_verdict-last :
      (stdout : Text) (before : List Text) (line : Text) (blanks : List Text)
      → world.lines stdout ≡ before ++ line ∷ blanks
      → has_text world line ≡ true
      → All IsBlankLine blanks
      → parse_verdict world stdout ≡ verdict_of world line (world.base.loads line)
  unfolding parse_verdict parse_line
  parse_verdict-last stdout before line blanks e t h = rw e (
      rw (select-last before line blanks t h)
        (rw (last_line-snoc (select (has_text world) before) line) refl))
