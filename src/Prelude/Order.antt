-- ===== src/Prelude/Order.antt =====
-- Python's order of texts, by code points, and `float`-like readings of digits.
use mathlib.Core.Bool.{Bool, true, false}
use mathlib.Core.List.{[], ◌∷◌}
use picket_mcp.Prelude.Tests.{ltb, if◌then◌else◌}
use picket_mcp.Prelude.Chars.{Text}

-- s < t
unfoldable pub text_lt : Text → Text → Bool
text_lt [] [] = false
text_lt [] (d ∷ t) = true
text_lt (c ∷ s) [] = false
text_lt (c ∷ s) (d ∷ t) =
    let rest = text_lt s t in if ltb c d then true else if ltb d c then false else rest

-- s <= t
unfoldable pub text_le : Text → Text → Bool
text_le [] t = true
text_le (c ∷ s) [] = false
text_le (c ∷ s) (d ∷ t) =
    let rest = text_le s t in if ltb c d then true else if ltb d c then false else rest
