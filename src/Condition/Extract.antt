-- ===== src/Condition/Extract.antt =====
-- src/picket/conditions/condition.py: `extract`. JSONPath is a library: its answer on a path and a
-- value is a parameter, none where it raises JSONPathError. Digits of a path are read as ASCII.
use picket_mcp.Prelude.{
  ◌≡◌, refl, ℕ, ◌+◌, ◌*◌, ◌-◌, Text, codes, Bool, true, false, not, ◌&&◌, ◌||◌, Option, none, some,
  List, [], ◌∷◌, ◌++◌, leb, ◌==◌, if◌then◌else◌,
}
use picket_mcp.Core.Json.{Json, array, object, Items, get_field, get_item, length_items}

-- What an observation gives: a value, an ObserveError or ProbeError with its message, or another
-- exception, which no handler of the observation catches.
pub data Observed {ℓ} (A : Type ℓ) : Type ℓ where
  ok : A → Observed A
  observe_error : Text → Observed A
  crash : Observed A

infixl 5 ◌>>=◌
abbrev pub ◌>>=◌ {ℓ κ} : {A : Type ℓ} {B : Type κ} → Observed A → (A → Observed B) → Observed B
ok a >>= f = f a
observe_error e >>= f = observe_error e
crash >>= f = crash

-- What a successful chain went through.
module _ {ℓ κ} {A : Type ℓ} {B : Type κ} where
  pub >>=-eq-ok :
      (seen : Observed A) (next : A → Observed B) {result : B}
      → (seen >>= next) ≡ ok result
      → (value : A) × (seen ≡ ok value) × (next value ≡ ok result)
  >>=-eq-ok (observe_error message) next came = cc
  >>=-eq-ok crash next came = cc
  >>=-eq-ok (ok value) next came = (value, refl, came)

abbrev pub path_not_found : Text → Text
path_not_found path = codes "path not found: " ++ path

abbrev is_digit : ℕ → Bool
is_digit c = leb 48 c && leb c 57

unfoldable pub all_digits : Text → Bool
all_digits [] = true
all_digits (c ∷ s) = is_digit c && all_digits s

-- s.isdigit()
unfoldable pub isdigit : Text → Bool
unfolding all_digits
isdigit [] = false
isdigit (c ∷ s) = all_digits (c ∷ s)

-- s.lstrip("-")
unfoldable pub strip_minus : Text → Text
strip_minus [] = []
strip_minus (c ∷ s) = let rest = strip_minus s in if c == b'-' then rest else c ∷ s

-- s.lstrip("$.")
unfoldable pub strip_root : Text → Text
strip_root [] = []
strip_root (c ∷ s) = let rest = strip_root s in if c == b'$' || c == b'.' then rest else c ∷ s

abbrev cons_head : ℕ → List Text → List Text
cons_head c [] = (c ∷ []) ∷ []
cons_head c (part ∷ parts) = (c ∷ part) ∷ parts

-- s.split(".")
unfoldable pub split_dots : Text → List Text
split_dots [] = [] ∷ []
split_dots (c ∷ s) = let parts = split_dots s in if c == b'.' then [] ∷ parts else cons_head c parts

unfoldable pub to_number : ℕ → Text → ℕ
to_number n [] = n
to_number n (c ∷ s) = to_number (n * 10 + (c - 48)) s

module _ {N : Type 0} where
  abbrev item_or_crash : Option (Json N) → Observed (Json N)
  item_or_crash none = crash
  item_or_crash (some v) = ok v

  -- cur[int(part)] for a part of digits behind minus signs: one minus sign counts from the end, a
  -- second makes `int` raise ValueError, and an index out of range raises IndexError.
  unfoldable pub index_list : Items N → Text → Observed (Json N)
  unfolding to_number get_item length_items all_digits
  index_list xs (c ∷ s) =
      if not (c == b'-')
      then item_or_crash (get_item (to_number 0 (c ∷ s)) xs)
      else if not (all_digits s)
      then crash
      else let n = to_number 0 s in
        if n == 0
        then item_or_crash (get_item 0 xs)
        else if leb n (length_items xs)
        then item_or_crash (get_item (length_items xs - n) xs)
        else crash
  index_list xs [] = crash

  -- One round of the loop on the parts of a dotted path.
  unfoldable pub descend : Text → Text → Json N → Observed (Json N)
  unfolding get_field index_list isdigit strip_minus
  descend path part (object fs) = elim (get_field part fs) [
    | some v ↦ ok v
    | none ↦ observe_error (path_not_found path)
  ]
  descend path part (array xs) =
      if isdigit (strip_minus part) then index_list xs part else observe_error (path_not_found path)
  descend path part cur = observe_error (path_not_found path)

  unfoldable pub walk : Text → List Text → Json N → Observed (Json N)
  unfolding descend
  walk path [] cur = ok cur
  walk path ([] ∷ parts) cur = walk path parts cur
  walk path (part ∷ parts) cur = descend path part cur >>= walk path parts

  -- `find` answers with the values of the matches.
  unfoldable pub extract :
      (Text → Json N → Option (List (Json N))) → Json N → Text → Observed (Json N)
  unfolding walk split_dots strip_root
  extract find doc path = elim (find path doc) [
    | some (v ∷ vs) ↦ ok v
    | _ ↦ walk path (split_dots (strip_root path)) doc
  ]
