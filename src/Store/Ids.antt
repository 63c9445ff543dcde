-- ===== src/Store/Ids.antt =====
-- src/picket/persistence/store.py: `safe_id` and the paths below PICKET_HOME. An id that is refused
-- raises InvalidSpec, here none. The home directory, which the environment gives, is an argument.
use mathlib.Core.Path.{subst}
use picket_mcp.Prelude.{
  ℕ, suc, ◌-◌, ◌≤◌, ◌≢◌, Text, codes, ◌≡◌, Bool, true, false, ◌&&◌, ◌||◌, Option, none, some, [],
  ◌∷◌, ◌++◌, leb, ltb, ◌==◌, if◌then◌else◌, length, All, arith, Bool-cases, sym, inl, inr,
}

abbrev between : ℕ → ℕ → ℕ → Bool
between a b c = leb a c && leb c b

-- [A-Za-z0-9]
abbrev is_alnum : ℕ → Bool
is_alnum c = between 65 90 c || between 97 122 c || between 48 57 c

-- [A-Za-z0-9._-]
abbrev is_id_char : ℕ → Bool
is_id_char c = is_alnum c || c == 46 || c == 95 || c == 45

abbrev is_empty : Text → Bool
is_empty [] = true
is_empty _ = false

-- [A-Za-z0-9._-]{0,n}$, where `$` also stands before a newline that ends the text.
unfoldable pub id_tail : ℕ → Text → Bool
id_tail n [] = true
id_tail n (c ∷ s) =
    let rest = id_tail (n - 1) s in (c == 10 && is_empty s) || (ltb 0 n && is_id_char c && rest)

unfoldable pub is_id : Text → Bool
unfolding id_tail
is_id [] = false
is_id (c ∷ s) = is_alnum c && id_tail 63 s

unfoldable pub safe_id : Text → Option Text
unfolding is_id
safe_id value = if is_id value then some value else none

-- home / folder / name
abbrev path_in : Text → Text → Text → Option Text → Option Text
path_in home folder suffix none = none
path_in home folder suffix (some id) = some (home ++ b'/' ∷ folder ++ b'/' ∷ id ++ suffix)

unfoldable pub runbook_dir : Text → Text → Option Text
unfolding safe_id
runbook_dir home runbook_id = path_in home (codes "runbooks") [] (safe_id runbook_id)

unfoldable pub probe_dir : Text → Text → Option Text
unfolding safe_id
probe_dir home probe_id = path_in home (codes "probes") [] (safe_id probe_id)

unfoldable pub log_path : Text → Text → Option Text
unfolding safe_id
log_path home watch_id = path_in home (codes "logs") (codes ".log") (safe_id watch_id)

unfoldable pub result_path : Text → Text → Option Text
unfolding safe_id
result_path home fire_id = path_in home (codes "results") (codes ".json") (safe_id fire_id)

abbrev pub first_alnum : Text → Bool
first_alnum [] = false
first_alnum (c ∷ s) = is_alnum c

-- A text that names one entry of a directory and neither the directory nor its parent.
pub record IsComponent (s : Text) : Type 0 where
  pub starts : first_alnum s ≡ true
  pub no_slash : All (λ c. c ≢ b'/') s
  pub short : length s ≤ 65

id_tail-no_slash : (n : ℕ) (s : Text) → id_tail n s ≡ true → All (λ c. c ≢ b'/') s
unfolding id_tail
id_tail-no_slash n [] h = tt
id_tail-no_slash n (c ∷ []) h = (λ e. ground (arith, e), tt)
id_tail-no_slash n (c ∷ d ∷ s) h =
    (λ e. ground (arith, e), id_tail-no_slash (n - 1) (d ∷ s) (ground arith))

id_tail-length : (n : ℕ) (s : Text) → id_tail n s ≡ true → length s ≤ suc n
unfolding id_tail
id_tail-length n [] h = omega arith
id_tail-length n (c ∷ []) h = omega arith
id_tail-length n (c ∷ d ∷ s) h = ground (arith, id_tail-length (n - 1) (d ∷ s))

is_id-IsComponent : (s : Text) → is_id s ≡ true → IsComponent s
unfolding is_id
is_id-IsComponent [] h = absurd (ground arith)
is_id-IsComponent (c ∷ s) h = record {
  starts = ground arith;
  no_slash = (λ e. ground (arith, e), id_tail-no_slash 63 s (ground arith));
  short = ground (arith, id_tail-length 63 s);
}

-- An id that safe_id lets pass is the text that was given; it starts with a letter or a digit, holds
-- no slash and has 65 characters at most.
pub safe_id-IsComponent :
    (value id : Text) → safe_id value ≡ some id → (id ≡ value) × IsComponent id
unfolding safe_id
safe_id-IsComponent value id h = elim (Bool-cases (is_id value)) [
  | inl holds ↦
      let same : id ≡ value = ground arith in
      (same, subst (λ s. IsComponent s) (sym same) (is_id-IsComponent value holds))
  | inr fails ↦ absurd (ground arith)
]
