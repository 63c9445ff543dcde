-- ===== src/Prelude/Counting.antt =====
-- Laws of selection, counting and update.
use Prim.Native.Nat.{ℕ, zero, suc, ◌+◌, ◌-◌, ◌≤◌, ◌<◌}
use mathlib.Core.Path.{◌≡◌, refl, ap}
use mathlib.Core.Bool.{Bool, true, false, ◌&&◌, ◌||◌, not}
use mathlib.Core.List.{Memᴰ, List, [], ◌∷◌, ◌++◌}
use native.Mathlib.Omega.{arith}
use mathlib.Core.Logic.{◌⊎◌, inl, inr}
use picket_mcp.Prelude.Tests.{Bool-cases, if◌then◌else◌}
use picket_mcp.Prelude.Lists.{
  length, take, drop, select, count_where, update_where, exists_where, All,
}

module _ {ℓ} {A : Type ℓ} where
  pub count_where-append :
      (p : A → Bool) (xs ys : List A)
      → count_where p (xs ++ ys) ≡ count_where p xs + count_where p ys
  count_where-append p [] ys = omega arith
  count_where-append p (x ∷ xs) ys = omega (arith, count_where-append p xs ys)

  -- An update that the test `p` cannot see leaves its count alone.
  pub count_where-update_where :
      (p test : A → Bool) (change : A → A) (xs : List A)
      → ((x : A) → test x ≡ true → p (change x) ≡ p x)
      → count_where p (update_where test change xs) ≡ count_where p xs
  count_where-update_where p test change [] same = refl
  count_where-update_where p test change (x ∷ xs) same =
      ground (arith, same x, count_where-update_where p test change xs same)

  -- An update that can only make `p` fail lowers its count.
  pub count_where-update_where-le :
      (p test : A → Bool) (change : A → A) (xs : List A)
      → ((x : A) → p (change x) ≡ true → p x ≡ true)
      → count_where p (update_where test change xs) ≤ count_where p xs
  count_where-update_where-le p test change [] same = omega arith
  count_where-update_where-le p test change (x ∷ xs) same =
      ground (arith, same x, count_where-update_where-le p test change xs same)

  pub count_where-select-le :
      (p test : A → Bool) (xs : List A) → count_where p (select test xs) ≤ count_where p xs
  count_where-select-le p test [] = omega arith
  count_where-select-le p test (x ∷ xs) = ground (arith, count_where-select-le p test xs)

  pub length-select : (p : A → Bool) (xs : List A) → length (select p xs) ≡ count_where p xs
  length-select p [] = refl
  length-select p (x ∷ xs) = ground (arith, length-select p xs)

  pub exists_where-eq-false :
      (p : A → Bool) (xs : List A) → exists_where p xs ≡ false → count_where p xs ≡ 0
  exists_where-eq-false p [] h = refl
  exists_where-eq-false p (x ∷ xs) h = ground (arith, exists_where-eq-false p xs)

  pub exists_where-eq-true :
      (p : A → Bool) (xs : List A) → exists_where p xs ≡ true → 0 < count_where p xs
  exists_where-eq-true p [] h = ground arith
  exists_where-eq-true p (x ∷ xs) h = ground (arith, exists_where-eq-true p xs)

  -- A test that implies another has the smaller count.
  pub count_where_mono :
      (p q : A → Bool) (xs : List A)
      → ((x : A) → p x ≡ true → q x ≡ true)
      → count_where p xs ≤ count_where q xs
  count_where_mono p q [] imp = omega arith
  count_where_mono p q (x ∷ xs) imp = ground (arith, imp x, count_where_mono p q xs imp)

  pub All-append {κ} :
      (P : A → Type κ) (xs : List A) {y : A} → All P xs → P y → All P (xs ++ y ∷ [])
  All-append P [] h py = (py, tt)
  All-append P (x ∷ xs) h py = (h.0, All-append P xs h.1 py)

  pub All-select {κ} :
      (P : A → Type κ) (test : A → Bool) (xs : List A) → All P xs → All P (select test xs)
  All-select P test [] h = tt
  All-select P test (x ∷ xs) h =
      elim (test x) as (λ b. All P (if b then x ∷ select test xs else select test xs)) [
        | true ↦ (h.0, All-select P test xs h.1)
        | false ↦ All-select P test xs h.1
      ]

  -- After an update, changed rows have `Q` and the other rows keep it.
  pub All-update_where {κ μ} :
      (P : A → Type κ) (Q : A → Type μ) (test : A → Bool) (change : A → A) (xs : List A)
      → ((x : A) → test x ≡ true → P x → Q (change x))
      → ((x : A) → test x ≡ false → P x → Q x)
      → All P xs
      → All Q (update_where test change xs)
  All-update_where P Q test change [] hit miss h = tt
  All-update_where P Q test change (x ∷ xs) hit miss h =
      (pick (test x) refl, All-update_where P Q test change xs hit miss h.1)
    where
      pick : (b : Bool) → test x ≡ b → Q (if b then change x else x)
      pick true e = hit x e h.0
      pick false e = miss x e h.0

  pub All-and {κ μ} :
      (P : A → Type κ) (Q : A → Type μ) (xs : List A)
      → All P xs
      → All Q xs
      → All (λ x. P x × Q x) xs
  All-and P Q [] h k = tt
  All-and P Q (x ∷ xs) h k = ((h.0, k.0), All-and P Q xs h.1 k.1)

  pub count_where-select :
      (p test : A → Bool) (xs : List A)
      → count_where p (select test xs) ≡ count_where (λ x. test x && p x) xs
  count_where-select p test [] = refl
  count_where-select p test (x ∷ xs) = ground (arith, count_where-select p test xs)

  -- If as many rows pass both tests as pass the first, the first implies the second.
  pub All-count_where :
      (p q : A → Bool) (xs : List A)
      → count_where p xs ≤ count_where (λ x. q x && p x) xs
      → All (λ x. p x ≡ true → q x ≡ true) xs
  All-count_where p q [] h = tt
  All-count_where p q (x ∷ xs) h =
      let fewer = count_where_mono (λ y. q y && p y) p xs (λ y k. ground arith) in
      (λ k. ground arith, All-count_where p q xs (ground arith))

  pub All-mono {κ μ} :
      (P : A → Type κ) (Q : A → Type μ) (xs : List A) → ((x : A) → P x → Q x) → All P xs → All Q xs
  All-mono P Q [] imp h = tt
  All-mono P Q (x ∷ xs) imp h = (imp x h.0, All-mono P Q xs imp h.1)

  -- What holds of the selected rows holds of all rows that pass the test.
  pub All-select_imp {κ} :
      (P : A → Type κ) (test : A → Bool) (xs : List A)
      → All P (select test xs)
      → All (λ x. test x ≡ true → P x) xs
  All-select_imp P test [] h = tt
  All-select_imp P test (x ∷ xs) h = elim (Bool-cases (test x)) [
    | inl t ↦ let h' = rw t at h in (λ _. h'.0, All-select_imp P test xs h'.1)
    | inr f ↦ (λ t. absurd (ground arith), All-select_imp P test xs (rw f at h))
  ]

  pub Memᴰ-cons : {a x : A} {xs : List A} → Memᴰ a (x ∷ xs) → (a ≡ x) ⊎ Memᴰ a xs
  Memᴰ-cons (Memᴰ.head p) = inl p
  Memᴰ-cons (Memᴰ.tail m) = inr m

  pub Memᴰ-select :
      (test : A → Bool) (xs : List A) {a : A}
      → Memᴰ a (select test xs)
      → Memᴰ a xs × (test a ≡ true)
  Memᴰ-select test [] m = elim m [ ]
  Memᴰ-select test (x ∷ xs) {a} m = elim (Bool-cases (test x)) [
    | inl t ↦ elim (Memᴰ-cons (rw t at m)) [
      | inl p ↦ (Memᴰ.head p, rw p t)
      | inr m' ↦ let (m'', h) = Memᴰ-select test xs m' in (Memᴰ.tail m'', h)
    ]
    | inr f ↦ let (m', h) = Memᴰ-select test xs (rw f at m) in (Memᴰ.tail m', h)
  ]

  -- An update at rows that do not pass its test changes nothing.
  pub update_where-id :
      (test : A → Bool) (change : A → A) (xs : List A)
      → count_where test xs ≡ 0
      → update_where test change xs ≡ xs
  update_where-id test change [] h = refl
  update_where-id test change (x ∷ xs) h = ground (arith, update_where-id test change xs)

  -- An update whose rows fail its own test leaves none that pass it.
  pub count_where-update_where_self :
      (test : A → Bool) (change : A → A) (xs : List A)
      → ((x : A) → test (change x) ≡ false)
      → count_where test (update_where test change xs) ≡ 0
  count_where-update_where_self test change [] off = refl
  count_where-update_where_self test change (x ∷ xs) off =
      ground (arith, off x, count_where-update_where_self test change xs off)

  -- An update that takes its rows, all of which pass `p`, out of `p`.
  pub count_where-update_where_off :
      (p test : A → Bool) (change : A → A) (xs : List A)
      → ((x : A) → p (change x) ≡ false)
      → ((x : A) → test x ≡ true → p x ≡ true)
      → count_where test xs + count_where p (update_where test change xs) ≡ count_where p xs
  count_where-update_where_off p test change [] off imp = omega arith
  count_where-update_where_off p test change (x ∷ xs) off imp =
      ground (arith, off x, imp x, count_where-update_where_off p test change xs off imp)

  pub count_where-select-not :
      (p q : A → Bool) (xs : List A)
      → count_where p (select (λ x. not (q x)) xs) + count_where (λ x. q x && p x) xs
        ≡ count_where p xs
  count_where-select-not p q [] = omega arith
  count_where-select-not p q (x ∷ xs) = ground (arith, count_where-select-not p q xs)

  pub take-append-drop : (n : ℕ) (xs : List A) → take n xs ++ drop n xs ≡ xs
  take-append-drop zero xs = refl
  take-append-drop (suc n) [] = refl
  take-append-drop (suc n) (x ∷ xs) = ap (λ l. x ∷ l) (take-append-drop n xs)

  pub length-drop : (n : ℕ) (xs : List A) → length (drop n xs) ≡ length xs - n
  length-drop zero xs = omega arith
  length-drop (suc n) [] = omega arith
  length-drop (suc n) (x ∷ xs) = omega (arith, length-drop n xs)

  pub count_where-drop-le :
      (p : A → Bool) (n : ℕ) (xs : List A) → count_where p (drop n xs) ≤ count_where p xs
  count_where-drop-le p zero xs = omega arith
  count_where-drop-le p (suc n) [] = omega arith
  count_where-drop-le p (suc n) (x ∷ xs) = omega (arith, count_where-drop-le p n xs)

  pub count_where-none :
      (p : A → Bool) (xs : List A) → ((x : A) → p x ≡ false) → count_where p xs ≡ 0
  count_where-none p [] off = refl
  count_where-none p (x ∷ xs) off = ground (arith, off x, count_where-none p xs off)

  -- Rows of `a` that pass `p` and rows of `a` that pass `q`, for tests that exclude each other.
  pub count_where_disjoint :
      (a p q : A → Bool) (xs : List A)
      → ((x : A) → p x ≡ true → q x ≡ false)
      → count_where (λ x. a x && p x) xs + count_where (λ x. q x && a x) xs ≤ count_where a xs
  count_where_disjoint a p q [] out = omega arith
  count_where_disjoint a p q (x ∷ xs) out = ground (arith, out x, count_where_disjoint a p q xs out)

  -- Rows of `p`, all of which pass `q` or `r`.
  pub count_where_cover :
      (p q r : A → Bool) (xs : List A)
      → ((x : A) → p x ≡ true → (q x || r x) ≡ true)
      → count_where p xs ≤ count_where q xs + count_where r xs
  count_where_cover p q r [] imp = omega arith
  count_where_cover p q r (x ∷ xs) imp = ground (arith, imp x, count_where_cover p q r xs imp)

  -- An update after which a row of the table passes `p` only if it did before.
  pub count_where-update_where-All :
      (p test : A → Bool) (change : A → A) (xs : List A)
      → All (λ x. test x ≡ true → p (change x) ≡ true → p x ≡ true) xs
      → count_where p (update_where test change xs) ≤ count_where p xs
  count_where-update_where-All p test change [] h = omega arith
  count_where-update_where-All p test change (x ∷ xs) h =
      ground (arith, h.0, count_where-update_where-All p test change xs h.1)
