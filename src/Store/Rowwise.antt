-- ===== src/Store/Rowwise.antt =====
-- Two tables of the same rows, before and after an update, row by row.
use picket_mcp.Prelude.{◌≡◌, refl, Bool, true, false, List, [], ◌∷◌, update_where, if◌then◌else◌}

module _ {A : Type 0} where
  -- Each row of the first table is in `R` with the row of the second that has its place.
  abbrev pub Rowwise : (A → A → Type 0) → List A → List A → Type 0
  Rowwise R [] [] = Unit
  Rowwise R (x ∷ xs) (y ∷ ys) = R x y × Rowwise R xs ys
  Rowwise R _ _ = ⊥

  pub update_where-Rowwise :
      (R : A → A → Type 0) (test : A → Bool) (change : A → A) (xs : List A)
      → ((x : A) → test x ≡ true → R x (change x))
      → ((x : A) → test x ≡ false → R x x)
      → Rowwise R xs (update_where test change xs)
  update_where-Rowwise R test change [] hit miss = tt
  update_where-Rowwise R test change (x ∷ xs) hit miss =
      (pick (test x) refl, update_where-Rowwise R test change xs hit miss)
    where
      pick : (b : Bool) → test x ≡ b → R x (if b then change x else x)
      pick true e = hit x e
      pick false e = miss x e
