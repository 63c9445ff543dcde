-- ===== src/Store/Swapping.antt =====
-- src/picket/persistence/store.py: what a reader finds while processes run `write_json_atomic`.
use mathlib.Core.List.{append_assoc, append-nil, append_cancel_left, append_cancel_right, nil≢cons}
use picket_mcp.Prelude.{
  ℕ, Text, text_eq, text_eq_iff, text_eq_refl, ◌≡◌, ◌≢◌, refl, sym, ap, ◌∙◌, ◌⊎◌, inl, inr, false,
  Option, some, List, [], ◌∷◌, ◌++◌, map, drop, codes, arith, Bool-cases, ◌==◌,
}
use picket_mcp.Daemon.Keys.{decimal-injective}
use picket_mcp.Store.Atomic.{
  Files, FileStep, create, write, replace, set_file, file_step, temporary, write_json_atomic,
  joined, advance, assign, run_schedule,
}

-- How far a process is that writes `whole` to `path`, by the steps that it has left.
data Stage (files : Files) (tmp path whole : Text) (steps : List FileStep) : Type 0 where
  fresh :
      (parts : List Text)
      → steps ≡ create tmp ∷ (map (write tmp) parts ++ replace tmp path ∷ [])
      → joined parts ≡ whole
      → Stage files tmp path whole steps
  writing :
      (done : Text) (parts : List Text)
      → steps ≡ map (write tmp) parts ++ replace tmp path ∷ []
      → files tmp ≡ some done
      → done ++ joined parts ≡ whole
      → Stage files tmp path whole steps
  finished : steps ≡ [] → Stage files tmp path whole steps

module _ (tmp path whole : Text) (apart : text_eq tmp path ≡ false) where
  -- The file of the path is as it was, and the steps do not end here, or it is the new one as a whole.
  abbrev IsWhole : List FileStep → List FileStep → Files → Files → Type 0
  IsWhole steps rest files after =
      ((after path ≡ files path) × (rest ≡ [] → steps ≡ [])) ⊎ (after path ≡ some whole)

  parts-nonempty : (parts : List Text) → map (write tmp) parts ++ replace tmp path ∷ [] ≢ []
  parts-nonempty [] h = nil≢cons (sym h)
  parts-nonempty (part ∷ parts) h = nil≢cons (sym h)

  own_step :
      (steps : List FileStep) (files : Files)
      → Stage files tmp path whole steps
      → let (rest, after) = advance steps files in
        Stage after tmp path whole rest × IsWhole steps rest files after
  unfolding advance file_step set_file joined
  own_step steps files (fresh parts e all) = rw e (
    Stage.writing [] parts refl (rw (text_eq_refl tmp) refl) all,
    inl (rw apart refl, λ h. absurd (parts-nonempty parts h)),
  )
  own_step steps files (writing done [] e now all) = rw e (
    Stage.finished refl,
    inr (rw apart (rw (text_eq_refl path) (now ∙ ap some (sym (append-nil done) ∙ all)))),
  )
  own_step steps files (writing done (part ∷ parts) e now all) = rw e (
    Stage.writing (done ++ part) parts refl (rw (text_eq_refl tmp) (rw now refl))
        (append_assoc done part (joined parts) ∙ all),
    inl (rw apart refl, λ h. absurd (parts-nonempty parts h)),
  )
  own_step steps files (finished e) = rw e (Stage.finished refl, inl (refl, λ h. h))

  -- A step of this process leaves the other files as they are.
  other_step :
      (v : Text) (steps : List FileStep) (files : Files)
      → text_eq tmp v ≡ false
      → text_eq path v ≡ false
      → Stage files tmp path whole steps
      → (advance steps files).1 v ≡ files v
  unfolding advance file_step set_file
  other_step v steps files t p (fresh parts e all) = rw e (rw t refl)
  other_step v steps files t p (writing done [] e now all) = rw e (rw t (rw p refl))
  other_step v steps files t p (writing done (part ∷ parts) e now all) = rw e (rw t refl)
  other_step v steps files t p (finished e) = rw e refl

differ : (s t : Text) → s ≢ t → text_eq s t ≡ false
differ s t ne = elim (Bool-cases (text_eq s t)) [
  | inl e ↦ absurd (ne ((text_eq_iff s t).0 e))
  | inr e ↦ e
]

temporary-ne : (pid : ℕ) (path : Text) → temporary pid path ≢ path
unfolding temporary
temporary-ne pid path e =
    absurd (nil≢cons (sym (append_cancel_left path _ [] (e ∙ sym (append-nil path)))))

temporary-injective :
    (pid pid' : ℕ) (path : Text) → temporary pid path ≡ temporary pid' path → pid ≡ pid'
unfolding temporary
temporary-injective pid pid' path e =
    decimal-injective pid pid'
      (append_cancel_right _ _ (codes ".tmp") (ap (drop 1) (append_cancel_left path _ _ e)))

module _ (path : Text) (parts : ℕ → List Text) where
  abbrev Stages : (ℕ → List FileStep) → Files → Type 0
  Stages todo files =
      (pid : ℕ) → Stage files (temporary pid path) path (joined (parts pid)) (todo pid)

  -- All that one of the processes writes.
  abbrev pub IsNew : Option Text → Type 0
  IsNew found = (pid : ℕ) × (found ≡ some (joined (parts pid)))

  -- A process that has no step left has replaced the file.
  abbrev pub IsReplaced : (ℕ → List FileStep) → Files → Type 0
  IsReplaced todo files = (pid : ℕ) → todo pid ≡ [] → IsNew (files path)

  Stage-same :
      (tmp whole : Text) (steps : List FileStep) (files after : Files)
      → after tmp ≡ files tmp
      → Stage files tmp path whole steps
      → Stage after tmp path whole steps
  Stage-same tmp whole steps files after same (fresh ps e all) = Stage.fresh ps e all
  Stage-same tmp whole steps files after same (writing done ps e now all) =
      Stage.writing done ps e (same ∙ now) all
  Stage-same tmp whole steps files after same (finished e) = Stage.finished e

  apart : (pid : ℕ) → text_eq (temporary pid path) path ≡ false
  apart pid = differ _ _ (temporary-ne pid path)

  advance-Stages :
      (pid : ℕ) (todo : ℕ → List FileStep) (files : Files)
      → Stages todo files
      → let (rest, after) = advance (todo pid) files in Stages (assign pid rest todo) after
  advance-Stages pid todo files stages p = elim (Bool-cases (p == pid)) [
    | inl e ↦
        let same : p ≡ pid = ground (arith, e) in
        rw (e, same)
          (own_step (temporary pid path) path _ (apart pid) (todo pid) files (stages pid)).0
    | inr e ↦ rw e (
        Stage-same (temporary p path) _ (todo p) files _
          (other_step (temporary pid path) path _ (apart pid) (temporary p path) (todo pid) files
            (differ _ _ (λ h. ground (arith, e, temporary-injective pid p path h)))
            (differ _ _ (λ h. temporary-ne p path (sym h))) (stages pid))
          (stages p))
  ]

  advance-IsReplaced :
      (pid : ℕ) (todo : ℕ → List FileStep) (files : Files)
      → Stages todo files
      → IsReplaced todo files
      → let (rest, after) = advance (todo pid) files in
        IsReplaced (assign pid rest todo) after × ((after path ≡ files path) ⊎ IsNew (after path))
  advance-IsReplaced pid todo files stages replaced =
      elim (own_step (temporary pid path) path _ (apart pid) (todo pid) files (stages pid)).1 [
        | inr new ↦ ((λ p h. (pid, new)), inr (pid, new))
        | inl (same, going) ↦ (
          (λ p h. elim (Bool-cases (p == pid)) [
            | inl e ↦ rw same (replaced pid (going (rw e at h)))
            | inr e ↦ rw same (replaced p (rw e at h))
          ]),
          inl same,
        )
      ]

  run_schedule_lem :
      (schedule : List ℕ) (todo : ℕ → List FileStep) (files : Files) (old : Option Text)
      → Stages todo files
      → IsReplaced todo files
      → (files path ≡ old) ⊎ IsNew (files path)
      → let (left, after) = run_schedule schedule todo files in
        ((after path ≡ old) ⊎ IsNew (after path)) × IsReplaced left after
  unfolding run_schedule
  run_schedule_lem [] todo files old stages replaced found = (found, replaced)
  run_schedule_lem (pid ∷ schedule) todo files old stages replaced found =
      let next = advance-IsReplaced pid todo files stages replaced in
      run_schedule_lem schedule _ _ old (advance-Stages pid todo files stages) next.0
        (elim next.1 [ inl same ↦ rw same found | inr new ↦ inr new ])

  -- Whichever processes write the file at once, in whatever order their steps come and after whichever
  -- step each of them is killed, a reader finds the file as it was at the start or all that one of them
  -- writes, never a part; once a process has made all its steps, it is what one of them writes.
  pub write_json_atomic-IsReplaced :
      (schedule : List ℕ) (files : Files)
      → let (left, after) =
          run_schedule schedule (λ pid. write_json_atomic pid path (parts pid)) files in
        ((after path ≡ files path) ⊎ IsNew (after path)) × IsReplaced left after
  unfolding write_json_atomic
  write_json_atomic-IsReplaced schedule files =
      run_schedule_lem schedule _ files (files path) (λ pid. Stage.fresh (parts pid) refl refl)
        (λ pid h. absurd (nil≢cons (sym h))) (inl refl)
