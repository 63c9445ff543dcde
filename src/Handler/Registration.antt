-- ===== src/Handler/Registration.antt =====
-- src/picket/execution/runbooks.py and handler.py: what is registered is what is read and run.
use mathlib.Core.Path.{subst}
use picket_mcp.Prelude.{
  codes, Text, text_eq, text_eq_iff, text_eq_refl, ◌≡◌, refl, sym, ap, ◌∙◌, Bool, true, false, not,
  Option, none, some, List, [], ◌∷◌, inl, inr, Bool-cases, ℕ, arith, if◌then◌else◌,
}
use picket_mcp.Core.Errors.{invalid_spec, passed, or_refused}
use picket_mcp.Core.Steps.{
  >>=-eq-passed, or_refused-eq-passed, refuse_if-eq-passed, passed-injective,
}
use picket_mcp.Store.Ids.{runbook_dir}
use picket_mcp.Handler.Types.{RunbookType, Runbook, World}
use picket_mcp.Handler.Runbooks.{join_path, content_hash, read_runbook}
use picket_mcp.Handler.Run.{has_drifted}
use picket_mcp.Handler.Registry.{
  Disk, read_file, write_file, Library, load_file, loaded, new_runbook, is_relative_to, or_raised,
  entry_hash, id_error, world_at, toml_path, register_runbook,
}

pub read_file-write_file :
    (path content : Text) (disk : Disk)
    → read_file (write_file path content disk) path ≡ some content
unfolding read_file write_file
read_file-write_file path content [] = rw (text_eq_refl path) refl
read_file-write_file path content ((p, old) ∷ disk) = elim (Bool-cases (text_eq p path)) [
  | inl e ↦ rw e (rw (text_eq_refl path) refl)
  | inr e ↦ rw e (rw e (read_file-write_file path content disk))
]

read_file-write_file_other :
    (path content other : Text) (disk : Disk)
    → text_eq path other ≡ false
    → read_file (write_file path content disk) other ≡ read_file disk other
unfolding read_file write_file
read_file-write_file_other path content other [] e = rw e refl
read_file-write_file_other path content other ((p, old) ∷ disk) e =
    elim (Bool-cases (text_eq p path)) [
      | inl k ↦ rw k (ground (arith, e, (text_eq_iff p path).0 k))
      | inr k ↦ rw k (
          ap (λ o. if text_eq p other then some old else o)
            (read_file-write_file_other path content other disk e))
    ]

or_raised-eq-passed {ℓ} : {A : Type ℓ} (o : Option A) {a : A} → or_raised o ≡ passed a → o ≡ some a
or_raised-eq-passed none h = cc
or_raised-eq-passed (some b) h = cc

not-not : (b : Bool) → not b ≡ false → b ≡ true
not-not true h = refl
not-not false h = sym h

pub entry_hash-eq-passed :
    {N A : Type 0} (world : World N) (library : Library A) (disk : Disk)
    (kind dir entry hash : Text)
    → entry_hash world library disk kind dir entry ≡ passed hash
    → (is_relative_to (library.resolve (join_path dir entry)) (library.resolve dir) ≡ true)
      × (content_hash (record world { files = library.hashed disk }) dir entry ≡ some hash)
unfolding entry_hash
entry_hash-eq-passed world library disk kind dir entry hash h =
    let resolved = library.resolve (join_path dir entry) in
    let within = is_relative_to resolved (library.resolve dir) in
    let (inside, rest) = refuse_if-eq-passed (not within) _ _ _ h in
    let (there, hashed) = refuse_if-eq-passed (not (library.is_file disk resolved)) _ _ _ rest in
    (not-not within inside, or_raised-eq-passed _ hashed)

module _ {N : Type 0} (world : World N) (library : Library Runbook) where
  content_hash-files :
      (f g : Text → Text → Option (List (Text × Text))) (dir entry : Text)
      → f dir entry ≡ g dir entry
      → content_hash (record world { files = f }) dir entry
        ≡ content_hash (record world { files = g }) dir entry
  unfolding content_hash
  content_hash-files f g dir entry e = rw e refl

  load_file-some :
      (rb : Runbook) (content : Text)
      → library.loads content ≡ some rb
      → load_file library (some content) ≡ some (some rb)
  load_file-some rb content e = ap loaded e

  has_drifted-fresh :
      (world' : World N) (rb : Runbook) (dir hash : Text)
      → runbook_dir world'.home rb.id ≡ some dir
      → content_hash world' dir rb.entry ≡ some hash
      → rb.content_hash ≡ hash
      → has_drifted world' rb (some hash) ≡ some false
  unfolding has_drifted
  has_drifted-fresh world' rb dir [] placed hashed e = rw e refl
  has_drifted-fresh world' rb dir (c ∷ s) placed hashed e =
      rw placed (rw hashed (rw (text_eq_refl (c ∷ s)) refl))

  -- What a registration leaves: the runbook is read back, has not drifted from its hash, its entry lies in its directory
  -- after links are followed, and every other file is as it was.
  pub record IsRegistered (id entry : Text) (before after : Disk) (rb : Runbook) : Type 0 where
    pub dir : Text
    pub placed : runbook_dir world.home id ≡ some dir
    pub inside : is_relative_to (library.resolve (join_path dir entry)) (library.resolve dir) ≡ true
    pub read : read_runbook (world_at world library after) id ≡ some (some rb)
    pub fresh : has_drifted (world_at world library after) rb (some rb.content_hash) ≡ some false
    pub others :
        (path : Text)
        → text_eq (toml_path world library dir) path ≡ false
        → read_file after path ≡ read_file before path

  -- A registered runbook that was made with this hash.
  made-IsRegistered :
      (disk : Disk) (dir id entry hash : Text) (rb : Runbook)
      → let after = write_file (toml_path world library dir) (library.dumps rb) disk in
        library.loads (library.dumps rb) ≡ some rb
        → library.hashed after dir entry ≡ library.hashed disk dir entry
        → runbook_dir world.home id ≡ some dir
        → is_relative_to (library.resolve (join_path dir entry)) (library.resolve dir) ≡ true
        → content_hash (record world { files = library.hashed disk }) dir entry ≡ some hash
        → (rb.id ≡ id) × (rb.entry ≡ entry) × (rb.content_hash ≡ hash)
        → IsRegistered id entry disk after rb
  unfolding read_runbook has_drifted content_hash
  made-IsRegistered disk dir id entry hash rb toml same placed inside hashed (eid, een, eha) =
      let after = write_file (toml_path world library dir) (library.dumps rb) disk in
      record {
        dir = dir;
        placed = placed;
        inside = inside;
        read = rw placed (
            ap (load_file library)
              (read_file-write_file (toml_path world library dir) (library.dumps rb) disk)
            ∙ load_file-some rb (library.dumps rb) toml);
        fresh =
            has_drifted-fresh (world_at world library after) rb dir rb.content_hash
              (ap (runbook_dir world.home) eid ∙ placed)
              (ap (content_hash (world_at world library after) dir) een
                ∙ content_hash-files (library.hashed after) (library.hashed disk) dir entry same
                ∙ hashed
                ∙ ap some (sym eha))
              refl;
        others = λ path ne. read_file-write_file_other _ _ path disk ne;
      }

  -- If a registration succeeds, TOML reads back the runbook that it returns, and the writes of the registration change
  -- no file that is hashed, then the runbook that is read afterwards is the one returned, it has not drifted, its
  -- entry lies in its directory once links are followed, and every other file is as it was.
  pub register_runbook-IsRegistered :
      (disk disk' : Disk) (id : Text) (type : RunbookType) (entry description : Text)
      (tools : Option (List Text)) (version : ℕ) (rb : Runbook)
      → library.loads (library.dumps rb) ≡ some rb
      → ((dir : Text) → library.hashed disk' dir entry ≡ library.hashed disk dir entry)
      → register_runbook world library disk id type entry description tools version
        ≡ passed (rb, disk')
      → IsRegistered id entry disk disk' rb
  unfolding register_runbook read_runbook
  register_runbook-IsRegistered disk disk' id type entry description tools version rb toml same h =
      let (dir, found, k) =
        >>=-eq-passed
          (or_refused invalid_spec (id_error (codes "runbook") (world.repr id))
            (runbook_dir world.home id))
          _ h in
      let placed = or_refused-eq-passed invalid_spec _ (runbook_dir world.home id) found in
      let (hash, checked, made) =
        >>=-eq-passed (entry_hash world library disk (codes "runbook") dir entry) _ k in
      let (inside, hashed) =
        entry_hash-eq-passed world library disk (codes "runbook") dir entry hash checked in
      let new = new_runbook id type entry description tools version hash in
      let after = write_file (toml_path world library dir) (library.dumps new) disk in
      let end : (new, after) ≡ (rb, disk') = passed-injective (new, after) (rb, disk') made in
      let same' : library.hashed after dir entry ≡ library.hashed disk dir entry =
        ap (λ d. library.hashed d dir entry) (ap (λ p. p.1) end) ∙ same dir in
      let toml' =
        subst (λ r. library.loads (library.dumps r) ≡ some r) (sym (ap (λ p. p.0) end)) toml in
      subst (λ p. IsRegistered id entry disk p.1 p.0) end
        (made-IsRegistered disk dir id entry hash new toml' same' placed inside hashed
          (refl, refl, refl))
