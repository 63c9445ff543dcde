-- ===== src/Probes/Registration.antt =====
-- src/picket/conditions/probes.py: a probe that is registered is the one that is read and run.
use mathlib.Core.Path.{subst}
use picket_mcp.Prelude.{Text, codes, ◌≡◌, sym, ap, ◌∙◌, true, some, ℕ}
use picket_mcp.Core.Errors.{invalid_spec, passed, or_refused}
use picket_mcp.Core.Steps.{>>=-eq-passed, or_refused-eq-passed, passed-injective}
use picket_mcp.Condition.Extract.{ok}
use picket_mcp.Store.Ids.{probe_dir}
use picket_mcp.Handler.Runbooks.{join_path, content_hash}
use picket_mcp.Handler.Registry.{
  Disk, write_file, Library, loaded, load_file, is_relative_to, id_error, entry_hash,
}
use picket_mcp.Handler.Registration.{read_file-write_file, entry_hash-eq-passed}
use picket_mcp.Probes.Types.{Language, Probe, ProbeWorld}
use picket_mcp.Probes.Run.{or_crash, read_probe}
use picket_mcp.Probes.Registry.{new_probe, probe_world_at, probe_toml_path, register_probe}

module _ {N : Type 0} (world : ProbeWorld N) (library : Library Probe) where
  read_probe-written :
      (disk : Disk) (dir id : Text) (probe : Probe)
      → library.loads (library.dumps probe) ≡ some probe
      → probe_dir world.base.home id ≡ some dir
      → read_probe
          (probe_world_at world library
            (write_file (probe_toml_path world library dir) (library.dumps probe) disk))
          id
        ≡ ok (some probe)
  unfolding read_probe
  read_probe-written disk dir id probe toml placed =
      let file =
        read_file-write_file (probe_toml_path world library dir) (library.dumps probe) disk in
      rw placed (ap (λ f. or_crash (load_file library f)) file ∙ ap (λ o. or_crash (loaded o)) toml)

  -- If a registration succeeds and TOML reads back the probe that it returns, the probe that is read
  -- afterwards is this one, its hash is that of its files at the registration, and its entry lies in
  -- its directory once links are followed.
  pub register_probe-read :
      (disk disk' : Disk) (id : Text) (language : Language) (entry description : Text) (version : ℕ)
      (probe : Probe)
      → library.loads (library.dumps probe) ≡ some probe
      → register_probe world library disk id language entry description version
        ≡ passed (probe, disk')
      → (read_probe (probe_world_at world library disk') id ≡ ok (some probe))
        × ((dir : Text) × (probe_dir world.base.home id ≡ some dir)
            × (is_relative_to (library.resolve (join_path dir entry)) (library.resolve dir) ≡ true)
            × (content_hash (record world.base { files = library.hashed disk }) dir entry
                ≡ some probe.content_hash))
  unfolding register_probe
  register_probe-read disk disk' id language entry description version probe toml h =
      let (dir, found, k) =
        >>=-eq-passed
          (or_refused invalid_spec (id_error (codes "probe") (world.base.repr id))
            (probe_dir world.base.home id))
          _ h in
      let placed = or_refused-eq-passed invalid_spec _ (probe_dir world.base.home id) found in
      let (hash, checked, made) =
        >>=-eq-passed (entry_hash world.base library disk (codes "probe") dir entry) _ k in
      let (inside, hashed) =
        entry_hash-eq-passed world.base library disk (codes "probe") dir entry hash checked in
      let new = new_probe id language entry description version hash in
      let after = write_file (probe_toml_path world library dir) (library.dumps new) disk in
      let end : (new, after) ≡ (probe, disk') = passed-injective (new, after) (probe, disk') made in
      let is_new : new ≡ probe = ap (λ p. p.0) end in
      let toml' = subst (λ p. library.loads (library.dumps p) ≡ some p) (sym is_new) toml in
      (
        subst (λ p. read_probe (probe_world_at world library p.1) id ≡ ok (some p.0)) end
            (read_probe-written disk dir id new toml' placed),
        (dir, placed, inside, hashed ∙ ap (λ p. some p.content_hash) is_new),
      )
