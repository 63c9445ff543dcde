-- ===== src/Probes/Registry.antt =====
-- src/picket/conditions/probes.py: `register_probe` and `list_probes`, over the files and the checks that
-- runbooks have.
use picket_mcp.Prelude.{ℕ, Text, codes, Option, none, some, List, [], ◌∷◌, ◌++◌}
use picket_mcp.Core.Errors.{invalid_spec, Tried, passed, ◌>>=◌, or_refused}
use picket_mcp.Store.Ids.{probe_dir}
use picket_mcp.Handler.Runbooks.{join_path}
use picket_mcp.Handler.Registry.{
  Disk, read_file, write_file, Library, load_file, id_error, entry_hash,
}
use picket_mcp.Probes.Types.{Language, Probe, ProbeWorld}
use picket_mcp.Probes.Run.{read_probe}
use picket_mcp.Condition.Extract.{Observed, ok}

abbrev pub new_probe : Text → Language → Text → Text → ℕ → Text → Probe
new_probe probe_id language entry description version hash = record {
  id = probe_id;
  language = language;
  entry = entry;
  description = description;
  content_hash = hash;
  version = version;
}

module _ {N : Type 0} (world : ProbeWorld N) (library : Library Probe) where
  -- The world of a probe's run that finds these files.
  abbrev pub probe_world_at : Disk → ProbeWorld N
  probe_world_at disk = record world {
    base = record world.base { files = library.hashed disk };
    toml = λ path. load_file library (read_file disk path);
  }

  abbrev pub probe_toml_path : Text → Text
  probe_toml_path dir = join_path dir (codes "probe.toml")

  -- The probe that is returned, and the files.
  unfoldable pub register_probe : Disk → Text → Language → Text → Text → ℕ → Tried (Probe × Disk)
  unfolding probe_dir entry_hash write_file
  register_probe disk probe_id language entry description version =
      or_refused invalid_spec (id_error (codes "probe") (world.base.repr probe_id))
        (probe_dir world.base.home probe_id)
      >>= λ dir. entry_hash world.base library disk (codes "probe") dir entry >>= λ hash.
          let probe = new_probe probe_id language entry description version hash in
          passed (probe, write_file (probe_toml_path dir) (library.dumps probe) disk)

  abbrev cons_probe : Observed (Option Probe) → Option (List Probe) → Option (List Probe)
  cons_probe (ok (some probe)) (some rows) = some (probe ∷ rows)
  cons_probe _ rows = none

  -- The loop over the directories: a name is read only if its file exists, and one that is no id
  -- raises InvalidSpec.
  unfoldable pub list_probe_names : Disk → List Text → Option (List Probe)
  unfolding read_file read_probe
  list_probe_names disk [] = some []
  list_probe_names disk (name ∷ names) =
      let rest = list_probe_names disk names in
      let root = world.base.home ++ codes "/probes/" in
      elim (read_file disk (probe_toml_path (root ++ name))) [
        | none ↦ rest
        | some content ↦ cons_probe (read_probe (probe_world_at disk) name) rest
      ]

  unfoldable pub list_probes : Disk → Option (List Probe)
  unfolding list_probe_names
  list_probes disk = list_probe_names disk (library.names disk (world.base.home ++ codes "/probes"))
