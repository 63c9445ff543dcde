-- ===== src/Handler/Registry.antt =====
-- src/picket/execution/runbooks.py: `register_runbook`, `install_default_notify_runbook` and
-- `list_runbooks`; the tools of src/picket/server.py that call them. An InvalidSpec is the failure that the
-- tool makes of it. The directory entries and the contents that the program writes are a map from paths.
use picket_mcp.Prelude.{
  ℕ, Text, codes, text_eq, Bool, not, ◌||◌, Option, none, some, List, [], ◌∷◌, ◌++◌, if◌then◌else◌,
}
use picket_mcp.Core.Errors.{
  invalid_spec, Tried, passed, refused, raised, ◌>>=◌, or_refused, refuse_if,
}
use picket_mcp.Core.Validate.{starts_with}
use picket_mcp.Store.Ids.{runbook_dir}
use picket_mcp.Handler.Types.{RunbookType, exec, Runbook, World}
use picket_mcp.Handler.Runbooks.{join_path, content_hash, read_runbook}

-- The files that the program has written, by their paths.
abbrev pub Disk : Type 0
Disk = List (Text × Text)

unfoldable pub read_file : Disk → Text → Option Text
unfolding text_eq
read_file [] path = none
read_file ((p, content) ∷ disk) path = if text_eq p path then some content else read_file disk path

unfoldable pub write_file : Text → Text → Disk → Disk
unfolding text_eq
write_file path content [] = (path, content) ∷ []
write_file path content ((p, old) ∷ disk) =
    let rest = write_file path content disk in
    if text_eq p path then (path, content) ∷ disk else (p, old) ∷ rest

-- The operating system and TOML: `Path.resolve`, `is_file`, the hashed files of a directory, and the
-- names of the entries of a directory in their order. `loads` is none where it raises.
pub record Library (A : Type 0) : Type 0 where
  pub resolve : Text → Text
  pub is_file : Disk → Text → Bool
  pub hashed : Disk → Text → Text → Option (List (Text × Text))
  pub names : Disk → Text → List Text
  pub dumps : A → Text
  pub loads : Text → Option A

abbrev pub loaded : {A : Type 0} → Option A → Option (Option A)
loaded none = none
loaded (some a) = some (some a)

abbrev pub load_file : {A : Type 0} → Library A → Option Text → Option (Option A)
load_file library none = some none
load_file library (some content) = loaded (library.loads content)

-- path.is_relative_to(dir) of two resolved paths
unfoldable pub is_relative_to : Text → Text → Bool
unfolding starts_with text_eq
is_relative_to path dir = text_eq path dir || starts_with (dir ++ b'/' ∷ []) path

abbrev pub or_raised {ℓ} : {A : Type ℓ} → Option A → Tried A
or_raised none = raised
or_raised (some a) = passed a

-- The checks of an entry in the directory of a runbook or a probe, and the hash.
unfoldable pub entry_hash :
    {N A : Type 0} → World N → Library A → Disk → Text → Text → Text → Tried Text
unfolding is_relative_to content_hash
entry_hash world library disk kind dir entry =
    let resolved = library.resolve (join_path dir entry) in
    refuse_if (not (is_relative_to resolved (library.resolve dir))) invalid_spec
      (codes "entry "
        ++ world.repr entry
        ++ codes " resolves outside the "
        ++ kind
        ++ codes " directory")
      (refuse_if (not (library.is_file disk resolved)) invalid_spec
        (codes "entry file not found: " ++ world.repr entry)
        (or_raised (content_hash (record world { files = library.hashed disk }) dir entry)))

-- The message of `safe_id`.
abbrev pub id_error : Text → Text → Text
id_error kind id =
    codes "invalid "
    ++ kind
    ++ codes " id "
    ++ id
    ++ codes ": use letters/digits/'.'/'_'/'-' (no traversal)"

abbrev tools_or_empty : Option (List Text) → List Text
tools_or_empty none = []
tools_or_empty (some tools) = tools

abbrev pub new_runbook : Text → RunbookType → Text → Text → Option (List Text) → ℕ → Text → Runbook
new_runbook runbook_id type entry description allowed_tools version hash = record {
  id = runbook_id;
  type = type;
  entry = entry;
  description = description;
  allowed_tools = tools_or_empty allowed_tools;
  content_hash = hash;
  version = version;
}

module _ {N : Type 0} (world : World N) (library : Library Runbook) where
  -- The world of an execution that finds these files.
  abbrev pub world_at : Disk → World N
  world_at disk = record world {
    toml = λ path. load_file library (read_file disk path);
    files = library.hashed disk;
  }

  abbrev pub toml_path : Text → Text
  toml_path dir = join_path dir (codes "runbook.toml")

  -- The runbook that is returned, and the files.
  unfoldable pub register_runbook :
      Disk → Text → RunbookType → Text → Text → Option (List Text) → ℕ → Tried (Runbook × Disk)
  unfolding runbook_dir entry_hash write_file
  register_runbook disk runbook_id type entry description allowed_tools version =
      or_refused invalid_spec (id_error (codes "runbook") (world.repr runbook_id))
        (runbook_dir world.home runbook_id)
      >>= λ dir. entry_hash world library disk (codes "runbook") dir entry >>= λ hash.
          let rb = new_runbook runbook_id type entry description allowed_tools version hash in
          passed (rb, write_file (toml_path dir) (library.dumps rb) disk)

  -- The script is written before the registration, which may still raise.
  abbrev install_in : Text → Disk → Tried Text → Disk × Tried (Runbook × Disk)
  install_in script disk (passed dir) =
      let shipped = write_file (join_path dir (codes "notify.sh")) script disk in
      (
        shipped,
        register_runbook shipped (codes "picket-notify") exec (codes "notify.sh")
            (codes "Default macOS notification (osascript / terminal-notifier)") none 1,
      )
  install_in script disk (refused code message) = (disk, refused code message)
  install_in script disk raised = (disk, raised)

  -- `script` is the text of the shipped script. The files that an exception leaves, and the runbook
  -- with the files where none is raised.
  unfoldable pub install_default_notify_runbook : Text → Disk → Disk × Tried (Runbook × Disk)
  unfolding runbook_dir write_file register_runbook
  install_default_notify_runbook script disk = install_in script disk (
      or_refused invalid_spec (id_error (codes "runbook") (world.repr (codes "picket-notify")))
        (runbook_dir world.home (codes "picket-notify")))

  abbrev cons_found : Option (Option Runbook) → Option (List Runbook) → Option (List Runbook)
  cons_found (some (some rb)) (some rows) = some (rb ∷ rows)
  cons_found _ rows = none

  -- The loop over the directories: a name is read only if its file exists, and one that is no id
  -- raises InvalidSpec.
  unfoldable pub list_names : Disk → List Text → Option (List Runbook)
  unfolding read_file read_runbook
  list_names disk [] = some []
  list_names disk (name ∷ names) =
      let rest = list_names disk names in
      let root = world.home ++ codes "/runbooks/" in
      elim (read_file disk (toml_path (root ++ name))) [
        | none ↦ rest
        | some content ↦ cons_found (read_runbook (world_at disk) name) rest
      ]

  unfoldable pub list_runbooks : Disk → Option (List Runbook)
  unfolding list_names
  list_runbooks disk = list_names disk (library.names disk (world.home ++ codes "/runbooks"))
