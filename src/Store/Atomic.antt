-- ===== src/Store/Atomic.antt =====
-- src/picket/persistence/store.py: `write_json_atomic` as the steps on the files that it makes, so that
-- it can be cut off after any of them. The steps succeed, and the directory is there.
use picket_mcp.Prelude.{
  ℕ, Text, codes, text_eq, Option, none, some, List, [], ◌∷◌, ◌++◌, map, ◌==◌, if◌then◌else◌,
}
use picket_mcp.Daemon.Decimal.{decimal}

-- The files with what is in them, by their paths.
abbrev pub Files : Type 0
Files = Text → Option Text

-- open("w"), one write to the open file, and os.replace. What json.dump writes at a time, and what of it
-- reaches the file at a time, is a list of parts.
pub data FileStep : Type 0 where
  create : Text → FileStep
  write : Text → Text → FileStep
  replace : Text → Text → FileStep

unfoldable pub set_file : Text → Option Text → Files → Files
unfolding text_eq
set_file path content files p = if text_eq path p then content else files p

abbrev pub appended : Option Text → Text → Option Text
appended none part = some part
appended (some content) part = some (content ++ part)

unfoldable pub file_step : FileStep → Files → Files
unfolding set_file
file_step (create path) files = set_file path (some []) files
file_step (write path part) files = set_file path (appended (files path) part) files
file_step (replace from to) files = set_file from none (set_file to (files from) files)

-- path.with_suffix(path.suffix + f".{os.getpid()}.tmp")
unfoldable pub temporary : ℕ → Text → Text
unfolding decimal
temporary pid path = path ++ b'.' ∷ (decimal pid ++ codes ".tmp")

unfoldable pub write_json_atomic : ℕ → Text → List Text → List FileStep
unfolding temporary
write_json_atomic pid path parts =
    let tmp = temporary pid path in (create tmp ∷ map (write tmp) parts) ++ replace tmp path ∷ []

unfoldable pub joined : List Text → Text
joined [] = []
joined (part ∷ parts) = part ++ joined parts

-- A process makes its next step, if it has one.
unfoldable pub advance : List FileStep → Files → List FileStep × Files
unfolding file_step
advance [] files = ([], files)
advance (step ∷ steps) files = (steps, file_step step files)

abbrev pub assign : ℕ → List FileStep → (ℕ → List FileStep) → ℕ → List FileStep
assign pid steps todo p = if p == pid then steps else todo p

-- Processes with the steps that they have left make steps in the order of the schedule. One that is not
-- scheduled any more has been killed. The steps that are left then, and the files.
unfoldable pub run_schedule : List ℕ → (ℕ → List FileStep) → Files → (ℕ → List FileStep) × Files
unfolding advance
run_schedule [] todo files = (todo, files)
run_schedule (pid ∷ schedule) todo files =
    let (rest, after) = advance (todo pid) files in
    run_schedule schedule (assign pid rest todo) after
