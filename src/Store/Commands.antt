-- ===== src/Store/Commands.antt =====
-- src/picket/persistence/store.py: the table `commands`, the control channel from the server to a
-- daemon, with generations and acknowledgements.
use picket_mcp.Prelude.{
  ℕ, ◌+◌, max, Text, text_eq, Bool, false, not, ◌&&◌, Option, none, some, List, [], ◌∷◌, ◌++◌, leb,
  ◌==◌, is_some, select, update_where, if◌then◌else◌,
}

pub data Command : Type 0 where
  pause resume stop : Command

pub record CommandRow : Type 0 where
  pub id : ℕ
  pub watch_id : Text
  pub command : Command
  pub generation : ℕ
  pub created_at : ℕ
  pub acked_at : Option ℕ

-- The rows, and the largest id that AUTOINCREMENT has given out.
pub record CommandTable : Type 0 where
  pub rows : List CommandRow
  pub last_id : ℕ

abbrev pub for_watch : Text → CommandRow → Bool
for_watch watch_id row = text_eq row.watch_id watch_id

-- COALESCE(MAX(generation), 0)
unfoldable pub max_generation : List CommandRow → ℕ
max_generation [] = 0
max_generation (row ∷ rows) = max row.generation (max_generation rows)

abbrev pub new_command : ℕ → Text → Command → ℕ → ℕ → CommandRow
new_command id watch_id command generation now = record {
  id = id;
  watch_id = watch_id;
  command = command;
  generation = generation;
  created_at = now;
  acked_at = none;
}

-- The table, and the new generation.
unfoldable pub enqueue_command : ℕ → Text → Command → CommandTable → CommandTable × ℕ
unfolding max_generation text_eq
enqueue_command now watch_id command table =
    let gen = max_generation (select (for_watch watch_id) table.rows) + 1 in
    let id = table.last_id + 1 in
    (
      record { rows = table.rows ++ new_command id watch_id command gen now ∷ []; last_id = id },
      gen,
    )

abbrev pub is_unacked : Text → CommandRow → Bool
is_unacked watch_id row = for_watch watch_id row && not (is_some row.acked_at)

-- ORDER BY id DESC LIMIT 1
abbrev pub newer_of : CommandRow → Option CommandRow → Option CommandRow
newer_of row none = some row
newer_of row (some other) = if leb other.id row.id then some row else some other

unfoldable pub newest : List CommandRow → Option CommandRow
newest [] = none
newest (row ∷ rows) = newer_of row (newest rows)

abbrev pub id_and_name : Option CommandRow → Option (ℕ × Command)
id_and_name none = none
id_and_name (some row) = some (row.id, row.command)

unfoldable pub poll_command : Text → CommandTable → Option (ℕ × Command)
unfolding newest text_eq
poll_command watch_id table = id_and_name (newest (select (is_unacked watch_id) table.rows))

abbrev pub is_acked_by : Text → ℕ → CommandRow → Bool
is_acked_by watch_id up_to_id row = is_unacked watch_id row && leb row.id up_to_id

abbrev pub ack_row : ℕ → CommandRow → CommandRow
ack_row now row = record row { acked_at = some now }

unfoldable pub ack_command : ℕ → Text → ℕ → CommandTable → CommandTable
unfolding text_eq
ack_command now watch_id up_to_id table = record table {
  rows = update_where (is_acked_by watch_id up_to_id) (ack_row now) table.rows;
}

abbrev pub first_acked : List CommandRow → Bool
first_acked [] = false
first_acked (row ∷ rows) = is_some row.acked_at

unfoldable pub is_command_acked : Text → ℕ → CommandTable → Bool
unfolding text_eq
is_command_acked watch_id generation table =
    first_acked (select (λ row. for_watch watch_id row && row.generation == generation) table.rows)
