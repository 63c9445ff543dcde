-- ===== src/Store/Mailbox.antt =====
-- src/picket/persistence/store.py: the control channel of one watch, seen as a mailbox for one command.
-- A daemon polls and acknowledges in two transactions, and other processes enqueue and acknowledge
-- between them.
use picket_mcp.Prelude.{
  ℕ, Text, text_eq, Bool, true, false, Option, none, some, List, [], ◌∷◌, if◌then◌else◌,
}
use picket_mcp.Store.Commands.{Command, CommandTable, enqueue_command, poll_command, ack_command}

-- What happens on the table: a command is sent to some watch, the daemon of the watch polls, it
-- acknowledges what it polled, or the daemon of another watch acknowledges.
pub data Event : Type 0 where
  sent : ℕ → Text → Command → Event
  polled : Event
  acked : ℕ → Event
  acked_other : ℕ → Text → ℕ → Event

-- The table, and the id that the daemon polled and has not acknowledged.
pub record Channel : Type 0 where
  pub table : CommandTable
  pub held : Option ℕ

abbrev pub id_of : Option (ℕ × Command) → Option ℕ
id_of none = none
id_of (some (i, c)) = some i

abbrev pub command_of : Option (ℕ × Command) → Option Command
command_of none = none
command_of (some (i, c)) = some c

abbrev pub ack_held : ℕ → Text → Option ℕ → CommandTable → CommandTable
ack_held now w none table = table
ack_held now w (some i) table = ack_command now w i table

-- The effect of an event on the channel of the watch `w`.
unfoldable pub channel_step : Text → Event → Channel → Channel
unfolding enqueue_command poll_command ack_command
channel_step w (sent now v c) s = record s { table = (enqueue_command now v c s.table).0 }
channel_step w polled s = record s { held = id_of (poll_command w s.table) }
channel_step w (acked now) s = record { table = ack_held now w s.held s.table; held = none }
channel_step w (acked_other now v i) s =
    if text_eq v w then s else record s { table = ack_command now v i s.table }

-- What the daemon sees at its polls.
unfoldable pub channel_run : Text → List Event → Channel → List (Option Command)
channel_run w [] s = []
channel_run w (polled ∷ es) s =
    command_of (poll_command w s.table) ∷ channel_run w es (channel_step w polled s)
channel_run w (e ∷ es) s = channel_run w es (channel_step w e s)

-- The specification: at most one command waits, and the daemon has read it or not.
pub record Mailbox : Type 0 where
  pub waiting : Option Command
  pub was_read : Bool

abbrev pub is_waiting : Option Command → Bool
is_waiting none = false
is_waiting (some c) = true

unfoldable pub mailbox_step : Text → Event → Mailbox → Mailbox
unfolding text_eq
mailbox_step w (sent now v c) m =
    if text_eq v w then record { waiting = some c; was_read = false } else m
mailbox_step w polled m = record m { was_read = is_waiting m.waiting }
mailbox_step w (acked now) m = record {
  waiting = if m.was_read then none else m.waiting;
  was_read = false;
}
mailbox_step w (acked_other now v i) m = m

unfoldable pub mailbox_run : Text → List Event → Mailbox → List (Option Command)
mailbox_run w [] m = []
mailbox_run w (polled ∷ es) m = m.waiting ∷ mailbox_run w es (mailbox_step w polled m)
mailbox_run w (e ∷ es) m = mailbox_run w es (mailbox_step w e m)
