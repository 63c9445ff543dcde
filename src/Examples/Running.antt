-- ===== src/Examples/Running.antt =====
-- A daemon that finds a stop command in its first round, one that waited before, and ends.
use picket_mcp.Prelude.{ℕ, codes, Bool, [], ◌∷◌}
use picket_mcp.Store.Commands.{stop, CommandTable, enqueue_command}
use picket_mcp.Store.Watches.{watch_row}
use picket_mcp.Daemon.Poll.{Db}
use picket_mcp.Daemon.Window.{LocalTime}
use picket_mcp.Daemon.Run.{Identity, Round}
use picket_mcp.Examples.Sample.{watch, watch_id, answering, clock}

abbrev noon : LocalTime
noon = record { weekday = 2; hour = 12; minute = 0 }

abbrev daemon : Identity
daemon = record { pid = 7; pgid = 7; created = 100 }

-- Nobody else does anything between the rounds.
abbrev rounds : ℕ → Round ℕ
rounds k = record {
  world = answering 5;
  clock = clock;
  local = noon;
  fire_id = codes "f";
  meanwhile = λ db commands. (db, commands);
}

abbrev database : Db ℕ
database = record { watches = watch_row 5 watch ∷ []; fires = [] }

abbrev no_commands : CommandTable
no_commands = record { rows = []; last_id = 0 }

-- A stop command waits when the daemon starts.
abbrev waiting : CommandTable
waiting = (enqueue_command 20 watch_id stop no_commands).0

abbrev untouched : Bool → Db ℕ → Db ℕ
untouched stopped db = db
