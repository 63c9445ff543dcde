-- ===== src/Examples/Control.antt =====
-- The theorems of the control plane at concrete inputs: a watch whose daemon runs as process 7.
use picket_mcp.Prelude.{
  ℕ, Text, Option, ◌+◌, ◌≤◌, max, codes, ◌≡◌, refl, true, false, none, some, [], ◌∷◌, count_where,
  text_eq, arith,
}
use picket_mcp.Core.Models.{WatchState, WatchStatus}
use picket_mcp.Store.Fire.{running}
use picket_mcp.Store.Ledger.{has_active_fire, count_fires}
use picket_mcp.Store.History.{is_abandoned, is_terminal_row}
use picket_mcp.Store.Claim.{waits}
use picket_mcp.Store.Commands.{CommandTable}
use picket_mcp.Store.Watches.{watch_row, read_watch, watch_ids_by_desired}
use picket_mcp.Daemon.Poll.{Db}
use picket_mcp.Daemon.Loop.{LoopState, iteration}
use picket_mcp.Daemon.Window.{LocalTime}
use picket_mcp.Daemon.Limits.{Step, Steps, Steps-count_fires-le}
use picket_mcp.Watches.Liveness.{ProcessTable, is_alive}
use picket_mcp.Watches.Control.{Tables, Stopped, stop_watch, stop_found, stop_live, halt}
use picket_mcp.Watches.Stopping.{IsSettled, stop_watch-IsSettled}
use picket_mcp.Watches.Reconcile.{restarts, spawn_each, reconcile, reconcile_spawning}
use picket_mcp.Watches.Spawning.{IsSwept, reconcile_spawning-IsSwept}
use picket_mcp.Watches.Sweeps.{reconcile-ledger}
use picket_mcp.Examples.Sample.{nat_numbers, watch, watch_id, answering, clock, fire_id, row}

abbrev live : WatchState ℕ
live = record watch { pid = some 7; pgid = some 7; proc_create_time = some 100 }

abbrev processes : ProcessTable
processes pid = some 100

abbrev no_processes : ProcessTable
no_processes pid = none

abbrev no_commands : CommandTable
no_commands = record { rows = []; last_id = 0 }

-- One fire is running under a lease until the time 50.
abbrev database : Db ℕ
database = record {
  watches = watch_row 5 live ∷ [];
  fires = row fire_id (codes "w:1") running (some 50) 10 ∷ [];
}

abbrev tables : Tables ℕ
tables = record { db = database; commands = no_commands }

abbrev stopped : Stopped
stopped = record { final_status = WatchStatus.stopped; handler_was_in_flight = true }

stop_watch-IsSettled_example :
    IsSettled processes clock watch_id
      (codes "graceful")
      tables
      (stop_watch processes clock watch_id (codes "graceful") tables).tables
unfolding stop_watch stop_found stop_live is_alive halt read_watch has_active_fire text_eq
stop_watch-IsSettled_example =
    stop_watch-IsSettled processes clock watch_id (codes "graceful") tables stopped (refl, tt) refl

reconcile-ledger_example :
    let after = (reconcile no_processes 90 2 database).db in
    (count_where (is_abandoned 90 none) after.fires ≡ 0)
    × (count_where is_terminal_row after.fires ≤ 2)
    × ((x : _) → count_where (waits x) after.fires ≡ count_where (waits x) database.fires)
    × (after.watches ≡ database.watches)
reconcile-ledger_example =
    reconcile-ledger no_processes 90 2 database
      (record { ids = λ x. ground arith; keys = λ k. ground arith })

-- No process can be spawned.
abbrev refuses : Text → Option Text
refuses w = some (codes "OSError")

reconcile_spawning-IsSwept_example :
    IsSwept refuses no_processes database (reconcile_spawning refuses no_processes 90 2 database)
reconcile_spawning-IsSwept_example = reconcile_spawning-IsSwept refuses no_processes 90 2 database

-- The daemon of the watch is down, and the sweep ends by the exception.
refused_sweep : reconcile_spawning refuses no_processes 90 2 database ≡ ([], none)
unfolding reconcile_spawning spawn_each restarts watch_ids_by_desired read_watch text_eq is_alive
refused_sweep = refl

abbrev noon : LocalTime
noon = record { weekday = 2; hour = 12; minute = 0 }

abbrev loop : LoopState ℕ
loop = record { state = watch; db = database; commands = no_commands; stopped = false }

abbrev polled : LoopState ℕ
polled = iteration nat_numbers (answering 11) clock noon fire_id watch database no_commands

-- The limit is one fire.
Steps-count_fires-le_example :
    count_fires watch_id polled.db.fires ≤ max (count_fires watch_id database.fires + 1) 1
Steps-count_fires-le_example =
    Steps-count_fires-le nat_numbers 1 loop polled refl
      (Steps.more loop polled Steps.here (Step.round (answering 11) clock noon fire_id refl))
