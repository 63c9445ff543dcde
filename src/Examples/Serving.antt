-- ===== src/Examples/Serving.antt =====
-- The server's tools called on a database with a live watch and a stopped one.
use picket_mcp.Prelude.{
  ℕ, Text, codes, text_eq, ◌≡◌, refl, true, false, ◌⊎◌, none, some, List, [], ◌∷◌, ◌++◌, arith,
}
use picket_mcp.Core.Errors.{not_found, daemon_spawn_failed}
use picket_mcp.Core.Models.{WatchState, WatchStatus, DesiredStatus}
use picket_mcp.Store.Commands.{CommandTable, stop, poll_command}
use picket_mcp.Watches.Liveness.{ProcessTable, is_alive}
use picket_mcp.Store.Watches.{watch_row, read_watch}
use picket_mcp.Handler.Registry.{Library}
use picket_mcp.Probes.Types.{Probe}
use picket_mcp.Watches.Control.{stop_watch, stop_found, quoted}
use picket_mcp.Core.Errors.{success}
use picket_mcp.Condition.Extract.{extract}
use picket_mcp.Condition.Predicate.{as_number, compare_values, satisfied_by, is_satisfied}
use picket_mcp.Store.Commands.{pause}
use picket_mcp.Daemon.Window.{LocalTime}
use picket_mcp.Daemon.Poll.{observe, observe_endpoint, decide, poll_with, poll_once}
use picket_mcp.Daemon.Loop.{LoopState, iteration}
use picket_mcp.Daemon.Obedience.{Obeyed}
use picket_mcp.Daemon.Run.{Identity, start}
use picket_mcp.Watches.Control.{Tables, pause_watch}
use picket_mcp.Watches.Overtaking.{stop_watch-overtaken}
use picket_mcp.Program.{Program, ran, Step, Reach}
use picket_mcp.Program.Healthy.{IsHealthy}
use picket_mcp.Program.Invariant.{Reach-IsHealthy}
use picket_mcp.Watches.Sweeps.{has}
use picket_mcp.Server.Calls.{Call, ServerState, Outside}
use picket_mcp.Server.Tools.{serve, serve_all}
use picket_mcp.Server.Changes.{IsSound}
use picket_mcp.Server.Resting.{IsAtRest}
use picket_mcp.Server.Sequences.{serve_all-IsAtRest}
use picket_mcp.Server.Failures.{IsUntouched, serve-failure}
use picket_mcp.Examples.Sample.{nat_numbers, watch, watch_id, clock, answering}
use picket_mcp.Examples.Registry.{library}
use picket_mcp.Examples.Specs.{http, arm_world, request}

abbrev probe_library : Library Probe
probe_library = record {
  resolve = λ path. path;
  is_file = λ disk path. true;
  hashed = λ disk dir entry. some [];
  names = λ disk dir. [];
  dumps = λ probe. probe.entry;
  loads = λ s. none;
}

-- The new watches are called n, and every process runs.
abbrev outside : Outside ℕ
outside = record {
  arm = arm_world;
  http = http;
  runbook_files = library;
  probe_files = probe_library;
  processes = λ pid. some 100;
  clock = clock;
  clocks = λ w. clock;
  new_watch_id = codes "n";
  logs = λ path. record { current = none; rolled = none };
  show_seconds = λ n. [];
  which = none;
  writable = true;
  notify_script = codes "#!/bin/sh";
}

abbrev halted : WatchState ℕ
halted = record watch {
  watch_id = codes "h";
  status = WatchStatus.stopped;
  desired_status = DesiredStatus.stopped;
}

abbrev state : ServerState ℕ
state = record {
  tables = record {
    db = record { watches = watch_row 5 watch ∷ watch_row 6 halted ∷ []; fires = [] };
    commands = record { rows = []; last_id = 0 };
  };
  disk = [];
}

abbrev calls : List (Outside ℕ × Call ℕ)
calls =
    (outside, Call.pause_watch watch_id)
    ∷ (outside, Call.resume_watch (codes "h"))
    ∷ (outside, Call.arm_watch request)
    ∷ (outside, Call.reconcile)
    ∷ (outside, Call.stop_all_watches true (codes "all") (codes "graceful"))
    ∷ []

state-IsSound : IsSound state.tables
state-IsSound = record {
  keyed = (refl, (refl, tt));
  channel = tt;
  unique = record { ids = λ x. ground arith; keys = λ k. ground arith };
}

serve_all-IsAtRest_example :
    let (after, spawned) = serve_all nat_numbers calls state in
    IsAtRest (codes "h") halted refl none after.tables × (has (codes "h") spawned ≡ false)
unfolding read_watch text_eq picket_mcp.Store.Commands.poll_command
serve_all-IsAtRest_example =
    serve_all-IsAtRest (codes "h") halted refl none nat_numbers calls state (ground arith)
      state-IsSound (record { read = refl; quiet = refl })

abbrev missing : Text
missing = codes "no watch " ++ quoted (codes "x")

serve-failure_example :
    (not_found ≡ daemon_spawn_failed)
    ⊎ IsUntouched not_found missing state
        (serve nat_numbers outside (Call.stop_watch (codes "x") (codes "graceful")) state)
unfolding serve stop_watch stop_found read_watch text_eq
serve-failure_example =
    serve-failure nat_numbers outside (Call.stop_watch (codes "x") (codes "graceful")) state
      not_found missing refl

abbrev program : Program ℕ
program = record { server = state; daemons = λ w. none }

program-IsHealthy : IsHealthy program
program-IsHealthy = record {
  sound = state-IsSound;
  ordered = record { unique = state-IsSound.unique; in_flight = λ v. omega arith };
  stored = λ w s runs. absurd (ground (arith, runs));
}

abbrev noon : LocalTime
noon = record { weekday = 2; hour = 12; minute = 0 }

abbrev daemon : Identity
daemon = record { pid = 7; pgid = 7; created = 100 }

abbrev begun : LoopState ℕ
begun = start daemon clock watch_id watch state.tables.db state.tables.commands

abbrev going : Program ℕ
going = ran watch_id begun program

-- The daemon of the watch starts, the watch is paused, and the daemon makes a round.
abbrev paused : Program ℕ
paused = record going {
  server = (serve nat_numbers outside (Call.pause_watch watch_id) going.server).state;
}

abbrev polled : Program ℕ
polled =
    ran watch_id
      (iteration nat_numbers (answering 12) clock noon (codes "f") begun.state
        paused.server.tables.db paused.server.tables.commands)
      paused

starts : read_watch watch_id state.tables.db.watches ≡ some watch
unfolding read_watch text_eq
starts = refl

runs : paused.daemons watch_id ≡ some begun.state
unfolding text_eq start
runs = refl

Reach-IsHealthy_example : IsHealthy polled
Reach-IsHealthy_example =
    Reach-IsHealthy nat_numbers program polled
      (Reach.more
        (Reach.more (Reach.more Reach.here (Step.begin daemon clock watch_id watch refl starts))
          (Step.call outside (Call.pause_watch watch_id)))
        (Step.round (answering 12) clock noon (codes "f") watch_id begun.state runs))
      program-IsHealthy

-- The row of the watch names the process of the daemon.
abbrev held : WatchState ℕ
held = record watch { pid = some 7; pgid = some 7; proc_create_time = some 100 }

abbrev tables : Tables ℕ
tables = record {
  db = record { watches = watch_row 5 held ∷ []; fires = [] };
  commands = record { rows = []; last_id = 0 };
}

abbrev processes : ProcessTable
processes pid = some 100

tables-IsSound : IsSound tables
tables-IsSound = record {
  unique = record { ids = λ x. ground arith; keys = λ k. ground arith };
  channel = tt;
  keyed = (refl, tt);
}

abbrev stopping : Tables ℕ
stopping = (stop_watch processes clock watch_id (codes "graceful") tables).tables

abbrev overwritten : Tables ℕ
overwritten = record stopping {
  db = (poll_once nat_numbers (answering 5) clock (codes "f") held stopping.db).db;
}

held-row : read_watch watch_id tables.db.watches ≡ some held
unfolding read_watch text_eq
held-row = refl

stop_watch-overtaken_example :
    let polled = poll_once nat_numbers (answering 5) clock (codes "f") held stopping.db in
    let pausing = pause_watch 30 watch_id overwritten in
    ((id : ℕ) × (poll_command watch_id stopping.commands ≡ some (id, stop)))
    × (pausing.reply ≡ some (success pause))
    × Obeyed polled.state pausing.tables.db WatchStatus.paused DesiredStatus.paused (
        iteration nat_numbers
          (answering 5)
          clock
          noon
          (codes "g")
          polled.state
          pausing.tables.db
          pausing.tables.commands)
unfolding poll_once poll_with observe observe_endpoint extract is_satisfied satisfied_by
    compare_values as_number decide is_alive
stop_watch-overtaken_example =
    stop_watch-overtaken nat_numbers processes clock (codes "graceful") tables held held
      (answering 5) clock (codes "f") 30 (answering 5) clock noon (codes "g") tables-IsSound
      held-row refl refl refl refl refl
