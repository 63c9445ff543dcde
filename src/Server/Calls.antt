-- ===== src/Server/Calls.antt =====
-- src/picket/server.py: the tools with their arguments, what a call takes from outside and what it
-- answers. The types of the arguments are those that FastMCP checks.
use picket_mcp.Prelude.{ℕ, ℤ, Text, Bool, Option, List}
use picket_mcp.Core.Json.{Json}
use picket_mcp.Core.Errors.{Reply}
use picket_mcp.Condition.Fetch.{Http}
use picket_mcp.Condition.Trial.{TestPredicate}
use picket_mcp.Store.Commands.{Command}
use picket_mcp.Store.Fire.{FireDict}
use picket_mcp.Store.Logs.{Log}
use picket_mcp.Handler.Types.{RunbookType, Runbook}
use picket_mcp.Handler.Registry.{Disk, Library}
use picket_mcp.Probes.Types.{Language, Probe}
use picket_mcp.Probes.Run.{TestProbe}
use picket_mcp.Watches.Liveness.{ProcessTable}
use picket_mcp.Watches.Control.{Tables, Signal, Stopped}
use picket_mcp.Watches.Request.{Request, ArmWorld, Armed}
use picket_mcp.Watches.Listing.{WatchSummary, WatchView}

pub data Call (N : Type 0) : Type 0 where
  ping doctor list_runbooks install_default_runbooks list_probes reconcile : Call N
  test_predicate : (endpoint predicate : Json N) → Call N
  test_probe : (probe_id : Text) → (probe_params : Json N) → Call N
  register_runbook :
      (runbook_id : Text)
      → RunbookType
      → (entry description : Text) → Option (List Text)
      → (version : ℕ) → Call N
  register_probe :
      (probe_id : Text) → Language → (entry description : Text) → (version : ℕ) → Call N
  arm_watch : Request N → Call N
  list_watches : (status_filter : Text) → Call N
  get_watch : (watch_id : Text) → (log_lines : ℤ) → Call N
  stop_watch : (watch_id mode : Text) → Call N
  stop_all_watches : Bool → (status_filter mode : Text) → Call N
  pause_watch resume_watch : (watch_id : Text) → Call N
  get_fire_log : Option Text → (limit : ℤ) → Call N
  tail_watch_log : (watch_id : Text) → (lines : ℤ) → Call N

-- What `doctor` reports beside paths.
pub record Checks : Type 0 where
  pub claude_path : Option Text
  pub home_writable : Bool
  pub watches : ℕ
  pub runbooks : ℕ
  pub probes : ℕ

-- The fields of a reply beside "ok": true.
pub data Answer (N : Type 0) : Type 0 where
  pong : Answer N
  checked : Checks → Answer N
  tested_predicate : TestPredicate N → Answer N
  tested_probe : TestProbe N → Answer N
  runbook : Runbook → Answer N
  runbooks : List Runbook → Answer N
  probe : Probe → Answer N
  probes : List Probe → Answer N
  armed : Armed N → Answer N
  swept : (restarted : List Text) → (recovered pruned : ℕ) → Answer N
  watches : List WatchSummary → Answer N
  watch : WatchView N → Answer N
  stopped : Stopped → Answer N
  stopped_all : (watch_ids failures : List Text) → Answer N
  requested : Command → Answer N
  fires : List (FireDict (Json N)) → Answer N
  lines : List Text → Answer N

-- The database and the files below PICKET_HOME that the tools write.
pub record ServerState (N : Type 0) : Type 0 where
  pub tables : Tables N
  pub disk : Disk

-- What a call takes from outside: `arm` is all that arm_watch takes; of its parts that read a
-- runbook.toml or a probe.toml the files decide instead. `which` is shutil.which("claude").
pub record Outside (N : Type 0) : Type 0 where
  pub arm : ArmWorld N
  pub http : Http N
  pub runbook_files : Library Runbook
  pub probe_files : Library Probe
  pub processes : ProcessTable
  pub clock : ℕ → ℕ
  pub clocks : Text → ℕ → ℕ
  pub new_watch_id : Text
  pub logs : Text → Log
  pub show_seconds : ℕ → Text
  pub which : Option Text
  pub writable : Bool
  pub notify_script : Text

-- The reply, none where an exception leaves the tool, the state after it, the signals sent and the
-- watches whose daemon was spawned.
pub record Served (N : Type 0) : Type 0 where
  pub reply : Option (Reply (Answer N))
  pub state : ServerState N
  pub signals : List Signal
  pub spawned : List Text
