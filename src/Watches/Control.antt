-- ===== src/Watches/Control.antt =====
-- src/picket/runtime/watches.py: `stop_watch`, `_send_control`, `pause_watch`, `resume_watch` and
-- `stop_all_watches`.
use picket_mcp.Prelude.{
  ℕ, zero, suc, Text, codes, text_eq, Bool, true, false, ◌||◌, Option, none, some, List, [], ◌∷◌,
  ◌++◌, if◌then◌else◌,
}
use picket_mcp.Core.Errors.{
  Reply, failure, success, not_found, already_stopped, permission_required,
}
use picket_mcp.Core.Models.{WatchState, WatchStatus, DesiredStatus}
use picket_mcp.Store.Ledger.{has_active_fire, active_handler_pid}
use picket_mcp.Store.Commands.{Command, pause, resume, stop, CommandTable, enqueue_command}
use picket_mcp.Store.Watches.{read_watch, write_watch, all_watch_ids}
use picket_mcp.Daemon.Poll.{Db}
use picket_mcp.Watches.Liveness.{ProcessTable, is_alive}

-- The database.
pub record Tables (N : Type 0) : Type 0 where
  pub db : Db N
  pub commands : CommandTable

-- SIGKILL or SIGTERM to a process group.
pub data Signal : Type 0 where
  kill term : ℕ → Signal

-- What a tool leaves behind: its reply, none where an exception leaves it, the tables and the signals
-- that it sent.
pub record Effect (N : Type 0) (A : Type 0) : Type 0 where
  pub reply : Option (Reply A)
  pub tables : Tables N
  pub signals : List Signal

pub record Stopped : Type 0 where
  pub final_status : WatchStatus
  pub handler_was_in_flight : Bool

abbrev pub is_stopped : WatchStatus → Bool
is_stopped WatchStatus.stopped = true
is_stopped _ = false

abbrev pub is_immediate : Text → Bool
is_immediate mode = text_eq mode (codes "immediate")

-- repr of a text that holds no quote, backslash or control character
abbrev pub quoted : Text → Text
quoted s = b'\'' ∷ s ++ codes "'"

-- `if hpid`
abbrev kill_handler : Option ℕ → List Signal
kill_handler none = []
kill_handler (some zero) = []
kill_handler (some (suc p)) = kill (suc p) ∷ []

-- The signals, and whether an exception is raised: os.killpg(None) raises TypeError.
abbrev signals_of : Option ℕ → List Signal → List Signal × Bool
signals_of none before = (before, true)
signals_of (some pgid) before = (before ++ term pgid ∷ [], false)

module _ {N : Type 0} where
  abbrev pub stopped_of : WatchState N → WatchState N
  stopped_of state = record state {
    status = WatchStatus.stopped;
    desired_status = DesiredStatus.stopped;
  }

  abbrev pub write_state : ℕ → WatchState N → Tables N → Tables N
  write_state now state tables = record tables {
    db = record tables.db { watches = write_watch now state tables.db.watches };
  }

  abbrev pub send : ℕ → Text → Command → Tables N → Tables N
  send now watch_id command tables = record tables {
    commands = (enqueue_command now watch_id command tables.commands).0;
  }

  -- What happens to a daemon that runs.
  unfoldable pub halt :
      (ℕ → ℕ) → Text → Text → WatchState N → Tables N → Tables N × (List Signal × Bool)
  unfolding active_handler_pid enqueue_command text_eq
  halt clock watch_id mode state tables =
      if is_immediate mode
      then (
        tables,
        signals_of state.pgid (kill_handler (active_handler_pid watch_id tables.db.fires)),
      )
      else (send (clock 0) watch_id stop tables, ([], false))

  abbrev pub ended : ℕ → WatchState N → Bool → Tables N × (List Signal × Bool) → Effect N Stopped
  ended now state in_flight (tables, (signals, true)) = record {
    reply = none;
    tables = tables;
    signals = signals;
  }
  ended now state in_flight (tables, (signals, false)) = record {
    reply = some (
        success (record { final_status = WatchStatus.stopped; handler_was_in_flight = in_flight }));
    tables = write_state now (stopped_of state) tables;
    signals = signals;
  }

  abbrev pub replies : {A : Type 0} → Reply A → Tables N → Effect N A
  replies reply tables = record { reply = some reply; tables = tables; signals = [] }

  unfoldable pub stop_live :
      ProcessTable → (ℕ → ℕ) → Text → Text → Tables N → WatchState N → Effect N Stopped
  unfolding is_alive has_active_fire halt write_watch
  stop_live processes clock watch_id mode tables state =
      let in_flight = has_active_fire watch_id tables.db.fires in
      ended (clock 1) state in_flight (
        if is_alive processes state
        then halt clock watch_id mode state tables
        else (tables, ([], false)))

  unfoldable pub stop_found :
      ProcessTable → (ℕ → ℕ) → Text → Text → Tables N → Option (WatchState N) → Effect N Stopped
  unfolding stop_live
  stop_found processes clock watch_id mode tables none =
      replies (failure not_found (codes "no watch " ++ quoted watch_id)) tables
  stop_found processes clock watch_id mode tables (some state) =
      if is_stopped state.status
      then replies (failure already_stopped (quoted watch_id ++ codes " already stopped")) tables
      else stop_live processes clock watch_id mode tables state

  unfoldable pub stop_watch : ProcessTable → (ℕ → ℕ) → Text → Text → Tables N → Effect N Stopped
  unfolding read_watch stop_found
  stop_watch processes clock watch_id mode tables =
      stop_found processes clock watch_id mode tables (read_watch watch_id tables.db.watches)

  unfoldable pub control_found :
      ℕ → Text → Command → Tables N → Option (WatchState N) → Effect N Command
  unfolding enqueue_command
  control_found now watch_id command tables none =
      replies (failure not_found (codes "no watch " ++ quoted watch_id)) tables
  control_found now watch_id command tables (some state) =
      if is_stopped state.status
      then replies (failure already_stopped (quoted watch_id ++ codes " is stopped")) tables
      else replies (success command) (send now watch_id command tables)

  unfoldable pub send_control : ℕ → Text → Command → Tables N → Effect N Command
  unfolding read_watch control_found
  send_control now watch_id command tables =
      control_found now watch_id command tables (read_watch watch_id tables.db.watches)

  abbrev pub pause_watch : ℕ → Text → Tables N → Effect N Command
  pause_watch now watch_id tables = send_control now watch_id pause tables

  abbrev pub resume_watch : ℕ → Text → Tables N → Effect N Command
  resume_watch now watch_id tables = send_control now watch_id resume tables

abbrev pub status_text : WatchStatus → Text
status_text WatchStatus.active = codes "active"
status_text WatchStatus.paused = codes "paused"
status_text WatchStatus.stopping = codes "stopping"
status_text WatchStatus.stopped = codes "stopped"
status_text WatchStatus.errored = codes "errored"

-- status_filter == "all" or the status is the filter
unfoldable pub fits_filter : Text → WatchStatus → Bool
unfolding text_eq
fits_filter status_filter status =
    text_eq status_filter (codes "all") || text_eq (status_text status) status_filter

-- What the loop of `stop_all_watches` has done, and whether an exception left it.
pub record Bulk (N : Type 0) : Type 0 where
  pub stopped : List Text
  pub failures : List Text
  pub tables : Tables N
  pub signals : List Signal
  pub raised : Bool

module _ {N : Type 0} where
  abbrev count_reply : Text → Reply Stopped → Bulk N → Bulk N
  count_reply w (success s) rest = record rest { stopped = w ∷ rest.stopped }
  count_reply w (failure c m) rest = record rest { failures = w ∷ rest.failures }

  abbrev pub after_stop :
      Text → Option (Reply Stopped) → Tables N → List Signal → (Tables N → Bulk N) → Bulk N
  after_stop w none tables signals rest = record {
    stopped = [];
    failures = [];
    tables = tables;
    signals = signals;
    raised = true;
  }
  after_stop w (some reply) tables signals rest =
      let counted = count_reply w reply (rest tables) in
      record counted { signals = signals ++ counted.signals }

  abbrev stop_one :
      ProcessTable → (ℕ → ℕ) → Text → WatchState N → Tables N → (Tables N → Bulk N) → Bulk N
  stop_one processes clock mode state tables rest =
      let effect = stop_watch processes clock state.watch_id mode tables in
      after_stop state.watch_id effect.reply effect.tables effect.signals rest

  abbrev stop_wanted :
      ProcessTable
      → (ℕ → ℕ)
      → Text
      → Text
      → Option (WatchState N)
      → Tables N
      → (Tables N → Bulk N)
      → Bulk N
  stop_wanted processes clock status_filter mode none tables rest = rest tables
  stop_wanted processes clock status_filter mode (some state) tables rest =
      if fits_filter status_filter state.status
      then stop_one processes clock mode state tables rest
      else rest tables

  -- `clocks` gives each watch its readings of the time.
  unfoldable pub stop_each :
      ProcessTable → (Text → ℕ → ℕ) → Text → Text → List Text → Tables N → Bulk N
  unfolding read_watch stop_watch fits_filter
  stop_each processes clocks status_filter mode [] tables = record {
    stopped = [];
    failures = [];
    tables = tables;
    signals = [];
    raised = false;
  }
  stop_each processes clocks status_filter mode (w ∷ ws) tables =
      stop_wanted processes (clocks w) status_filter mode (read_watch w tables.db.watches) tables
        (stop_each processes clocks status_filter mode ws)

  unfoldable pub stop_all_watches :
      ProcessTable → (Text → ℕ → ℕ) → Bool → Text → Text → Tables N → Reply (Bulk N)
  unfolding all_watch_ids stop_each
  stop_all_watches processes clocks false status_filter mode tables =
      failure permission_required (codes "stop_all_watches requires confirm=true")
  stop_all_watches processes clocks true status_filter mode tables =
      success
        (stop_each processes clocks status_filter mode (all_watch_ids tables.db.watches) tables)
