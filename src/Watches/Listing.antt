-- ===== src/Watches/Listing.antt =====
-- src/picket/runtime/watches.py: `list_watches` and `get_watch`. The format `:g` of the seconds between
-- two polls is an argument, and so are the logs, by their paths.
use picket_mcp.Prelude.{
  ℕ, ℤ, Text, codes, Bool, Option, none, some, List, [], ◌∷◌, ◌++◌, if◌then◌else◌,
}
use picket_mcp.Core.Json.{Json}
use picket_mcp.Core.Errors.{Tried, passed, raised, refused, not_found}
use picket_mcp.Core.Models.{WatchState, WatchStatus}
use picket_mcp.Store.Fire.{FireDict}
use picket_mcp.Store.History.{most_recent_fire}
use picket_mcp.Store.Ids.{log_path}
use picket_mcp.Store.Logs.{Log, log_tail}
use picket_mcp.Store.Watches.{WatchRow, read_watch, all_watch_ids}
use picket_mcp.Daemon.Decimal.{decimal}
use picket_mcp.Daemon.Poll.{Db}
use picket_mcp.Watches.Liveness.{ProcessTable, is_alive, effective_status}
use picket_mcp.Watches.Control.{fits_filter, quoted}

pub record WatchSummary : Type 0 where
  pub watch_id : Text
  pub label : Option Text
  pub status : WatchStatus
  pub runbook_id : Text
  pub source : Text
  pub cadence_summary : Text
  pub mode : Text
  pub fire_count : ℕ
  pub last_observed_at : Option ℕ
  pub last_error : Option Text
  pub alive : Bool

pub record WatchView (N : Type 0) : Type 0 where
  pub watch : WatchState N
  pub alive : Bool
  pub effective_status : WatchStatus
  pub most_recent_fire : Option (FireDict (Json N))
  pub log_tail : List Text

-- f"probe:{probe_id}" if probe_id else "endpoint"
abbrev source_of : Option Text → Text
source_of (some (c ∷ s)) = codes "probe:" ++ c ∷ s
source_of _ = codes "endpoint"

abbrev mode_of : Option ℕ → Text
mode_of none = codes "recurring"
mode_of (some n) = codes "max_fires=" ++ decimal n

module _ {N : Type 0} (show_seconds : ℕ → Text) (processes : ProcessTable) (now : ℕ) where
  unfoldable pub summary_of : WatchState N → WatchSummary
  unfolding is_alive effective_status decimal
  summary_of state = record {
    watch_id = state.watch_id;
    label = state.label;
    status = effective_status processes now state;
    runbook_id = state.runbook_id;
    source = source_of state.probe_id;
    cadence_summary = codes "every " ++ show_seconds state.cadence.interval_seconds ++ codes "s";
    mode = mode_of state.max_fires;
    fire_count = state.fire_count;
    last_observed_at = state.last_observed_at;
    last_error = state.last_error;
    alive = is_alive processes state;
  }

  abbrev pub listed : Text → Option (WatchState N) → List WatchSummary → List WatchSummary
  listed status_filter none rest = rest
  listed status_filter (some state) rest =
      if fits_filter status_filter (effective_status processes now state)
      then summary_of state ∷ rest
      else rest

  -- The loop over the ids.
  unfoldable pub list_ids : Text → List (WatchRow N) → List Text → List WatchSummary
  unfolding read_watch fits_filter summary_of
  list_ids status_filter table [] = []
  list_ids status_filter table (w ∷ ws) =
      listed status_filter (read_watch w table) (list_ids status_filter table ws)

  unfoldable pub list_watches : Text → List (WatchRow N) → List WatchSummary
  unfolding list_ids all_watch_ids
  list_watches status_filter table = list_ids status_filter table (all_watch_ids table)

-- The log of a watch: its path is refused by an exception.
abbrev pub tail_of : (Text → Log) → ℤ → Option Text → Tried (List Text)
tail_of logs n none = raised
tail_of logs n (some path) = passed (log_tail n (logs path))

module _ {N : Type 0} (processes : ProcessTable) (now : ℕ) (home : Text) (logs : Text → Log) where
  abbrev view_of :
      WatchState N → Option (FireDict (Json N)) → Tried (List Text) → Tried (WatchView N)
  view_of state recent (passed lines) = passed (record {
    watch = state;
    alive = is_alive processes state;
    effective_status = effective_status processes now state;
    most_recent_fire = recent;
    log_tail = lines;
  })
  view_of state recent (refused code message) = refused code message
  view_of state recent raised = raised

  abbrev get_found : Text → ℤ → Db N → Option (WatchState N) → Tried (WatchView N)
  get_found watch_id log_lines db none = refused not_found (codes "no watch " ++ quoted watch_id)
  get_found watch_id log_lines db (some state) =
      view_of state (most_recent_fire watch_id db.fires)
        (tail_of logs log_lines (log_path home watch_id))

  unfoldable pub get_watch : Text → ℤ → Db N → Tried (WatchView N)
  unfolding read_watch most_recent_fire log_path log_tail is_alive effective_status
  get_watch watch_id log_lines db = get_found watch_id log_lines db (read_watch watch_id db.watches)
