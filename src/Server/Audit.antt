-- ===== src/Server/Audit.antt =====
-- src/picket/persistence/audit.py: `get_fire_log` and `tail_watch_log`.
use picket_mcp.Prelude.{ℤ, Text, codes, Option, none, some, List, ◌++◌}
use picket_mcp.Core.Json.{Json}
use picket_mcp.Core.Errors.{Tried, refused, not_found}
use picket_mcp.Core.Models.{WatchState}
use picket_mcp.Store.Fire.{FireDict}
use picket_mcp.Store.History.{recent_fires}
use picket_mcp.Store.Ids.{log_path}
use picket_mcp.Store.Logs.{Log, log_tail}
use picket_mcp.Store.Watches.{read_watch}
use picket_mcp.Daemon.Poll.{Db}
use picket_mcp.Watches.Control.{quoted}
use picket_mcp.Watches.Listing.{tail_of}

module _ {N : Type 0} where
  unfoldable pub get_fire_log : Option Text → ℤ → Db N → List (FireDict (Json N))
  unfolding recent_fires
  get_fire_log watch_id limit db = recent_fires watch_id limit db.fires

  abbrev tail_found : Text → (Text → Log) → Text → ℤ → Option (WatchState N) → Tried (List Text)
  tail_found home logs watch_id lines none =
      refused not_found (codes "no watch " ++ quoted watch_id)
  tail_found home logs watch_id lines (some state) = tail_of logs lines (log_path home watch_id)

  unfoldable pub tail_watch_log : Text → (Text → Log) → Text → ℤ → Db N → Tried (List Text)
  unfolding read_watch log_path log_tail
  tail_watch_log home logs watch_id lines db =
      tail_found home logs watch_id lines (read_watch watch_id db.watches)
