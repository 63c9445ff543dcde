-- ===== src/Daemon/Endings.antt =====
-- src/picket/runtime/daemon.py: when the loop of `run` ends, and what `run` leaves behind.
use picket_mcp.Prelude.{ℕ, zero, suc, ◌+◌, Text, ◌≡◌, refl, true, Option, some}
use picket_mcp.Core.Json.{Numbers}
use picket_mcp.Core.Models.{WatchState, WatchStatus, DesiredStatus}
use picket_mcp.Store.Commands.{stop, CommandTable, poll_command}
use picket_mcp.Store.Channel.{IsChannel}
use picket_mcp.Store.Watches.{read_watch}
use picket_mcp.Store.Keyed.{read_watch-id}
use picket_mcp.Daemon.Window.{LocalTime, aged}
use picket_mcp.Daemon.Poll.{Sources, Db}
use picket_mcp.Daemon.Loop.{LoopState, iteration}
use picket_mcp.Daemon.Run.{record_identity, Identity, Round, one_round, start}
use picket_mcp.Daemon.Upkeep.{IsStored, write_watch-IsStored, fires-IsStored, IsUp}

module _ {N : Type 0} where
  -- Others remove neither the row nor give an id of the command table twice.
  pub record IsOrderly (w : Text) (round : Round N) : Type 0 where
    pub rows :
        (db : Db N) (commands : CommandTable)
        → IsStored w db
        → IsStored w (round.meanwhile db commands).0
    pub channel :
        (db : Db N) (commands : CommandTable)
        → IsChannel commands
        → IsChannel (round.meanwhile db commands).1

  -- A stop command is what the round finds, be it one that waits in the tables that the loop has
  -- before the round or one that others send meanwhile, or the time to live is over.
  pub data Ending (w : Text) (ttl created : Option ℕ) (round : Round N) (s : LoopState N)
      : Type 0 where
    told :
        (id : ℕ)
        → poll_command w (round.meanwhile s.db s.commands).1 ≡ some (id, stop)
        → Ending w ttl created round s
    old : aged ttl created (round.clock 7) ≡ true → Ending w ttl created round s

  -- The loop after `k` rounds from the round `i` on, if it was not left before.
  unfoldable pub loop_at : Numbers N → ℕ → ℕ → (ℕ → Round N) → LoopState N → LoopState N
  loop_at num zero i rounds s = s
  loop_at num (suc k) i rounds s = loop_at num k (i + 1) rounds (one_round num (rounds i) s)

  module _ (num : Numbers N) (world : Sources N) (clock : ℕ → ℕ) (local : LocalTime)
      (fire_id : Text) (state : WatchState N) (db : Db N) (table : CommandTable) where
    abbrev after : LoopState N
    after = iteration num world clock local fire_id state db table

  pub start-IsUp :
      (self : Identity) (clock : ℕ → ℕ) (w v : Text) (state : WatchState N) (db : Db N)
      (commands : CommandTable)
      → read_watch w db.watches ≡ some state
      → IsStored v db
      → IsChannel commands
      → IsUp w v state.ttl_seconds state.created_at (start self clock w state db commands)
  unfolding start record_identity
  start-IsUp self clock w v state db commands found stored channel = record {
    id = read_watch-id w db.watches state stored.keyed found;
    ttl_kept = refl;
    created_kept = refl;
    stored = write_watch-IsStored (clock 11) v _ _ (fires-IsStored v db _ stored);
    channel = channel;
  }

  -- The row of the watch is there, stopped and wanted stopped.
  pub record IsStopped (w : Text) (db : Db N) : Type 0 where
    pub final : WatchState N
    pub row : read_watch w db.watches ≡ some final
    pub status : final.status ≡ WatchStatus.stopped
    pub desired : final.desired_status ≡ DesiredStatus.stopped
