-- ===== src/Handler/Worker.antt =====
-- src/picket/runtime/daemon.py: `Worker._execute`, the execution of a claimed fire.
use picket_mcp.Prelude.{
  Text, codes, Bool, Option, none, some, List, [], ◌∷◌, ◌++◌, if◌then◌else◌, take,
}
use picket_mcp.Core.Json.{Json, null}
use picket_mcp.Core.Models.{WatchState}
use picket_mcp.Store.Fire.{Fire, failed}
use picket_mcp.Store.Trace.{Transaction, finish}
use picket_mcp.Handler.Types.{World}
use picket_mcp.Handler.Deliver.{Execution, only_error}
use picket_mcp.Handler.Run.{run_fire}

module _ {N : Type 0} where
  abbrev pub value_of : Option (Json N) → Json N
  value_of none = null
  value_of (some value) = value

  -- `except Exception as err`
  unfoldable pub guarded : World N → Text → Text → Execution N → List (Transaction (Json N))
  guarded world fire_id err execution =
      if execution.raised
      then execution.writes
        ++ finish (world.clock 6) fire_id failed
            (only_error (take 500 (codes "worker error: " ++ err)))
          ∷ []
      else execution.writes

  -- `err` is the text of an exception, if one is raised.
  unfoldable pub execute :
      World N → Bool → Text → WatchState N → Fire (Json N) → List (Transaction (Json N))
  unfolding guarded run_fire
  execute world cancelled err state claimed =
      if cancelled
      then finish (world.clock 6) claimed.fire_id failed
          (only_error (codes "cancelled before start"))
        ∷ []
      else guarded world claimed.fire_id err (
          run_fire world state (value_of claimed.value) claimed.fire_id
            state.handler_timeout_seconds claimed.payload)
