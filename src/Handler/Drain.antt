-- ===== src/Handler/Drain.antt =====
-- src/picket/runtime/daemon.py: `Worker.run`. The store's operations succeed, and nothing but the worker
-- changes the database between two of its rounds; the events `_drain` and `_cancel` are read as given.
use picket_mcp.Prelude.{ℕ, zero, suc, ◌+◌, ◌*◌, Text, Bool, Option, none, some, List, if◌then◌else◌}
use picket_mcp.Core.Json.{Json}
use picket_mcp.Core.Models.{WatchState}
use picket_mcp.Store.Fire.{Fire}
use picket_mcp.Store.Ledger.{claim_next_fire}
use picket_mcp.Store.Trace.{history}
use picket_mcp.Store.Watches.{read_watch}
use picket_mcp.Daemon.Poll.{Db}
use picket_mcp.Handler.Types.{World}
use picket_mcp.Handler.Worker.{execute}

-- What a round takes from outside: whether the worker is cancelled when the loop is entered again, the
-- claim's clock, the world of the execution, the text of an exception if one is raised, and whether
-- the worker is cancelled by the time it executes.
pub record Visit (N : Type 0) : Type 0 where
  pub leaving : Bool
  pub clock : ℕ → ℕ
  pub world : World N
  pub err : Text
  pub cancelled : Bool

-- A round leaves the loop, waits for fires, or has worked on one.
pub data Turned (N : Type 0) : Type 0 where
  returns : Turned N
  idles : Turned N
  worked : List (Fire (Json N)) → Turned N

module _ {N : Type 0} where
  abbrev pub on_claim :
      Visit N → Bool → WatchState N → List (Fire (Json N)) × Option (Fire (Json N)) → Turned N
  on_claim visit draining state (fires, none) = if draining then returns else idles
  on_claim visit draining state (fires, some claimed) =
      worked (history (execute visit.world visit.cancelled visit.err state claimed) fires)

  -- handler_timeout_seconds + 60 seconds, as microseconds
  abbrev pub lease_of : WatchState N → ℕ
  lease_of state = (state.handler_timeout_seconds + 60) * 1000000

  abbrev pub on_watch :
      Visit N → ℕ → Bool → Text → List (Fire (Json N)) → Option (WatchState N) → Turned N
  on_watch visit pid draining w fires none = returns
  on_watch visit pid draining w fires (some state) =
      on_claim visit draining state (claim_next_fire visit.clock w pid (lease_of state) fires)

  unfoldable pub worker_round : Visit N → ℕ → Bool → Text → Db N → Turned N
  unfolding claim_next_fire read_watch execute history
  worker_round visit pid draining w db =
      if visit.leaving
      then returns
      else on_watch visit pid draining w db.fires (read_watch w db.watches)

  abbrev pub go_on :
      Turned N → Db N → (Db N → Option (List (Fire (Json N)))) → Option (List (Fire (Json N)))
  go_on returns db rest = some db.fires
  go_on idles db rest = rest db
  go_on (worked fires) db rest = rest (record db { fires = fires })

  -- The loop, for so many rounds at most: the fires when it returns.
  unfoldable pub worker_run :
      ℕ → (ℕ → Visit N) → ℕ → Bool → Text → Db N → Option (List (Fire (Json N)))
  unfolding worker_round
  worker_run zero visits pid draining w db = none
  worker_run (suc n) visits pid draining w db =
      go_on (worker_round (visits n) pid draining w db) db (worker_run n visits pid draining w)
