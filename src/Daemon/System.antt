-- ===== src/Daemon/System.antt =====
-- src/picket/runtime/daemon.py: the scheduler's polls of one watch, interleaved with what others do
-- to the ledger between two polls: workers that claim, finish and deliver, and the recovery and
-- retention of the supervisor. Only the scheduler creates fires of its watch.
use picket_mcp.Prelude.{
  ℕ, ◌+◌, Text, Bool, false, not, ◌&&◌, Option, List, [], ◌∷◌, one_if, is_some,
}
use picket_mcp.Core.Json.{Json, Numbers}
use picket_mcp.Core.Models.{WatchState, PredicateSpec}
use picket_mcp.Condition.Extract.{Observed, ok}
use picket_mcp.Store.Fire.{Fire}
use picket_mcp.Store.Ledger.{of_watch}
use picket_mcp.Store.Trace.{Transaction, create, apply, IsCall}
use picket_mcp.Daemon.Poll.{Sources, Db, Observation, observe, watches_change, poll_once}

pub record System (N : Type 0) : Type 0 where
  pub state : WatchState N
  pub db : Db N

pub data Turn (N : Type 0) : Type 0 where
  poll : Sources N → (ℕ → ℕ) → Text → Turn N
  work : Transaction (Json N) → Turn N

module _ {N : Type 0} where
  abbrev pub IsWork : Transaction (Json N) → Type 0
  IsWork (create _ _ _ _ _ _ _ _) = ⊥
  IsWork t = IsCall t

  abbrev pub IsTurn : Turn N → Type 0
  IsTurn (poll _ _ _) = Unit
  IsTurn (work t) = IsWork t

  -- A fire that a poll has queued: rows of dropped overlaps have no idempotency key.
  abbrev pub queued_of : Text → Fire (Json N) → Bool
  queued_of w row = of_watch w row && is_some row.idem_key

  -- Whether what is observed is a condition that holds and did not at the last good observation.
  abbrev pub rises_with : Bool → Observed (Observation N) → Bool
  rises_with held (ok seen) = seen.satisfied && not held
  rises_with held _ = false

  -- Whether the condition held at the last good observation. A change is over once it is seen.
  abbrev pub held_with : Option (PredicateSpec N) → Bool → Observed (Observation N) → Bool
  held_with predicate held (ok seen) = seen.satisfied && not (watches_change predicate)
  held_with predicate held _ = held

  abbrev pub begun : (ℕ → ℕ) → WatchState N → WatchState N
  begun clock state = record state {
    heartbeat_at = Option.some (clock 4);
    last_observed_at = Option.some (clock 4);
  }

  module _ (num : Numbers N) where
    unfoldable pub turn : Turn N → System N → System N
    turn (poll world clock fire_id) s =
        let polled = poll_once num world clock fire_id s.state s.db in
        record { state = polled.state; db = polled.db }
    turn (work t) s = record s { db = record s.db { fires = apply t s.db.fires } }

    unfoldable pub run_turns : List (Turn N) → System N → System N
    run_turns [] s = s
    run_turns (t ∷ ts) s = run_turns ts (turn t s)

    -- Whether the turn observes the condition as newly satisfied.
    unfoldable pub rises : Turn N → System N → Bool → Bool
    rises (poll world clock fire_id) s held =
        let state = begun clock s.state in rises_with held (observe num world state state.probe_id)
    rises (work t) s held = false

    unfoldable pub held_after : Turn N → System N → Bool → Bool
    held_after (poll world clock fire_id) s held =
        let state = begun clock s.state in
        held_with s.state.predicate held (observe num world state state.probe_id)
    held_after (work t) s held = held

    -- How often the observations show the condition as newly satisfied, where `held` tells whether it
    -- held before them. The daemon's own flag is not read.
    unfoldable pub rises_in : List (Turn N) → System N → Bool → ℕ
    rises_in [] s held = 0
    rises_in (t ∷ ts) s held =
        one_if (rises t s held) + rises_in ts (turn t s) (held_after t s held)
