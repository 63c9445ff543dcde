-- ===== src/Daemon/Poll.antt =====
-- src/picket/runtime/daemon.py: `poll_once`, one poll of the scheduler. The log lines are not
-- modelled. The store's operations succeed; what an observation raises beyond ObserveError and
-- ProbeError leaves the poll at once.
use picket_mcp.Prelude.{
  ℕ, suc, Text, Bool, true, false, not, ◌&&◌, Option, none, some, List, ◌∷◌, ◌++◌, if◌then◌else◌,
}
use picket_mcp.Core.Json.{Json, null, Numbers}
use picket_mcp.Core.Models.{
  WatchState, EndpointSpec, PredicateSpec, PredicateOp, BaselineMode, on_change, pct_change,
}
use picket_mcp.Condition.Extract.{Observed, ok, observe_error, crash, ◌>>=◌, extract}
use picket_mcp.Condition.Predicate.{is_satisfied}
use picket_mcp.Store.Fire.{Fire, pending, skipped_overlap}
use picket_mcp.Store.Ledger.{create_fire, has_active_fire, count_fires}
use picket_mcp.Store.Watches.{WatchRow, write_watch}
use picket_mcp.Daemon.Decimal.{decimal}
use picket_mcp.Daemon.Window.{gates_open}

-- The value, whether the condition holds, and a probe's payload.
pub record Observation (N : Type 0) : Type 0 where
  pub value : Json N
  pub satisfied : Bool
  pub payload : Option (Json N)

-- What a poll reads of the world: `probes.observe`, `condition.fetch` and JSONPath's `find`.
pub record Sources (N : Type 0) : Type 0 where
  pub probe : WatchState N → Observed (Observation N)
  pub fetch : EndpointSpec N → Observed (Json N)
  pub find : Text → Json N → Option (List (Json N))

-- The part of the database that a poll uses.
pub record Db (N : Type 0) : Type 0 where
  pub watches : List (WatchRow N)
  pub fires : List (Fire (Json N))

-- The daemon's state object, the database, and whether the poll ended by an exception.
pub record Polled (N : Type 0) : Type 0 where
  pub state : WatchState N
  pub db : Db N
  pub raised : Bool

-- f"{watch_id}:{episode_seq}"
unfoldable pub idem_of : {N : Type 0} → WatchState N → Text
unfolding decimal
idem_of state = state.watch_id ++ b':' ∷ decimal state.episode_seq

abbrev is_on_change : PredicateOp → Bool
is_on_change on_change = true
is_on_change _ = false

abbrev is_last_value_pct : PredicateOp → BaselineMode → Bool
is_last_value_pct pct_change BaselineMode.last_value = true
is_last_value_pct _ _ = false

module _ {N : Type 0} where
  unfoldable pub observe_endpoint :
      Numbers N
      → Sources N
      → Option (EndpointSpec N)
      → Option (PredicateSpec N)
      → Json N
      → Observed (Observation N)
  observe_endpoint num world (some endpoint) (some predicate) baseline =
      world.fetch endpoint >>= λ doc. extract world.find doc predicate.path >>= λ value.
      is_satisfied num predicate value baseline >>= λ holds.
      ok (record { value = value; satisfied = holds; payload = none })
  observe_endpoint num world _ _ baseline = crash

  -- `if state.probe_id`: None and the empty text are false.
  unfoldable pub observe :
      Numbers N → Sources N → WatchState N → Option Text → Observed (Observation N)
  observe num world state (some (c ∷ s)) = world.probe state
  observe num world state _ =
      observe_endpoint num world state.endpoint state.predicate state.baseline

  abbrev pub starts : Bool → WatchState N → Bool
  starts holds state = holds && not state.satisfied

  -- An episode starts, or the condition is off.
  unfoldable pub edge : ℕ → Bool → WatchState N → WatchState N
  edge now true state = if state.satisfied then state else record state {
    satisfied_since = some now;
    fired_this_episode = false;
    episode_seq = suc state.episode_seq;
  }
  edge now false state = record state { satisfied_since = none; fired_this_episode = false }

  -- state.predicate and state.predicate.op == "on_change"
  abbrev pub watches_change : Option (PredicateSpec N) → Bool
  watches_change none = false
  watches_change (some predicate) = is_on_change predicate.op

  abbrev pub follows_value : Option (PredicateSpec N) → Bool
  follows_value none = false
  follows_value (some predicate) = is_last_value_pct predicate.op predicate.baseline_mode

  -- handler.record_skipped_overlap
  abbrev record_skipped_overlap :
      (ℕ → ℕ) → Text → WatchState N → List (Fire (Json N)) → List (Fire (Json N))
  record_skipped_overlap clock fire_id state fires =
      (create_fire clock fire_id state.watch_id skipped_overlap (some state.runbook_id) none null
        none fires).0

  -- Record the intent to fire, or a dropped overlap. `record_skipped_overlap` is the other branch.
  unfoldable pub enqueue :
      (ℕ → ℕ)
      → Text
      → ℕ
      → Observation N
      → WatchState N
      → List (Fire (Json N))
      → WatchState N × List (Fire (Json N))
  enqueue clock fire_id now seen state fires =
      if has_active_fire state.watch_id fires
      then (state, record_skipped_overlap clock fire_id state fires)
      else let (fires', created) =
          create_fire clock fire_id state.watch_id pending (some state.runbook_id)
            (some (idem_of state)) seen.value seen.payload fires in
        (if created then record state { last_fire_at = some now } else state, fires')

  -- The body of the firing branch: the state, the fires, and `now_satisfied` after it.
  unfoldable pub fire_branch :
      (ℕ → ℕ)
      → Text
      → ℕ
      → Observation N
      → WatchState N
      → List (Fire (Json N))
      → (WatchState N × List (Fire (Json N))) × Bool
  fire_branch clock fire_id now seen state fires =
      let (state', fires') = enqueue clock fire_id now seen state fires in
      let fired = record state' { fired_this_episode = true } in
      if watches_change state.predicate
      then ((record fired { baseline = seen.value; satisfied_since = none }, fires'), false)
      else ((fired, fires'), seen.satisfied)

  unfoldable pub wants_fire : ℕ → Bool → WatchState N → Bool
  wants_fire now holds state = holds && not state.fired_this_episode && gates_open state now

  unfoldable pub decide :
      (ℕ → ℕ)
      → Text
      → ℕ
      → Observation N
      → WatchState N
      → List (Fire (Json N))
      → (WatchState N × List (Fire (Json N))) × Bool
  decide clock fire_id now seen state fires =
      if wants_fire now seen.satisfied state
      then fire_branch clock fire_id now seen state fires
      else ((state, fires), seen.satisfied)

  -- The assignments at the end of a poll.
  unfoldable pub settle : Observation N → Bool → List (Fire (Json N)) → WatchState N → WatchState N
  settle seen holds fires state = record state {
    baseline = if follows_value state.predicate then seen.value else state.baseline;
    satisfied = holds;
    fire_count = count_fires state.watch_id fires;
  }

  abbrev pub saved : ℕ → WatchState N → Db N → List (Fire (Json N)) → Polled N
  saved now state db fires = record {
    state = state;
    db = record { watches = write_watch now state db.watches; fires = fires };
    raised = false;
  }

  unfoldable pub poll_with :
      (ℕ → ℕ) → Text → ℕ → Observed (Observation N) → WatchState N → Db N → Polled N
  poll_with clock fire_id now (ok seen) state db =
      let begun = record state { last_value = seen.value; last_error = none } in
      let ((state', fires'), holds) =
        decide clock fire_id now seen (edge now seen.satisfied begun) db.fires in
      saved (clock 3) (settle seen holds fires' state') db fires'
  poll_with clock fire_id now (observe_error message) state db =
      saved (clock 3) (record state { last_error = some message }) db db.fires
  poll_with clock fire_id now crash state db = record { state = state; db = db; raised = true }

  -- `clock 4` is the reading at the top; `clock 0` to `clock 3` are those of the store.
  unfoldable pub poll_once : Numbers N → Sources N → (ℕ → ℕ) → Text → WatchState N → Db N → Polled N
  poll_once num world clock fire_id state db =
      let now = clock 4 in
      let begun = record state { heartbeat_at = some now; last_observed_at = some now } in
      poll_with clock fire_id now (observe num world begun begun.probe_id) begun db
