-- ===== src/Daemon/Gates.antt =====
-- src/picket/runtime/daemon.py: what a poll that fires has checked, and what a failed observation
-- leaves alone.
use mathlib.Core.Path.{subst}
use picket_mcp.Prelude.{
  ℕ, ◌+◌, ◌≤◌, ◌<◌, Text, ◌≡◌, refl, Bool, true, false, none, some, List, arith, count_where,
}
use picket_mcp.Core.Json.{Json, null, Numbers}
use picket_mcp.Core.Models.{WatchState}
use picket_mcp.Condition.Extract.{Observed, ok, observe_error, crash}
use picket_mcp.Store.Fire.{Fire, pending, skipped_overlap}
use picket_mcp.Store.Ledger.{has_active_fire}
use picket_mcp.Daemon.Window.{gates_open, gate_open}
use picket_mcp.Daemon.Poll.{
  Sources, Db, Observation, idem_of, observe, poll_with, poll_once, edge, enqueue, fire_branch,
  wants_fire, decide, settle,
}
use picket_mcp.Daemon.System.{queued_of, begun}
use picket_mcp.Daemon.Enqueue.{count_where-create_fire, watch_id-edge}

module _ {N : Type 0} (clock : ℕ → ℕ) (fire_id : Text) (now : ℕ) (seen : Observation N)
    (state : WatchState N) (fires : List (Fire (Json N))) where
  enqueue-grows :
      count_where (queued_of state.watch_id) fires
        < count_where (queued_of state.watch_id) (enqueue clock fire_id now seen state fires).1
      → (has_active_fire state.watch_id fires ≡ false)
        × ((enqueue clock fire_id now seen state fires).0.last_fire_at ≡ some now)
  unfolding enqueue
  enqueue-grows h = ground (
    arith,
    count_where-create_fire (queued_of state.watch_id) clock fire_id state.watch_id skipped_overlap
        (some state.runbook_id) none null none fires,
    count_where-create_fire (queued_of state.watch_id) clock fire_id state.watch_id pending
        (some state.runbook_id) (some (idem_of state)) seen.value seen.payload fires,
  )

  decide-grows :
      count_where (queued_of state.watch_id) fires
        < count_where (queued_of state.watch_id) (decide clock fire_id now seen state fires).0.1
      → (wants_fire now seen.satisfied state ≡ true)
        × (has_active_fire state.watch_id fires ≡ false)
        × ((decide clock fire_id now seen state fires).0.0.last_fire_at ≡ some now)
        × ((decide clock fire_id now seen state fires).0.0.fired_this_episode ≡ true)
  unfolding decide fire_branch
  decide-grows h = ground (arith, enqueue-grows)

  pub decide-grows_of :
      {w : Text}
      → state.watch_id ≡ w
      → count_where (queued_of w) fires
        < count_where (queued_of w) (decide clock fire_id now seen state fires).0.1
      → (wants_fire now seen.satisfied state ≡ true)
        × (has_active_fire w fires ≡ false)
        × ((decide clock fire_id now seen state fires).0.0.last_fire_at ≡ some now)
        × ((decide clock fire_id now seen state fires).0.0.fired_this_episode ≡ true)
  decide-grows_of e =
      subst
        (λ w.
          count_where (queued_of w) fires
            < count_where (queued_of w) (decide clock fire_id now seen state fires).0.1
          → (wants_fire now seen.satisfied state ≡ true)
            × (has_active_fire w fires ≡ false)
            × ((decide clock fire_id now seen state fires).0.0.last_fire_at ≡ some now)
            × ((decide clock fire_id now seen state fires).0.0.fired_this_episode ≡ true))
        e decide-grows

module _ {N : Type 0} where
  wants-holds :
      (now : ℕ) (holds : Bool) (state : WatchState N)
      → wants_fire now holds state ≡ true
      → holds ≡ true
  unfolding wants_fire
  wants-holds now holds state h = ground arith

  -- What the gates ask of the watch's state at the time of a fire.
  pub record MayFire (now : ℕ) (state : WatchState N) : Type 0 where
    pub unspent : state.satisfied ≡ true → state.fired_this_episode ≡ false
    pub debounced : 0 < state.debounce_seconds → state.satisfied ≡ true
    pub held :
        (since : ℕ)
        → 0 < state.debounce_seconds
        → state.satisfied_since ≡ some since
        → since + state.debounce_seconds ≤ now
    pub cooled :
        (last : ℕ)
        → 0 < state.cooldown_seconds
        → state.last_fire_at ≡ some last
        → last + state.cooldown_seconds ≤ now

  wants-MayFire :
      (now : ℕ) (holds : Bool) (state : WatchState N)
      → wants_fire now holds (edge now holds state) ≡ true
      → MayFire now state
  unfolding wants_fire gates_open gate_open edge
  wants-MayFire now true state h = record {
    unspent = λ s. ground arith;
    debounced = λ p. ground arith;
    held = λ since p e. ground arith;
    cooled = λ last p e. ground arith;
  }
  wants-MayFire now false state h = absurd (ground arith)

  -- What a poll that queues a fire saw and leaves: the observation succeeded and the condition
  -- holds, the gates are open, nothing of the watch is in flight, and the episode is spent.
  pub record FiredFrom (now : ℕ) (seen : Observed (Observation N)) (state after : WatchState N)
      (fires : List (Fire (Json N))) : Type 0 where
    pub seen_ok : (o : Observation N) × (seen ≡ ok o) × (o.satisfied ≡ true)
    pub may : MayFire now state
    pub free : has_active_fire state.watch_id fires ≡ false
    pub stamped : after.last_fire_at ≡ some now
    pub spent : after.fired_this_episode ≡ true

  poll_with-FiredFrom :
      (clock : ℕ → ℕ) (fire_id : Text) (now : ℕ) (seen : Observed (Observation N))
      (state : WatchState N) (db : Db N)
      → count_where (queued_of state.watch_id) db.fires
        < count_where
            (queued_of state.watch_id)
            (poll_with clock fire_id now seen state db).db.fires
      → FiredFrom now seen state (poll_with clock fire_id now seen state db).state db.fires
  unfolding poll_with settle
  poll_with-FiredFrom clock fire_id now (ok o) state db h =
      let begun' = record state { last_value = o.value; last_error = none } in
      let on = edge now o.satisfied begun' in
      let (wants, free, stamped, spent) =
        decide-grows_of clock fire_id now o on db.fires (watch_id-edge now o.satisfied begun') h in
      let may = wants-MayFire now o.satisfied begun' wants in
      record {
        seen_ok = (o, refl, wants-holds now o.satisfied on wants);
        may = record {
          unspent = may.unspent;
          debounced = may.debounced;
          held = may.held;
          cooled = may.cooled;
        };
        free = free;
        stamped = stamped;
        spent = spent;
      }
  poll_with-FiredFrom clock fire_id now (observe_error m) state db h = absurd (omega arith)
  poll_with-FiredFrom clock fire_id now crash state db h = absurd (omega arith)

  -- A poll queues a fire only after a good observation at which the condition holds, in an episode
  -- that has not fired, once the debounce and the cooldown of the watch have passed, and with no
  -- fire of the watch in flight; it then stamps the time and spends the episode.
  pub poll_once-FiredFrom :
      (num : Numbers N) (world : Sources N) (clock : ℕ → ℕ) (fire_id : Text) (state : WatchState N)
      (db : Db N)
      → let after = poll_once num world clock fire_id state db in
        count_where (queued_of state.watch_id) db.fires
          < count_where (queued_of state.watch_id) after.db.fires
        → FiredFrom
            (clock 4)
            (observe num world (begun clock state) state.probe_id)
            (begun clock state)
            after.state
            db.fires
  unfolding poll_once
  poll_once-FiredFrom num world clock fire_id state db h =
      poll_with-FiredFrom clock fire_id (clock 4)
        (observe num world (begun clock state) state.probe_id) (begun clock state) db h
