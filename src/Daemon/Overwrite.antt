-- ===== src/Daemon/Overwrite.antt =====
-- src/picket/runtime/daemon.py: what a poll writes to the row of its watch.
use picket_mcp.Prelude.{ℕ, Text, ◌≡◌, sym, ap, ◌∙◌, Bool, true, false, none, some, List, arith}
use picket_mcp.Core.Json.{Json, Numbers}
use picket_mcp.Core.Models.{WatchState}
use picket_mcp.Condition.Extract.{Observed, ok, observe_error, crash}
use picket_mcp.Store.Fire.{Fire}
use picket_mcp.Store.Watches.{read_watch, read_watch-write_watch_self}
use picket_mcp.Daemon.Poll.{
  Sources, Db, Observation, observe, edge, enqueue, fire_branch, decide, settle, poll_with,
  poll_once,
}

module _ {N : Type 0} where
  -- The two states are of one watch, with one status, one desired status, one limit, and one time to
  -- live from one time on.
  pub record SameControl (a b : WatchState N) : Type 0 where
    pub watch_id : a.watch_id ≡ b.watch_id
    pub status : a.status ≡ b.status
    pub desired : a.desired_status ≡ b.desired_status
    pub limit : a.max_fires ≡ b.max_fires
    pub ttl : a.ttl_seconds ≡ b.ttl_seconds
    pub created : a.created_at ≡ b.created_at

  edge-SameControl :
      (now : ℕ) (holds : Bool) (state : WatchState N) → SameControl (edge now holds state) state
  unfolding edge
  edge-SameControl now true state = ground arith
  edge-SameControl now false state = ground arith

  decide-SameControl :
      (clock : ℕ → ℕ) (fire_id : Text) (now : ℕ) (seen : Observation N) (state : WatchState N)
      (fires : List (Fire (Json N)))
      → SameControl (decide clock fire_id now seen state fires).0.0 state
  unfolding decide fire_branch enqueue
  decide-SameControl clock fire_id now seen state fires = ground arith

  pub poll_with-SameControl :
      (clock : ℕ → ℕ) (fire_id : Text) (now : ℕ) (seen : Observed (Observation N))
      (state : WatchState N) (db : Db N)
      → SameControl (poll_with clock fire_id now seen state db).state state
  unfolding poll_with settle
  poll_with-SameControl clock fire_id now (ok o) state db =
      let begun = record state { last_value = o.value; last_error = none } in
      let on = edge now o.satisfied begun in
      let one = decide-SameControl clock fire_id now o on db.fires in
      let two = edge-SameControl now o.satisfied begun in
      record {
        watch_id = one.watch_id ∙ two.watch_id;
        status = one.status ∙ two.status;
        desired = one.desired ∙ two.desired;
        limit = one.limit ∙ two.limit;
        ttl = one.ttl ∙ two.ttl;
        created = one.created ∙ two.created;
      }
  poll_with-SameControl clock fire_id now (observe_error e) state db = ground arith
  poll_with-SameControl clock fire_id now crash state db = ground arith

  poll_with-saved :
      (clock : ℕ → ℕ) (fire_id : Text) (now : ℕ) (seen : Observed (Observation N))
      (state : WatchState N) (db : Db N)
      → let polled = poll_with clock fire_id now seen state db in
        polled.raised ≡ false
        → read_watch polled.state.watch_id polled.db.watches ≡ some polled.state
  unfolding poll_with
  poll_with-saved clock fire_id now (ok o) state db h = read_watch-write_watch_self _ _ db.watches
  poll_with-saved clock fire_id now (observe_error e) state db h =
      read_watch-write_watch_self _ _ db.watches
  poll_with-saved clock fire_id now crash state db h = absurd (ground (arith, h))

  pub poll_once-overwrites :
      (num : Numbers N) (world : Sources N) (clock : ℕ → ℕ) (fire_id : Text) (state : WatchState N)
      (db : Db N)
      → let polled = poll_once num world clock fire_id state db in
        polled.raised ≡ false
        → (read_watch state.watch_id polled.db.watches ≡ some polled.state)
          × SameControl polled.state state
  unfolding poll_once
  poll_once-overwrites num world clock fire_id state db h =
      let begun = record state {
        heartbeat_at = some (clock 4);
        last_observed_at = some (clock 4);
      } in
      let seen = observe num world begun begun.probe_id in
      let same = poll_with-SameControl clock fire_id (clock 4) seen begun db in
      (
        ap (λ w. read_watch w (poll_with clock fire_id (clock 4) seen begun db).db.watches)
              (sym same.watch_id)
            ∙ poll_with-saved clock fire_id (clock 4) seen begun db h,
        record {
          watch_id = same.watch_id;
          status = same.status;
          desired = same.desired;
          limit = same.limit;
          ttl = same.ttl;
          created = same.created;
        },
      )
