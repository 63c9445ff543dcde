-- ===== src/Daemon/Limits.antt =====
-- src/picket/runtime/daemon.py: how far the loop of `run` goes beyond max_fires.
use picket_mcp.Prelude.{
  ℕ, ◌+◌, ◌≤◌, ◌<◌, max, Text, ◌≡◌, refl, sym, ap, ◌∙◌, ◌⊎◌, inl, inr, Bool, true, false, not, ◌&&◌,
  ◌||◌, Option, none, some, List, arith, count_where, Bool-cases, if◌then◌else◌,
}
use picket_mcp.Core.Json.{Json, null, Numbers}
use picket_mcp.Core.Models.{WatchState}
use picket_mcp.Condition.Extract.{Observed, ok, observe_error, crash}
use picket_mcp.Store.Fire.{Fire, pending, skipped_overlap}
use picket_mcp.Store.Ledger.{counts_for, count_fires}
use picket_mcp.Store.Commands.{Command, stop, pause, resume, CommandTable, poll_command}
use picket_mcp.Daemon.Window.{LocalTime, ttl_expired, in_active_window}
use picket_mcp.Daemon.Poll.{
  Sources, Db, Polled, Observation, idem_of, observe, edge, enqueue, fire_branch, decide, poll_with,
  poll_once,
}
use picket_mcp.Daemon.Enqueue.{count_where-create_fire}
use picket_mcp.Daemon.Overwrite.{poll_with-SameControl}
use picket_mcp.Daemon.Loop.{
  LoopState, is_paused, max_reached, take_command, after_poll, attend, iteration, wait,
}

below :
    (raised : Bool) (limit : Option ℕ) (m count : ℕ)
    → raised ≡ false
    → limit ≡ some m
    → not raised && max_reached limit count ≡ false
    → count < m
below raised none m count quiet has running = absurd (ground (arith, has))
below true (some x) m count quiet has running = absurd (ground (arith, quiet))
below false (some x) m count quiet has running = ground arith

module _ {N : Type 0} where
  enqueue-counts :
      (w : Text) (clock : ℕ → ℕ) (fire_id : Text) (now : ℕ) (seen : Observation N)
      (state : WatchState N) (fires : List (Fire (Json N)))
      → count_where (counts_for w) (enqueue clock fire_id now seen state fires).1
        ≤ count_where (counts_for w) fires + 1
  unfolding enqueue
  enqueue-counts w clock fire_id now seen state fires = ground (
    arith,
    count_where-create_fire (counts_for w) clock fire_id state.watch_id skipped_overlap
        (some state.runbook_id) none null none fires,
    count_where-create_fire (counts_for w) clock fire_id state.watch_id pending
        (some state.runbook_id) (some (idem_of state)) seen.value seen.payload fires,
  )

  poll_with-counts :
      (w : Text) (clock : ℕ → ℕ) (fire_id : Text) (now : ℕ) (seen : Observed (Observation N))
      (state : WatchState N) (db : Db N)
      → let polled = poll_with clock fire_id now seen state db in
        (count_where (counts_for w) polled.db.fires ≤ count_where (counts_for w) db.fires + 1)
        × (polled.raised ≡ true → polled.db ≡ db)
  unfolding poll_with decide fire_branch
  poll_with-counts w clock fire_id now (ok o) state db =
      let on = edge now o.satisfied (record state { last_value = o.value; last_error = none }) in
      (ground (arith, enqueue-counts w clock fire_id now o on db.fires), λ h. cc)
  poll_with-counts w clock fire_id now (observe_error e) state db = (omega arith, λ h. cc)
  poll_with-counts w clock fire_id now crash state db = (omega arith, λ h. refl)

  -- The number that max_fires is compared with.
  abbrev counted : Text → Db N → ℕ
  counted w db = count_where (counts_for w) db.fires

  -- The loop after a round: of the same watch, with the same limit; at most one fire was counted, and
  -- only below the limit if the loop goes on.
  record Within (w : Text) (m before : ℕ) (after : LoopState N) : Type 0 where
    watch_id : after.state.watch_id ≡ w
    limit : after.state.max_fires ≡ some m
    grows : counted w after.db ≤ before + 1
    goes_on : after.stopped ≡ false → (counted w after.db ≤ before) ⊎ (counted w after.db < m)

  after_poll-Within :
      (w : Text) (m : ℕ) (db : Db N) (polled : Polled N) (commands : CommandTable)
      → polled.state.watch_id ≡ w
      → polled.state.max_fires ≡ some m
      → (counted w polled.db ≤ counted w db + 1) × (polled.raised ≡ true → polled.db ≡ db)
      → Within w m (counted w db) (after_poll polled commands)
  unfolding after_poll count_fires
  after_poll-Within w m db polled commands id limit counts = record {
    watch_id = id;
    limit = limit;
    grows = counts.0;
    goes_on = λ running. elim (Bool-cases polled.raised) [
      | inl raised ↦ inl (omega (arith, ap (counted w) (counts.1 raised)))
      | inr quiet ↦ inr (
          omega (
            arith,
            ap (λ v. counted v polled.db) id,
            below polled.raised polled.state.max_fires m (counted polled.state.watch_id polled.db)
                quiet limit running,
          ))
    ];
  }

  idle-Within :
      (m : ℕ) (loop after : LoopState N)
      → after.state.watch_id ≡ loop.state.watch_id
      → after.state.max_fires ≡ some m
      → after.db.fires ≡ loop.db.fires
      → Within loop.state.watch_id m (counted loop.state.watch_id loop.db) after
  idle-Within m loop after id limit fires =
      let same : counted loop.state.watch_id after.db ≡ counted loop.state.watch_id loop.db =
        ap (count_where (counts_for loop.state.watch_id)) fires in
      record {
        watch_id = id;
        limit = limit;
        grows = omega arith;
        goes_on = λ running. inl (omega arith);
      }

  module _ (num : Numbers N) (world : Sources N) (clock : ℕ → ℕ) (local : LocalTime)
      (fire_id : Text) where
    attend-Within :
        (m : ℕ) (loop : LoopState N)
        → loop.state.max_fires ≡ some m
        → Within loop.state.watch_id m
            (counted loop.state.watch_id loop.db)
            (attend num world clock local fire_id loop)
    unfolding attend poll_once
    attend-Within m loop limit =
        let begun = record loop.state {
          heartbeat_at = some (clock 4);
          last_observed_at = some (clock 4);
        } in
        let seen = observe num world begun begun.probe_id in
        let same = poll_with-SameControl clock fire_id (clock 4) seen begun loop.db in
        elim (Bool-cases (ttl_expired loop.state (clock 7))) [
          | inl old ↦ rw old (idle-Within m loop (record loop { stopped = true }) refl limit refl)
          | inr young ↦
              rw young
                (elim (Bool-cases (
                  is_paused loop.state.status || not (in_active_window loop.state.cadence local))) [
                    | inl rest ↦ rw rest (idle-Within m loop (wait clock loop) refl limit refl)
                    | inr awake ↦ rw awake (
                        after_poll-Within loop.state.watch_id m loop.db
                          (poll_with clock fire_id (clock 4) seen begun loop.db) loop.commands
                          same.watch_id (same.limit ∙ limit)
                          (poll_with-counts loop.state.watch_id clock fire_id (clock 4) seen begun
                            loop.db))
                  ])
        ]

    -- A round that goes on after its command: `take_command` keeps the id, the limit and the fires.
    taken-Within :
        (m : ℕ) (s : LoopState N) (command : Option (ℕ × Command))
        → s.state.max_fires ≡ some m
        → let told = take_command clock command s.state s.db s.commands in
          Within s.state.watch_id m
            (counted s.state.watch_id s.db)
            (if told.stopped then told else attend num world clock local fire_id told)
    unfolding take_command
    taken-Within m s none limit =
        attend-Within m (take_command clock none s.state s.db s.commands) limit
    taken-Within m s (some (id, stop)) limit =
        idle-Within m s (take_command clock (some (id, stop)) s.state s.db s.commands) refl limit
          refl
    taken-Within m s (some (id, pause)) limit =
        attend-Within m (take_command clock (some (id, pause)) s.state s.db s.commands) limit
    taken-Within m s (some (id, resume)) limit =
        attend-Within m (take_command clock (some (id, resume)) s.state s.db s.commands) limit

    iteration-Within :
        (m : ℕ) (s : LoopState N)
        → s.state.max_fires ≡ some m
        → Within s.state.watch_id m
            (counted s.state.watch_id s.db)
            (iteration num world clock local fire_id s.state s.db s.commands)
    unfolding iteration
    iteration-Within m s limit = taken-Within m s (poll_command s.state.watch_id s.commands) limit

  -- One step of the daemon's loop, or of another process, which creates no fire of the watch and has
  -- its own way with the rows and the commands.
  pub data Step (num : Numbers N) (s : LoopState N) : LoopState N → Type 0 where
    round :
        (world : Sources N) (clock : ℕ → ℕ) (local : LocalTime) (fire_id : Text)
        → s.stopped ≡ false
        → Step num s (iteration num world clock local fire_id s.state s.db s.commands)
    other :
        (db : Db N) (commands : CommandTable)
        → count_fires s.state.watch_id db.fires ≤ count_fires s.state.watch_id s.db.fires
        → Step num s (record s { db = db; commands = commands })

  pub data Steps (num : Numbers N) (s : LoopState N) : LoopState N → Type 0 where
    here : Steps num s s
    more : (t u : LoopState N) → Steps num s t → Step num t u → Steps num s u

  record Bounded (w : Text) (m start : ℕ) (s : LoopState N) : Type 0 where
    watch_id : s.state.watch_id ≡ w
    limit : s.state.max_fires ≡ some m
    bound : (counted w s.db ≤ start + 1) ⊎ (counted w s.db ≤ m)
    goes_on : s.stopped ≡ false → (counted w s.db ≤ start) ⊎ (counted w s.db < m)

  Step-Bounded :
      (num : Numbers N) (w : Text) (m start : ℕ) (s t : LoopState N)
      → Bounded w m start s
      → Step num s t
      → Bounded w m start t
  unfolding count_fires
  Step-Bounded num w m start s _ b (round world clock local fire_id running) =
      let next = iteration-Within num world clock local fire_id m s b.limit in
      let same : counted s.state.watch_id s.db ≡ counted w s.db =
        ap (λ v. counted v s.db) b.watch_id in
      let after = iteration num world clock local fire_id s.state s.db s.commands in
      let same' : counted s.state.watch_id after.db ≡ counted w after.db =
        ap (λ v. counted v after.db) b.watch_id in
      record {
        watch_id = next.watch_id ∙ b.watch_id;
        limit = next.limit;
        bound = ground (arith, b.goes_on running, next.grows);
        goes_on = λ still. ground (arith, b.goes_on running, next.goes_on still);
      }
  Step-Bounded num w m start s _ b (other db commands fewer) =
      let le : counted w db ≤ counted w s.db = rw (sym b.watch_id) fewer in
      record {
        watch_id = b.watch_id;
        limit = b.limit;
        bound = ground (arith, b.bound);
        goes_on = λ running. ground (arith, b.goes_on running);
      }

  Steps-Bounded :
      (num : Numbers N) (m : ℕ) (s t : LoopState N)
      → s.state.max_fires ≡ some m
      → Steps num s t
      → Bounded s.state.watch_id m (counted s.state.watch_id s.db) t
  Steps-Bounded num m s _ limit here = record {
    watch_id = refl;
    limit = limit;
    bound = inl (omega arith);
    goes_on = λ running. inl (omega arith);
  }
  Steps-Bounded num m s t limit (more u _ steps step) =
      Step-Bounded num s.state.watch_id m (counted s.state.watch_id s.db) u t
        (Steps-Bounded num m s u limit steps) step

  -- From a loop that runs with a limit and so many fires counted, whatever the polls observe and
  -- whatever other processes do but create fires of the watch, the fires counted are at most the
  -- limit, or at most one more than those at the start.
  pub Steps-count_fires-le :
      (num : Numbers N) (m : ℕ) (s t : LoopState N)
      → s.state.max_fires ≡ some m
      → Steps num s t
      → count_fires s.state.watch_id t.db.fires
        ≤ max (count_fires s.state.watch_id s.db.fires + 1) m
  unfolding count_fires
  Steps-count_fires-le num m s t limit steps =
      let end = Steps-Bounded num m s t limit steps in ground (arith, end.bound)
