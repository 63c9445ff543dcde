-- ===== src/Daemon/Upkeep.antt =====
-- src/picket/runtime/daemon.py: what every round of the loop of `run` keeps.
use picket_mcp.Prelude.{
  ℕ, Text, text_eq, ◌≡◌, ◌≢◌, refl, sym, ◌∙◌, Bool, true, false, not, ◌||◌, Option, none, some,
  List, arith, inl, inr, Bool-cases, if◌then◌else◌,
}
use picket_mcp.Core.Json.{Json, Numbers}
use picket_mcp.Core.Models.{WatchState}
use picket_mcp.Condition.Extract.{Observed, ok, observe_error, crash}
use picket_mcp.Store.Fire.{Fire}
use picket_mcp.Store.Commands.{Command, pause, resume, stop, poll_command}
use picket_mcp.Store.Channel.{IsChannel}
use picket_mcp.Store.Delivery.{ack-IsChannel}
use picket_mcp.Store.Watches.{WatchRow, read_watch, write_watch, read_watch-write_watch}
use picket_mcp.Store.Keyed.{IsKeyed, write_watch-IsKeyed}
use picket_mcp.Daemon.Window.{LocalTime, ttl_expired, in_active_window}
use picket_mcp.Daemon.Poll.{Sources, Db, Observation, observe, poll_with, poll_once}
use picket_mcp.Daemon.Overwrite.{SameControl, poll_with-SameControl}
use picket_mcp.Daemon.Loop.{
  LoopState, is_paused, obey, take_command, after_poll, attend, iteration, wait,
}

pub if-elim {ℓ κ} :
    {A : Type ℓ} (P : A → Type κ) (b : Bool) {x y : A} → P x → P y → P (if b then x else y)
if-elim P true p q = p
if-elim P false p q = q

module _ {N : Type 0} where
  -- The watch has a row, and each row's key is the id of its watch.
  pub record IsStored (w : Text) (db : Db N) : Type 0 where
    pub here : read_watch w db.watches ≢ none
    pub keyed : IsKeyed db.watches

  pub write_watch-here :
      (now : ℕ) (w : Text) (state : WatchState N) (rows : List (WatchRow N))
      → read_watch w rows ≢ none
      → read_watch w (write_watch now state rows) ≢ none
  write_watch-here now w state rows here gone =
      let found = sym (read_watch-write_watch now state w rows) ∙ gone in
      elim (Bool-cases (text_eq state.watch_id w)) [
        | inl e ↦ absurd (ground (arith, rw e at found))
        | inr e ↦ here (rw e at found)
      ]

  pub write_watch-IsStored :
      (now : ℕ) (w : Text) (state : WatchState N) (db : Db N)
      → IsStored w db
      → IsStored w (record db { watches = write_watch now state db.watches })
  write_watch-IsStored now w state db stored = record {
    here = write_watch-here now w state db.watches stored.here;
    keyed = write_watch-IsKeyed now state db.watches stored.keyed;
  }

  -- The fires do not matter.
  pub fires-IsStored :
      (w : Text) (db : Db N) (fires : List (Fire (Json N)))
      → IsStored w db
      → IsStored w (record db { fires = fires })
  fires-IsStored w db fires stored = record { here = stored.here; keyed = stored.keyed }

  poll_with-IsStored :
      (w : Text) (clock : ℕ → ℕ) (fire_id : Text) (now : ℕ) (seen : Observed (Observation N))
      (state : WatchState N) (db : Db N)
      → IsStored w db
      → IsStored w (poll_with clock fire_id now seen state db).db
  unfolding poll_with
  poll_with-IsStored w clock fire_id now (ok o) state db stored =
      fires-IsStored w _ _ (write_watch-IsStored _ w _ db stored)
  poll_with-IsStored w clock fire_id now (observe_error e) state db stored =
      write_watch-IsStored _ w _ db stored
  poll_with-IsStored w clock fire_id now crash state db stored = stored

  -- The daemon's state of the watch `w` with this time to live from this time on, and tables with the
  -- row of `v` and a command table that gives out new ids.
  pub record IsUp (w v : Text) (ttl created : Option ℕ) (s : LoopState N) : Type 0 where
    pub id : s.state.watch_id ≡ w
    pub ttl_kept : s.state.ttl_seconds ≡ ttl
    pub created_kept : s.state.created_at ≡ created
    pub stored : IsStored v s.db
    pub channel : IsChannel s.commands

  module _ (w v : Text) (ttl created : Option ℕ) where
    after_poll-IsUp :
        (clock : ℕ → ℕ) (fire_id : Text) (now : ℕ) (seen : Observed (Observation N))
        (state : WatchState N) (s : LoopState N)
        → SameControl state s.state
        → IsUp w v ttl created s
        → IsUp w v ttl created (after_poll (poll_with clock fire_id now seen state s.db) s.commands)
    unfolding after_poll
    after_poll-IsUp clock fire_id now seen state s begun up =
        let same = poll_with-SameControl clock fire_id now seen state s.db in
        record {
          id = same.watch_id ∙ begun.watch_id ∙ up.id;
          ttl_kept = same.ttl ∙ begun.ttl ∙ up.ttl_kept;
          created_kept = same.created ∙ begun.created ∙ up.created_kept;
          stored = poll_with-IsStored v clock fire_id now seen state s.db up.stored;
          channel = up.channel;
        }

    module _ (num : Numbers N) (world : Sources N) (clock : ℕ → ℕ) (local : LocalTime)
        (fire_id : Text) where
      attend-IsUp :
          (s : LoopState N)
          → IsUp w v ttl created s
          → IsUp w v ttl created (attend num world clock local fire_id s)
      unfolding attend poll_once
      attend-IsUp s up =
          let begun = record s.state {
            heartbeat_at = some (clock 4);
            last_observed_at = some (clock 4);
          } in
          let waited : IsUp w v ttl created (wait clock s) = record {
            id = up.id;
            ttl_kept = up.ttl_kept;
            created_kept = up.created_kept;
            stored = write_watch-IsStored (clock 9) v _ s.db up.stored;
            channel = up.channel;
          } in
          let polled =
            after_poll-IsUp clock fire_id (clock 4) (observe num world begun begun.probe_id) begun s
              (record {
                watch_id = refl;
                status = refl;
                desired = refl;
                limit = refl;
                ttl = refl;
                created = refl;
              })
              up in
          let left : IsUp w v ttl created (record s { stopped = true }) = record {
            id = up.id;
            ttl_kept = up.ttl_kept;
            created_kept = up.created_kept;
            stored = up.stored;
            channel = up.channel;
          } in
          if-elim (IsUp w v ttl created) (ttl_expired s.state (clock 7)) left (
            if-elim (IsUp w v ttl created)
              (is_paused s.state.status || not (in_active_window s.state.cadence local)) waited
              polled)

      pub taken-IsUp :
          (s : LoopState N) (command : Option (ℕ × Command))
          → IsUp w v ttl created s
          → IsUp w v ttl created (take_command clock command s.state s.db s.commands)
      unfolding take_command
      taken-IsUp s none up = record {
        id = up.id;
        ttl_kept = up.ttl_kept;
        created_kept = up.created_kept;
        stored = up.stored;
        channel = up.channel;
      }
      taken-IsUp s (some (i, command)) up = record {
        id = obeyed.0;
        ttl_kept = obeyed.1;
        created_kept = obeyed.2;
        stored = write_watch-IsStored (clock 5) v _ s.db up.stored;
        channel = ack-IsChannel (clock 6) s.state.watch_id i s.commands up.channel;
      }
        where
          kept :
              (c : Command)
              → ((obey c s.state).watch_id ≡ w)
                × ((obey c s.state).ttl_seconds ≡ ttl)
                × ((obey c s.state).created_at ≡ created)
          kept pause = (up.id, up.ttl_kept, up.created_kept)
          kept resume = (up.id, up.ttl_kept, up.created_kept)
          kept stop = (up.id, up.ttl_kept, up.created_kept)

          obeyed :
              ((obey command s.state).watch_id ≡ w)
              × ((obey command s.state).ttl_seconds ≡ ttl)
              × ((obey command s.state).created_at ≡ created)
          obeyed = kept command

      pub iteration-IsUp :
          (s : LoopState N)
          → IsUp w v ttl created s
          → IsUp w v ttl created (iteration num world clock local fire_id s.state s.db s.commands)
      unfolding iteration
      iteration-IsUp s up =
          let told =
            take_command clock (poll_command s.state.watch_id s.commands) s.state s.db s.commands in
          let taken = taken-IsUp s (poll_command s.state.watch_id s.commands) up in
          if-elim (IsUp w v ttl created) told.stopped taken (attend-IsUp told taken)
