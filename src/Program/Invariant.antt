-- ===== src/Program/Invariant.antt =====
-- The invariant of the whole program, over every sequence of its steps.
use mathlib.Core.Path.{subst}
use picket_mcp.Prelude.{
  ℕ, Text, text_eq, ◌≡◌, refl, sym, Bool, true, false, Option, none, some, List, inl, inr, arith,
  Bool-cases, Option-cases,
}
use picket_mcp.Core.Json.{Json, Numbers}
use picket_mcp.Core.Models.{WatchState}
use picket_mcp.Store.Fire.{Fire}
use picket_mcp.Store.Integrity.{apply-IsUnique}
use picket_mcp.Store.Trace.{Transaction, apply}
use picket_mcp.Store.Watches.{read_watch}
use picket_mcp.Store.Keyed.{write_watch-IsKeyed}
use picket_mcp.Daemon.Poll.{Db}
use picket_mcp.Daemon.System.{IsWork}
use picket_mcp.Daemon.Work.{work-active}
use picket_mcp.Daemon.Rounds.{IsOrdered}
use picket_mcp.Daemon.Upkeep.{IsStored, write_watch-IsStored}
use picket_mcp.Daemon.Loop.{mark_stopped}
use picket_mcp.Watches.Control.{Tables}
use picket_mcp.Server.Changes.{IsSound, Changes-IsSound}
use picket_mcp.Server.Serving.{serve-Changes}
use picket_mcp.Program.{
  Program, with_tables, set_daemon, Step, Reach, call, begin, round, leave, crash, work, here, more,
}
use picket_mcp.Program.Healthy.{
  IsHealthy, Changes-here, Changes-IsOrdered, IsHealthy-IsStored, begin-IsHealthy, round-IsHealthy,
}

module _ {N : Type 0} where
  mark_stopped-IsStored :
      (now : ℕ) (w v : Text) (stopped : Bool) (db : Db N)
      → IsStored v db
      → IsStored v (mark_stopped now w stopped db)
  unfolding mark_stopped
  mark_stopped-IsStored now w v false db stored = stored
  mark_stopped-IsStored now w v true db stored = elim (Option-cases (read_watch w db.watches)) [
    | inl gone ↦ rw gone stored
    | inr (state, found) ↦ rw found (write_watch-IsStored now v _ db stored)
  ]

  mark_stopped-IsSound :
      (now : ℕ) (w : Text) (t : Tables N)
      → IsSound t
      → IsSound (record t { db = mark_stopped now w true t.db })
        × ((mark_stopped now w true t.db).fires ≡ t.db.fires)
  unfolding mark_stopped
  mark_stopped-IsSound now w t sound = elim (Option-cases (read_watch w t.db.watches)) [
    | inl gone ↦ rw gone (sound, refl)
    | inr (state, found) ↦ rw found (
      record {
        keyed = write_watch-IsKeyed now _ t.db.watches sound.keyed;
        channel = sound.channel;
        unique = sound.unique;
      },
      refl,
    )
  ]

  leave-IsHealthy :
      (now : ℕ) (w : Text) (p : Program N)
      → IsHealthy p
      → IsHealthy (record p {
        server =
            with_tables
              (record p.server.tables { db = mark_stopped now w true p.server.tables.db })
              p.server;
      })
  leave-IsHealthy now w p healthy =
      let (sound, same) = mark_stopped-IsSound now w p.server.tables healthy.sound in
      record {
        sound = sound;
        ordered = subst (λ fires. IsOrdered fires) (sym same) healthy.ordered;
        stored = λ v state runs.
            let before = healthy.stored v state runs in
            (
              before.0,
              (mark_stopped-IsStored now w v true p.server.tables.db
                  (IsHealthy-IsStored p healthy v before.1)).here,
            );
      }

  work-IsOrdered :
      (t : Transaction (Json N)) (fires : List (Fire (Json N)))
      → IsWork t
      → IsOrdered fires
      → IsOrdered (apply t fires)
  work-IsOrdered t fires works ordered = record {
    unique = apply-IsUnique t fires ordered.unique;
    in_flight = λ v. omega (arith, work-active v t fires works ordered.unique, ordered.in_flight v);
  }

  crash-stored :
      (w v : Text) (state : WatchState N) (daemons : Text → Option (WatchState N))
      → set_daemon w none daemons v ≡ some state
      → daemons v ≡ some state
  crash-stored w v state daemons found = elim (Bool-cases (text_eq w v)) [
    | inl e ↦ absurd (ground (arith, rw e at found))
    | inr e ↦ rw e at found
  ]

  Step-IsHealthy :
      (num : Numbers N) (p : Program N) {q : Program N} → Step num p q → IsHealthy p → IsHealthy q
  Step-IsHealthy num p (call outside tool) healthy =
      let steps = serve-Changes num outside tool p.server healthy.sound in
      record {
        sound = Changes-IsSound steps healthy.sound;
        ordered = Changes-IsOrdered steps healthy.ordered;
        stored = λ v state runs.
            let before = healthy.stored v state runs in (before.0, Changes-here v steps before.1);
      }
  Step-IsHealthy num p (begin self clock w state idle found) healthy =
      begin-IsHealthy self clock w state p healthy found
  Step-IsHealthy num p (round world clock local fire_id w state runs) healthy =
      round-IsHealthy num world clock local fire_id w state p healthy runs
  Step-IsHealthy num p (leave now w idle) healthy = leave-IsHealthy now w p healthy
  Step-IsHealthy num p (crash w) healthy = record {
    sound = healthy.sound;
    ordered = healthy.ordered;
    stored = λ v state runs. healthy.stored v state (crash-stored w v state p.daemons runs);
  }
  Step-IsHealthy num p (work t works) healthy =
      let ordered = work-IsOrdered t p.server.tables.db.fires works healthy.ordered in
      record {
        sound = record {
          keyed = healthy.sound.keyed;
          channel = healthy.sound.channel;
          unique = ordered.unique;
        };
        ordered = ordered;
        stored = healthy.stored;
      }

  -- Whatever tools are called, whatever the daemons observe, and however their rounds, their starts,
  -- crashes and ends interleave with the calls and with the workers' transactions: no watch ever has
  -- two fires in flight, no two fires have one id or one idempotency key, each row stands under the id
  -- of its watch, no command id is above the last one given out, and each daemon that runs has the
  -- state of its own watch, whose row is there.
  pub Reach-IsHealthy :
      (num : Numbers N) (p q : Program N) → Reach num p q → IsHealthy p → IsHealthy q
  Reach-IsHealthy num p q reached healthy = go reached
    where
      go : {r : Program N} → Reach num p r → IsHealthy r
      go here = healthy
      go (more before step) = Step-IsHealthy num _ step (go before)
