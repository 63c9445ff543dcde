-- ===== src/Program/Healthy.antt =====
-- The invariant of the whole program: what the calls of the tools and the daemons' starts and rounds keep.
use mathlib.Core.Path.{subst}
use mathlib.Core.Option.{some-injective}
use picket_mcp.Prelude.{
  ℕ, Text, text_eq, text_eq_iff, ◌≡◌, ◌≢◌, refl, sym, ap, ◌∙◌, Bool, true, false, Option, none,
  some, inl, inr, arith, Bool-cases,
}
use picket_mcp.Core.Json.{Numbers}
use picket_mcp.Core.Models.{WatchState}
use picket_mcp.Store.Integrity.{apply-IsUnique}
use picket_mcp.Store.Trace.{recover, apply}
use picket_mcp.Store.Watches.{read_watch}
use picket_mcp.Daemon.Poll.{Sources}
use picket_mcp.Daemon.Window.{LocalTime}
use picket_mcp.Daemon.Work.{work-active}
use picket_mcp.Daemon.Rounds.{IsOrdered, iteration-IsOrdered}
use picket_mcp.Daemon.Upkeep.{IsStored, IsUp, write_watch-here, iteration-IsUp}
use picket_mcp.Daemon.Loop.{LoopState, iteration}
use picket_mcp.Daemon.Run.{Identity, start}
use picket_mcp.Daemon.Endings.{start-IsUp}
use picket_mcp.Watches.Control.{Tables}
use picket_mcp.Server.Changes.{Changes, sent, written, armed, swept, done, next, IsSound}
use picket_mcp.Program.{Program, kept_if, ran}

module _ {N : Type 0} where
  -- Every daemon has the state of its own watch, which has a row.
  abbrev pub DaemonsStored : Tables N → (Text → Option (WatchState N)) → Type 0
  DaemonsStored tables daemons =
      (w : Text) (state : WatchState N)
      → daemons w ≡ some state
      → (state.watch_id ≡ w) × (read_watch w tables.db.watches ≢ none)

  pub record IsHealthy (p : Program N) : Type 0 where
    pub sound : IsSound p.server.tables
    pub ordered : IsOrdered p.server.tables.db.fires
    pub stored : DaemonsStored p.server.tables p.daemons

  pub Changes-here :
      {new : Text} {t u : Tables N} (w : Text)
      → Changes new t u
      → read_watch w t.db.watches ≢ none
      → read_watch w u.db.watches ≢ none
  Changes-here w done there = there
  Changes-here w (next (sent now v c awake) steps) there = Changes-here w steps there
  Changes-here w (next (written now v state awake same) steps) there =
      Changes-here w steps (write_watch-here now w state _ there)
  Changes-here w (next (armed now state same) steps) there =
      Changes-here w steps (write_watch-here now w state _ there)
  Changes-here w (next (swept fires distinct fewer) steps) there = Changes-here w steps there

  pub Changes-IsOrdered :
      {new : Text} {t u : Tables N} → Changes new t u → IsOrdered t.db.fires → IsOrdered u.db.fires
  Changes-IsOrdered done ordered = ordered
  Changes-IsOrdered (next (sent now v c awake) steps) ordered = Changes-IsOrdered steps ordered
  Changes-IsOrdered (next (written now v state awake same) steps) ordered =
      Changes-IsOrdered steps ordered
  Changes-IsOrdered (next (armed now state same) steps) ordered = Changes-IsOrdered steps ordered
  Changes-IsOrdered (next (swept fires distinct fewer) steps) ordered =
      Changes-IsOrdered steps (record {
        unique = distinct ordered.unique;
        in_flight = λ v. omega (arith, fewer ordered.unique v, ordered.in_flight v);
      })

  pub IsHealthy-IsStored :
      (p : Program N)
      → IsHealthy p
      → (v : Text) → read_watch v p.server.tables.db.watches ≢ none
      → IsStored v p.server.tables.db
  IsHealthy-IsStored p healthy v there = record { here = there; keyed = healthy.sound.keyed }

  -- A part of a daemon's run that keeps the rows that are there.
  ran-IsHealthy :
      (w : Text) (ttl created : Option ℕ) (loop : LoopState N) (p : Program N)
      → IsHealthy p
      → read_watch w p.server.tables.db.watches ≢ none
      → IsOrdered loop.db.fires
      → ((v : Text) → read_watch v p.server.tables.db.watches ≢ none → IsUp w v ttl created loop)
      → IsHealthy (ran w loop p)
  ran-IsHealthy w ttl created loop p healthy there ordered up = record {
    sound = record {
      keyed = (up w there).stored.keyed;
      channel = (up w there).channel;
      unique = ordered.unique;
    };
    ordered = ordered;
    stored = λ v state found. elim (Bool-cases (text_eq w v)) [
      | inl e ↦
          let same = (text_eq_iff w v).0 e in
          let own = own_state loop.stopped state (rw e at found) in
          (
            sym (ap (λ s. s.watch_id) own) ∙ (up w there).id ∙ same,
            subst (λ u. read_watch u loop.db.watches ≢ none) same (up w there).stored.here,
          )
      | inr e ↦
          let before = healthy.stored v state (rw e at found) in
          (before.0, (up v before.1).stored.here)
    ];
  }
    where
      own_state :
          (stopped : Bool) (state : WatchState N)
          → kept_if stopped loop.state ≡ some state
          → loop.state ≡ state
      own_state true state found = absurd (ground (arith, found))
      own_state false state found = some-injective _ _ found

  pub begin-IsHealthy :
      (self : Identity) (clock : ℕ → ℕ) (w : Text) (state : WatchState N) (p : Program N)
      → IsHealthy p
      → read_watch w p.server.tables.db.watches ≡ some state
      → IsHealthy (ran w (start self clock w state p.server.tables.db p.server.tables.commands) p)
  unfolding start apply
  begin-IsHealthy self clock w state p healthy found =
      let fires = p.server.tables.db.fires in
      let step = recover (clock 10) (some w) in
      ran-IsHealthy w state.ttl_seconds state.created_at _ p healthy
        (λ gone. ground (arith, found, gone))
        (record {
          unique = apply-IsUnique step fires healthy.ordered.unique;
          in_flight = λ v. omega (
            arith,
            work-active v step fires tt healthy.ordered.unique,
            healthy.ordered.in_flight v,
          );
        })
        (λ v there.
          start-IsUp self clock w v state _ _ found (IsHealthy-IsStored p healthy v there)
            healthy.sound.channel)

  pub round-IsHealthy :
      (num : Numbers N) (world : Sources N) (clock : ℕ → ℕ) (local : LocalTime) (fire_id w : Text)
      (state : WatchState N) (p : Program N)
      → IsHealthy p
      → p.daemons w ≡ some state
      → IsHealthy (
          ran w
            (iteration num world clock local fire_id state p.server.tables.db
              p.server.tables.commands)
            p)
  round-IsHealthy num world clock local fire_id w state p healthy runs =
      let (same, there) = healthy.stored w state runs in
      ran-IsHealthy w state.ttl_seconds state.created_at _ p healthy there
        (iteration-IsOrdered num world clock local fire_id state p.server.tables.db
          p.server.tables.commands healthy.ordered)
        (λ v found.
          iteration-IsUp w v state.ttl_seconds state.created_at num world clock local fire_id
            (record {
              state = state;
              db = p.server.tables.db;
              commands = p.server.tables.commands;
              stopped = false;
            })
            (record {
              id = same;
              ttl_kept = refl;
              created_kept = refl;
              stored = IsHealthy-IsStored p healthy v found;
              channel = healthy.sound.channel;
            }))
