-- ===== src/Server/Changes.antt =====
-- src/picket/server.py: what the tools do to the database, as small changes.
use picket_mcp.Prelude.{
  ℕ, ◌≤◌, count_where, Text, codes, text_eq, ◌≡◌, refl, ap, ◌∙◌, Bool, true, false, some, List, [],
  inl, inr, arith, Bool-cases, Option-cases,
}
use picket_mcp.Core.Json.{Json}
use picket_mcp.Core.Models.{WatchState}
use picket_mcp.Store.Fire.{Fire}
use picket_mcp.Store.Ledger.{active_of, has_active_fire}
use picket_mcp.Store.Commands.{Command, stop}
use picket_mcp.Store.Channel.{IsChannel, poll-enqueue}
use picket_mcp.Store.Integrity.{IsUnique}
use picket_mcp.Store.Watches.{read_watch}
use picket_mcp.Store.Keyed.{IsKeyed, read_watch-id, write_watch-IsKeyed}
use picket_mcp.Watches.Liveness.{ProcessTable, is_alive}
use picket_mcp.Watches.Control.{
  Signal, Tables, is_stopped, stopped_of, write_state, send, halt, stop_live, stop_found,
  stop_watch, control_found, send_control, ended,
}

module _ {N : Type 0} where
  -- A watch that is not stopped: its row.
  pub record IsAwake (v : Text) (t : Tables N) : Type 0 where
    pub state : WatchState N
    pub read : read_watch v t.db.watches ≡ some state
    pub awake : is_stopped state.status ≡ false

  -- A command for a watch that is not stopped, its new row, the row of the new watch `new`, and other fires
  -- that are as distinct as those before, no more of them in flight.
  pub data Change (new : Text) (t : Tables N) : Tables N → Type 0 where
    sent : (now : ℕ) (v : Text) (c : Command) → IsAwake v t → Change new t (send now v c t)
    written :
        (now : ℕ) (v : Text) (state : WatchState N)
        → IsAwake v t
        → state.watch_id ≡ v
        → Change new t (write_state now state t)
    armed :
        (now : ℕ) (state : WatchState N)
        → state.watch_id ≡ new
        → Change new t (write_state now state t)
    swept :
        (fires : List (Fire (Json N)))
        → (IsUnique t.db.fires → IsUnique fires)
        → (IsUnique t.db.fires
            → (x : Text) → count_where (active_of x) fires ≤ count_where (active_of x) t.db.fires)
        → Change new t (record t { db = record t.db { fires = fires } })

  pub data Changes (new : Text) : Tables N → Tables N → Type 0 where
    done : {t : Tables N} → Changes new t t
    next : {t u v : Tables N} → Change new t u → Changes new u v → Changes new t v

  pub Changes-append :
      {new : Text} {t u v : Tables N} → Changes new t u → Changes new u v → Changes new t v
  Changes-append done rest = rest
  Changes-append (next step steps) rest = Changes.next step (Changes-append steps rest)

  -- Each row's key is the id of its watch, no command id is above the last one given out, and no two
  -- fires have one id or one idempotency key.
  pub record IsSound (t : Tables N) : Type 0 where
    pub keyed : IsKeyed t.db.watches
    pub channel : IsChannel t.commands
    pub unique : IsUnique t.db.fires

  Change-IsSound : {new : Text} {t u : Tables N} → Change new t u → IsSound t → IsSound u
  Change-IsSound (sent now v c awake) sound = record {
    keyed = sound.keyed;
    channel = (poll-enqueue now v c _ sound.channel).2;
    unique = sound.unique;
  }
  Change-IsSound (written now v state awake same) sound = record {
    keyed = write_watch-IsKeyed now state _ sound.keyed;
    channel = sound.channel;
    unique = sound.unique;
  }
  Change-IsSound (armed now state same) sound = record {
    keyed = write_watch-IsKeyed now state _ sound.keyed;
    channel = sound.channel;
    unique = sound.unique;
  }
  Change-IsSound (swept fires distinct fewer) sound = record {
    keyed = sound.keyed;
    channel = sound.channel;
    unique = distinct sound.unique;
  }

  pub Changes-IsSound : {new : Text} {t u : Tables N} → Changes new t u → IsSound t → IsSound u
  Changes-IsSound done sound = sound
  Changes-IsSound (next step steps) sound = Changes-IsSound steps (Change-IsSound step sound)

  module _ (new : Text) where
    halt-Changes :
        (clock : ℕ → ℕ) (v mode : Text) (state : WatchState N) (t : Tables N)
        → IsAwake v t
        → Changes new t (halt clock v mode state t).0
    unfolding halt
    halt-Changes clock v mode state t awake = elim (Bool-cases (text_eq mode (codes "immediate"))) [
      | inl e ↦ rw e Changes.done
      | inr e ↦ rw e (Changes.next (Change.sent (clock 0) v stop awake) Changes.done)
    ]

    halt-keeps :
        (clock : ℕ → ℕ) (v mode : Text) (state : WatchState N) (t : Tables N)
        → (halt clock v mode state t).0.db ≡ t.db
    unfolding halt
    halt-keeps clock v mode state t = ground arith

    ended-Changes :
        (now : ℕ) (v : Text) (state : WatchState N) (in_flight : Bool) (t u : Tables N)
        (signals : List Signal) (failing : Bool)
        → IsAwake v t
        → state.watch_id ≡ v
        → u.db ≡ t.db
        → Changes new t u
        → Changes new t (ended now state in_flight (u, (signals, failing))).tables
    ended-Changes now v state in_flight t u signals true awake same kept steps = steps
    ended-Changes now v state in_flight t u signals false awake same kept steps =
        Changes-append steps (
          Changes.next
            (Change.written now v (stopped_of state)
              (record {
                state = awake.state;
                read = ap (λ db. read_watch v db.watches) kept ∙ awake.read;
                awake = awake.awake;
              })
              same)
            Changes.done)

    pub stop_watch-Changes :
        (processes : ProcessTable) (clock : ℕ → ℕ) (v mode : Text) (t : Tables N)
        → IsKeyed t.db.watches
        → Changes new t (stop_watch processes clock v mode t).tables
    unfolding stop_watch stop_found stop_live
    stop_watch-Changes processes clock v mode t keyed =
        elim (Option-cases (read_watch v t.db.watches)) [
          | inl gone ↦ rw gone Changes.done
          | inr (state, found) ↦ rw found (elim (Bool-cases (is_stopped state.status)) [
            | inl e ↦ rw e Changes.done
            | inr e ↦
                let awake : IsAwake v t = record { state = state; read = found; awake = e } in
                let same = read_watch-id v t.db.watches state keyed found in
                rw e (elim (Bool-cases (is_alive processes state)) [
                  | inl a ↦ rw a (
                      ended-Changes (clock 1) v state _ t (halt clock v mode state t).0 _ _ awake
                        same (halt-keeps clock v mode state t)
                        (halt-Changes clock v mode state t awake))
                  | inr a ↦ rw a (
                      ended-Changes (clock 1) v state (has_active_fire v t.db.fires) t t [] false
                        awake same refl Changes.done)
                ])
          ])
        ]

    pub send_control-Changes :
        (now : ℕ) (v : Text) (c : Command) (t : Tables N)
        → Changes new t (send_control now v c t).tables
    unfolding send_control control_found
    send_control-Changes now v c t = elim (Option-cases (read_watch v t.db.watches)) [
      | inl gone ↦ rw gone Changes.done
      | inr (state, found) ↦ rw found (elim (Bool-cases (is_stopped state.status)) [
        | inl e ↦ rw e Changes.done
        | inr e ↦ rw e (
            Changes.next (Change.sent now v c (record { state = state; read = found; awake = e }))
              Changes.done)
      ])
    ]
