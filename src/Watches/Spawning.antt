-- ===== src/Watches/Spawning.antt =====
-- src/picket/runtime/supervisor.py: which daemons a sweep starts if a process cannot be spawned.
use mathlib.Core.Path.{subst}
use picket_mcp.Prelude.{
  ℕ, Text, text_eq, text_eq_iff, text_eq_refl, ◌≡◌, refl, sym, ap, ◌∙◌, Bool, true, false, ◌&&◌,
  Option, none, some, List, [], ◌∷◌, arith, exists_where, Bool-cases, inl, inr,
}
use picket_mcp.Store.Watches.{read_watch}
use picket_mcp.Daemon.Poll.{Db}
use picket_mcp.Watches.Liveness.{ProcessTable}
use picket_mcp.Watches.Reconcile.{
  Sweep, is_dead, spawn_one, spawn_each, reconcile, reconcile_spawning,
}
use picket_mcp.Watches.Sweeps.{has, wants_active, reconcile-restarted}

module _ (spawn : Text → Option Text) where
  spawn_one-has :
      (w v : Text) (err : Option Text) (rest : List Text × Bool) (ws : List Text)
      → spawn v ≡ err
      → (has w rest.0 ≡ true → (has w ws ≡ true) × (spawn w ≡ none))
      → has w (spawn_one v err rest).0 ≡ true
      → (has w (v ∷ ws) ≡ true) × (spawn w ≡ none)
  spawn_one-has w v (some err) rest ws e later h = absurd (ground (arith, h))
  spawn_one-has w v none (spawned, failed) ws e later h = elim (Bool-cases (text_eq v w)) [
    | inl same ↦ (rw same refl, subst (λ u. spawn u ≡ none) ((text_eq_iff v w).0 same) e)
    | inr other ↦
        let (there, runs) = later (ground (arith, other, h)) in (ground (arith, there), runs)
  ]

  -- What is spawned was to be, without an error.
  spawn_each-has :
      (w : Text) (ws : List Text)
      → has w (spawn_each spawn ws).0 ≡ true
      → (has w ws ≡ true) × (spawn w ≡ none)
  unfolding spawn_each
  spawn_each-has w [] h = absurd (ground (arith, h))
  spawn_each-has w (v ∷ ws) h =
      spawn_one-has w v (spawn v) (spawn_each spawn ws) ws refl (spawn_each-has w ws) h

  spawn_one-all :
      (v : Text) (err : Option Text) (rest : List Text × Bool) (ws : List Text)
      → (rest.1 ≡ false → rest.0 ≡ ws)
      → (spawn_one v err rest).1 ≡ false
      → (spawn_one v err rest).0 ≡ v ∷ ws
  spawn_one-all v none rest ws later h = ap (λ us. v ∷ us) (later h)
  spawn_one-all v (some err) rest ws later h = absurd (ground (arith, h))

  -- Without an error all are spawned.
  spawn_each-all : (ws : List Text) → (spawn_each spawn ws).1 ≡ false → (spawn_each spawn ws).0 ≡ ws
  unfolding spawn_each
  spawn_each-all [] h = refl
  spawn_each-all (v ∷ ws) h =
      spawn_one-all v (spawn v) (spawn_each spawn ws) ws (spawn_each-all ws) h

  -- A daemon that was to be started and could not be.
  abbrev Culprit : List Text → Type 0
  Culprit ws = (w : Text) × (err : Text) × (has w ws ≡ true) × (spawn w ≡ some err)

  spawn_one-Culprit :
      (v : Text) (err : Option Text) (rest : List Text × Bool) (ws : List Text)
      → spawn v ≡ err
      → (rest.1 ≡ true → Culprit ws)
      → (spawn_one v err rest).1 ≡ true
      → Culprit (v ∷ ws)
  spawn_one-Culprit v none rest ws e later h =
      let (w, err, there, fails) = later h in (w, err, ground (arith, there), fails)
  spawn_one-Culprit v (some err) rest ws e later h = (v, err, rw (text_eq_refl v) refl, e)

  spawn_each-Culprit : (ws : List Text) → (spawn_each spawn ws).1 ≡ true → Culprit ws
  unfolding spawn_each
  spawn_each-Culprit [] h = absurd (ground (arith, h))
  spawn_each-Culprit (v ∷ ws) h =
      spawn_one-Culprit v (spawn v) (spawn_each spawn ws) ws refl (spawn_each-Culprit ws) h

module _ {N : Type 0} (spawn : Text → Option Text) (processes : ProcessTable) where
  -- A row of the watch wants it active, its state is active or errored, and its process is not alive.
  abbrev pub is_down : Db N → Text → Bool
  is_down db w =
      exists_where (wants_active w) db.watches && is_dead processes (read_watch w db.watches)

  -- Only daemons that are down are started, and without an error; if the sweep goes on all that are
  -- down are started; if an exception leaves it the spawn of one that is down raised it.
  pub record IsSwept (db : Db N) (made : List Text × Option (Sweep N)) : Type 0 where
    pub started : (w : Text) → has w made.0 ≡ true → (is_down db w ≡ true) × (spawn w ≡ none)
    pub whole : (sweep : Sweep N) → made.1 ≡ some sweep → (w : Text) → has w made.0 ≡ is_down db w
    pub broken :
        made.1 ≡ none → (w : Text) × (err : Text) × (is_down db w ≡ true) × (spawn w ≡ some err)

  -- A sweep starts a daemon only if a row of the watch wants it active, its state is active or errored
  -- and its recorded process is not alive, and its spawn raises nothing; if no spawn raises it starts
  -- all of these daemons, and if an exception leaves it the spawn of one of them raised it.
  pub reconcile_spawning-IsSwept :
      (now retention : ℕ) (db : Db N)
      → IsSwept db (reconcile_spawning spawn processes now retention db)
  unfolding reconcile_spawning
  reconcile_spawning-IsSwept now retention db =
      let ws = (reconcile processes now retention db).restarted in
      let down = λ (w : Text). reconcile-restarted processes now retention db w in
      record {
        started =
            λ w h. let (there, runs) = spawn_each-has spawn w ws h in (sym (down w) ∙ there, runs);
        whole = λ sweep e w. elim (Bool-cases (spawn_each spawn ws).1) [
          | inl t ↦ absurd (ground (arith, rw t at e))
          | inr f ↦ ap (λ vs. has w vs) (spawn_each-all spawn ws f) ∙ down w
        ];
        broken = λ e. elim (Bool-cases (spawn_each spawn ws).1) [
          | inl t ↦
              let (w, err, there, fails) = spawn_each-Culprit spawn ws t in
              (w, err, sym (down w) ∙ there, fails)
          | inr f ↦ absurd (ground (arith, rw f at e))
        ];
      }
