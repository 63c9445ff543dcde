-- ===== src/Handler/Standalone.antt =====
-- src/picket/execution/handler.py: `fire`, which creates a fire and executes it without a worker.
use picket_mcp.Prelude.{
  ℕ, Text, ◌≡◌, Bool, true, false, not, Option, none, some, List, [], ◌∷◌, All-select, select,
  exists_where, count_where, arith,
}
use picket_mcp.Core.Json.{Json}
use picket_mcp.Core.Models.{WatchState}
use picket_mcp.Store.Fire.{Fire, running}
use picket_mcp.Store.Trace.{Transaction, create, set_pid, history}
use picket_mcp.Handler.Types.{World}
use picket_mcp.Handler.Deliver.{Execution}
use picket_mcp.Handler.Run.{run_fire}
use picket_mcp.Handler.Ends.{About, is_finish, in_flight, history-finished, run_fire-IsSound}

module _ {N : Type 0} where
  -- What is left out where `on_start` is None.
  abbrev pub is_set_pid : Transaction (Json N) → Bool
  is_set_pid (set_pid id pid) = true
  is_set_pid _ = false

  -- `clock` gives the readings of `create_fire`.
  unfoldable pub fire :
      World N → (ℕ → ℕ) → WatchState N → Json N → Text → ℕ → Option (Json N) → Execution N
  unfolding run_fire
  fire world clock state value fire_id timeout extra =
      let execution = run_fire world state value fire_id timeout extra in
      record execution {
        writes =
            create clock fire_id state.watch_id running (some state.runbook_id) none value none
            ∷ select (λ t. not (is_set_pid t)) execution.writes;
      }

  select-finish :
      (ts : List (Transaction (Json N)))
      → exists_where is_finish ts ≡ true
      → exists_where is_finish (select (λ t. not (is_set_pid t)) ts) ≡ true
  select-finish [] h = h
  select-finish (t ∷ ts) h = ground (arith, select-finish ts)

  -- Unless an exception leaves it, after its transactions no row of the fire is pending or running.
  pub fire-finishes :
      (world : World N) (clock : ℕ → ℕ) (state : WatchState N) (value : Json N) (fire_id : Text)
      (timeout : ℕ) (extra : Option (Json N)) (fires : List (Fire (Json N)))
      → (fire world clock state value fire_id timeout extra).raised ≡ false
      → count_where
          (in_flight fire_id)
          (history (fire world clock state value fire_id timeout extra).writes fires)
        ≡ 0
  unfolding fire history
  fire-finishes world clock state value fire_id timeout extra fires quiet =
      let execution = run_fire world state value fire_id timeout extra in
      let sound = run_fire-IsSound world state value fire_id timeout extra in
      history-finished fire_id (select (λ t. not (is_set_pid t)) execution.writes) _
        (All-select (About fire_id) (λ t. not (is_set_pid t)) execution.writes sound.about)
        (select-finish execution.writes (sound.done quiet))
