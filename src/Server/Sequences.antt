-- ===== src/Server/Sequences.antt =====
-- src/picket/server.py: what holds of every sequence of calls.
use picket_mcp.Prelude.{
  ℕ, Text, text_eq, ◌≡◌, refl, ◌∙◌, inl, inr, Bool-cases, if◌then◌else◌, Bool, true, false, ◌||◌,
  Option, none, some, List, [], ◌∷◌, ◌++◌, arith, All,
}
use picket_mcp.Core.Json.{Numbers}
use picket_mcp.Core.Errors.{Reply, failure, success, Tried, passed, refused, raised}
use picket_mcp.Core.Models.{WatchState}
use picket_mcp.Store.Commands.{Command}
use picket_mcp.Handler.Registry.{Disk, install_default_notify_runbook}
use picket_mcp.Watches.Control.{Bulk, is_stopped}
use picket_mcp.Watches.Request.{Request}
use picket_mcp.Watches.Arm.{prepare}
use picket_mcp.Watches.Sweeps.{has}
use picket_mcp.Watches.Reconcile.{Sweep, spawn_one, spawn_each, reconcile}
use picket_mcp.Server.Calls.{Call, Answer, ServerState, Outside}
use picket_mcp.Server.Replies.{replied, swept_by, bulk_served}
use picket_mcp.Server.Tools.{outside_base, spawned_by, arm_world, arm_spawned, serve, serve_all}
use picket_mcp.Server.Changes.{IsSound, Changes-IsSound}
use picket_mcp.Server.Serving.{serve-Changes}
use picket_mcp.Server.Resting.{IsAtRest, Changes-IsAtRest, restarted-rest}

module _ {N : Type 0} (num : Numbers N) where
  -- Over any calls of the tools, each row stays under the id of its watch, no command id is above the
  -- last one given out, and no two fires have one id or one idempotency key.
  pub serve_all-IsSound :
      (calls : List (Outside N × Call N)) (state : ServerState N)
      → IsSound state.tables
      → IsSound (serve_all num calls state).0.tables
  unfolding serve_all
  serve_all-IsSound [] state sound = sound
  serve_all-IsSound ((outside, call) ∷ calls) state sound =
      serve_all-IsSound calls _ (Changes-IsSound (serve-Changes num outside call state sound) sound)

has-append : (w : Text) (vs ws : List Text) → has w (vs ++ ws) ≡ (has w vs || has w ws)
has-append w [] ws = refl
has-append w (v ∷ vs) ws = ground (arith, has-append w vs ws)

spawn_one-has :
    (w v : Text) (err : Option Text) (rest : List Text × Bool) (ws : List Text)
    → (has w ws ≡ false → has w rest.0 ≡ false)
    → has w (v ∷ ws) ≡ false
    → has w (spawn_one v err rest).0 ≡ false
spawn_one-has w v none (spawned, failed) ws kept e = ground (arith, kept)
spawn_one-has w v (some err) rest ws kept e = refl

spawn_each-has :
    (w : Text) (spawn : Text → Option Text) (ws : List Text)
    → has w ws ≡ false
    → has w (spawn_each spawn ws).0 ≡ false
unfolding spawn_each
spawn_each-has w spawn [] e = refl
spawn_each-has w spawn (v ∷ ws) e =
    spawn_one-has w v (spawn v) (spawn_each spawn ws) ws (spawn_each-has w spawn ws) e

module _ {N : Type 0} (w : Text) where
  replied-spawned :
      (state : ServerState N) (tried : Tried (Answer N × Disk))
      → has w (replied state tried).spawned ≡ false
  replied-spawned state (passed (answer, disk)) = refl
  replied-spawned state (refused code message) = refl
  replied-spawned state raised = refl

  bulk-spawned :
      (state : ServerState N) (reply : Reply (Bulk N))
      → has w (bulk_served state reply).spawned ≡ false
  bulk-spawned state (failure code message) = refl
  bulk-spawned state (success bulk) = refl

  arm-spawned :
      (num : Numbers N) (outside : Outside N) (state : ServerState N) (request : Request N)
      → text_eq outside.new_watch_id w ≡ false
      → has w (arm_spawned num outside state request) ≡ false
  unfolding arm_spawned
  arm-spawned num outside state request fresh =
      by_err outside.new_watch_id (outside.arm.spawn outside.new_watch_id)
        (prepare num (arm_world num outside state.disk) (outside.clock 0) outside.new_watch_id
          request)
        fresh
    where
      by_err :
          {A : Type 0} (v : Text) (err : Option Text) (tried : Tried A)
          → text_eq v w ≡ false
          → has w (spawned_by num outside v err tried) ≡ false
      by_err v none (passed a) e = rw e refl
      by_err v (some message) (passed a) e = refl
      by_err v err (refused code message) e = refl
      by_err v err raised e = refl

  swept_by-spawned :
      (state : ServerState N) (spawn : Text → Option Text) (sweep : Sweep N)
      → has w sweep.restarted ≡ false
      → let (spawned, failed) = spawn_each spawn sweep.restarted in
        has w (swept_by state (spawned, if failed then none else some sweep)).spawned ≡ false
  swept_by-spawned state spawn sweep e = elim (Bool-cases (spawn_each spawn sweep.restarted).1) [
    | inl t ↦ rw t (spawn_each-has w spawn sweep.restarted e)
    | inr f ↦ rw f (spawn_each-has w spawn sweep.restarted e)
  ]

  module _ (row : WatchState N) (stopped : is_stopped row.status ≡ true)
      (waiting : Option (ℕ × Command)) where
    serve-spawned :
        (num : Numbers N) (outside : Outside N) (call : Call N) (state : ServerState N)
        → text_eq outside.new_watch_id w ≡ false
        → IsAtRest w row stopped waiting state.tables
        → has w (serve num outside call state).spawned ≡ false
    unfolding serve
    serve-spawned num outside Call.ping state fresh rest = refl
    serve-spawned num outside Call.doctor state fresh rest = replied-spawned state _
    serve-spawned num outside (Call.test_predicate e p) state fresh rest = replied-spawned state _
    serve-spawned num outside (Call.test_probe i p) state fresh rest = replied-spawned state _
    serve-spawned num outside (Call.register_runbook i t e d a v) state fresh rest =
        replied-spawned state _
    serve-spawned num outside Call.list_runbooks state fresh rest = replied-spawned state _
    serve-spawned num outside Call.install_default_runbooks state fresh rest =
        replied-spawned
          (record state {
            disk =
                (install_default_notify_runbook (outside_base num outside) outside.runbook_files
                  outside.notify_script state.disk).0;
          })
          _
    serve-spawned num outside (Call.register_probe i l e d v) state fresh rest =
        replied-spawned state _
    serve-spawned num outside Call.list_probes state fresh rest = replied-spawned state _
    serve-spawned num outside (Call.list_watches f) state fresh rest = refl
    serve-spawned num outside (Call.get_watch w' n) state fresh rest = replied-spawned state _
    serve-spawned num outside (Call.get_fire_log w' n) state fresh rest = refl
    serve-spawned num outside (Call.tail_watch_log w' n) state fresh rest = replied-spawned state _
    serve-spawned num outside (Call.arm_watch request) state fresh rest =
        arm-spawned num outside state request fresh
    serve-spawned num outside Call.reconcile state fresh rest =
        let sweep = reconcile outside.processes (outside.clock 0) 500 state.tables.db in
        swept_by-spawned state outside.arm.spawn sweep (
          restarted-rest w row stopped outside.processes (outside.clock 0) 500 waiting state.tables
            rest)
    serve-spawned num outside (Call.stop_watch w' mode) state fresh rest = refl
    serve-spawned num outside (Call.stop_all_watches confirm f mode) state fresh rest =
        bulk-spawned state _
    serve-spawned num outside (Call.pause_watch w') state fresh rest = refl
    serve-spawned num outside (Call.resume_watch w') state fresh rest = refl

    -- Whatever tools are called and however often, if none of the calls arms a watch under its id,
    -- a watch that is stopped keeps its row, gets no command and no daemon.
    pub serve_all-IsAtRest :
        (num : Numbers N) (calls : List (Outside N × Call N)) (state : ServerState N)
        → All (λ call. text_eq call.0.new_watch_id w ≡ false) calls
        → IsSound state.tables
        → IsAtRest w row stopped waiting state.tables
        → let (after, spawned) = serve_all num calls state in
          IsAtRest w row stopped waiting after.tables × (has w spawned ≡ false)
    unfolding serve_all
    serve_all-IsAtRest num [] state fresh sound rest = (rest, refl)
    serve_all-IsAtRest num ((outside, call) ∷ calls) state fresh sound rest =
        let steps = serve-Changes num outside call state sound in
        let later =
          serve_all-IsAtRest num calls (serve num outside call state).state fresh.1
            (Changes-IsSound steps sound)
            (Changes-IsAtRest w row stopped waiting fresh.0 steps rest) in
        (
          later.0,
          has-append w (serve num outside call state).spawned _
              ∙ rw (serve-spawned num outside call state fresh.0 rest) later.1,
        )
