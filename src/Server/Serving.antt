-- ===== src/Server/Serving.antt =====
-- src/picket/server.py: every tool makes changes of these kinds only.
use picket_mcp.Prelude.{
  arith, ℕ, Text, Bool, true, false, Option, none, some, List, [], ◌∷◌, inl, inr, Bool-cases,
  Option-cases, if◌then◌else◌,
}
use picket_mcp.Core.Json.{Numbers}
use picket_mcp.Core.Errors.{Reply, failure, success, Tried, passed, refused, raised}
use picket_mcp.Store.Commands.{pause, resume}
use picket_mcp.Store.Integrity.{IsUnique, apply-IsUnique}
use picket_mcp.Store.Trace.{recover, prune, apply}
use picket_mcp.Store.Watches.{read_watch}
use picket_mcp.Daemon.Work.{work-active}
use picket_mcp.Handler.Registry.{Disk, install_default_notify_runbook}
use picket_mcp.Watches.Liveness.{ProcessTable}
use picket_mcp.Watches.Control.{
  Tables, Bulk, fits_filter, stop_watch, stop_each, stop_all_watches, Stopped, Signal, after_stop,
}
use picket_mcp.Watches.Request.{Request, ArmWorld}
use picket_mcp.Watches.Arm.{arm_watch}
use picket_mcp.Watches.Arming.{arm_watch-IsArmed}
use picket_mcp.Watches.Reconcile.{Sweep, spawn_each, reconcile}
use picket_mcp.Server.Calls.{Call, Answer, ServerState, Outside}
use picket_mcp.Server.Replies.{replied, swept_by, bulk_served}
use picket_mcp.Server.Tools.{outside_base, arm_world, serve}
use picket_mcp.Server.Changes.{
  Change, Changes, Changes-append, IsSound, Changes-IsSound, stop_watch-Changes,
  send_control-Changes,
}

module _ {N : Type 0} (new : Text) where
  after_stop-Changes :
      (w : Text) (reply : Option (Reply Stopped)) (t u : Tables N) (signals : List Signal)
      (rest : Tables N → Bulk N)
      → Changes new t u
      → Changes new u (rest u).tables
      → Changes new t (after_stop w reply u signals rest).tables
  after_stop-Changes w none t u signals rest steps more = steps
  after_stop-Changes w (some (success s)) t u signals rest steps more = Changes-append steps more
  after_stop-Changes w (some (failure c m)) t u signals rest steps more = Changes-append steps more

  stop_each-Changes :
      (processes : ProcessTable) (clocks : Text → ℕ → ℕ) (status_filter mode : Text)
      (ws : List Text) (t : Tables N)
      → IsSound t
      → Changes new t (stop_each processes clocks status_filter mode ws t).tables
  unfolding stop_each
  stop_each-Changes processes clocks status_filter mode [] t sound = Changes.done
  stop_each-Changes processes clocks status_filter mode (w ∷ ws) t sound =
      elim (Option-cases (read_watch w t.db.watches)) [
        | inl gone ↦ rw gone (stop_each-Changes processes clocks status_filter mode ws t sound)
        | inr (state, found) ↦
            rw found (elim (Bool-cases (fits_filter status_filter state.status)) [
              | inl e ↦
                  let effect = stop_watch processes (clocks w) state.watch_id mode t in
                  let stopping =
                    stop_watch-Changes new processes (clocks w) state.watch_id mode t sound.keyed in
                  rw e (
                    after_stop-Changes state.watch_id effect.reply t effect.tables effect.signals
                      (stop_each processes clocks status_filter mode ws) stopping
                      (stop_each-Changes processes clocks status_filter mode ws effect.tables
                        (Changes-IsSound stopping sound)))
              | inr e ↦ rw e (stop_each-Changes processes clocks status_filter mode ws t sound)
            ])
      ]

  bulk-Changes :
      (processes : ProcessTable) (clocks : Text → ℕ → ℕ) (confirm : Bool)
      (status_filter mode : Text) (state : ServerState N)
      → IsSound state.tables
      → Changes new state.tables
          (bulk_served state (
            stop_all_watches processes clocks confirm status_filter mode state.tables)).state.tables
  unfolding stop_all_watches
  bulk-Changes processes clocks false status_filter mode state sound = Changes.done
  bulk-Changes processes clocks true status_filter mode state sound =
      stop_each-Changes processes clocks status_filter mode _ state.tables sound

  arm_watch-Changes :
      (num : Numbers N) (world : ArmWorld N) (clock : ℕ → ℕ) (request : Request N) (t : Tables N)
      → Changes new t (arm_watch num world clock new request t).tables
  arm_watch-Changes num world clock request t =
      elim (arm_watch-IsArmed num world clock new request t) [
        | inl (same, failing) ↦ rw same Changes.done
        | inr (state, armed, made) ↦
            rw made (Changes.next (Change.armed (clock 1) state armed.id) Changes.done)
      ]

  reconcile-Changes :
      (processes : ProcessTable) (now retention : ℕ) (t : Tables N)
      → Changes new t (record t { db = (reconcile processes now retention t.db).db })
  unfolding reconcile apply
  reconcile-Changes processes now retention t =
      let recovered = apply (recover now none) t.db.fires in
      Changes.next
        (Change.swept (apply (prune retention) recovered)
          (λ u. apply-IsUnique (prune retention) recovered (recovered-IsUnique u))
          (λ u x. omega (
            arith,
            work-active x (recover now none) t.db.fires tt u,
            work-active x (prune retention) recovered tt (recovered-IsUnique u),
          )))
        Changes.done
    where
      recovered-IsUnique : IsUnique t.db.fires → IsUnique (apply (recover now none) t.db.fires)
      recovered-IsUnique u = apply-IsUnique (recover now none) t.db.fires u

  swept_by-Changes :
      (state : ServerState N) (spawned : List Text) (failed : Bool) (sweep : Sweep N)
      → Changes new state.tables (record state.tables { db = sweep.db })
      → Changes new state.tables
          (swept_by state (spawned, if failed then none else some sweep)).state.tables
  swept_by-Changes state spawned true sweep c = Changes.done
  swept_by-Changes state spawned false sweep c = c

  replied-Changes :
      (state : ServerState N) (tried : Tried (Answer N × Disk))
      → Changes new state.tables (replied state tried).state.tables
  replied-Changes state (passed (answer, disk)) = Changes.done
  replied-Changes state (refused code message) = Changes.done
  replied-Changes state raised = Changes.done

pub serve-Changes :
    {N : Type 0} (num : Numbers N) (outside : Outside N) (call : Call N) (state : ServerState N)
    → IsSound state.tables
    → Changes outside.new_watch_id state.tables (serve num outside call state).state.tables
unfolding serve
serve-Changes num outside Call.ping state sound = Changes.done
serve-Changes num outside Call.doctor state sound = replied-Changes _ state _
serve-Changes num outside (Call.test_predicate e p) state sound = replied-Changes _ state _
serve-Changes num outside (Call.test_probe i p) state sound = replied-Changes _ state _
serve-Changes num outside (Call.register_runbook i t e d a v) state sound =
    replied-Changes _ state _
serve-Changes num outside Call.list_runbooks state sound = replied-Changes _ state _
serve-Changes num outside Call.install_default_runbooks state sound =
    replied-Changes _
      (record state {
        disk =
            (install_default_notify_runbook (outside_base num outside) outside.runbook_files
              outside.notify_script state.disk).0;
      })
      _
serve-Changes num outside (Call.register_probe i l e d v) state sound = replied-Changes _ state _
serve-Changes num outside Call.list_probes state sound = replied-Changes _ state _
serve-Changes num outside (Call.list_watches f) state sound = Changes.done
serve-Changes num outside (Call.get_watch w n) state sound = replied-Changes _ state _
serve-Changes num outside (Call.get_fire_log w n) state sound = Changes.done
serve-Changes num outside (Call.tail_watch_log w n) state sound = replied-Changes _ state _
serve-Changes num outside (Call.arm_watch request) state sound =
    arm_watch-Changes outside.new_watch_id num (arm_world num outside state.disk) outside.clock
      request state.tables
serve-Changes num outside Call.reconcile state sound =
    swept_by-Changes outside.new_watch_id state _
      (spawn_each outside.arm.spawn
        (reconcile outside.processes (outside.clock 0) 500 state.tables.db).restarted).1
      (reconcile outside.processes (outside.clock 0) 500 state.tables.db)
      (reconcile-Changes outside.new_watch_id outside.processes (outside.clock 0) 500 state.tables)
serve-Changes num outside (Call.stop_watch w mode) state sound =
    stop_watch-Changes outside.new_watch_id outside.processes outside.clock w mode state.tables
      sound.keyed
serve-Changes num outside (Call.stop_all_watches confirm f mode) state sound =
    bulk-Changes outside.new_watch_id outside.processes outside.clocks confirm f mode state sound
serve-Changes num outside (Call.pause_watch w) state sound =
    send_control-Changes outside.new_watch_id (outside.clock 0) w pause state.tables
serve-Changes num outside (Call.resume_watch w) state sound =
    send_control-Changes outside.new_watch_id (outside.clock 0) w resume state.tables
