-- ===== src/Server/Failures.antt =====
-- src/picket/server.py: a tool that reports a failure has done nothing, but for arm_watch's last one.
use picket_mcp.Prelude.{
  ℕ, Text, ◌≡◌, refl, ap, ◌⊎◌, Bool, true, false, Option, none, some, List, [], inl, inr, arith,
  Bool-cases, Option-cases, if◌then◌else◌,
}
use picket_mcp.Core.Json.{Numbers}
use picket_mcp.Core.Errors.{
  ErrorCode, daemon_spawn_failed, Reply, failure, success, Tried, passed, refused, raised,
}
use picket_mcp.Core.Models.{WatchState}
use picket_mcp.Store.Commands.{Command, pause, resume}
use picket_mcp.Store.Ledger.{has_active_fire}
use picket_mcp.Store.Watches.{read_watch, all_watch_ids}
use picket_mcp.Handler.Types.{Runbook}
use picket_mcp.Handler.Registry.{Disk, install_default_notify_runbook}
use picket_mcp.Watches.Control.{
  Tables, Effect, Bulk, Signal, is_stopped, ended, stop_live, stop_found, stop_watch, halt,
  control_found, send_control, stop_each, stop_all_watches,
}
use picket_mcp.Watches.Liveness.{ProcessTable, is_alive}
use picket_mcp.Watches.Request.{ArmWorld, Trial}
use picket_mcp.Watches.Arm.{spawned, armed, identified, prepare, launch, arm_watch}
use picket_mcp.Watches.Reconcile.{Sweep, reconcile_spawning}
use picket_mcp.Server.Calls.{Call, Answer, ServerState, Outside, Served}
use picket_mcp.Server.Replies.{
  replied, answered, effected, bulk_reply, bulk_served, swept_by, installed,
}
use picket_mcp.Server.Tools.{outside_base, installing, arm_world, spawned_by, arm_spawned, serve}

abbrev pub Fails : {A : Type 0} → ErrorCode → Text → Option (Reply A) → Type 0
Fails code message reply = reply ≡ some (failure code message)

module _ {N : Type 0} (code : ErrorCode) (message : Text) where
  -- The database and the files are as they were, no signal was sent and no daemon spawned.
  pub record IsUntouched (state : ServerState N) (served : Served N) : Type 0 where
    pub kept : served.state ≡ state
    pub signals : served.signals ≡ []
    pub spawned : served.spawned ≡ []

  replied-IsUntouched :
      (state : ServerState N) (tried : Tried (Answer N × Disk))
      → Fails code message (replied state tried).reply
      → IsUntouched state (replied state tried)
  replied-IsUntouched state (passed (answer, disk)) fails = absurd (ground (arith, fails))
  replied-IsUntouched state (refused c m) fails = record {
    kept = refl;
    signals = refl;
    spawned = refl;
  }
  replied-IsUntouched state raised fails = absurd (ground (arith, fails))

  -- An InvalidSpec of the installation leaves the tool by an exception.
  installed-raises :
      (num : Numbers N) (outside : Outside N) (state : ServerState N)
      (made : Disk × Tried (Runbook × Disk))
      → ¬ Fails code message (installed state (installing num outside made)).reply
  installed-raises num outside state (disk, passed a) fails = ground (arith, fails)
  installed-raises num outside state (disk, refused c m) fails = ground (arith, fails)
  installed-raises num outside state (disk, raised) fails = ground (arith, fails)

  swept_by-raises :
      (state : ServerState N) (made : List Text × Option (Sweep N))
      → ¬ Fails code message (swept_by state made).reply
  swept_by-raises state (spawned, none) fails = ground (arith, fails)
  swept_by-raises state (spawned, some sweep) fails = ground (arith, fails)

  answered-Fails :
      {A : Type 0} (answer : A → Answer N) (reply : Option (Reply A))
      → Fails code message (answered answer reply)
      → Fails code message reply
  answered-Fails answer none fails = absurd (ground (arith, fails))
  answered-Fails answer (some (success a)) fails = absurd (ground (arith, fails))
  answered-Fails answer (some (failure c m)) fails = ground (arith, fails)

  effected-IsUntouched :
      {A : Type 0} (answer : A → Answer N) (state : ServerState N) (effect : Effect N A)
      → (effect.tables ≡ state.tables) × (effect.signals ≡ [])
      → IsUntouched state (effected answer state [] effect)
  effected-IsUntouched answer state effect (same, quiet) = record {
    kept = ap (λ t. record state { tables = t }) same;
    signals = quiet;
    spawned = refl;
  }

  stop_watch-failure :
      (processes : ProcessTable) (clock : ℕ → ℕ) (v mode : Text) (t : Tables N)
      → Fails code message (stop_watch processes clock v mode t).reply
      → ((stop_watch processes clock v mode t).tables ≡ t)
        × ((stop_watch processes clock v mode t).signals ≡ [])
  unfolding stop_watch stop_found stop_live
  stop_watch-failure processes clock v mode t = by_found (read_watch v t.db.watches)
    where
      live :
          (now : ℕ) (state : WatchState N) (in_flight : Bool)
          (halted : Tables N × (List Signal × Bool))
          → ¬ Fails code message (ended now state in_flight halted).reply
      live now state in_flight (u, (signals, true)) fails = ground (arith, fails)
      live now state in_flight (u, (signals, false)) fails = ground (arith, fails)

      by_found :
          (found : Option (WatchState N))
          → let effect = stop_found processes clock v mode t found in
            Fails code message effect.reply → (effect.tables ≡ t) × (effect.signals ≡ [])
      by_found none fails = (refl, refl)
      by_found (some state) fails = elim (Bool-cases (is_stopped state.status)) [
        | inl e ↦ rw e (refl, refl)
        | inr e ↦ absurd (
            live (clock 1) state (has_active_fire v t.db.fires)
              (if is_alive processes state then halt clock v mode state t else (t, ([], false)))
              (rw e at fails))
      ]

  send_control-failure :
      (now : ℕ) (v : Text) (c : Command) (t : Tables N)
      → Fails code message (send_control now v c t).reply
      → ((send_control now v c t).tables ≡ t) × ((send_control now v c t).signals ≡ [])
  unfolding send_control control_found
  send_control-failure now v c t fails = elim (Option-cases (read_watch v t.db.watches)) [
    | inl gone ↦ rw gone (refl, refl)
    | inr (state, found) ↦ elim (Bool-cases (is_stopped state.status)) [
      | inl e ↦ rw found (rw e (refl, refl))
      | inr e ↦ absurd (ground (arith, rw e at (rw found at fails)))
    ]
  ]

  control-failure :
      (now : ℕ) (v : Text) (c : Command) (state : ServerState N)
      → let served = effected Answer.requested state [] (send_control now v c state.tables) in
        Fails code message served.reply → IsUntouched state served
  control-failure now v c state fails =
      let effect = send_control now v c state.tables in
      effected-IsUntouched Answer.requested state effect (
        send_control-failure now v c state.tables
          (answered-Fails Answer.requested effect.reply fails))

  module _ (num : Numbers N) (world : ArmWorld N) (state : WatchState N) (trial : Trial N) where
    armed-Fails :
        (live : WatchState N) (pid : Option ℕ)
        → Fails code message (some (armed num world state trial live pid))
        → code ≡ daemon_spawn_failed
    armed-Fails live none fails = ground (arith, fails)
    armed-Fails live (some pid) fails = absurd (ground (arith, fails))

    identified-Fails :
        (found : Option (WatchState N))
        → Fails code message (some (identified num world state trial found))
        → code ≡ daemon_spawn_failed
    identified-Fails none fails = ground (arith, fails)
    identified-Fails (some live) fails = armed-Fails live live.pid fails

    spawned-Fails :
        (err : Option Text)
        → Fails code message (some (spawned num world state trial err))
        → code ≡ daemon_spawn_failed
    spawned-Fails (some err) fails = ground (arith, fails)
    spawned-Fails none fails = identified-Fails _ fails

  launch-failure :
      (num : Numbers N) (outside : Outside N) (world : ArmWorld N) (now : ℕ) (v : Text)
      (state : ServerState N) (tried : Tried (WatchState N × Trial N))
      → let served =
          effected Answer.armed state
            (spawned_by num outside v (outside.arm.spawn v) tried)
            (launch num world now state.tables tried) in
        Fails code message (launch num world now state.tables tried).reply
        → (code ≡ daemon_spawn_failed) ⊎ IsUntouched state served
  unfolding launch
  launch-failure num outside world now v state (passed (watch, trial)) fails =
      inl (spawned-Fails num world watch trial (world.spawn watch.watch_id) fails)
  launch-failure num outside world now v state (refused c m) fails =
      inr (record { kept = refl; signals = refl; spawned = refl })
  launch-failure num outside world now v state raised fails = absurd (ground (arith, fails))

  bulk-failure :
      (processes : ProcessTable) (clocks : Text → ℕ → ℕ) (confirm : Bool) (f mode : Text)
      (state : ServerState N)
      → let served =
          bulk_served state (stop_all_watches processes clocks confirm f mode state.tables) in
        Fails code message served.reply → IsUntouched state served
  unfolding stop_all_watches
  bulk-failure processes clocks false f mode state fails = record {
    kept = refl;
    signals = refl;
    spawned = refl;
  }
  bulk-failure processes clocks true f mode state fails =
      let bulk =
        stop_each processes clocks f mode (all_watch_ids state.tables.db.watches) state.tables in
      absurd (by_raised bulk bulk.raised fails)
    where
      by_raised : (bulk : Bulk N) (raised : Bool) → ¬ Fails code message (bulk_reply bulk raised)
      by_raised bulk true fails = ground (arith, fails)
      by_raised bulk false fails = ground (arith, fails)

-- A tool that replies with a failure has left the database and the files as they were, sent no signal
-- and spawned no daemon, unless the failure is DAEMON_SPAWN_FAILED.
pub serve-failure :
    {N : Type 0} (num : Numbers N) (outside : Outside N) (call : Call N) (state : ServerState N)
    (code : ErrorCode) (message : Text)
    → (serve num outside call state).reply ≡ some (failure code message)
    → (code ≡ daemon_spawn_failed) ⊎ IsUntouched code message state (serve num outside call state)
unfolding serve arm_watch arm_spawned
serve-failure num outside Call.ping state code message fails = absurd (ground (arith, fails))
serve-failure num outside Call.doctor state code message fails =
    inr (replied-IsUntouched code message state _ fails)
serve-failure num outside (Call.test_predicate e p) state code message fails =
    inr (replied-IsUntouched code message state _ fails)
serve-failure num outside (Call.test_probe i p) state code message fails =
    inr (replied-IsUntouched code message state _ fails)
serve-failure num outside (Call.register_runbook i t e d a v) state code message fails =
    inr (replied-IsUntouched code message state _ fails)
serve-failure num outside Call.list_runbooks state code message fails =
    inr (replied-IsUntouched code message state _ fails)
serve-failure num outside Call.install_default_runbooks state code message fails = absurd (
    installed-raises code message num outside state
      (install_default_notify_runbook (outside_base num outside) outside.runbook_files
        outside.notify_script state.disk)
      fails)
serve-failure num outside (Call.register_probe i l e d v) state code message fails =
    inr (replied-IsUntouched code message state _ fails)
serve-failure num outside Call.list_probes state code message fails =
    inr (replied-IsUntouched code message state _ fails)
serve-failure num outside (Call.list_watches f) state code message fails =
    absurd (ground (arith, fails))
serve-failure num outside (Call.get_watch w n) state code message fails =
    inr (replied-IsUntouched code message state _ fails)
serve-failure num outside (Call.get_fire_log w n) state code message fails =
    absurd (ground (arith, fails))
serve-failure num outside (Call.tail_watch_log w n) state code message fails =
    inr (replied-IsUntouched code message state _ fails)
serve-failure num outside (Call.arm_watch request) state code message fails =
    let world = arm_world num outside state.disk in
    let v = outside.new_watch_id in
    launch-failure code message num outside world (outside.clock 1) v state
      (prepare num world (outside.clock 0) v request)
      (answered-Fails code message Answer.armed
        (arm_watch num world outside.clock v request state.tables).reply fails)
serve-failure num outside Call.reconcile state code message fails = absurd (
    swept_by-raises code message state
      (reconcile_spawning outside.arm.spawn outside.processes (outside.clock 0) 500 state.tables.db)
      fails)
serve-failure num outside (Call.stop_watch w mode) state code message fails =
    let effect = stop_watch outside.processes outside.clock w mode state.tables in
    inr (
      effected-IsUntouched code message Answer.stopped state effect (
        stop_watch-failure code message outside.processes outside.clock w mode state.tables
          (answered-Fails code message Answer.stopped effect.reply fails)))
serve-failure num outside (Call.stop_all_watches confirm f mode) state code message fails =
    inr (bulk-failure code message outside.processes outside.clocks confirm f mode state fails)
serve-failure num outside (Call.pause_watch w) state code message fails =
    inr (control-failure code message (outside.clock 0) w pause state fails)
serve-failure num outside (Call.resume_watch w) state code message fails =
    inr (control-failure code message (outside.clock 0) w resume state fails)
