-- ===== src/Server/Tools.antt =====
-- src/picket/server.py: what each tool does.
use picket_mcp.Prelude.{Text, codes, Option, none, some, List, [], ◌∷◌, ◌++◌, length}
use picket_mcp.Core.Json.{Json, Numbers}
use picket_mcp.Core.Errors.{
  invalid_spec, probe_not_found, Tried, passed, refused, raised, ◌>>=◌, or_refused,
}
use picket_mcp.Core.Validate.{validate_endpoint, validate_predicate}
use picket_mcp.Condition.Extract.{Observed, ok}
use picket_mcp.Condition.Fetch.{fetch}
use picket_mcp.Condition.Trial.{TestPredicate, run_test_predicate}
use picket_mcp.Store.Watches.{all_watch_ids}
use picket_mcp.Handler.Types.{World, Runbook}
use picket_mcp.Handler.Registry.{
  Disk, or_raised, world_at, register_runbook, install_default_notify_runbook, list_runbooks,
}
use picket_mcp.Probes.Types.{ProbeWorld, Probe}
use picket_mcp.Probes.Run.{TestProbe, read_probe, run_test_probe, params_or_empty}
use picket_mcp.Probes.Registry.{probe_world_at, register_probe, list_probes}
use picket_mcp.Watches.Control.{stop_watch, stop_all_watches, pause_watch, resume_watch}
use picket_mcp.Watches.Request.{Request, ArmWorld}
use picket_mcp.Watches.Arm.{then_valid, prepare, arm_watch}
use picket_mcp.Watches.Reconcile.{reconcile_spawning}
use picket_mcp.Watches.Listing.{list_watches, get_watch}
use picket_mcp.Server.Audit.{get_fire_log, tail_watch_log}
use picket_mcp.Server.Replies.{replied, reads, effected, bulk_served, swept_by, installed}
use picket_mcp.Server.Calls.{Call, Checks, Answer, ServerState, Outside, Served}

module _ {N : Type 0} where
  module _ (num : Numbers N) (outside : Outside N) where
    abbrev pub outside_base : World N
    outside_base = outside.arm.probes.base

    abbrev pub probe_world : Disk → ProbeWorld N
    probe_world disk =
        let base = world_at outside_base outside.runbook_files disk in
        probe_world_at (record outside.arm.probes { base = base }) outside.probe_files disk

    -- What arm_watch takes, with the files as they are now.
    abbrev pub arm_world : Disk → ArmWorld N
    arm_world disk = record outside.arm { probes = probe_world disk; fetch = fetch outside.http }

    abbrev parsed : {A : Type 0} → (Json N → Option A) → Json N → Tried A
    parsed spec raw = or_refused invalid_spec (outside.arm.spec_error raw) (spec raw)

    unfoldable pub test_predicate : Json N → Json N → Tried (TestPredicate N)
    unfolding validate_endpoint validate_predicate run_test_predicate
    test_predicate endpoint predicate =
        parsed (λ raw. then_valid num outside.arm (outside.arm.endpoint_of raw) validate_endpoint)
          endpoint
        >>= λ ep.
            parsed
              (λ raw. then_valid num outside.arm (outside.arm.predicate_of raw) validate_predicate)
              predicate
            >>= λ pr.
                or_raised
                  (run_test_predicate num outside.http outside.arm.find outside_base.dumps ep pr)

    abbrev found_or : Text → Observed (Option Probe) → Tried Probe
    found_or probe_id (ok found) =
        or_refused probe_not_found
          (codes "probe " ++ outside_base.repr probe_id ++ codes " is not registered") found
    found_or probe_id _ = raised

    unfoldable pub test_probe : Disk → Text → Json N → Tried (TestProbe N)
    unfolding read_probe run_test_probe
    test_probe disk probe_id params =
        let world = probe_world disk in
        found_or probe_id (read_probe world probe_id) >>= λ probe.
        or_raised (run_test_probe world probe (params_or_empty world params))

    unfoldable pub doctor : ServerState N → Tried Checks
    unfolding all_watch_ids list_runbooks list_probes
    doctor state =
        or_raised (list_runbooks outside_base outside.runbook_files state.disk) >>= λ runbooks.
        or_raised (list_probes outside.arm.probes outside.probe_files state.disk) >>= λ probes.
        passed (record {
          claude_path = outside.which;
          home_writable = outside.writable;
          watches = length (all_watch_ids state.tables.db.watches);
          runbooks = length runbooks;
          probes = length probes;
        })

    -- A registration, which writes files.
    abbrev registering : {A : Type 0} → (A → Answer N) → Tried (A × Disk) → Tried (Answer N × Disk)
    registering answer tried = tried >>= λ (a, disk). passed (answer a, disk)

    -- An InvalidSpec leaves this tool by an exception.
    abbrev uncaught : {A : Type 0} → Tried A → Tried A
    uncaught (passed a) = passed a
    uncaught (refused code message) = raised
    uncaught raised = raised

    abbrev pub installing : Disk × Tried (Runbook × Disk) → Disk × Tried (Answer N × Disk)
    installing (disk, tried) = (disk, registering Answer.runbook (uncaught tried))

    abbrev reading : {A : Type 0} → (A → Answer N) → ServerState N → Tried A → Served N
    reading answer state tried = reads state (tried >>= λ a. passed (answer a))

    abbrev pub spawned_of : Text → Option Text → List Text
    spawned_of w none = w ∷ []
    spawned_of w (some err) = []

    abbrev pub spawned_by : {A : Type 0} → Text → Option Text → Tried A → List Text
    spawned_by w err (passed a) = spawned_of w err
    spawned_by w err (refused code message) = []
    spawned_by w err raised = []

    -- The daemon is spawned once the row is written; an OSError means that it was not.
    unfoldable pub arm_spawned : ServerState N → Request N → List Text
    unfolding prepare
    arm_spawned state request =
        let w = outside.new_watch_id in
        spawned_by w (outside.arm.spawn w)
          (prepare num (arm_world state.disk) (outside.clock 0) w request)

    unfoldable pub serve : Call N → ServerState N → Served N
    unfolding test_predicate test_probe doctor register_runbook register_probe list_runbooks
        list_probes install_default_notify_runbook arm_watch arm_spawned reconcile_spawning
        list_watches get_watch stop_watch stop_all_watches get_fire_log tail_watch_log
    serve Call.ping state = reads state (passed Answer.pong)
    serve Call.doctor state = reading Answer.checked state (doctor state)
    serve (Call.test_predicate endpoint predicate) state =
        reading Answer.tested_predicate state (test_predicate endpoint predicate)
    serve (Call.test_probe probe_id params) state =
        reading Answer.tested_probe state (test_probe state.disk probe_id params)
    serve (Call.register_runbook id type entry description tools version) state = replied state (
        registering Answer.runbook (
          register_runbook outside_base outside.runbook_files state.disk id type entry description
            tools version))
    serve Call.list_runbooks state =
        reading Answer.runbooks state
          (or_raised (list_runbooks outside_base outside.runbook_files state.disk))
    serve Call.install_default_runbooks state = installed state (
        installing (
          install_default_notify_runbook outside_base outside.runbook_files outside.notify_script
            state.disk))
    serve (Call.register_probe id language entry description version) state = replied state (
        registering Answer.probe (
          register_probe outside.arm.probes outside.probe_files state.disk id language entry
            description version))
    serve Call.list_probes state =
        reading Answer.probes state
          (or_raised (list_probes outside.arm.probes outside.probe_files state.disk))
    serve (Call.arm_watch request) state = effected Answer.armed state (arm_spawned state request) (
        arm_watch num (arm_world state.disk) outside.clock outside.new_watch_id request
          state.tables)
    serve Call.reconcile state = swept_by state (
        reconcile_spawning outside.arm.spawn outside.processes (outside.clock 0) 500
          state.tables.db)
    serve (Call.list_watches status_filter) state = reads state (
        passed (
          Answer.watches (
            list_watches outside.show_seconds outside.processes (outside.clock 0) status_filter
              state.tables.db.watches)))
    serve (Call.get_watch watch_id log_lines) state = reading Answer.watch state (
        get_watch outside.processes (outside.clock 0) outside_base.home outside.logs watch_id
          log_lines state.tables.db)
    serve (Call.stop_watch watch_id mode) state =
        effected Answer.stopped state []
          (stop_watch outside.processes outside.clock watch_id mode state.tables)
    serve (Call.stop_all_watches confirm status_filter mode) state =
        bulk_served state (
          stop_all_watches outside.processes outside.clocks confirm status_filter mode state.tables)
    serve (Call.pause_watch watch_id) state =
        effected Answer.requested state [] (pause_watch (outside.clock 0) watch_id state.tables)
    serve (Call.resume_watch watch_id) state =
        effected Answer.requested state [] (resume_watch (outside.clock 0) watch_id state.tables)
    serve (Call.get_fire_log watch_id limit) state =
        reads state (passed (Answer.fires (get_fire_log watch_id limit state.tables.db)))
    serve (Call.tail_watch_log watch_id lines) state =
        reading Answer.lines state
          (tail_watch_log outside_base.home outside.logs watch_id lines state.tables.db)

  -- The server's calls one after the other, with the watches whose daemons they spawned.
  unfoldable pub serve_all :
      Numbers N → List (Outside N × Call N) → ServerState N → ServerState N × List Text
  unfolding serve
  serve_all num [] state = (state, [])
  serve_all num ((outside, call) ∷ calls) state =
      let now = serve num outside call state in
      let (after, later) = serve_all num calls now.state in (after, now.spawned ++ later)
