-- ===== src/Watches/Arm.antt =====
-- src/picket/runtime/watches.py: `arm_watch` and `_await_identity`. The conversion of a dict to the types
-- of a spec's fields is pydantic's; the validators on them are those of Core. The id of the watch and
-- what other processes write to its row while the tool waits are arguments.
use picket_mcp.Prelude.{
  ℕ, Text, codes, false, not, ◌&&◌, Option, none, some, [], ◌∷◌, ◌++◌, if◌then◌else◌,
}
use picket_mcp.Core.Json.{Json, null, Numbers}
use picket_mcp.Core.Errors.{
  Reply, failure, success, invalid_spec, permission_required, runbook_not_found, probe_not_found,
  probe_failed, endpoint_unreachable, daemon_spawn_failed, Tried, passed, refused, raised, ◌>>=◌,
  or_refused, refuse_if,
}
use picket_mcp.Core.Models.{
  WatchState, WatchStatus, DesiredStatus, DriftPolicy, EndpointSpec, PredicateSpec,
}
use picket_mcp.Core.Validate.{validate_cadence, validate_endpoint, validate_predicate, truthy_text}
use picket_mcp.Core.WatchSpec.{RawWatch, has_endpoint, same_truth, validate_watch}
use picket_mcp.Condition.Extract.{Observed, ok, extract}
use picket_mcp.Condition.Predicate.{initial_baseline}
use picket_mcp.Handler.Types.{Runbook, World}
use picket_mcp.Handler.Runbooks.{read_runbook}
use picket_mcp.Probes.Types.{Probe}
use picket_mcp.Probes.Run.{read_probe, run_probe, params_or_empty}
use picket_mcp.Watches.Request.{
  Request, ArmWorld, Armed, trying, registered, Trial, Specs, events_or_all, limit_of,
  await_identity,
}
use picket_mcp.Watches.Control.{Tables, Effect, write_state}

module _ {N : Type 0} (num : Numbers N) (world : ArmWorld N) where
  abbrev base : World N
  base = world.probes.base

  -- `parse(Spec, raw) if raw else None`
  abbrev parse_optional : {A : Type 0} → (Json N → Option A) → Option (Json N) → Tried (Option A)
  parse_optional spec none = passed none
  parse_optional spec (some raw) =
      if base.truth raw
      then (or_refused invalid_spec (world.spec_error raw) (spec raw) >>= λ parsed.
          passed (some parsed))
      else passed none

  abbrev pub then_valid : {A B : Type 0} → Option A → (A → Option B) → Option B
  then_valid none validate = none
  then_valid (some a) validate = validate a

  unfoldable pub parse_specs : Request N → Tried (Specs N)
  unfolding validate_cadence validate_endpoint validate_predicate
  parse_specs request =
      or_refused invalid_spec (world.spec_error request.cadence)
        (then_valid (world.cadence_of request.cadence) (validate_cadence world.decimal world.zone))
      >>= λ cadence.
          parse_optional (λ raw. then_valid (world.endpoint_of raw) validate_endpoint)
            request.endpoint
          >>= λ endpoint.
              parse_optional (λ raw. then_valid (world.predicate_of raw) validate_predicate)
                request.predicate
              >>= λ predicate.
                  passed (record { cadence = cadence; endpoint = endpoint; predicate = predicate })

  -- The checks before anything is read or run.
  unfoldable pub check_request : Request N → Specs N → Tried (Specs N)
  check_request request specs =
      refuse_if
        (same_truth (truthy_text request.probe_id) (has_endpoint specs.endpoint specs.predicate))
        invalid_spec (codes "provide exactly one of (endpoint+predicate) or probe_id")
        (refuse_if (request.skip_permissions && not request.confirm_skip) permission_required
          (codes "skip_permissions=true requires confirm_skip=true") (passed specs))

  abbrev found_probe : Text → Observed (Option Probe) → Tried Probe
  found_probe probe_id (ok found) =
      or_refused probe_not_found
        (codes "probe " ++ base.repr probe_id ++ codes " is not registered") found
  found_probe probe_id _ = raised

  unfoldable pub try_probe : Text → Json N → Tried (Trial N)
  unfolding read_probe run_probe
  try_probe probe_id params = found_probe probe_id (read_probe world.probes probe_id) >>= λ probe.
      trying probe_failed
        (run_probe world.probes probe (params_or_empty world.probes params) null none)
      >>= λ result. passed (record {
        probe_rev = some probe.content_hash;
        trial_value = result.value;
        baseline = null;
      })

  unfoldable pub try_endpoint : EndpointSpec N → PredicateSpec N → Tried (Trial N)
  unfolding extract initial_baseline
  try_endpoint endpoint predicate = trying endpoint_unreachable (world.fetch endpoint) >>= λ doc.
      trying endpoint_unreachable (extract world.find doc predicate.path) >>= λ value.
      trying endpoint_unreachable (initial_baseline num world.find predicate value doc)
      >>= λ baseline. passed (record { probe_rev = none; trial_value = value; baseline = baseline })

  abbrev try_specs : Option (EndpointSpec N) → Option (PredicateSpec N) → Tried (Trial N)
  try_specs (some endpoint) (some predicate) = try_endpoint endpoint predicate
  try_specs _ _ = raised

  -- The trial observation: `use_probe` is the truth of the probe's id.
  unfoldable pub try_source : Request N → Option Text → Specs N → Tried (Trial N)
  unfolding try_probe try_endpoint
  try_source request (some (c ∷ s)) specs = try_probe (c ∷ s) request.probe_params
  try_source request _ specs = try_specs specs.endpoint specs.predicate

  -- The keyword arguments of `WatchState`; those that are left out have their defaults.
  unfoldable pub raw_watch : ℕ → Text → Request N → Specs N → Runbook → Trial N → RawWatch N
  raw_watch now watch_id request specs runbook trial = record {
    state = record {
      watch_id = watch_id;
      runbook_id = request.runbook_id;
      runbook_rev = some runbook.content_hash;
      endpoint = specs.endpoint;
      predicate = specs.predicate;
      probe_id = request.probe_id;
      probe_rev = trial.probe_rev;
      probe_params = params_or_empty world.probes request.probe_params;
      cadence = specs.cadence;
      label = request.label;
      status = WatchStatus.active;
      desired_status = DesiredStatus.active;
      max_fires = some 1;
      ttl_seconds = none;
      debounce_seconds = 0;
      cooldown_seconds = 0;
      handler_timeout_seconds = 600;
      max_retries = 0;
      drift_policy = DriftPolicy.block;
      notify_runbook = request.notify_runbook;
      delivery_events = [];
      skip_permissions = request.skip_permissions;
      created_at = some now;
      baseline = trial.baseline;
      last_value = null;
      last_observed_at = none;
      last_error = none;
      satisfied = false;
      satisfied_since = none;
      fired_this_episode = false;
      episode_seq = 0;
      heartbeat_at = none;
      fire_count = 0;
      last_fire_at = none;
      pid = none;
      pgid = none;
      proc_create_time = none;
    };
    max_fires = limit_of request.max_fires request.recurring;
    ttl_seconds = request.ttl_seconds;
    debounce_seconds = request.debounce_seconds;
    cooldown_seconds = request.cooldown_seconds;
    max_retries = request.max_retries;
    drift_policy = request.drift_policy;
    delivery_events = events_or_all request.delivery_events;
  }

  abbrev pub validated : RawWatch N → Tried (WatchState N)
  validated raw = or_refused invalid_spec (world.watch_error raw) (validate_watch raw)

  -- All that comes before the row is written.
  unfoldable pub prepare : ℕ → Text → Request N → Tried (WatchState N × Trial N)
  unfolding parse_specs check_request read_runbook try_source raw_watch validate_watch
  prepare now watch_id request = parse_specs request >>= λ specs.
      check_request request specs >>= λ _.
      registered runbook_not_found
        (codes "runbook " ++ base.repr request.runbook_id ++ codes " is not registered")
        (read_runbook base request.runbook_id)
      >>= λ runbook. try_source request request.probe_id specs >>= λ trial.
          validated (raw_watch now watch_id request specs runbook trial) >>= λ state.
          passed (state, trial)

  abbrev pub armed : WatchState N → Trial N → WatchState N → Option ℕ → Reply (Armed N)
  armed state trial live none =
      failure daemon_spawn_failed (codes "daemon did not report its identity")
  armed state trial live (some pid) = success (record {
    watch_id = state.watch_id;
    status = live.status;
    pid = some pid;
    pgid = live.pgid;
    baseline = trial.baseline;
    trial_value = trial.trial_value;
    max_fires = state.max_fires;
  })

  abbrev pub identified : WatchState N → Trial N → Option (WatchState N) → Reply (Armed N)
  identified state trial none =
      failure daemon_spawn_failed (codes "daemon did not report its identity")
  identified state trial (some live) = armed state trial live live.pid

  abbrev pub spawned : WatchState N → Trial N → Option Text → Reply (Armed N)
  spawned state trial (some err) = failure daemon_spawn_failed err
  spawned state trial none =
      identified state trial (await_identity world.readings world.last_reading)

  -- The row is written before the daemon is spawned.
  unfoldable pub launch : ℕ → Tables N → Tried (WatchState N × Trial N) → Effect N (Armed N)
  unfolding await_identity
  launch now tables (passed (state, trial)) = record {
    reply = some (spawned state trial (world.spawn state.watch_id));
    tables = write_state now state tables;
    signals = [];
  }
  launch now tables (refused code message) = record {
    reply = some (failure code message);
    tables = tables;
    signals = [];
  }
  launch now tables raised = record { reply = none; tables = tables; signals = [] }

  unfoldable pub arm_watch : (ℕ → ℕ) → Text → Request N → Tables N → Effect N (Armed N)
  unfolding prepare launch
  arm_watch clock watch_id request tables =
      launch (clock 1) tables (prepare (clock 0) watch_id request)
