-- ===== src/Probes/Run.antt =====
-- src/picket/conditions/probes.py: `read_probe`, `has_drifted`, `run_probe`, `observe` and
-- `run_test_probe`. The temporary file of the parameters is written without an error.
use picket_mcp.Prelude.{
  zero, suc, ℤ, pos, negsuc, Text, codes, text_eq, Bool, true, false, not, Option, none, some, List,
  [], ◌∷◌, ◌++◌, if◌then◌else◌, take,
}
use picket_mcp.Core.Json.{Json, null, object, end}
use picket_mcp.Core.Models.{WatchState, DriftPolicy}
use picket_mcp.Condition.Extract.{Observed, ok, observe_error, crash, ◌>>=◌}
use picket_mcp.Store.Ids.{probe_dir}
use picket_mcp.Daemon.Decimal.{decimal}
use picket_mcp.Daemon.Poll.{Observation}
use picket_mcp.Handler.Runbooks.{join_path, content_hash}
use picket_mcp.Handler.Deliver.{text_or}
use picket_mcp.Probes.Types.{
  Language, python, sh, Probe, ProbeResult, Process, exited, timed_out, os_error, undecodable,
  ProbeWorld,
}
use picket_mcp.Probes.Verdict.{parse_verdict}

-- An exception that is no ProbeError is none of the handled ones.
abbrev pub or_crash {ℓ} : {A : Type ℓ} → Option A → Observed A
or_crash none = crash
or_crash (some a) = ok a

abbrev integer : ℤ → Text
integer (pos n) = decimal n
integer (negsuc n) = b'-' ∷ decimal (suc n)

abbrev exit_error : ℤ → Text → Text
exit_error code tail = codes "probe exited " ++ integer code ++ codes ": " ++ take 300 tail

abbrev text_or_empty : Option Text → Text
text_or_empty none = []
text_or_empty (some s) = s

-- `_PROBE_TIMEOUT`, which no caller changes, as `{timeout:g}` prints it.
abbrev probe_timeout : Text
probe_timeout = codes "30"

module _ {N : Type 0} (world : ProbeWorld N) where
  unfoldable pub read_probe : Text → Observed (Option Probe)
  unfolding probe_dir
  read_probe probe_id = or_crash (probe_dir world.base.home probe_id) >>= λ dir.
      or_crash (world.toml (join_path dir (codes "probe.toml")))

  abbrev drifted_from : Probe → Text → Observed Bool
  drifted_from probe [] = ok false
  drifted_from probe (c ∷ s) = or_crash (probe_dir world.base.home probe.id) >>= λ dir.
      or_crash (content_hash world.base dir probe.entry) >>= λ current.
      ok (not (text_eq current (c ∷ s)))

  -- The hash that the watch pinned, or else that of the registration.
  unfoldable pub has_drifted : Probe → Option Text → Observed Bool
  unfolding probe_dir content_hash text_eq
  has_drifted probe expected = drifted_from probe (text_or expected probe.content_hash)

  abbrev interpreter : Language → Text
  interpreter python = world.executable
  interpreter sh = codes "/bin/sh"

  -- `params or {}`
  abbrev pub params_or_empty : Json N → Json N
  params_or_empty params = if world.base.truth params then params else object end

  -- What is added to the environment.
  abbrev pub probe_env : Json N → Json N → Option Text → List (Text × Text)
  probe_env params last_value watch_id =
      (codes "PICKET_PARAMS", world.base.dumps (params_or_empty params))
      ∷ (codes "PICKET_PARAMS_FILE", join_path world.base.temp (codes "params.json"))
      ∷ (codes "PICKET_LAST_VALUE", world.base.dumps last_value)
      ∷ (codes "PICKET_WATCH_ID", text_or_empty watch_id)
      ∷ []

  -- What the end of the process gives.
  unfoldable pub after_process : Process → Observed (ProbeResult N)
  unfolding parse_verdict decimal
  after_process (exited (pos zero) stdout stderr) = parse_verdict world stdout
  after_process (exited code stdout stderr) =
      observe_error (exit_error code (world.base.strip stderr))
  after_process timed_out =
      observe_error (codes "probe exceeded " ++ probe_timeout ++ codes "s timeout")
  after_process (os_error err) = observe_error (codes "probe failed to launch: " ++ err)
  after_process undecodable = crash

  abbrev pub probe_command : Probe → Text → List Text
  probe_command probe dir = interpreter probe.language ∷ join_path dir probe.entry ∷ []

  unfoldable pub run_probe : Probe → Json N → Json N → Option Text → Observed (ProbeResult N)
  unfolding probe_dir after_process
  run_probe probe params last_value watch_id =
      or_crash (probe_dir world.base.home probe.id) >>= λ dir.
      after_process (world.execute (probe_command probe dir) (probe_env params last_value watch_id))

  -- state.drift_policy == "block" and has_drifted(probe, state.probe_rev)
  unfoldable pub is_blocked : DriftPolicy → Probe → Option Text → Observed Bool
  unfolding has_drifted
  is_blocked DriftPolicy.block probe rev = has_drifted probe rev
  is_blocked DriftPolicy.run probe rev = ok false

  abbrev pub run_unless : WatchState N → Probe → Bool → Observed (ProbeResult N)
  run_unless state probe true = observe_error (codes "PROBE_DRIFT: probe entry changed since arm")
  run_unless state probe false =
      run_probe probe state.probe_params state.last_value (some state.watch_id)

  unfoldable pub observe_found : WatchState N → Text → Option Probe → Observed (ProbeResult N)
  unfolding is_blocked run_probe
  observe_found state probe_id none =
      observe_error (codes "probe " ++ world.base.repr probe_id ++ codes " is not registered")
  observe_found state probe_id (some probe) =
      is_blocked state.drift_policy probe state.probe_rev >>= λ blocked.
      run_unless state probe blocked

  -- The id is that of the state, which has one where the daemon calls.
  unfoldable pub observe : WatchState N → Text → Observed (ProbeResult N)
  unfolding read_probe observe_found
  observe state probe_id = read_probe probe_id >>= λ found. observe_found state probe_id found

  -- `res.value, res.fire, res.payload` of the daemon's poll.
  abbrev seen_of : ProbeResult N → Observation N
  seen_of res = record {
    value = res.value;
    satisfied = res.fire;
    payload = some (object res.payload);
  }

  abbrev observe_maybe : WatchState N → Option Text → Observed (ProbeResult N)
  observe_maybe state none = crash
  observe_maybe state (some probe_id) = observe state probe_id

  -- What a poll takes as its source for a watch with a probe.
  unfoldable pub probe_source : WatchState N → Observed (Observation N)
  unfolding observe
  probe_source state = observe_maybe state state.probe_id >>= λ res. ok (seen_of res)

-- The dict of `run_test_probe`; `payload` is null after a ProbeError.
pub record TestProbe (N : Type 0) : Type 0 where
  pub would_fire : Bool
  pub value : Json N
  pub payload : Json N
  pub error : Option Text

module _ {N : Type 0} (world : ProbeWorld N) where
  abbrev reported : Observed (ProbeResult N) → Option (TestProbe N)
  reported (ok res) = some (record {
    would_fire = res.fire;
    value = res.value;
    payload = object res.payload;
    error = none;
  })
  reported (observe_error e) =
      some (record { would_fire = false; value = null; payload = null; error = some e })
  reported crash = none

  -- none where an exception leaves it.
  unfoldable pub run_test_probe : Probe → Json N → Option (TestProbe N)
  unfolding run_probe
  run_test_probe probe params = reported (run_probe world probe params null none)
