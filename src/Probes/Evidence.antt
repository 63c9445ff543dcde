-- ===== src/Probes/Evidence.antt =====
-- src/picket/conditions/probes.py: what a successful observation of a probe rests on.
use picket_mcp.Prelude.{
  zero, suc, pos, negsuc, Text, ◌≡◌, refl, Bool, true, false, Option, none, some, arith,
}
use picket_mcp.Core.Models.{WatchState}
use picket_mcp.Condition.Extract.{ok, >>=-eq-ok}
use picket_mcp.Store.Ids.{probe_dir}
use picket_mcp.Probes.Types.{
  Probe, ProbeResult, Process, exited, timed_out, os_error, undecodable, ProbeWorld,
}
use picket_mcp.Probes.Verdict.{parse_verdict}
use picket_mcp.Probes.Run.{
  or_crash, read_probe, is_blocked, probe_command, probe_env, after_process, run_probe,
  observe_found, run_unless, observe,
}

or_crash-eq-ok {ℓ} : {A : Type ℓ} (o : Option A) {a : A} → or_crash o ≡ ok a → o ≡ some a
or_crash-eq-ok none h = cc
or_crash-eq-ok (some b) h = cc

module _ {N : Type 0} (world : ProbeWorld N) where
  -- A process that ended with the code 0 and the verdict of its output.
  abbrev pub Reports : Process → ProbeResult N → Type 0
  Reports process res =
      (stdout : Text) × (stderr : Text) × (process ≡ exited (pos 0) stdout stderr)
      × (parse_verdict world stdout ≡ ok res)

  after_process-Reports :
      (p : Process) (res : ProbeResult N) → after_process world p ≡ ok res → Reports p res
  unfolding after_process
  after_process-Reports (exited (pos zero) out err) res h = (out, err, refl, h)
  after_process-Reports (exited (pos (suc n)) out err) res h = cc
  after_process-Reports (exited (negsuc n) out err) res h = cc
  after_process-Reports timed_out res h = cc
  after_process-Reports (os_error e) res h = cc
  after_process-Reports undecodable res h = cc

  -- The probe was registered, had not drifted where the policy blocks a drift, and was run from its
  -- directory with the watch's parameters, the last value and the watch's id; its process ended with
  -- the code 0, and the result is the verdict of what it printed.
  pub record IsObserved (state : WatchState N) (probe_id : Text) (res : ProbeResult N)
      : Type 0 where
    pub probe : Probe
    pub dir : Text
    pub registered : read_probe world probe_id ≡ ok (some probe)
    pub unblocked : is_blocked world state.drift_policy probe state.probe_rev ≡ ok false
    pub placed : probe_dir world.base.home probe.id ≡ some dir
    pub reports :
        Reports
          (world.execute
            (probe_command world probe dir)
            (probe_env world state.probe_params state.last_value (some state.watch_id)))
          res

  observe_found-IsObserved :
      (state : WatchState N) (probe_id : Text) (found : Option Probe) (res : ProbeResult N)
      → read_probe world probe_id ≡ ok found
      → observe_found world state probe_id found ≡ ok res
      → IsObserved state probe_id res
  unfolding observe_found run_probe
  observe_found-IsObserved state probe_id none res e h = absurd (ground arith)
  observe_found-IsObserved state probe_id (some probe) res e h =
      from_drift (>>=-eq-ok (is_blocked world state.drift_policy probe state.probe_rev) _ h)
    where
      from_drift :
          (b : Bool) × (is_blocked world state.drift_policy probe state.probe_rev ≡ ok b)
            × (run_unless world state probe b ≡ ok res)
          → IsObserved state probe_id res
      from_drift (true, drift, k) = absurd (ground (arith, k))
      from_drift (false, drift, k) =
          let run = >>=-eq-ok (or_crash (probe_dir world.base.home probe.id)) _ k in
          record {
            probe = probe;
            dir = run.0;
            registered = e;
            unblocked = drift;
            placed = or_crash-eq-ok (probe_dir world.base.home probe.id) run.1;
            reports = after_process-Reports _ res run.2;
          }

  -- If the observation of a probe gives a result, the probe was registered and had not drifted where
  -- the policy blocks a drift, its process ran from its directory and ended with the code 0, and the
  -- result is the verdict of what it printed.
  pub observe-IsObserved :
      (state : WatchState N) (probe_id : Text) (res : ProbeResult N)
      → observe world state probe_id ≡ ok res
      → IsObserved state probe_id res
  unfolding observe
  observe-IsObserved state probe_id res h =
      let read = >>=-eq-ok (read_probe world probe_id) _ h in
      observe_found-IsObserved state probe_id read.0 res read.1 read.2
