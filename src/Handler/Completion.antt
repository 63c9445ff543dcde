-- ===== src/Handler/Completion.antt =====
-- src/picket/execution/handler.py: what a completed fire says of its execution.
use picket_mcp.Prelude.{
  ℕ, suc, ◌-◌, ◌≤◌, ◌+◌, Text, codes, ◌≡◌, refl, sym, ap, ◌∙◌, inl, inr, Bool, true, false, Option,
  none, some, List, [], ◌∷◌, ◌++◌, Bool-cases, exists_where, arith,
}
use picket_mcp.Core.Json.{Json}
use picket_mcp.Core.Models.{WatchState}
use picket_mcp.Store.Fire.{FireStatus, failed}
use picket_mcp.Store.Ledger.{Finish}
use picket_mcp.Store.Trace.{Transaction, finish}
use picket_mcp.Handler.Types.{Runbook, HandlerResult, Launch, ran, os_error, World}
use picket_mcp.Handler.Runbooks.{read_runbook}
use picket_mcp.Handler.Attempts.{
  Outcome, aborted, ended, is_completed, attempt_status, run_attempts, outcome_of,
}
use picket_mcp.Handler.Retries.{run_attempts-IsRetry}
use picket_mcp.Handler.Deliver.{Execution, only_error, text_or, deliver_fire, finalize}
use picket_mcp.Handler.Run.{
  finish_args, raises, blocks, dead_letter, conclude, after_attempts, started, execute_with,
  has_drifted, prepared, run_checked, run_found, run_fire,
}

abbrev completes : Outcome → Bool
completes (aborted message) = false
completes (ended st res) = is_completed st

dead_letter-completed :
    (n : ℕ) (st : FireStatus) → is_completed (dead_letter n st) ≡ is_completed st
dead_letter-completed n st = ground arith

module _ {N : Type 0} where
  -- The fire is finished with the status completed.
  abbrev pub is_completion : Transaction (Json N) → Bool
  is_completion (finish _ _ st _) = is_completed st
  is_completion _ = false

  abbrev pub records_completion : Execution N → Bool
  records_completion e = exists_where is_completion e.writes

  deliver_fire-completion :
      (world : World N) (state : WatchState N) (x : Text) (st : FireStatus) (summary : Text)
      → records_completion (deliver_fire world state x st summary) ≡ false
  unfolding deliver_fire
  deliver_fire-completion world state x st summary = ground arith

  pub finalize-completion :
      (world : World N) (state : WatchState N) (x : Text) (st : FireStatus) (args : Finish)
      → records_completion (finalize world state x st args) ≡ is_completed st
  unfolding finalize
  finalize-completion world state x st args =
      ground (arith, deliver_fire-completion world state x st (text_or args.error (codes "ok")))

  started-completion :
      (x : Text) (pids : List ℕ) (ts : List (Transaction (Json N)))
      → exists_where is_completion (started x pids ++ ts) ≡ exists_where is_completion ts
  unfolding started
  started-completion x [] ts = refl
  started-completion x (pid ∷ pids) ts = started-completion x pids ts

  conclude-completion :
      (world : World N) (state : WatchState N) (value : Json N) (x : Text) (timeout : ℕ)
      (st : FireStatus) (res : Option HandlerResult) (path : Option Text)
      → records_completion (conclude world state value x timeout st res path) ≡ true
      → is_completed st ≡ true
  unfolding conclude
  conclude-completion world state value x timeout st res none h = absurd (ground arith)
  conclude-completion world state value x timeout st res (some path) h =
      sym (finalize-completion world state x st (finish_args world st res timeout path)) ∙ h

  after_attempts-completion :
      (world : World N) (state : WatchState N) (value : Json N) (x : Text) (timeout : ℕ)
      (o : Outcome)
      → records_completion (after_attempts world state value x timeout o) ≡ true
      → completes o ≡ true
  unfolding after_attempts
  after_attempts-completion world state value x timeout (aborted message) h =
      sym (finalize-completion world state x failed (only_error message)) ∙ h
  after_attempts-completion world state value x timeout (ended st res) h =
      sym (dead_letter-completed state.max_retries st)
      ∙ conclude-completion world state value x timeout (dead_letter state.max_retries st) res _ h

  -- A process that ended and whose attempt has the status completed.
  abbrev pub succeeds : World N → Runbook → Launch → Bool
  succeeds world rb (ran res) = is_completed (attempt_status world rb res)
  succeeds world rb (os_error message) = false

  outcome_of-completes :
      (world : World N) (rb : Runbook) (l : Launch)
      → completes (outcome_of world rb l) ≡ succeeds world rb l
  outcome_of-completes world rb (ran res) = refl
  outcome_of-completes world rb (os_error message) = refl

  -- The runbook was found and had not drifted where the policy blocks a drift, the invocation was
  -- prepared, and one of the allowed attempts succeeded.
  pub record IsEarned (world : World N) (state : WatchState N) (value : Json N) (x : Text)
      (timeout : ℕ) (extra : Option (Json N)) : Type 0 where
    pub rb : Runbook
    pub drifted : Bool
    pub cmd : List Text
    pub env : List (Text × Text)
    pub attempt : ℕ
    pub found : read_runbook world state.runbook_id ≡ some (some rb)
    pub drift : has_drifted world rb state.runbook_rev ≡ some drifted
    pub passes : blocks state.drift_policy drifted ≡ false
    pub command : prepared world state value x extra rb ≡ some (cmd, env)
    pub allowed : attempt ≤ state.max_retries
    pub succeeded : succeeds world rb (world.launch attempt cmd timeout env) ≡ true

  execute_with-completion :
      (world : World N) (state : WatchState N) (value : Json N) (x : Text) (timeout : ℕ)
      (rb : Runbook) (cmd : List Text) (env : List (Text × Text))
      → records_completion (execute_with world state value x timeout rb (some (cmd, env))) ≡ true
      → (k : ℕ) × (k ≤ state.max_retries)
        × (succeeds world rb (world.launch k cmd timeout env) ≡ true)
  unfolding execute_with
  execute_with-completion world state value x timeout rb cmd env h =
      let launch : ℕ → Launch = λ k. world.launch k cmd timeout env in
      let attempts = run_attempts world rb launch 0 (suc state.max_retries) failed none in
      let retry = run_attempts-IsRetry world rb launch 0 state.max_retries failed none in
      let bounded = retry.bounded in
      let reached =
        after_attempts-completion world state value x timeout attempts.outcome
          (sym (started-completion x attempts.pids _) ∙ h) in
      let k = 0 + (attempts.launches - 1) in
      (
        k,
        omega arith,
        sym (outcome_of-completes world rb (launch k)) ∙ sym (ap completes retry.outcome) ∙ reached,
      )

  module _ (world : World N) (state : WatchState N) (value : Json N) (x : Text) (timeout : ℕ)
      (extra : Option (Json N)) where
    from_prepared :
        (rb : Runbook) (drifted : Bool) (p : Option (List Text × List (Text × Text)))
        → read_runbook world state.runbook_id ≡ some (some rb)
        → has_drifted world rb state.runbook_rev ≡ some drifted
        → blocks state.drift_policy drifted ≡ false
        → prepared world state value x extra rb ≡ p
        → records_completion (execute_with world state value x timeout rb p) ≡ true
        → IsEarned world state value x timeout extra
    unfolding execute_with raises
    from_prepared rb drifted none found drift passes e h = absurd (ground (arith, h))
    from_prepared rb drifted (some (cmd, env)) found drift passes e h =
        let one = execute_with-completion world state value x timeout rb cmd env h in
        record {
          rb = rb;
          drifted = drifted;
          cmd = cmd;
          env = env;
          attempt = one.0;
          found = found;
          drift = drift;
          passes = passes;
          command = e;
          allowed = one.1;
          succeeded = one.2;
        }

    from_drift :
        (rb : Runbook) (d : Option Bool)
        → read_runbook world state.runbook_id ≡ some (some rb)
        → has_drifted world rb state.runbook_rev ≡ d
        → records_completion (run_checked world state value x timeout extra rb d) ≡ true
        → IsEarned world state value x timeout extra
    unfolding run_checked raises
    from_drift rb none found drift h = absurd (ground (arith, h))
    from_drift rb (some drifted) found drift h =
        elim (Bool-cases (blocks state.drift_policy drifted)) [
          | inl stop ↦
              let message = only_error (codes "RUNBOOK_DRIFT: entry changed since arm") in
              absurd (
                ground
                  (arith, sym (finalize-completion world state x failed message) ∙ rw stop at h))
          | inr go ↦ from_prepared rb drifted _ found drift go refl (rw go at h)
        ]

    from_found :
        (f : Option (Option Runbook))
        → read_runbook world state.runbook_id ≡ f
        → records_completion (run_found world state value x timeout extra f) ≡ true
        → IsEarned world state value x timeout extra
    unfolding run_found raises
    from_found none found h = absurd (ground (arith, h))
    from_found (some none) found h =
        let message =
          only_error (codes "runbook " ++ world.repr state.runbook_id ++ codes " not found") in
        absurd (ground (arith, sym (finalize-completion world state x failed message) ∙ h))
    from_found (some (some rb)) found h = from_drift rb _ found refl h

    -- If an execution finishes its fire as completed, the watch's runbook was found, its content had
    -- not drifted from the pinned hash or the policy lets a drifted runbook run, the command was
    -- prepared, and one of the 1 + max_retries allowed launches of that command ended with the status
    -- completed.
    pub run_fire-IsEarned :
        records_completion (run_fire world state value x timeout extra) ≡ true
        → IsEarned world state value x timeout extra
    unfolding run_fire
    run_fire-IsEarned h = from_found _ refl h
