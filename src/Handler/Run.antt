-- ===== src/Handler/Run.antt =====
-- src/picket/execution/handler.py: `run_fire`, `_has_drifted`, `_write_result`. The store's
-- operations and the write of the result file succeed.
use picket_mcp.Prelude.{
  ℕ, suc, ◌-◌, Text, text_eq, codes, ℤ, Bool, true, false, not, Option, none, some, List, [], ◌∷◌,
  ◌++◌, ltb, if◌then◌else◌, length, take, drop,
}
use picket_mcp.Core.Json.{Json, object, Fields}
use picket_mcp.Core.Models.{WatchState, DriftPolicy, block, run}
use picket_mcp.Store.Fire.{FireStatus, completed, failed, timed_out, dead_lettered}
use picket_mcp.Store.Ledger.{Finish}
use picket_mcp.Store.Trace.{Transaction, set_pid}
use picket_mcp.Store.Ids.{runbook_dir, result_path}
use picket_mcp.Handler.Types.{Runbook, HandlerResult, World, ◌>>=◌}
use picket_mcp.Handler.Runbooks.{read_runbook, content_hash, prepare_invocation, handler_command}
use picket_mcp.Handler.Payload.{build_payload}
use picket_mcp.Handler.Attempts.{Outcome, aborted, ended, Attempts, run_attempts}
use picket_mcp.Handler.Deliver.{Execution, or_text, text_or, only_error, finalize}

-- `s[-n:]`
abbrev last_of : ℕ → Text → Text
last_of n s = drop (length s - n) s

abbrev without_error : FireStatus → Text → Option Text
without_error completed message = none
without_error _ message = some message

abbrev pub dead_letter : ℕ → FireStatus → FireStatus
dead_letter max_retries completed = completed
dead_letter max_retries status = if ltb 0 max_retries then dead_lettered else status

abbrev returncode_of : Option HandlerResult → Option ℤ
returncode_of none = none
returncode_of (some res) = res.returncode

abbrev stdout_of : Option HandlerResult → Text
stdout_of none = []
stdout_of (some res) = take 256000 res.stdout

abbrev stderr_of : Option HandlerResult → Text
stderr_of none = []
stderr_of (some res) = take 256000 res.stderr

abbrev pid_of : Option HandlerResult → Option ℕ
pid_of none = none
pid_of (some res) = res.pid

abbrev pub blocks : DriftPolicy → Bool → Bool
blocks block drifted = drifted
blocks run drifted = false

module _ {N : Type 0} where
  unfoldable pub has_drifted : World N → Runbook → Option Text → Option Bool
  unfolding runbook_dir content_hash
  has_drifted world rb expected =
      let pinned = text_or expected rb.content_hash in
      elim pinned [
        | [] ↦ some false
        | c ∷ s ↦ runbook_dir world.home rb.id >>= λ dir.
            content_hash world dir rb.entry >>= λ current. some (not (text_eq current (c ∷ s)))
      ]

  unfoldable pub error_text : World N → FireStatus → Option HandlerResult → ℕ → Text
  error_text world timed_out res timeout =
      codes "handler exceeded " ++ world.seconds timeout ++ codes "s timeout"
  error_text world _ none timeout = codes "handler error"
  error_text world _ (some res) timeout = take 500 (world.strip (or_text res.stderr res.stdout))

  abbrev tail_of : World N → Option HandlerResult → Option Text
  tail_of world none = none
  tail_of world (some res) = some (last_of 2000 (world.strip (or_text res.stdout res.stderr)))

  unfoldable pub finish_args : World N → FireStatus → Option HandlerResult → ℕ → Text → Finish
  unfolding error_text
  finish_args world status res timeout path = record {
    exit_code = returncode_of res;
    error = without_error status (error_text world status res timeout);
    handler_pid = pid_of res;
    duration_ms = none;
    transcript_tail = tail_of world res;
    result_path = some path;
  }

  -- The end of `run_fire` after the loop, with the path of the result file: none where it raises.
  unfoldable pub conclude :
      World N
      → WatchState N
      → Json N
      → Text
      → ℕ
      → FireStatus
      → Option HandlerResult
      → Option Text
      → Execution N
  unfolding finalize finish_args
  conclude world state value fire_id timeout status res none = record {
    writes = [];
    artifact = none;
    launches = 0;
    raised = true;
  }
  conclude world state value fire_id timeout status res (some path) =
      let finished =
        finalize world state fire_id status (finish_args world status res timeout path) in
      record finished {
        artifact = some (record {
          fire_id = fire_id;
          watch_id = state.watch_id;
          runbook_id = state.runbook_id;
          status = status;
          value = value;
          started_at = world.clock 0;
          ended_at = world.clock 5;
          returncode = returncode_of res;
          stdout = stdout_of res;
          stderr = stderr_of res;
        });
      }

  unfoldable pub after_attempts : World N → WatchState N → Json N → Text → ℕ → Outcome → Execution N
  unfolding finalize conclude result_path
  after_attempts world state value fire_id timeout (aborted message) =
      finalize world state fire_id failed (only_error message)
  after_attempts world state value fire_id timeout (ended status res) =
      conclude world state value fire_id timeout (dead_letter state.max_retries status) res
        (result_path world.home fire_id)

  -- The calls of `on_start`, if the caller passed it.
  unfoldable pub started : Text → List ℕ → List (Transaction (Json N))
  started fire_id [] = []
  started fire_id (pid ∷ pids) = set_pid fire_id pid ∷ started fire_id pids

  abbrev pub with_attempts : Text → Attempts → Execution N → Execution N
  with_attempts fire_id attempts execution = record execution {
    writes = started fire_id attempts.pids ++ execution.writes;
    launches = attempts.launches;
  }

  -- `(extra or {}).items()` where the watch has a probe: what is true and no dict raises.
  abbrev items_of : World N → Option (Json N) → Option (Option (Fields N))
  items_of world none = some none
  items_of world (some (object fs)) = some (some fs)
  items_of world (some value) = if world.truth value then none else some none

  abbrev extra_of : World N → Option Text → Option (Json N) → Option (Option (Fields N))
  extra_of world (some (c ∷ s)) extra = items_of world extra
  extra_of world _ extra = some none

  -- The command and what is added to its environment; none where an exception is raised.
  unfoldable pub prepared :
      World N
      → WatchState N
      → Json N
      → Text
      → Option (Json N)
      → Runbook
      → Option (List Text × List (Text × Text))
  unfolding build_payload prepare_invocation handler_command
  prepared world state value fire_id extra rb = extra_of world state.probe_id extra >>= λ fields.
      build_payload world.model_dump state value (world.iso (world.clock 0)) (some fire_id) fields
      >>= λ payload. prepare_invocation world rb payload >>= λ inv.
          handler_command world rb inv 30 state.skip_permissions >>= λ cmd. some (cmd, inv.env)

  unfoldable pub raises : Execution N
  raises = record { writes = []; artifact = none; launches = 0; raised = true }

  -- The loop and what follows it; `max_retries` is no negative number.
  unfoldable pub execute_with :
      World N
      → WatchState N
      → Json N
      → Text
      → ℕ
      → Runbook
      → Option (List Text × List (Text × Text))
      → Execution N
  unfolding raises after_attempts started run_attempts
  execute_with world state value fire_id timeout rb none = raises
  execute_with world state value fire_id timeout rb (some (cmd, env)) =
      let attempts =
        run_attempts world rb (λ k. world.launch k cmd timeout env) 0 (suc state.max_retries) failed
          none in
      with_attempts fire_id attempts
        (after_attempts world state value fire_id timeout attempts.outcome)

  unfoldable pub run_checked :
      World N
      → WatchState N
      → Json N
      → Text
      → ℕ
      → Option (Json N)
      → Runbook
      → Option Bool
      → Execution N
  unfolding raises finalize execute_with prepared
  run_checked world state value fire_id timeout extra rb none = raises
  run_checked world state value fire_id timeout extra rb (some drifted) =
      if blocks state.drift_policy drifted
      then finalize world state fire_id failed
          (only_error (codes "RUNBOOK_DRIFT: entry changed since arm"))
      else execute_with world state value fire_id timeout rb
          (prepared world state value fire_id extra rb)

  unfoldable pub run_found :
      World N
      → WatchState N
      → Json N
      → Text
      → ℕ
      → Option (Json N)
      → Option (Option Runbook)
      → Execution N
  unfolding raises finalize has_drifted run_checked
  run_found world state value fire_id timeout extra none = raises
  run_found world state value fire_id timeout extra (some none) =
      finalize world state fire_id failed
        (only_error (codes "runbook " ++ world.repr state.runbook_id ++ codes " not found"))
  run_found world state value fire_id timeout extra (some (some rb)) =
      run_checked world state value fire_id timeout extra rb
        (has_drifted world rb state.runbook_rev)

  unfoldable pub run_fire :
      World N → WatchState N → Json N → Text → ℕ → Option (Json N) → Execution N
  unfolding read_runbook run_found
  run_fire world state value fire_id timeout extra =
      run_found world state value fire_id timeout extra (read_runbook world state.runbook_id)
