-- ===== src/Handler/Attempts.antt =====
-- src/picket/execution/handler.py: the loop over the attempts of `run_fire` and the status of one.
use picket_mcp.Prelude.{
  ℕ, zero, suc, ◌*◌, ℤ, pos, Text, Bool, true, false, not, ◌&&◌, codes, Option, none, some, List,
  [], ◌∷◌, ltb, if◌then◌else◌,
}
use picket_mcp.Core.Json.{Json, object, get_field}
use picket_mcp.Store.Fire.{FireStatus, completed, failed, timed_out}
use picket_mcp.Handler.Types.{
  RunbookType, prompt, exec, Runbook, HandlerResult, Launch, ran, os_error, World,
}

abbrev pub is_completed : FireStatus → Bool
is_completed completed = true
is_completed _ = false

abbrev is_prompt : RunbookType → Bool
is_prompt prompt = true
is_prompt exec = false

-- returncode == 0
abbrev is_zero : Option ℤ → Bool
is_zero (some (pos zero)) = true
is_zero _ = false

-- 2.0 ** attempt
unfoldable pub power : ℕ → ℕ
power zero = 1
power (suc n) = 2 * power n

-- How the loop ends: an OSError, or the last status and the last result.
pub data Outcome : Type 0 where
  aborted : Text → Outcome
  ended : FireStatus → Option HandlerResult → Outcome

-- The number of launches, the seconds slept between them, and the pids that on_start was given.
pub record Attempts : Type 0 where
  pub outcome : Outcome
  pub launches : ℕ
  pub sleeps : List ℕ
  pub pids : List ℕ

abbrev with_pid : Option ℕ → List ℕ → List ℕ
with_pid none pids = pids
with_pid (some pid) pids = pid ∷ pids

abbrev with_sleep : Bool → ℕ → List ℕ → List ℕ
with_sleep true attempt sleeps = power attempt ∷ sleeps
with_sleep false attempt sleeps = sleeps

module _ {N : Type 0} where
  abbrev says_error : World N → Option (Json N) → Bool
  says_error world none = false
  says_error world (some value) = world.truth value

  -- What is not JSON, or no object, is no error.
  abbrev error_of : World N → Option (Json N) → Bool
  error_of world (some (object fs)) = says_error world (get_field (codes "is_error") fs)
  error_of world _ = false

  unfoldable pub result_is_error : World N → Text → Bool
  unfolding get_field
  result_is_error world stdout = error_of world (world.loads stdout)

  unfoldable pub attempt_status : World N → Runbook → HandlerResult → FireStatus
  attempt_status world rb res =
      if res.timed_out
      then timed_out
      else if is_zero res.returncode && not (is_prompt rb.type && result_is_error world res.stdout)
      then completed
      else failed

  -- The attempt's end, and the rest of the loop if it goes on.
  unfoldable pub after_launch :
      World N → Runbook → ℕ → ℕ → Launch → (FireStatus → HandlerResult → Attempts) → Attempts
  unfolding power
  after_launch world rb attempt left (os_error message) rest = record {
    outcome = aborted message;
    launches = 1;
    sleeps = [];
    pids = [];
  }
  after_launch world rb attempt left (ran res) rest =
      let status = attempt_status world rb res in
      let later = rest status res in
      if is_completed status
      then record {
        outcome = ended status (some res);
        launches = 1;
        sleeps = [];
        pids = with_pid res.pid [];
      }
      else record {
        outcome = later.outcome;
        launches = suc later.launches;
        sleeps = with_sleep (ltb 0 left) attempt later.sleeps;
        pids = with_pid res.pid later.pids;
      }

  -- The loop from an attempt on with the number that is left, the last status and the last result.
  unfoldable pub run_attempts :
      World N → Runbook → (ℕ → Launch) → ℕ → ℕ → FireStatus → Option HandlerResult → Attempts
  unfolding after_launch
  run_attempts world rb launch attempt zero status res = record {
    outcome = ended status res;
    launches = 0;
    sleeps = [];
    pids = [];
  }
  run_attempts world rb launch attempt (suc left) status res =
      after_launch world rb attempt left (launch attempt)
        (λ status res. run_attempts world rb launch (suc attempt) left status (some res))

  -- Whether the loop stops at an attempt, and how.
  abbrev pub stops : World N → Runbook → Launch → Bool
  stops world rb (os_error message) = true
  stops world rb (ran res) = is_completed (attempt_status world rb res)

  abbrev pub outcome_of : World N → Runbook → Launch → Outcome
  outcome_of world rb (os_error message) = aborted message
  outcome_of world rb (ran res) = ended (attempt_status world rb res) (some res)
