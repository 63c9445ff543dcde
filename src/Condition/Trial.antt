-- ===== src/Condition/Trial.antt =====
-- src/picket/conditions/condition.py: `run_test_predicate`, `_excerpt` and `_result`, and how the dry run
-- agrees with a poll of the daemon.
use picket_mcp.Prelude.{Text, Bool, false, Option, none, some, List, take}
use picket_mcp.Core.Json.{Json, null, Numbers}
use picket_mcp.Core.Models.{EndpointSpec, PredicateSpec}
use picket_mcp.Condition.Extract.{Observed, ok, observe_error, crash, extract}
use picket_mcp.Condition.Predicate.{is_satisfied, initial_baseline}
use picket_mcp.Condition.Fetch.{Http, fetch}

-- The dict of `_result`.
pub record TestPredicate (N : Type 0) : Type 0 where
  pub would_fire : Bool
  pub extracted_value : Json N
  pub baseline : Json N
  pub response_excerpt : Option Text
  pub extract_error : Option Text

module _ {N : Type 0} where
  abbrev pub failed : Text → Option Text → Json N → TestPredicate N
  failed err response_excerpt value = record {
    would_fire = false;
    extracted_value = value;
    baseline = null;
    response_excerpt = response_excerpt;
    extract_error = some err;
  }

  -- An ObserveError makes a result, and another exception leaves the dry run: none.
  abbrev pub or_failed {ℓ} :
      {A : Type ℓ}
      → Observed A
      → (Text → TestPredicate N)
      → (A → Option (TestPredicate N))
      → Option (TestPredicate N)
  or_failed (ok a) report rest = rest a
  or_failed (observe_error err) report rest = some (report err)
  or_failed crash report rest = none

  module _ (num : Numbers N) (http : Http N) (find : Text → Json N → Option (List (Json N)))
      (dumps : Json N → Text) where
    abbrev excerpt : Json N → Text
    excerpt doc = take 500 (dumps doc)

    unfoldable pub evaluate : PredicateSpec N → Json N → Text → Json N → Option (TestPredicate N)
    unfolding is_satisfied initial_baseline
    evaluate predicate doc shown value =
        or_failed (initial_baseline num find predicate value doc) (λ e. failed e (some shown) value)
          (λ baseline.
            or_failed (is_satisfied num predicate value baseline) (λ e. failed e (some shown) value)
              (λ satisfied. some (record {
                would_fire = satisfied;
                extracted_value = value;
                baseline = baseline;
                response_excerpt = some shown;
                extract_error = none;
              })))

    unfoldable pub run_test_predicate : EndpointSpec N → PredicateSpec N → Option (TestPredicate N)
    unfolding fetch extract evaluate
    run_test_predicate endpoint predicate =
        or_failed (fetch http endpoint) (λ e. failed e none null)
          (λ doc.
            or_failed (extract find doc predicate.path) (λ e. failed e (some (excerpt doc)) null)
              (λ value. evaluate predicate doc (excerpt doc) value))
