-- ===== src/Daemon/DryRun.antt =====
-- src/picket/conditions/condition.py and runtime/daemon.py: the dry run of a condition against the first
-- poll of a watch that is armed with it.
use mathlib.Core.Option.{some-injective}
use picket_mcp.Prelude.{Text, ◌≡◌, refl, sym, ap, ◌∙◌, Bool, Option, none, some, List}
use picket_mcp.Core.Json.{Json, Numbers}
use picket_mcp.Core.Models.{WatchState, EndpointSpec, PredicateSpec}
use picket_mcp.Condition.Extract.{Observed, ok, observe_error, crash, extract}
use picket_mcp.Condition.Predicate.{is_satisfied, initial_baseline}
use picket_mcp.Condition.Fetch.{Http, fetch}
use picket_mcp.Condition.Trial.{TestPredicate, or_failed, failed, evaluate, run_test_predicate}
use picket_mcp.Daemon.Poll.{Sources, Observation, observe_endpoint, observe}

module _ {N : Type 0} where
  or_failed-passed {ℓ} :
      {A : Type ℓ} (m : Observed A) (shown : Option Text) (value : Json N)
      (rest : A → Option (TestPredicate N)) (r : TestPredicate N)
      → or_failed m (λ e. failed e shown value) rest ≡ some r
      → r.extract_error ≡ none
      → (a : A) × (m ≡ ok a) × (rest a ≡ some r)
  or_failed-passed (ok a) shown value rest r h clean = (a, refl, h)
  or_failed-passed (observe_error e) shown value rest r h clean =
      absurd
        (some≢none (ap (λ t. t.extract_error) (some-injective (failed e shown value) r h) ∙ clean))
    where
      some≢none : some e ≡ none → ⊥
      some≢none h = cc
  or_failed-passed crash shown value rest r h clean = cc

  observe-ok :
      (num : Numbers N) (world : Sources N) (state : WatchState N) (endpoint : EndpointSpec N)
      (predicate : PredicateSpec N) (doc value : Json N) (holds : Bool)
      → state.endpoint ≡ some endpoint
      → state.predicate ≡ some predicate
      → state.probe_id ≡ none
      → world.fetch endpoint ≡ ok doc
      → extract world.find doc predicate.path ≡ ok value
      → is_satisfied num predicate value state.baseline ≡ ok holds
      → observe num world state state.probe_id
        ≡ ok (record { value = value; satisfied = holds; payload = none })
  unfolding observe observe_endpoint
  observe-ok num world state endpoint predicate doc value holds ep pr id fetched extracted tested =
      rw id (rw ep (rw pr (rw fetched (rw extracted (rw tested refl)))))

  -- What a dry run reports without an error is what a poll observes for a watch that has this
  -- endpoint and predicate, no probe and the reported baseline, when it reads the endpoint with the same result: the
  -- same value, and the condition holds exactly if the dry run said that it would fire.
  pub run_test_predicate-observe :
      (num : Numbers N) (http : Http N) (find : Text → Json N → Option (List (Json N)))
      (dumps : Json N → Text) (endpoint : EndpointSpec N) (predicate : PredicateSpec N)
      (probe : WatchState N → Observed (Observation N)) (state : WatchState N) (r : TestPredicate N)
      → run_test_predicate num http find dumps endpoint predicate ≡ some r
      → r.extract_error ≡ none
      → state.endpoint ≡ some endpoint
      → state.predicate ≡ some predicate
      → state.probe_id ≡ none
      → state.baseline ≡ r.baseline
      → let world : Sources N = record { probe = probe; fetch = fetch http; find = find } in
        observe num world state state.probe_id
        ≡ ok (record { value = r.extracted_value; satisfied = r.would_fire; payload = none })
  unfolding run_test_predicate evaluate
  run_test_predicate-observe num http find dumps endpoint predicate probe state r h clean ep pr id
        base =
      let (doc, fetched, k) = or_failed-passed (fetch http endpoint) _ _ _ r h clean in
      let (value, extracted, k') =
        or_failed-passed (extract find doc predicate.path) _ _ _ r k clean in
      let (baseline, kept, k'') =
        or_failed-passed (initial_baseline num find predicate value doc) _ _ _ r k' clean in
      let (holds, tested, made) =
        or_failed-passed (is_satisfied num predicate value baseline) _ _ _ r k'' clean in
      let same = some-injective _ r made in
      let seen : TestPredicate N → Observation N =
        λ t. record { value = t.extracted_value; satisfied = t.would_fire; payload = none } in
      let source : Sources N = record { probe = probe; fetch = fetch http; find = find } in
      let tested' =
        ap (λ b. is_satisfied num predicate value b) (base ∙ sym (ap (λ t. t.baseline) same))
        ∙ tested in
      observe-ok num source state endpoint predicate doc value holds ep pr id fetched extracted
        tested'
      ∙ ap (λ t. ok (seen t)) same
