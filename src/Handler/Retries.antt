-- ===== src/Handler/Retries.antt =====
-- src/picket/execution/handler.py: what the loop over the attempts does.
use picket_mcp.Prelude.{
  ℕ, zero, suc, ◌-◌, ◌+◌, ◌≤◌, ◌<◌, ◌≡◌, ◌⊎◌, inl, inr, refl, true, false, Option, some, List, [],
  ◌∷◌, Bool-cases, ltb, ap, arith,
}
use picket_mcp.Store.Fire.{FireStatus}
use picket_mcp.Handler.Types.{Runbook, HandlerResult, Launch, ran, os_error, World}
use picket_mcp.Handler.Attempts.{
  Attempts, power, attempt_status, is_completed, run_attempts, after_launch, stops, outcome_of,
}

-- 2 ^ first, 2 ^ (first + 1), … of n terms
unfoldable pub backoff : ℕ → ℕ → List ℕ
unfolding power
backoff first zero = []
backoff first (suc n) = power first ∷ backoff (suc first) n

module _ {N : Type 0} (world : World N) (rb : Runbook) (launch : ℕ → Launch) where
  -- The loop over `total` attempts from `first` on made some of them, all but the last of which did
  -- not stop it; the last did, or was the last that is allowed. It ends as the last attempt ended and
  -- slept before each other one, twice as long each time.
  pub record IsRetry (first total : ℕ) (a : Attempts) : Type 0 where
    pub made : 1 ≤ a.launches
    pub bounded : a.launches ≤ total
    pub retried : (i : ℕ) → suc i < a.launches → stops world rb (launch (first + i)) ≡ false
    pub ends : (stops world rb (launch (first + (a.launches - 1))) ≡ true) ⊎ (a.launches ≡ total)
    pub outcome : a.outcome ≡ outcome_of world rb (launch (first + (a.launches - 1)))
    pub slept : a.sleeps ≡ backoff first (a.launches - 1)

  stops-once :
      (first left : ℕ) (a : Attempts)
      → a.launches ≡ 1
      → a.outcome ≡ outcome_of world rb (launch first)
      → a.sleeps ≡ []
      → (stops world rb (launch first) ≡ true) ⊎ (left ≡ 0)
      → IsRetry first (suc left) a
  unfolding backoff
  stops-once first left a one out slept done =
      let same : first + (a.launches - 1) ≡ first = omega arith in
      let none_left : a.launches - 1 ≡ 0 = omega arith in
      record {
        made = omega arith;
        bounded = omega arith;
        retried = λ i h. absurd (omega arith);
        ends = elim done [ inl now ↦ inl (rw same now) | inr last ↦ inr (omega arith) ];
        outcome = rw same out;
        slept = rw none_left slept;
      }

  goes-on :
      (first left : ℕ) (a later : Attempts)
      → IsRetry (suc first) (suc left) later
      → stops world rb (launch first) ≡ false
      → a.launches ≡ suc later.launches
      → a.outcome ≡ later.outcome
      → a.sleeps ≡ power first ∷ later.sleeps
      → IsRetry first (suc (suc left)) a
  unfolding backoff
  goes-on first left a later rest fails more out slept =
      let made = rest.made in
      let bounded = rest.bounded in
      let same : first + (a.launches - 1) ≡ suc first + (later.launches - 1) = omega arith in
      let one_more : a.launches - 1 ≡ suc (later.launches - 1) = omega arith in
      record {
        made = omega arith;
        bounded = omega arith;
        retried = retried_from;
        ends = elim rest.ends [ inl now ↦ inl (rw same now) | inr last ↦ inr (omega arith) ];
        outcome = rw (same, out) rest.outcome;
        slept = rw (one_more, slept) (ap (λ ss. power first ∷ ss) rest.slept);
      }
    where
      retried_from : (i : ℕ) → suc i < a.launches → stops world rb (launch (first + i)) ≡ false
      retried_from zero h = let same : first + 0 ≡ first = omega arith in rw same fails
      retried_from (suc j) h =
          let same : first + suc j ≡ suc first + j = omega arith in
          rw same (rest.retried j (omega arith))

  last_attempt :
      (first : ℕ) (l : Launch)
      → launch first ≡ l
      → IsRetry first 1 (
          after_launch world rb first 0 l
            (λ status res. run_attempts world rb launch (suc first) 0 status (some res)))
  unfolding after_launch run_attempts
  last_attempt first (os_error message) e = stops-once first 0 _ refl (rw e refl) refl (inr refl)
  last_attempt first (ran res) e = elim (Bool-cases (is_completed (attempt_status world rb res))) [
    | inl done ↦ stops-once first 0 _ (rw done refl) (rw (e, done) refl) (rw done refl) (inr refl)
    | inr fails ↦
        stops-once first 0 _ (rw fails refl) (rw (e, fails) refl) (rw fails refl) (inr refl)
  ]

  an_attempt :
      (first left : ℕ) (l : Launch)
      → launch first ≡ l
      → ((status : FireStatus) (res : Option HandlerResult)
          → IsRetry
              (suc first)
              (suc left)
              (run_attempts world rb launch (suc first) (suc left) status res))
      → IsRetry first (suc (suc left)) (
          after_launch world rb first
            (suc left)
            l
            (λ status res. run_attempts world rb launch (suc first) (suc left) status (some res)))
  unfolding after_launch
  an_attempt first left (os_error message) e later =
      stops-once first (suc left) _ refl (rw e refl) refl (inl (rw e refl))
  an_attempt first left (ran res) e later =
      let status = attempt_status world rb res in
      let left_over : ltb 0 (suc left) ≡ true = ground arith in
      elim (Bool-cases (is_completed status)) [
        | inl done ↦
            stops-once first (suc left) _ (rw done refl) (rw (e, done) refl) (rw done refl)
              (inl (rw (e, done) refl))
        | inr fails ↦
            goes-on first left _ _ (later status (some res)) (rw (e, fails) refl) (rw fails refl)
              (rw fails refl) (rw (fails, left_over) refl)
      ]

  -- The loop over the attempts starts the handler once at least and as often as is allowed at most;
  -- each attempt that is followed by another neither completed nor ended in an OSError; the last one
  -- did, or none was left; the loop ends as the last attempt ended; and the sleeps between the
  -- attempts are the powers of two, one after each attempt that is followed by another.
  pub run_attempts-IsRetry :
      (first left : ℕ) (status : FireStatus) (res : Option HandlerResult)
      → IsRetry first (suc left) (run_attempts world rb launch first (suc left) status res)
  unfolding run_attempts
  run_attempts-IsRetry first zero status res = last_attempt first (launch first) refl
  run_attempts-IsRetry first (suc left) status res =
      an_attempt first left (launch first) refl (run_attempts-IsRetry (suc first) left)
