-- ===== src/Core/Specs.antt =====
-- src/picket/core/models.py: what a spec that passes validation is.
use mathlib.Core.Path.{subst}
use mathlib.Core.Option.{some-injective}
use picket_mcp.Prelude.{
  ℕ, zero, suc, ◌<◌, ℤ, pos, negsuc, Text, codes, ◌≡◌, refl, sym, ap, ◌∙◌, Bool-cases, ◌⊎◌, inl,
  inr, Bool, true, false, Option, none, some, arith, text_eq, text_eq_iff,
}
use picket_mcp.Core.Models.{WatchState, EndpointSpec}
use picket_mcp.Core.Validate.{
  ◌>>=◌, check, is_http, is_safe_method, upper, safe_method, validate_endpoint, natural,
  truthy_text,
}
use picket_mcp.Core.WatchSpec.{
  RawWatch, validate_watch, has_endpoint, known_events, one_source, positive_optional,
  drift_policy_of,
}

-- A validated watch: limits are above zero, and there is exactly one source of the condition.
pub record IsWatch {N : Type 0} (state : WatchState N) : Type 0 where
  pub fires : (m : ℕ) → state.max_fires ≡ some m → 0 < m
  pub ttl : (t : ℕ) → state.ttl_seconds ≡ some t → 0 < t
  pub source :
      ((has_endpoint state.endpoint state.predicate ≡ true) × (truthy_text state.probe_id ≡ false))
      ⊎ ((has_endpoint state.endpoint state.predicate ≡ false)
          × (truthy_text state.probe_id ≡ true))

-- What a successful chain went through.
module _ {ℓ κ} {A : Type ℓ} {B : Type κ} where
  pub >>=-eq-some :
      (found : Option A) (next : A → Option B) {result : B}
      → (found >>= next) ≡ some result
      → (value : A) × (found ≡ some value) × (next value ≡ some result)
  >>=-eq-some none next came = cc
  >>=-eq-some (some value) next came = (value, refl, came)

pub check-eq-some {ℓ} :
    {A : Type ℓ} (b : Bool) (a : A) {c : A} → check b a ≡ some c → (b ≡ true) × (a ≡ c)
check-eq-some true a h = (refl, some-injective a _ h)
check-eq-some false a h = cc

positive_optional-positive :
    (raw : Option ℤ) (o : Option ℕ) (m : ℕ) → positive_optional raw ≡ some o → o ≡ some m → 0 < m
positive_optional-positive none o m h e = absurd (ground arith)
positive_optional-positive (some (pos zero)) o m h e = absurd (ground arith)
positive_optional-positive (some (pos (suc n))) o m h e = ground arith
positive_optional-positive (some (negsuc n)) o m h e = absurd (ground arith)

is_safe_method-cases : (v : Text) → is_safe_method v ≡ true → (v ≡ codes "GET") ⊎ (v ≡ codes "HEAD")
is_safe_method-cases v h = elim (Bool-cases (text_eq v (codes "GET"))) [
  | inl e ↦ inl ((text_eq_iff v (codes "GET")).0 e)
  | inr e ↦ inr ((text_eq_iff v (codes "HEAD")).0 (ground arith))
]

module _ {N : Type 0} where
  one_source-cases :
      (state : WatchState N)
      → one_source state ≡ true
      → ((has_endpoint state.endpoint state.predicate ≡ true)
          × (truthy_text state.probe_id ≡ false))
        ⊎ ((has_endpoint state.endpoint state.predicate ≡ false)
            × (truthy_text state.probe_id ≡ true))
  one_source-cases state h = elim (Bool-cases (has_endpoint state.endpoint state.predicate)) [
    | inl e ↦ inl (e, ground arith)
    | inr e ↦ inr (e, ground arith)
  ]

  -- A watch that passes validation has limits above zero where it has any, and exactly one source of
  -- its condition, an endpoint with a predicate or a probe id that is not empty.
  pub validate_watch-IsWatch :
      (raw : RawWatch N) (state : WatchState N) → validate_watch raw ≡ some state → IsWatch state
  unfolding validate_watch
  validate_watch-IsWatch raw state h =
      let (m, em, k1) = >>=-eq-some (positive_optional raw.max_fires) _ h in
      let (t, et, k2) = >>=-eq-some (positive_optional raw.ttl_seconds) _ k1 in
      let (d, ed, k3) = >>=-eq-some (natural raw.debounce_seconds) _ k2 in
      let (c, ec, k4) = >>=-eq-some (natural raw.cooldown_seconds) _ k3 in
      let (r, er, k5) = >>=-eq-some (natural raw.max_retries) _ k4 in
      let (p, ep, k6) = >>=-eq-some (drift_policy_of raw.drift_policy) _ k5 in
      let (es, ees, k7) = >>=-eq-some (known_events raw.delivery_events) _ k6 in
      let (one, same) = check-eq-some (one_source raw.state) _ k7 in
      record {
        fires =
            λ n e. positive_optional-positive raw.max_fires m n em (ap (λ s. s.max_fires) same ∙ e);
        ttl = λ n e.
            positive_optional-positive raw.ttl_seconds t n et (ap (λ s. s.ttl_seconds) same ∙ e);
        source =
            subst
              (λ s.
                ((has_endpoint s.endpoint s.predicate ≡ true) × (truthy_text s.probe_id ≡ false))
                ⊎ ((has_endpoint s.endpoint s.predicate ≡ false) × (truthy_text s.probe_id ≡ true)))
              same (one_source-cases raw.state one);
      }

  -- An endpoint that passes is polled by GET or HEAD, whatever the case of the method that was given,
  -- over http or https; nothing else of it changes.
  pub validate_endpoint-safe :
      (raw e : EndpointSpec N)
      → validate_endpoint raw ≡ some e
      → ((e.method ≡ codes "GET") ⊎ (e.method ≡ codes "HEAD"))
        × (e.method ≡ upper raw.method)
        × (e.url ≡ raw.url)
        × (is_http e.url ≡ true)
  unfolding validate_endpoint safe_method
  validate_endpoint-safe raw e h =
      let (m, em, k) = >>=-eq-some (safe_method raw.method) _ h in
      let (http, same) = check-eq-some (is_http raw.url) _ k in
      let (ok_method, upped) = check-eq-some (is_safe_method (upper raw.method)) _ em in
      (
        subst (λ r. (r.method ≡ codes "GET") ⊎ (r.method ≡ codes "HEAD")) same
            (subst (λ u. (u ≡ codes "GET") ⊎ (u ≡ codes "HEAD")) upped
              (is_safe_method-cases (upper raw.method) ok_method)),
        sym (ap (λ r. r.method) same) ∙ sym upped,
        sym (ap (λ r. r.url) same),
        subst (λ r. is_http r.url ≡ true) same http,
      )
