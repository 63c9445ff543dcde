-- ===== src/Watches/Arming.antt =====
-- src/picket/runtime/watches.py: what `arm_watch` leaves behind.
use mathlib.Core.Path.{subst}
use picket_mcp.Prelude.{
  ◌≢◌, ℕ, ℤ, Text, ◌≡◌, refl, sym, ap, ◌∙◌, ◌⊎◌, inl, inr, Bool, true, false, not, ◌&&◌, Option,
  none, some,
}
use picket_mcp.Core.Json.{Numbers}
use picket_mcp.Core.Errors.{ErrorCode, success, Tried, passed, refused, raised}
use picket_mcp.Core.Steps.{
  >>=-eq-passed, or_refused-eq-passed, refuse_if-eq-passed, passed-injective,
}
use picket_mcp.Core.Models.{WatchState, WatchStatus, DesiredStatus}
use picket_mcp.Core.WatchSpec.{
  RawWatch, validate_watch, positive_optional, drift_policy_of, known_events, one_source,
}
use picket_mcp.Core.Validate.{natural}
use picket_mcp.Core.Specs.{IsWatch, validate_watch-IsWatch, validate_endpoint-safe, check-eq-some}
use picket_mcp.Core.Specs
use picket_mcp.Handler.Types.{Runbook}
use picket_mcp.Handler.Runbooks.{read_runbook}
use picket_mcp.Watches.Request.{Request, ArmWorld, Armed, registered, Trial, limit_of}
use picket_mcp.Watches.Arm.{
  parse_specs, check_request, try_source, raw_watch, validated, prepare, launch, arm_watch,
}
use picket_mcp.Watches.Control.{Tables, write_state}

registered-eq-passed {ℓ} :
    {A : Type ℓ} (code : ErrorCode) (message : Text) (o : Option (Option A)) {a : A}
    → registered code message o ≡ passed a
    → o ≡ some (some a)
registered-eq-passed code message none h = cc
registered-eq-passed code message (some none) h = cc
registered-eq-passed code message (some (some b)) h = cc

confirmed_by : (skip confirm : Bool) → (skip && not confirm) ≡ false → skip ≡ true → confirm ≡ true
confirmed_by skip true h e = refl
confirmed_by true false h e = sym h
confirmed_by false false h e = e

module _ {N : Type 0} where
  -- The fields that validation leaves as they were given.
  record Kept (raw : RawWatch N) (state : WatchState N) : Type 0 where
    watch_id : state.watch_id ≡ raw.state.watch_id
    runbook_rev : state.runbook_rev ≡ raw.state.runbook_rev
    status : state.status ≡ raw.state.status
    desired : state.desired_status ≡ raw.state.desired_status
    pid : state.pid ≡ raw.state.pid
    skip : state.skip_permissions ≡ raw.state.skip_permissions
    limit : positive_optional raw.max_fires ≡ some state.max_fires

  validate_watch-Kept :
      (raw : RawWatch N) (state : WatchState N) → validate_watch raw ≡ some state → Kept raw state
  unfolding validate_watch
  validate_watch-Kept raw state h =
      let (m, em, k1) = Specs.>>=-eq-some (positive_optional raw.max_fires) _ h in
      let (t, et, k2) = Specs.>>=-eq-some (positive_optional raw.ttl_seconds) _ k1 in
      let (d, ed, k3) = Specs.>>=-eq-some (natural raw.debounce_seconds) _ k2 in
      let (c, ec, k4) = Specs.>>=-eq-some (natural raw.cooldown_seconds) _ k3 in
      let (r, er, k5) = Specs.>>=-eq-some (natural raw.max_retries) _ k4 in
      let (p, ep, k6) = Specs.>>=-eq-some (drift_policy_of raw.drift_policy) _ k5 in
      let (es, ees, k7) = Specs.>>=-eq-some (known_events raw.delivery_events) _ k6 in
      let (one, same) = check-eq-some (one_source raw.state) _ k7 in
      record {
        watch_id = sym (ap (λ s. s.watch_id) same);
        runbook_rev = sym (ap (λ s. s.runbook_rev) same);
        status = sym (ap (λ s. s.status) same);
        desired = sym (ap (λ s. s.desired_status) same);
        pid = sym (ap (λ s. s.pid) same);
        skip = sym (ap (λ s. s.skip_permissions) same);
        limit = em ∙ ap (λ s. some s.max_fires) same;
      }

  module _ (num : Numbers N) (world : ArmWorld N) where
    -- A watch as it is armed: valid, active, of no process yet, with the hash of the runbook that is registered now; permissions
    -- are skipped only on confirmation, and a request without a number that is not recurring fires once.
    pub record IsArmed (watch_id : Text) (request : Request N) (state : WatchState N) : Type 0 where
      pub valid : IsWatch state
      pub id : state.watch_id ≡ watch_id
      pub status : state.status ≡ WatchStatus.active
      pub desired : state.desired_status ≡ DesiredStatus.active
      pub pid : state.pid ≡ none
      pub runbook : Runbook
      pub found : read_runbook world.probes.base request.runbook_id ≡ some (some runbook)
      pub pinned : state.runbook_rev ≡ some runbook.content_hash
      pub confirmed : state.skip_permissions ≡ true → request.confirm_skip ≡ true
      pub one_shot : request.max_fires ≡ none → request.recurring ≡ false → state.max_fires ≡ some 1

    one_shot-limit :
        (given : Option ℤ) (recurring : Bool) (max_fires : Option ℕ)
        → positive_optional (limit_of given recurring) ≡ some max_fires
        → given ≡ none
        → recurring ≡ false
        → max_fires ≡ some 1
    one_shot-limit none false max_fires h e f = cc
    one_shot-limit none true max_fires h e f = cc
    one_shot-limit (some m) recurring max_fires h e f = cc

    pub prepare-IsArmed :
        (now : ℕ) (watch_id : Text) (request : Request N) (state : WatchState N) (trial : Trial N)
        → prepare num world now watch_id request ≡ passed (state, trial)
        → IsArmed watch_id request state
    unfolding prepare check_request raw_watch
    prepare-IsArmed now watch_id request state trial h =
        let (specs, parsed, k1) = >>=-eq-passed (parse_specs num world request) _ h in
        let (specs', checked, k2) = >>=-eq-passed (check_request num world request specs) _ k1 in
        let (runbook, found, k3) =
          >>=-eq-passed (registered _ _ (read_runbook world.probes.base request.runbook_id)) _ k2 in
        let (trial', tried, k4) =
          >>=-eq-passed (try_source num world request request.probe_id specs) _ k3 in
        let raw = raw_watch num world now watch_id request specs runbook trial' in
        let (state', validates, made) = >>=-eq-passed (validated num world raw) _ k4 in
        let valid = or_refused-eq-passed _ _ (validate_watch raw) validates in
        let (_, rest) = refuse_if-eq-passed _ _ _ _ checked in
        let (unconfirmed, _) =
          refuse_if-eq-passed (request.skip_permissions && not request.confirm_skip) _ _ _ rest in
        let kept = validate_watch-Kept raw state' valid in
        subst (λ s. IsArmed watch_id request s)
          (ap (λ p. p.0) (passed-injective (state', trial') (state, trial) made))
          (record {
            valid = validate_watch-IsWatch raw state' valid;
            id = kept.watch_id;
            status = kept.status;
            desired = kept.desired;
            pid = kept.pid;
            runbook = runbook;
            found = registered-eq-passed _ _ _ found;
            pinned = kept.runbook_rev;
            confirmed =
                λ skips. confirmed_by _ request.confirm_skip unconfirmed (sym kept.skip ∙ skips);
            one_shot =
                one_shot-limit request.max_fires request.recurring state'.max_fires kept.limit;
          })

    launch-cases :
        (now : ℕ) (watch_id : Text) (request : Request N) (tables : Tables N)
        (m : Tried (WatchState N × Trial N))
        → ((state : WatchState N) (trial : Trial N)
            → m ≡ passed (state, trial)
            → IsArmed watch_id request state)
        → let after = launch num world now tables m in
          ((after.tables ≡ tables) × ((a : Armed N) → after.reply ≢ some (success a)))
          ⊎ ((state : WatchState N) × IsArmed watch_id request state
              × (after.tables ≡ write_state now state tables))
    unfolding launch
    launch-cases now watch_id request tables (passed (state, trial)) armed =
        inr (state, armed state trial refl, refl)
    launch-cases now watch_id request tables (refused code message) armed = inl (refl, λ a e. cc)
    launch-cases now watch_id request tables raised armed = inl (refl, λ a e. cc)

    -- Either the tool leaves the tables as they were and does not report success, or it writes the
    -- row of one watch, valid, active and of no process, with the hash of the runbook that is
    -- registered now pinned, permissions skipped only on confirmation, and one fire allowed unless the request says otherwise.
    pub arm_watch-IsArmed :
        (clock : ℕ → ℕ) (watch_id : Text) (request : Request N) (tables : Tables N)
        → let after = arm_watch num world clock watch_id request tables in
          ((after.tables ≡ tables) × ((a : Armed N) → after.reply ≢ some (success a)))
          ⊎ ((state : WatchState N) × IsArmed watch_id request state
              × (after.tables ≡ write_state (clock 1) state tables))
    unfolding arm_watch
    arm_watch-IsArmed clock watch_id request tables =
        launch-cases (clock 1) watch_id request tables
          (prepare num world (clock 0) watch_id request)
          (prepare-IsArmed (clock 0) watch_id request)
