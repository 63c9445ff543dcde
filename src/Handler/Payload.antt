-- ===== src/Handler/Payload.antt =====
-- src/picket/execution/handler.py: `build_payload`. The dump of a predicate, which pydantic makes, and
-- the text of the time are arguments.
use picket_mcp.Prelude.{Text, codes, ◌≡◌, Option, none, some, ◌∷◌, arith}
use picket_mcp.Core.Json.{Json, null, text, Fields, end, field, get_field}
use picket_mcp.Core.Models.{WatchState, PredicateSpec, EndpointSpec}
use picket_mcp.Daemon.Poll.{idem_of}

module _ {N : Type 0} where
  abbrev pub text_or_null : Option Text → Json N
  text_or_null none = null
  text_or_null (some s) = text s

  -- d[k] = v for a key that is not there
  unfoldable pub add_field : Text → Json N → Fields N → Fields N
  add_field k v end = field k v end
  add_field k v (field j w fs) = field j w (add_field k v fs)

  -- d.setdefault(k, v)
  unfoldable pub set_default : Text → Json N → Fields N → Fields N
  set_default k v fs = elim (get_field k fs) [ none ↦ add_field k v fs | some w ↦ fs ]

  -- The loop over the probe's fields.
  unfoldable pub merge : Fields N → Fields N → Fields N
  merge end payload = payload
  merge (field k v extra) payload = merge extra (set_default k v payload)

  abbrev extra_or_empty : Option (Fields N) → Fields N
  extra_or_empty none = end
  extra_or_empty (some extra) = extra

  -- The fields that every payload has.
  unfoldable pub core_payload : WatchState N → Json N → Text → Option Text → Fields N
  core_payload state value fired_at fire_id = field (codes "watch_id") (text state.watch_id) (
      field (codes "fire_id") (text_or_null fire_id) (
        field (codes "idempotency_key") (text (idem_of state)) (
          field (codes "label") (text_or_null state.label) (
            field (codes "runbook_id") (text state.runbook_id) (
              field (codes "fired_at") (text fired_at)
                (field (codes "value") value (field (codes "baseline") state.baseline end)))))))

  -- None where the watch has neither a probe nor a predicate and an endpoint, and Python raises
  -- AttributeError.
  unfoldable pub endpoint_payload :
      (PredicateSpec N → Json N)
      → Option (PredicateSpec N)
      → Option (EndpointSpec N)
      → Fields N
      → Option (Fields N)
  endpoint_payload dump (some predicate) (some endpoint) payload = some (
      add_field (codes "endpoint_url") (text endpoint.url)
        (add_field (codes "predicate") (dump predicate) payload))
  endpoint_payload dump _ _ payload = none

  unfoldable pub source_payload :
      (PredicateSpec N → Json N)
      → WatchState N
      → Option Text
      → Option (Fields N)
      → Fields N
      → Option (Fields N)
  source_payload dump state (some (c ∷ s)) extra payload =
      some (merge (extra_or_empty extra) (add_field (codes "probe_id") (text (c ∷ s)) payload))
  source_payload dump state _ extra payload =
      endpoint_payload dump state.predicate state.endpoint payload

  unfoldable pub build_payload :
      (PredicateSpec N → Json N)
      → WatchState N
      → Json N
      → Text
      → Option Text
      → Option (Fields N)
      → Option (Fields N)
  build_payload dump state value fired_at fire_id extra =
      source_payload dump state state.probe_id extra (core_payload state value fired_at fire_id)

  get_field-add_field :
      (k j : Text) (v w : Json N) (fs : Fields N)
      → get_field j fs ≡ some w
      → get_field j (add_field k v fs) ≡ some w
  unfolding get_field add_field
  get_field-add_field k j v w end h = absurd (ground arith)
  get_field-add_field k j v w (field i u fs) h = ground (arith, get_field-add_field k j v w fs)

  get_field-set_default :
      (k j : Text) (v w : Json N) (fs : Fields N)
      → get_field j fs ≡ some w
      → get_field j (set_default k v fs) ≡ some w
  unfolding set_default
  get_field-set_default k j v w fs h = ground (arith, get_field-add_field k j v w fs)

  get_field-merge :
      (extra : Fields N) (j : Text) (w : Json N) (fs : Fields N)
      → get_field j fs ≡ some w
      → get_field j (merge extra fs) ≡ some w
  unfolding merge
  get_field-merge end j w fs h = h
  get_field-merge (field k v extra) j w fs h =
      get_field-merge extra j w (set_default k v fs) (get_field-set_default k j v w fs h)

  endpoint_payload-keeps :
      (dump : PredicateSpec N → Json N) (p : Option (PredicateSpec N)) (e : Option (EndpointSpec N))
      (payload result : Fields N) (j : Text) (w : Json N)
      → endpoint_payload dump p e payload ≡ some result
      → get_field j payload ≡ some w
      → get_field j result ≡ some w
  unfolding endpoint_payload
  endpoint_payload-keeps dump (some p) (some e) payload result j w built h = ground (
    arith,
    get_field-add_field (codes "predicate") j (dump p) w payload h,
    get_field-add_field (codes "endpoint_url") j (text e.url) w
        (add_field (codes "predicate") (dump p) payload),
  )
  endpoint_payload-keeps dump _ _ payload result j w built h = absurd (ground arith)

  source_payload-keeps :
      (dump : PredicateSpec N → Json N) (state : WatchState N) (probe : Option Text)
      (extra : Option (Fields N)) (payload result : Fields N) (j : Text) (w : Json N)
      → source_payload dump state probe extra payload ≡ some result
      → get_field j payload ≡ some w
      → get_field j result ≡ some w
  unfolding source_payload
  source_payload-keeps dump state (some (c ∷ s)) extra payload result j w built h = ground (
    arith,
    get_field-merge (extra_or_empty extra) j w
        (add_field (codes "probe_id") (text (c ∷ s)) payload),
    get_field-add_field (codes "probe_id") j (text (c ∷ s)) w payload h,
  )
  source_payload-keeps dump state _ extra payload result j w built h =
      endpoint_payload-keeps dump state.predicate state.endpoint payload result j w built h

  -- Whatever fields a probe supplies, a payload that is built holds every core field with its value:
  -- the ids, the idempotency key, the label, the time, the observed value and the baseline.
  pub build_payload-keeps :
      (dump : PredicateSpec N → Json N) (state : WatchState N) (value : Json N) (fired_at : Text)
      (fire_id : Option Text) (extra : Option (Fields N)) (payload : Fields N) (key : Text)
      (w : Json N)
      → build_payload dump state value fired_at fire_id extra ≡ some payload
      → get_field key (core_payload state value fired_at fire_id) ≡ some w
      → get_field key payload ≡ some w
  unfolding build_payload
  build_payload-keeps dump state value fired_at fire_id extra payload key w built core =
      source_payload-keeps dump state state.probe_id extra
        (core_payload state value fired_at fire_id) payload key w built core
