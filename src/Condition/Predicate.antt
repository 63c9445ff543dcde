-- ===== src/Condition/Predicate.antt =====
-- src/picket/conditions/condition.py: `is_satisfied` and `initial_baseline`.
use picket_mcp.Prelude.{
  Text, codes, text_eq, text_lt, text_le, Bool, true, false, not, ◌&&◌, Option, none, some, List,
  if◌then◌else◌,
}
use picket_mcp.Core.Json.{Json, null, boolean, number, text, Numbers, json_eq}
use picket_mcp.Core.Models.{
  PredicateOp, on_change, lt, gt, lte, gte, eq, ne, pct_change, crosses_above, crosses_below,
  BaselineMode, arm_time, prior_close, absolute, last_value, Threshold, PredicateSpec,
}
use picket_mcp.Condition.Extract.{Observed, ok, observe_error, crash, ◌>>=◌, extract}

abbrev pub not_numeric : Text
not_numeric = codes "value is not numeric"

module _ {N : Type 0} (num : Numbers N) where
  abbrev float_or_error : Option N → Observed N
  float_or_error none = observe_error not_numeric
  float_or_error (some n) = ok n

  abbrev float_or_crash : Option N → Observed N
  float_or_crash none = crash
  float_or_crash (some n) = ok n

  -- `_as_target_type` for a number as the target. TypeError and ValueError become ObserveError; the
  -- OverflowError of a large int does not.
  unfoldable pub as_number : Json N → Observed N
  as_number (number n) = float_or_crash (num.to_float n)
  as_number (boolean b) = float_or_crash (num.to_float (num.of_bool b))
  as_number (text s) = float_or_error (num.parse_float s)
  as_number _ = observe_error not_numeric

  -- The dictionary of the six comparisons, of which `op` takes one. Python computes all of them.
  abbrev pub pick : PredicateOp → (less less_eq equal greater greater_eq : Bool) → Observed Bool
  pick lt l le e g ge = ok l
  pick lte l le e g ge = ok le
  pick gt l le e g ge = ok g
  pick gte l le e g ge = ok ge
  pick eq l le e g ge = ok e
  pick ne l le e g ge = ok (not e)
  pick crosses_below l le e g ge = ok l
  pick crosses_above l le e g ge = ok g
  pick _ l le e g ge = crash

  -- Two texts compare by code points; a value of another type has no order with a text, and
  -- `v < target` raises TypeError.
  unfoldable pub compare_text : PredicateOp → Json N → Text → Observed Bool
  unfolding text_lt text_le text_eq
  compare_text op (text s) t =
      pick op (text_lt s t) (text_le s t) (text_eq s t) (text_lt t s) (text_le t s)
  compare_text op _ t = crash

  -- v > target is target < v.
  abbrev pub compare_number : PredicateOp → N → N → Observed Bool
  compare_number op v t = pick op (num.lt v t) (num.le v t) (num.eq v t) (num.lt t v) (num.le t v)

  unfoldable pub compare_values : PredicateOp → Json N → Option (Threshold N) → Observed Bool
  unfolding as_number compare_text
  compare_values op value (some (Threshold.number t)) =
      as_number value >>= λ v. compare_number op v t
  compare_values op value (some (Threshold.text t)) = compare_text op value t
  compare_values op value none = crash

  -- float(predicate.value): ValueError and TypeError are not caught here.
  unfoldable pub threshold_of : Option (Threshold N) → Observed N
  threshold_of (some (Threshold.number t)) = float_or_crash (num.to_float t)
  threshold_of (some (Threshold.text t)) = float_or_crash (num.parse_float t)
  threshold_of none = crash

  -- The base of a percentage: None counts as zero.
  unfoldable pub base_of : Json N → Observed N
  unfolding as_number
  base_of null = ok num.zero
  base_of baseline = as_number baseline

  abbrev pub pct_holds : N → N → N → Bool
  pct_holds v base threshold =
      let pct = num.mul (num.div (num.sub v base) base) num.hundred in
      if num.lt threshold num.zero then num.le pct threshold else num.le threshold pct

  unfoldable pub pct_satisfied : Option (Threshold N) → Json N → Json N → Observed Bool
  unfolding base_of threshold_of
  pct_satisfied target value baseline = base_of baseline >>= λ base.
      if num.eq base num.zero
      then ok false
      else as_number value >>= λ v.
          threshold_of target >>= λ threshold. ok (pct_holds v base threshold)

  abbrev is_null : Json N → Bool
  is_null null = true
  is_null _ = false

  unfoldable pub satisfied_by : PredicateOp → Option (Threshold N) → Json N → Json N → Observed Bool
  unfolding pct_satisfied compare_values json_eq
  satisfied_by on_change target value baseline =
      ok (not (is_null baseline) && not (json_eq num value baseline))
  satisfied_by pct_change target value baseline = pct_satisfied target value baseline
  satisfied_by op target value baseline = compare_values op value target

  unfoldable pub is_satisfied : PredicateSpec N → Json N → Json N → Observed Bool
  unfolding satisfied_by
  is_satisfied predicate value baseline = satisfied_by predicate.op predicate.value value baseline

  abbrev value_or_null : Option N → Json N
  value_or_null none = null
  value_or_null (some n) = number n

  module _ (find : Text → Json N → Option (List (Json N))) where
    -- jsonpath_parse(None) raises another exception than JSONPathError.
    abbrev extract_at : Json N → Option Text → Observed (Json N)
    extract_at doc none = crash
    extract_at doc (some path) = extract find doc path

    unfoldable pub pct_baseline :
        BaselineMode → PredicateSpec N → Json N → Json N → Observed (Json N)
    unfolding extract
    pct_baseline absolute predicate value doc = ok (value_or_null predicate.baseline_value)
    pct_baseline prior_close predicate value doc = extract_at doc predicate.baseline_path
    pct_baseline arm_time predicate value doc = ok value
    pct_baseline last_value predicate value doc = ok value

    unfoldable pub baseline_by : PredicateOp → PredicateSpec N → Json N → Json N → Observed (Json N)
    unfolding pct_baseline
    baseline_by on_change predicate value doc = ok value
    baseline_by pct_change predicate value doc =
        pct_baseline predicate.baseline_mode predicate value doc
    baseline_by _ predicate value doc = ok null

    unfoldable pub initial_baseline : PredicateSpec N → Json N → Json N → Observed (Json N)
    unfolding baseline_by
    initial_baseline predicate trial_value trial_data =
        baseline_by predicate.op predicate trial_value trial_data
