-- ===== src/Core/Validate.antt =====
-- src/picket/core/models.py: the validators, on values that have the fields' types already, as
-- pydantic hands them over. none is a ValidationError. Seconds are integers, of microseconds.
use picket_mcp.Prelude.{
  ℕ, suc, ◌-◌, ℤ, pos, negsuc, Text, codes, text_eq, Bool, true, false, not, ◌&&◌, ◌||◌, Option,
  none, some, List, [], ◌∷◌, leb, ◌==◌, is_some, if◌then◌else◌,
}
use picket_mcp.Core.Models.{
  EndpointSpec, PredicateSpec, PredicateOp, on_change, pct_change, BaselineMode, absolute,
  prior_close, ActiveWindow, CadenceSpec,
}

-- What follows a step that may refuse.
infixl 5 ◌>>=◌
abbrev pub ◌>>=◌ {ℓ κ} : {A : Type ℓ} {B : Type κ} → Option A → (A → Option B) → Option B
none >>= f = none
some a >>= f = f a

abbrev pub check {ℓ} : {A : Type ℓ} → Bool → A → Option A
check true a = some a
check false a = none

-- s.startswith(prefix)
unfoldable pub starts_with : Text → Text → Bool
starts_with [] s = true
starts_with (c ∷ p) [] = false
starts_with (c ∷ p) (d ∷ s) = c == d && starts_with p s

unfoldable pub is_http : Text → Bool
unfolding starts_with
is_http url = starts_with (codes "http://") url || starts_with (codes "https://") url

-- str.upper on ASCII; no other character has an upper case made of letters of GET and HEAD.
abbrev upper_char : ℕ → ℕ
upper_char c = if leb 97 c && leb c 122 then c - 32 else c

unfoldable pub upper : Text → Text
upper [] = []
upper (c ∷ s) = upper_char c ∷ upper s

abbrev pub is_safe_method : Text → Bool
is_safe_method v = text_eq v (codes "GET") || text_eq v (codes "HEAD")

unfoldable pub safe_method : Text → Option Text
unfolding upper text_eq
safe_method v = check (is_safe_method (upper v)) (upper v)

unfoldable pub validate_endpoint : {N : Type 0} → EndpointSpec N → Option (EndpointSpec N)
unfolding is_http safe_method
validate_endpoint raw =
    safe_method raw.method >>= λ method. check (is_http raw.url) (record raw { method = method })

abbrev pub truthy_text : Option Text → Bool
truthy_text none = false
truthy_text (some []) = false
truthy_text (some (c ∷ s)) = true

abbrev needs_value : PredicateOp → Bool
needs_value on_change = false
needs_value _ = true

abbrev baseline_given : {N : Type 0} → BaselineMode → PredicateSpec N → Bool
baseline_given absolute raw = is_some raw.baseline_value
baseline_given prior_close raw = truthy_text raw.baseline_path
baseline_given _ raw = true

abbrev pct_checked : {N : Type 0} → PredicateOp → PredicateSpec N → Bool
pct_checked pct_change raw = baseline_given raw.baseline_mode raw
pct_checked _ raw = true

unfoldable pub validate_predicate : {N : Type 0} → PredicateSpec N → Option (PredicateSpec N)
validate_predicate raw =
    check ((not (needs_value raw.op) || is_some raw.value) && pct_checked raw.op raw) raw

-- `ActiveWindow` and `CadenceSpec` before validation.
pub record RawWindow : Type 0 where
  pub tz : Text
  pub start : Text
  pub end : Text
  pub days : List ℤ

pub record RawCadence : Type 0 where
  pub interval_seconds : ℤ
  pub jitter_seconds : ℤ
  pub active_window : Option RawWindow

-- 0 <= n
abbrev pub natural : ℤ → Option ℕ
natural (pos n) = some n
natural (negsuc n) = none

-- 0 < n
abbrev pub positive : ℤ → Option ℕ
positive (pos (suc n)) = some (suc n)
positive _ = none

abbrev weekday : ℤ → Option ℕ
weekday (pos n) = check (leb n 6) n
weekday (negsuc n) = none

unfoldable pub weekdays : List ℤ → Option (List ℕ)
weekdays [] = some []
weekdays (d ∷ days) = weekday d >>= λ n. weekdays days >>= λ ns. some (n ∷ ns)

-- `decimal` is the class \d of `re`, and `zone` whether ZoneInfo knows a name.
module _ (decimal : ℕ → Bool) (zone : Text → Bool) where
  -- $ stands at the end, and before a newline that ends the text.
  abbrev at_end : Text → Bool
  at_end [] = true
  at_end (c ∷ []) = c == 10
  at_end _ = false

  -- ([01]\d|2[0-3]):[0-5]\d
  abbrev hhmm_chars : ℕ → ℕ → ℕ → ℕ → ℕ → Bool
  hhmm_chars a b c d e =
      ((a == b'0' || a == b'1') && decimal b || a == b'2' && (leb b'0' b && leb b b'3'))
      && c == b':'
      && (leb b'0' d && leb d b'5')
      && decimal e

  unfoldable pub is_hhmm : Text → Bool
  is_hhmm (a ∷ b ∷ c ∷ d ∷ e ∷ rest) = hhmm_chars a b c d e && at_end rest
  is_hhmm _ = false

  unfoldable pub validate_window : RawWindow → Option ActiveWindow
  unfolding is_hhmm weekdays
  validate_window raw = weekdays raw.days >>= λ days.
      check (zone raw.tz && is_hhmm raw.start && is_hhmm raw.end)
        (record { tz = raw.tz; start = raw.start; end = raw.end; days = days })

  unfoldable pub window_maybe : Option RawWindow → Option (Option ActiveWindow)
  unfolding validate_window
  window_maybe none = some none
  window_maybe (some raw) = validate_window raw >>= λ window. some (some window)

  unfoldable pub validate_cadence : RawCadence → Option CadenceSpec
  unfolding window_maybe
  validate_cadence raw = positive raw.interval_seconds >>= λ interval.
      natural raw.jitter_seconds >>= λ jitter. window_maybe raw.active_window >>= λ window.
      some (record { interval_seconds = interval; jitter_seconds = jitter; active_window = window })
