-- ===== src/Daemon/Hours.antt =====
-- src/picket/core/models.py with src/picket/runtime/daemon.py: the window that a validated spec gives.
use picket_mcp.Prelude.{
  ℕ, ◌+◌, ◌-◌, ◌*◌, ◌≤◌, ◌<◌, Text, ◌≡◌, sym, ap, ◌∙◌, Bool, true, some, [], ◌∷◌, length, arith,
  exists_where, leb, ◌==◌, ◌&&◌, All,
}
use picket_mcp.Core.Models.{ActiveWindow}
use picket_mcp.Core.Validate.{weekdays, is_hhmm, RawWindow, validate_window}
use picket_mcp.Core.Specs.{>>=-eq-some, check-eq-some}
use picket_mcp.Daemon.Window.{hhmm, LocalTime, in_window, elapsed, minutes, in_window-elapsed}

-- A digit of ASCII.
abbrev pub IsDigit : ℕ → Type 0
IsDigit c = (48 ≤ c) × (c ≤ 57)

-- The hour and the minute that a text of five characters shows.
abbrev hour_of : Text → ℕ
hour_of (a ∷ b ∷ s) = 10 * (a - 48) + (b - 48)
hour_of _ = 0

abbrev minute_of : Text → ℕ
minute_of (a ∷ b ∷ c ∷ d ∷ e ∷ s) = 10 * (d - 48) + (e - 48)
minute_of _ = 0

module _ (decimal : ℕ → Bool) (zone : Text → Bool) where
  is_hhmm-hhmm :
      (s : Text)
      → All (λ c. decimal c ≡ true → IsDigit c) s
      → length s ≡ 5
      → is_hhmm decimal zone s ≡ true
      → (hour_of s < 24) × (minute_of s < 60) × (s ≡ hhmm (hour_of s) (minute_of s))
  unfolding is_hhmm hhmm
  is_hhmm-hhmm (a ∷ b ∷ c ∷ d ∷ e ∷ []) ascii n h = (
    ground (arith, ascii.1.0, ascii.1.1.1.1.0),
    ground (arith, ascii.1.1.1.1.0),
    ground (arith, ascii.1.0, ascii.1.1.1.1.0),
  )
  is_hhmm-hhmm (a ∷ b ∷ c ∷ d ∷ e ∷ f ∷ s) ascii n h = absurd (omega arith)
  is_hhmm-hhmm (a ∷ b ∷ c ∷ d ∷ []) ascii n h = absurd (omega arith)
  is_hhmm-hhmm (a ∷ b ∷ c ∷ []) ascii n h = absurd (omega arith)
  is_hhmm-hhmm (a ∷ b ∷ []) ascii n h = absurd (omega arith)
  is_hhmm-hhmm (a ∷ []) ascii n h = absurd (omega arith)
  is_hhmm-hhmm [] ascii n h = absurd (omega arith)

  and-true : (a b c : Bool) → (a && b && c) ≡ true → (b ≡ true) × (c ≡ true)
  and-true a b c h = ground arith

  -- A window that passes validation and whose start and end have five characters, their digits being
  -- those of ASCII, is open, on its days, exactly when no more minutes have passed since its start
  -- than pass from its start to its end.
  pub validate_window-elapsed :
      (raw : RawWindow) (window : ActiveWindow) (now : LocalTime)
      → All (λ c. decimal c ≡ true → IsDigit c) raw.start
      → All (λ c. decimal c ≡ true → IsDigit c) raw.end
      → validate_window decimal zone raw ≡ some window
      → length raw.start ≡ 5
      → length raw.end ≡ 5
      → (now.hour < 24) × (now.minute < 60)
      → in_window window now ≡ (
          exists_where (λ d. d == now.weekday) window.days
          && leb
              (elapsed
                (minutes (hour_of raw.start) (minute_of raw.start))
                (minutes now.hour now.minute))
              (elapsed
                (minutes (hour_of raw.start) (minute_of raw.start))
                (minutes (hour_of raw.end) (minute_of raw.end))))
  unfolding validate_window
  validate_window-elapsed raw window now ascii ascii' h m n p =
      let (days, ed, k) = >>=-eq-some (weekdays raw.days) _ h in
      let (fits, same) =
        check-eq-some
          (zone raw.tz && is_hhmm decimal zone raw.start && is_hhmm decimal zone raw.end) _ k in
      let (first, last) =
        and-true (zone raw.tz) (is_hhmm decimal zone raw.start) (is_hhmm decimal zone raw.end)
          fits in
      let start = is_hhmm-hhmm raw.start ascii m first in
      let end = is_hhmm-hhmm raw.end ascii' n last in
      in_window-elapsed window now (hour_of raw.start) (minute_of raw.start) (hour_of raw.end)
        (minute_of raw.end) (sym (ap (λ w. w.start) same) ∙ start.2)
        (sym (ap (λ w. w.end) same) ∙ end.2) (start.0, start.1) (end.0, end.1) p
