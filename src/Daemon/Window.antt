-- ===== src/Daemon/Window.antt =====
-- src/picket/runtime/daemon.py: when a poll may happen and when it may fire. The time of the
-- window's zone (weekday, hour and minute) is an argument: the zone database is not modelled.
use picket_mcp.Prelude.{
  Bool-cases, inl, inr, ℕ, ◌+◌, ◌*◌, ◌/◌, ◌%◌, ◌-◌, ◌<◌, Text, text_le, ◌≡◌, Bool, true, false, not,
  ◌&&◌, ◌||◌, Option, none, some, [], ◌∷◌, arith, ltb, leb, ◌==◌, exists_where, if◌then◌else◌,
}
use picket_mcp.Core.Models.{ActiveWindow, CadenceSpec, WatchState}

pub record LocalTime : Type 0 where
  pub weekday : ℕ
  pub hour : ℕ
  pub minute : ℕ

abbrev digit : ℕ → ℕ
digit n = 48 + n

-- strftime("%H:%M")
unfoldable pub hhmm : ℕ → ℕ → Text
hhmm h m = digit (h / 10) ∷ digit (h % 10) ∷ b':' ∷ digit (m / 10) ∷ digit (m % 10) ∷ []

unfoldable pub in_window : ActiveWindow → LocalTime → Bool
in_window window now =
    if not (exists_where (λ d. d == now.weekday) window.days)
    then false
    else let t = hhmm now.hour now.minute in
      if text_le window.start window.end
      then text_le window.start t && text_le t window.end
      else text_le window.start t || text_le t window.end

abbrev window_open : Option ActiveWindow → LocalTime → Bool
window_open none now = true
window_open (some window) now = in_window window now

unfoldable pub in_active_window : CadenceSpec → LocalTime → Bool
unfolding in_window
in_active_window cadence now = window_open cadence.active_window now

-- (t - since).total_seconds() < least, where a gate of zero seconds or without a start is open
unfoldable pub gate_open : ℕ → ℕ → Option ℕ → Bool
gate_open least t none = true
gate_open least t (some since) = least == 0 || not (ltb t (since + least))

unfoldable pub gates_open : {N : Type 0} → WatchState N → ℕ → Bool
unfolding gate_open
gates_open state now =
    if not (gate_open state.debounce_seconds now state.satisfied_since)
    then false
    else gate_open state.cooldown_seconds now state.last_fire_at

abbrev pub aged : Option ℕ → Option ℕ → ℕ → Bool
aged (some ttl) (some created) now = leb (created + ttl) now
aged _ _ now = false

unfoldable pub ttl_expired : {N : Type 0} → WatchState N → ℕ → Bool
ttl_expired state now = aged state.ttl_seconds state.created_at now

-- The order of HH:MM texts is the order of the minutes of the day.
text_le-hhmm :
    (h m h' m' : ℕ)
    → h < 24
    → m < 60
    → h' < 24
    → m' < 60
    → text_le (hhmm h m) (hhmm h' m') ≡ leb (60 * h + m) (60 * h' + m')
unfolding text_le hhmm
text_le-hhmm h m h' m' p q r s = ground arith

-- Minutes from one time of day to the next time that it is another.
abbrev pub elapsed : ℕ → ℕ → ℕ
elapsed from to = (to + 1440 - from) % 1440

abbrev pub minutes : ℕ → ℕ → ℕ
minutes h m = 60 * h + m

elapsed_window :
    (s e t : ℕ)
    → s < 1440
    → e < 1440
    → t < 1440
    → (if leb s e then leb s t && leb t e else leb s t || leb t e) ≡ leb (elapsed s t) (elapsed s e)
elapsed_window s e t p q r = ground arith

-- On a day of the window, a window from one HH:MM to another is open exactly when no more minutes
-- have passed since its start than pass from its start to its end, past midnight or not; on any
-- other day it is shut.
pub in_window-elapsed :
    (window : ActiveWindow) (now : LocalTime) (h m h' m' : ℕ)
    → window.start ≡ hhmm h m
    → window.end ≡ hhmm h' m'
    → (h < 24) × (m < 60)
    → (h' < 24) × (m' < 60)
    → (now.hour < 24) × (now.minute < 60)
    → in_window window now ≡ (
        exists_where (λ d. d == now.weekday) window.days
        && leb
            (elapsed (minutes h m) (minutes now.hour now.minute))
            (elapsed (minutes h m) (minutes h' m')))
unfolding in_window
in_window-elapsed window now h m h' m' start end p q r =
    rw
      (
        start,
        end,
        text_le-hhmm h m h' m' p.0 p.1 q.0 q.1,
        text_le-hhmm h m now.hour now.minute p.0 p.1 r.0 r.1,
        text_le-hhmm now.hour now.minute h' m' r.0 r.1 q.0 q.1,
      )
      (elim (Bool-cases (exists_where (λ d. d == now.weekday) window.days)) [
        | inr d ↦ rw d
        | inl d ↦ rw d (
            elapsed_window (60 * h + m) (60 * h' + m') (60 * now.hour + now.minute) (omega arith)
              (omega arith) (omega arith))
      ])
