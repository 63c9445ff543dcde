-- ===== src/Daemon/Keys.antt =====
-- src/picket/runtime/daemon.py: the idempotency key f"{watch_id}:{episode_seq}" of a poll.
use picket_mcp.Prelude.{
  ℕ, zero, suc, ◌+◌, ◌/◌, ◌%◌, ◌<◌, ◌≡◌, ◌≢◌, refl, sym, ap, ◌∙◌, inl, inr, Text, [], ◌∷◌, ◌++◌,
  ltb, Bool-cases, drop, All, arith,
}
use picket_mcp.Condition.Extract.{to_number}
use picket_mcp.Core.Models.{WatchState}
use picket_mcp.Daemon.Decimal.{decimal, digits_from}
use picket_mcp.Daemon.Poll.{idem_of}

to_number-digits_from :
    (fuel n : ℕ) (s : Text) → n < fuel → to_number 0 (digits_from fuel n s) ≡ to_number n s
unfolding digits_from to_number
to_number-digits_from zero n s h = absurd (omega arith)
to_number-digits_from (suc fuel) n s h = elim (Bool-cases (ltb n 10)) [
  | inl small ↦ rw small (ap (λ k. to_number k s) (omega arith))
  | inr large ↦ rw large (
      to_number-digits_from fuel (n / 10) ((48 + n % 10) ∷ s) (ground arith)
      ∙ ap (λ k. to_number k s) (omega arith))
]

to_number-decimal : (n : ℕ) → to_number 0 (decimal n) ≡ n
unfolding decimal to_number
to_number-decimal n = to_number-digits_from (suc n) n [] (omega arith)

pub decimal-injective : (m n : ℕ) → decimal m ≡ decimal n → m ≡ n
decimal-injective m n h =
    sym (to_number-decimal m) ∙ ap (λ s. to_number 0 s) h ∙ to_number-decimal n

abbrev pub NoColon : Text → Type 0
NoColon s = All (λ c. c ≢ b':') s

split_colon :
    (v w s t : Text) → NoColon v → NoColon w → v ++ b':' ∷ s ≡ w ++ b':' ∷ t → (v ≡ w) × (s ≡ t)
split_colon [] [] s t a b h = (refl, ap (drop 1) h)
split_colon [] (d ∷ w) s t a b h = absurd (b.0 (ground arith))
split_colon (c ∷ v) [] s t a b h = absurd (a.0 (ground arith))
split_colon (c ∷ v) (d ∷ w) s t a b h =
    let rest = split_colon v w s t a.1 b.1 (ap (drop 1) h) in
    let same : c ≡ d = ground arith in (rw same (ap (λ u. d ∷ u) rest.0), rest.1)

-- Two states whose watch ids hold no colon have one idempotency key only if they are of one watch and
-- of one episode.
pub idem_of-injective :
    {N : Type 0} (a b : WatchState N)
    → NoColon a.watch_id
    → NoColon b.watch_id
    → idem_of a ≡ idem_of b
    → (a.watch_id ≡ b.watch_id) × (a.episode_seq ≡ b.episode_seq)
unfolding idem_of
idem_of-injective a b fa fb h =
    let parts = split_colon a.watch_id b.watch_id _ _ fa fb h in
    (parts.0, decimal-injective a.episode_seq b.episode_seq parts.1)
