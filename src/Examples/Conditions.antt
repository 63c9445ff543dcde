-- ===== src/Examples/Conditions.antt =====
-- The theorems of the conditions and of the idempotency key at concrete inputs.
use picket_mcp.Prelude.{ℕ, true, arith, ◌≡◌, refl, codes, some}
use picket_mcp.Core.Json.{null, number}
use picket_mcp.Core.Models.{WatchState, PredicateSpec, eq, Threshold}
use picket_mcp.Condition.Extract.{crash}
use picket_mcp.Condition.Predicate.{is_satisfied}
use picket_mcp.Condition.Predicate.{compare_text, compare_values, satisfied_by}
use picket_mcp.Daemon.Poll.{idem_of}
use picket_mcp.Daemon.Keys.{idem_of-injective}
use picket_mcp.Examples.Sample.{nat_numbers, predicate, watch, watch_id}

abbrev equals_open : PredicateSpec ℕ
equals_open = record predicate { op = eq; value = some (Threshold.text (codes "open")) }

-- A text as the threshold of eq and a number as the value raise.
text_threshold_raises : is_satisfied nat_numbers equals_open (number 3) null ≡ crash
unfolding is_satisfied satisfied_by compare_values compare_text
text_threshold_raises = refl

abbrev later : WatchState ℕ
later = record watch { satisfied = true; fire_count = 3 }

one_key : idem_of watch ≡ idem_of later
unfolding idem_of
one_key = refl

idem_of-injective_example : (watch_id ≡ watch_id) × (watch.episode_seq ≡ later.episode_seq)
idem_of-injective_example =
    idem_of-injective watch later (λ e. ground (arith, e), tt) (λ e. ground (arith, e), tt) one_key
