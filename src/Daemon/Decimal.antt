-- ===== src/Daemon/Decimal.antt =====
-- Python's decimal print of a natural number, `f"{n}"`, as src/picket/runtime/daemon.py uses it in
-- the idempotency key.
use picket_mcp.Prelude.{ℕ, zero, suc, ◌+◌, ◌/◌, ◌%◌, Text, [], ◌∷◌, ltb, if◌then◌else◌}

-- The digits of a number below 10 ^ fuel, in front of those that are there.
unfoldable pub digits_from : ℕ → ℕ → Text → Text
digits_from zero n s = s
digits_from (suc fuel) n s =
    let rest = digits_from fuel (n / 10) ((48 + n % 10) ∷ s) in
    if ltb n 10 then (48 + n) ∷ s else rest

unfoldable pub decimal : ℕ → Text
unfolding digits_from
decimal n = digits_from (suc n) n []
