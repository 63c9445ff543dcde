-- ===== src/Examples/Ledger.antt =====
-- The theorems of the store at concrete inputs.
use picket_mcp.Prelude.{
  ℕ, ◌+◌, ◌-◌, ◌≤◌, min, codes, ◌≡◌, refl, Bool, true, none, List, [], arith, take, All,
  count_where,
}
use picket_mcp.Core.Json.{Json}
use picket_mcp.Store.Fire.{Fire, is_active}
use picket_mcp.Store.Ledger.{claim_next_fire, count_fires, active_of}
use picket_mcp.Store.History.{recover_abandoned, prune_results, is_terminal_row}
use picket_mcp.Store.Trace.{history, IsCall, leases, apply}
use picket_mcp.Store.Integrity.{IsUnique, history-IsUnique}
use picket_mcp.Store.Rows.{IsRow, history-IsRow}
use picket_mcp.Store.Claim.{ClaimOf, claim_next_fire-ClaimOf}
use picket_mcp.Store.Leases.{leases_in, creates_in, at_most_once}
use picket_mcp.Store.Recovery.{runs, RecoveredRow, recover_abandoned-RecoveredRow}
use picket_mcp.Store.Rowwise.{Rowwise}
use picket_mcp.Store.Retention.{prune_results-counts, count_fires-prune_results-le}
use picket_mcp.Examples.Sample.{story, watch_id, clock}

story-IsCall : All IsCall story
story-IsCall = ground arith

empty-IsUnique : IsUnique {V = Json ℕ} []
empty-IsUnique = record { ids = λ x. omega arith; keys = λ k. omega arith }

at_most_once_example : leases_in (codes "f2") story [] ≤ creates_in (codes "f2") story
at_most_once_example = at_most_once (codes "f2") story story-IsCall

-- The story leases the second fire just once.
story_leases : leases_in (codes "f2") story [] ≡ 1
unfolding leases_in leases apply
story_leases = refl

history-IsRow_example : IsUnique (history story []) × All IsRow (history story [])
history-IsRow_example = history-IsRow story [] story-IsCall empty-IsUnique tt

-- The ledger after the crash of the second worker: one fire completed, one with an expired lease.
abbrev crashed : List (Fire (Json ℕ))
crashed = history (take 5 story) []

crashed-IsUnique : IsUnique crashed
crashed-IsUnique = history-IsUnique (take 5 story) [] empty-IsUnique

claim_next_fire-ClaimOf_example :
    ClaimOf clock watch_id 7 60
      (history (take 2 story) [])
      (claim_next_fire clock watch_id 7 60 (history (take 2 story) []))
claim_next_fire-ClaimOf_example =
    claim_next_fire-ClaimOf clock watch_id 7 60 (history (take 2 story) [])

recover_abandoned_example :
    let (after, n) = recover_abandoned 1000 none crashed in
    Rowwise (RecoveredRow 1000 none) crashed after
    × (n + count_where runs after ≡ count_where runs crashed)
recover_abandoned_example = recover_abandoned-RecoveredRow 1000 none crashed

-- That recovery takes one fire.
recovers_one : (recover_abandoned 1000 none crashed).1 ≡ 1
unfolding recover_abandoned history apply
recovers_one = refl

prune_results-counts_example :
    let (after, _, removed) = prune_results 1 crashed in
    (count_where is_terminal_row after ≡ min 1 (count_where is_terminal_row crashed))
    × (removed ≡ count_where is_terminal_row crashed - 1)
    × ((p : Fire (Json ℕ) → Bool)
        → ((r : Fire (Json ℕ)) → p r ≡ true → is_active r.status ≡ true)
        → count_where p after ≡ count_where p crashed)
prune_results-counts_example = prune_results-counts 1 crashed crashed-IsUnique

count_fires-prune_results-le_example :
    count_fires watch_id (prune_results 0 crashed).0 ≤ 0 + count_where (active_of watch_id) crashed
count_fires-prune_results-le_example =
    count_fires-prune_results-le watch_id 0 crashed crashed-IsUnique

-- Two fires had been made; after a sweep with retention 0 one of them counts.
undercounts :
    (count_fires watch_id crashed ≡ 2) × (count_fires watch_id (prune_results 0 crashed).0 ≡ 1)
unfolding count_fires prune_results history apply
undercounts = (refl, refl)
