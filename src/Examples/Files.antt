-- ===== src/Examples/Files.antt =====
-- A log and a result file that two processes write at once.
use picket_mcp.Prelude.{
  ℕ, ℤ, pos, negsuc, refl, ◌≤◌, Text, codes, ◌≡◌, ◌⊎◌, none, List, [], ◌∷◌, ◌++◌, arith,
}
use picket_mcp.Store.Atomic.{write_json_atomic, run_schedule}
use picket_mcp.Store.Swapping.{IsNew, IsReplaced, write_json_atomic-IsReplaced}
use picket_mcp.Store.Logs.{size, append_log, log_tail, slice_from_end}
use picket_mcp.Store.Logging.{
  append_all, no_log, content_of, LogWithin, append_all-LogWithin, log_tail-append_all,
}

abbrev path : Text
path = codes "r.json"

abbrev parts : ℕ → List Text
parts pid = codes "{" ∷ (pid ∷ []) ∷ codes "}" ∷ []

-- The processes 7 and 8 take turns, and 8 is killed before its last step.
abbrev schedule : List ℕ
schedule = 7 ∷ 8 ∷ 7 ∷ 8 ∷ 7 ∷ 8 ∷ 7 ∷ 8 ∷ 7 ∷ []

write_json_atomic-IsReplaced_example :
    let (left, after) =
      run_schedule schedule (λ pid. write_json_atomic pid path (parts pid)) (λ p. none) in
    ((after path ≡ none) ⊎ IsNew path parts (after path)) × IsReplaced path parts left after
write_json_atomic-IsReplaced_example = write_json_atomic-IsReplaced path parts schedule (λ p. none)

abbrev lines : List Text
lines = codes "one" ∷ codes "two" ∷ codes "three" ∷ []

append_all-LogWithin_example : LogWithin 14 (append_all 8 lines no_log)
unfolding size
append_all-LogWithin_example = append_all-LogWithin 8 5 lines no_log (ground arith) (tt, tt)

log_tail-append_all_example :
    let log = append_log 8 (codes "three") (append_all 8 (codes "one" ∷ codes "two" ∷ []) no_log) in
    (dropped : List Text) × (kept : List Text) × (codes "one" ∷ codes "two" ∷ [] ≡ dropped ++ kept)
    × ((n : ℤ) → log_tail n log ≡ slice_from_end n (kept ++ codes "three" ∷ []))
    × (size (content_of (codes "one" ∷ codes "two" ∷ [])) ≤ 8 → dropped ≡ [])
log_tail-append_all_example =
    log_tail-append_all 8 (codes "one" ∷ codes "two" ∷ []) (codes "three") (ground arith)
      (ground arith)

-- The last no lines, and the last minus one lines.
no_lines :
    (slice_from_end (pos 0) lines ≡ lines)
    × (slice_from_end (negsuc 0) lines ≡ codes "two" ∷ codes "three" ∷ [])
unfolding slice_from_end
no_lines = (refl, refl)
