-- ===== src/Examples/Scheduler.antt =====
-- The theorems of the scheduler at concrete inputs.
use picket_mcp.Prelude.{
  ℕ, ◌+◌, ◌≤◌, codes, ◌≡◌, refl, false, none, List, [], ◌∷◌, arith, All, count_where,
}
use picket_mcp.Condition.Extract.{extract}
use picket_mcp.Condition.Predicate.{is_satisfied}
use picket_mcp.Store.Ledger.{active_of, has_active_fire, create_fire, count_fires}
use picket_mcp.Store.Watches.{write_watch}
use picket_mcp.Store.Trace.{claim, finish, apply}
use picket_mcp.Store.Fire.{completed}
use picket_mcp.Store.Integrity.{IsUnique}
use picket_mcp.Daemon.Decimal.{decimal}
use picket_mcp.Daemon.Window.{gates_open}
use picket_mcp.Daemon.Poll.{
  observe, observe_endpoint, poll_once, poll_with, edge, decide, wants_fire, fire_branch, enqueue,
  idem_of, settle,
}
use picket_mcp.Daemon.System.{
  System, Turn, poll, work, IsTurn, queued_of, turn, run_turns, rises, rises_in, held_after, begun,
}
use picket_mcp.Daemon.Episodes.{once_per_episode, one_in_flight}
use picket_mcp.Daemon.Gates.{FiredFrom, poll_once-FiredFrom}
use picket_mcp.Examples.Sample.{
  nat_numbers, watch, watch_id, answering, clock, fire_id, empty_db, nothing,
}

-- What a poll computes with.
program : Unit {0}
unfolding poll_once poll_with observe observe_endpoint extract is_satisfied edge decide wants_fire
    gates_open fire_branch enqueue has_active_fire create_fire idem_of decimal settle count_fires
    write_watch turn run_turns rises held_after rises_in apply
program = tt

-- The condition holds, goes off and holds again, while a worker serves the first fire.
abbrev day : List (Turn ℕ)
day =
    poll (answering 12) clock fire_id
    ∷ poll (answering 13) clock (codes "f2")
    ∷ work (claim clock watch_id 7 60)
    ∷ work (finish 40 fire_id completed nothing)
    ∷ poll (answering 5) (λ k. 50 + k) (codes "f3")
    ∷ poll (answering 20) (λ k. 60 + k) (codes "f4")
    ∷ []

abbrev start : System ℕ
start = record { state = watch; db = empty_db }

day-IsTurn : All IsTurn day
day-IsTurn = ground arith

start-IsUnique : IsUnique start.db.fires
start-IsUnique = record { ids = λ x. omega arith; keys = λ k. omega arith }

once_per_episode_example :
    count_where (queued_of watch_id) (run_turns nat_numbers day start).db.fires
    ≤ 0 + 0 + rises_in nat_numbers day start false
once_per_episode_example =
    once_per_episode nat_numbers day start watch_id false refl (λ e. absurd (ground arith))
      day-IsTurn

one_in_flight_example :
    count_where (active_of watch_id) (run_turns nat_numbers day start).db.fires ≤ 1
one_in_flight_example =
    one_in_flight nat_numbers day start watch_id refl day-IsTurn start-IsUnique (omega arith)

-- The day has two episodes, and each queued one fire.
day_fires :
    (count_where (queued_of watch_id) (run_turns nat_numbers day start).db.fires ≡ 2)
    × (rises_in nat_numbers day start false ≡ 2)
unfolding program
day_fires = (refl, refl)

poll_once-FiredFrom_example :
    FiredFrom 14
      (observe nat_numbers (answering 12) (begun clock watch) none)
      (begun clock watch)
      (poll_once nat_numbers (answering 12) clock fire_id watch empty_db).state
      []
unfolding program
poll_once-FiredFrom_example =
    poll_once-FiredFrom nat_numbers (answering 12) clock fire_id watch empty_db (omega arith)
