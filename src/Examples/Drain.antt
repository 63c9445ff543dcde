-- ===== src/Examples/Drain.antt =====
-- The theorem of the worker that drains at a concrete input: two fires wait, and a third runs elsewhere.
use picket_mcp.Prelude.{
  ℕ, ◌≤◌, codes, ◌≡◌, refl, true, false, none, some, List, [], ◌∷◌, count_where, text_eq, arith,
}
use picket_mcp.Core.Json.{Json}
use picket_mcp.Store.Fire.{Fire, pending, running}
use picket_mcp.Store.Ledger.{pending_of}
use picket_mcp.Store.Watches.{watch_row, read_watch}
use picket_mcp.Daemon.Poll.{Db}
use picket_mcp.Handler.Drain.{Visit, worker_run}
use picket_mcp.Handler.Draining.{running_of, worker_run-drains}
use picket_mcp.Examples.Sample.{watch, watch_id, clock, row}
use picket_mcp.Examples.Handler.{world}

abbrev visit : Visit ℕ
visit = record {
  leaving = false;
  clock = clock;
  world = world;
  err = codes "error";
  cancelled = false;
}

abbrev database : Db ℕ
database = record {
  watches = watch_row 5 watch ∷ [];
  fires =
      row (codes "f1") (codes "w:1") pending none 10
      ∷ row (codes "f2") (codes "w:2") running (some 50) 20
      ∷ row (codes "f3") (codes "w:3") pending none 30
      ∷ [];
}

worker_run-drains_example :
    (after : List (Fire (Json ℕ))) × (worker_run 3 (λ n. visit) 7 true watch_id database
      ≡ some after)
    × (count_where (pending_of watch_id) after ≡ 0)
    × (count_where (running_of watch_id) after ≤ count_where (running_of watch_id) database.fires)
unfolding read_watch text_eq
worker_run-drains_example =
    worker_run-drains 3 (λ n. visit) 7 watch_id database watch refl (λ m h. refl) (omega arith)
