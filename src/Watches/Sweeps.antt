-- ===== src/Watches/Sweeps.antt =====
-- src/picket/runtime/supervisor.py: which daemons `reconcile` starts, and what it does to the ledger.
use picket_mcp.Prelude.{
  ℕ, ◌≤◌, Text, text_eq, text_eq_iff, ◌≡◌, refl, ap, ◌∙◌, Bool, false, ◌&&◌, ◌||◌, Option, none,
  some, List, [], ◌∷◌, map, arith, exists_where, select, count_where, Bool-cases, inl, inr,
}
use picket_mcp.Core.Json.{Json}
use picket_mcp.Core.Models.{DesiredStatus}
use picket_mcp.Core.Errors.{success}
use picket_mcp.Store.Fire.{Fire}
use picket_mcp.Store.History.{is_abandoned, recover_abandoned, is_terminal_row}
use picket_mcp.Store.Integrity.{IsUnique, apply-IsUnique}
use picket_mcp.Store.Trace.{recover, apply}
use picket_mcp.Store.Claim.{waits}
use picket_mcp.Store.Recovery.{recover_abandoned_lem}
use picket_mcp.Store.Retention.{prune_results-counts}
use picket_mcp.Store.Keyed.{IsKeyed}
use picket_mcp.Store.Watches.{
  WatchRow, read_watch, insert_id, sort_ids, watch_ids_by_desired, desired_eq,
}
use picket_mcp.Daemon.Poll.{Db}
use picket_mcp.Watches.Liveness.{ProcessTable}
use picket_mcp.Watches.Control.{Tables, Stopped, stop_watch}
use picket_mcp.Watches.Stopping.{stop_watch-IsSettled}
use picket_mcp.Watches.Reconcile.{is_dead, restarts, reconcile}

-- w in ws
abbrev pub has : Text → List Text → Bool
has w ws = exists_where (λ v. text_eq v w) ws

has-insert_id : (w v : Text) (ws : List Text) → has w (insert_id v ws) ≡ (text_eq v w || has w ws)
unfolding insert_id
has-insert_id w v [] = ground arith
has-insert_id w v (x ∷ xs) = ground (arith, has-insert_id w v xs)

has-sort_ids : (w : Text) (ws : List Text) → has w (sort_ids ws) ≡ has w ws
unfolding sort_ids
has-sort_ids w [] = refl
has-sort_ids w (v ∷ ws) = ground (arith, has-insert_id w v (sort_ids ws), has-sort_ids w ws)

module _ {N : Type 0} where
  has-restarts :
      (processes : ProcessTable) (table : List (WatchRow N)) (w : Text) (ws : List Text)
      → has w (restarts processes table ws) ≡ (has w ws && is_dead processes (read_watch w table))
  unfolding restarts
  has-restarts processes table w [] = refl
  has-restarts processes table w (v ∷ ws) = elim (Bool-cases (text_eq v w)) [
    | inl e ↦
        let same = (text_eq_iff v w).0 e in
        ground (
          arith,
          ap (λ u. is_dead processes (read_watch u table)) same,
          has-restarts processes table w ws,
        )
    | inr e ↦ ground (arith, has-restarts processes table w ws)
  ]

  -- The row is the watch's and wants it active.
  abbrev pub wants_active : Text → WatchRow N → Bool
  wants_active w row = text_eq row.watch_id w && desired_eq row.desired DesiredStatus.active

  has-desired :
      (w : Text) (table : List (WatchRow N))
      → has w (
          map
            (λ row. row.watch_id)
            (select (λ row. desired_eq row.desired DesiredStatus.active) table))
        ≡ exists_where (wants_active w) table
  has-desired w [] = refl
  has-desired w (row ∷ rows) = ground (arith, has-desired w rows)

  -- A sweep starts the daemon of a watch exactly if a row of the watch wants it active, its state is
  -- active or errored, and its recorded process is not alive.
  pub reconcile-restarted :
      (processes : ProcessTable) (now retention : ℕ) (db : Db N) (w : Text)
      → has w (reconcile processes now retention db).restarted
        ≡ (exists_where (wants_active w) db.watches && is_dead processes (read_watch w db.watches))
  unfolding reconcile watch_ids_by_desired
  reconcile-restarted processes now retention db w =
      has-restarts processes db.watches w (watch_ids_by_desired DesiredStatus.active db.watches)
      ∙ ap (λ b. b && is_dead processes (read_watch w db.watches))
          (has-sort_ids w _ ∙ has-desired w db.watches)

  -- After a stop that succeeds, a sweep does not start the daemon of the watch again, whatever runs.
  pub reconcile-stop_watch :
      (processes processes' : ProcessTable) (clock : ℕ → ℕ) (now retention : ℕ) (w mode : Text)
      (tables : Tables N) (s : Stopped)
      → IsKeyed tables.db.watches
      → (stop_watch processes clock w mode tables).reply ≡ some (success s)
      → has w
          (reconcile processes' now retention
            (stop_watch processes clock w mode tables).tables.db).restarted
        ≡ false
  reconcile-stop_watch processes processes' clock now retention w mode tables s keyed h =
      let settled = stop_watch-IsSettled processes clock w mode tables s keyed h in
      reconcile-restarted processes' now retention _ w ∙ rw settled.stopped (ground arith)

  recover_abandoned-IsUnique :
      (now : ℕ) (w : Option Text) (fires : List (Fire (Json N)))
      → IsUnique fires
      → IsUnique (recover_abandoned now w fires).0
  unfolding apply
  recover_abandoned-IsUnique now w fires u = apply-IsUnique (recover now w) fires u

  -- After a sweep no running fire has a lease that ran out before it, the terminal fires are at most
  -- the retention, the fires that wait are those that waited, and no watch has changed.
  pub reconcile-ledger :
      (processes : ProcessTable) (now retention : ℕ) (db : Db N)
      → IsUnique db.fires
      → let after = (reconcile processes now retention db).db in
        (count_where (is_abandoned now none) after.fires ≡ 0)
        × (count_where is_terminal_row after.fires ≤ retention)
        × ((x : Text) → count_where (waits x) after.fires ≡ count_where (waits x) db.fires)
        × (after.watches ≡ db.watches)
  unfolding reconcile
  reconcile-ledger processes now retention db u =
      let recovered = (recover_abandoned now none db.fires).0 in
      let (_, waiting, again) = recover_abandoned_lem now none db.fires in
      let (terminal, _, in_flight) =
        prune_results-counts retention recovered (recover_abandoned-IsUnique now none db.fires u) in
      (
        in_flight (is_abandoned now none) (λ r h. ground arith) ∙ ap (λ q. q.1) again,
        omega (arith, terminal),
        λ x. in_flight (waits x) (λ r h. ground arith) ∙ waiting x,
        refl,
      )
