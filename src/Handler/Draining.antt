-- ===== src/Handler/Draining.antt =====
-- src/picket/runtime/daemon.py: a worker that drains ends, and leaves no pending fire of its watch.
use picket_mcp.Prelude.{
  ℕ, zero, suc, ◌+◌, ◌≤◌, ◌<◌, Text, text_eq_refl, ◌≡◌, refl, sym, ap, ◌∙◌, Bool, if◌then◌else◌,
  true, false, not, ◌&&◌, none, some, List, [], ◌∷◌, arith, count_where, select, update_where, All,
  Option-cases, inl, inr, count_where-update_where-le, count_where-update_where, count_where-select,
  count_where_mono,
}
use picket_mcp.Core.Json.{Json}
use picket_mcp.Core.Models.{WatchState}
use picket_mcp.Store.Fire.{Fire, is_running}
use picket_mcp.Store.Ledger.{
  has_id, of_watch, oldest, pending_of, lease_row, claim_next_fire, finish_row, delivery_row,
  pid_row, finish_fire, set_delivery, set_running_pid,
}
use picket_mcp.Store.Trace.{
  Transaction, create, claim, finish, deliver, set_pid, recover, prune, apply, history,
}
use picket_mcp.Store.Claim.{oldest-count_where, claim_row-ClaimOf}
use picket_mcp.Store.Watches.{read_watch}
use picket_mcp.Daemon.Poll.{Db}
use picket_mcp.Handler.Worker.{execute}
use picket_mcp.Handler.Ends.{About, in_flight, execute-finishes}
use picket_mcp.Handler.Drain.{Visit, returns, on_watch, lease_of, worker_round, worker_run}

both_off : (a b h : Bool) → h ≡ true → (a && not h) ≡ (b && not h)
both_off a b h e = ground arith

module _ {N : Type 0} where
  count_where-split :
      (p q : Fire (Json N) → Bool) (fires : List (Fire (Json N)))
      → count_where p fires
        ≡ count_where (λ r. p r && not (q r)) fires + count_where (λ r. p r && q r) fires
  count_where-split p q [] = omega arith
  count_where-split p q (r ∷ fires) = ground (arith, count_where-split p q fires)

  -- A row of the watch that runs.
  abbrev pub running_of : Text → Fire (Json N) → Bool
  running_of w row = of_watch w row && is_running row.status

  -- The rows that pass `p` but for those of the fire `x`.
  abbrev but : Text → (Fire (Json N) → Bool) → Fire (Json N) → Bool
  but x p row = p row && not (has_id x row)

  -- What is about the fire `x` touches no row of another fire, and makes no row pending.
  apply-but :
      (x : Text) (p : Fire (Json N) → Bool) (t : Transaction (Json N))
      (fires : List (Fire (Json N)))
      → About x t
      → count_where (but x p) (apply t fires) ≡ count_where (but x p) fires
  unfolding apply finish_fire set_delivery set_running_pid
  apply-but x p (finish now id st args) fires a =
      count_where-update_where (but x p) (has_id id) (finish_row now st args) fires
        (λ r h. both_off _ (p r) (has_id x r) (rw (sym a.0) h))
  apply-but x p (deliver now id st) fires a =
      count_where-update_where (but x p) (has_id id) (delivery_row now st) fires
        (λ r h. both_off _ (p r) (has_id x r) (rw (sym a) h))
  apply-but x p (set_pid id pid) fires a =
      count_where-update_where (but x p) (has_id id) (pid_row pid) fires
        (λ r h. both_off _ (p r) (has_id x r) (rw (sym a) h))
  apply-but x p (create _ _ _ _ _ _ _ _) fires a = absurd (ground (arith, a))
  apply-but x p (claim _ _ _ _) fires a = absurd (ground (arith, a))
  apply-but x p (recover _ _) fires a = absurd (ground (arith, a))
  apply-but x p (prune _) fires a = absurd (ground (arith, a))

  apply-pending :
      (x w : Text) (t : Transaction (Json N)) (fires : List (Fire (Json N)))
      → About x t
      → count_where (pending_of w) (apply t fires) ≤ count_where (pending_of w) fires
  unfolding apply finish_fire set_delivery set_running_pid
  apply-pending x w (finish now id st args) fires a =
      count_where-update_where-le (pending_of w) (has_id id) (finish_row now st args) fires
        (λ r h. absurd (ground (arith, a.1, h)))
  apply-pending x w (deliver now id st) fires a =
      count_where-update_where-le (pending_of w) (has_id id) (delivery_row now st) fires (λ r h. h)
  apply-pending x w (set_pid id pid) fires a =
      count_where-update_where-le (pending_of w) (has_id id) (pid_row pid) fires (λ r h. h)
  apply-pending x w (create _ _ _ _ _ _ _ _) fires a = absurd (ground (arith, a))
  apply-pending x w (claim _ _ _ _) fires a = absurd (ground (arith, a))
  apply-pending x w (recover _ _) fires a = absurd (ground (arith, a))
  apply-pending x w (prune _) fires a = absurd (ground (arith, a))

  history-but :
      (x : Text) (p : Fire (Json N) → Bool) (ts : List (Transaction (Json N)))
      (fires : List (Fire (Json N)))
      → All (About x) ts
      → count_where (but x p) (history ts fires) ≡ count_where (but x p) fires
  unfolding history
  history-but x p [] fires a = refl
  history-but x p (t ∷ ts) fires a =
      history-but x p ts (apply t fires) a.1 ∙ apply-but x p t fires a.0

  history-pending :
      (x w : Text) (ts : List (Transaction (Json N))) (fires : List (Fire (Json N)))
      → All (About x) ts
      → count_where (pending_of w) (history ts fires) ≤ count_where (pending_of w) fires
  unfolding history
  history-pending x w [] fires a = omega arith
  history-pending x w (t ∷ ts) fires a =
      omega (arith, history-pending x w ts (apply t fires) a.1, apply-pending x w t fires a.0)

  claimed-pending :
      (clock : ℕ → ℕ) (w x : Text) (pid lease : ℕ) (fires : List (Fire (Json N)))
      → count_where (pending_of w) (update_where (has_id x) (lease_row clock pid lease) fires)
        ≤ count_where (but x (pending_of w)) fires
  claimed-pending clock w x pid lease [] = omega arith
  claimed-pending clock w x pid lease (r ∷ fires) =
      ground (arith, claimed-pending clock w x pid lease fires)

  -- A claim takes the rows of a fire of the watch out of those that wait, and touches no other.
  claim_row-counts :
      (clock : ℕ → ℕ) (w : Text) (pid lease : ℕ) (fires : List (Fire (Json N)))
      (row : Fire (Json N))
      → oldest (select (pending_of w) fires) ≡ some row
      → let after = update_where (has_id row.fire_id) (lease_row clock pid lease) fires in
        (count_where (pending_of w) after < count_where (pending_of w) fires)
        × (count_where (but row.fire_id (running_of w)) after
            ≡ count_where (but row.fire_id (running_of w)) fires)
  claim_row-counts clock w pid lease fires row e =
      let x = row.fire_id in
      let found =
        oldest-count_where (has_id x) (select (pending_of w) fires) row e (text_eq_refl x) in
      let same = count_where-select (has_id x) (pending_of w) fires in
      (
        omega (
          arith,
          found,
          same,
          claimed-pending clock w x pid lease fires,
          count_where-split (pending_of w) (has_id x) fires,
        ),
        count_where-update_where (but x (running_of w)) (has_id x) (lease_row clock pid lease) fires
            (λ r h. both_off _ (running_of w r) (has_id x r) h),
      )

  -- After the execution of a claimed fire fewer fires of the watch wait, and no more run than before
  -- the claim.
  record Fewer (w : Text) (before after : List (Fire (Json N))) : Type 0 where
    waiting : count_where (pending_of w) after < count_where (pending_of w) before
    busy : count_where (running_of w) after ≤ count_where (running_of w) before

  executed-Fewer :
      (visit : Visit N) (state : WatchState N) (w : Text) (pid lease : ℕ)
      (fires : List (Fire (Json N))) (row : Fire (Json N))
      → oldest (select (pending_of w) fires) ≡ some row
      → Fewer w fires (
          history
            (execute visit.world visit.cancelled visit.err state row)
            (update_where (has_id row.fire_id) (lease_row visit.clock pid lease) fires))
  executed-Fewer visit state w pid lease fires row e =
      let x = row.fire_id in
      let claimed = update_where (has_id x) (lease_row visit.clock pid lease) fires in
      let ts = execute visit.world visit.cancelled visit.err state row in
      let (about, gone) =
        execute-finishes visit.world visit.cancelled visit.err state row claimed in
      let (fewer, kept) = claim_row-counts visit.clock w pid lease fires row e in
      let none_left =
        count_where_mono (λ r. running_of w r && has_id x r) (in_flight x) (history ts claimed)
          (λ r h. ground arith) in
      record {
        waiting = omega (arith, fewer, history-pending x w ts claimed about);
        busy = omega (
          arith,
          kept,
          gone,
          none_left,
          history-but x (running_of w) ts claimed about,
          count_where-split (running_of w) (has_id x) (history ts claimed),
          count_where-split (running_of w) (has_id x) fires,
        );
      }

  worker_round-stays :
      (visit : Visit N) (pid : ℕ) (draining : Bool) (w : Text) (db : Db N)
      → visit.leaving ≡ false
      → worker_round visit pid draining w db
        ≡ on_watch visit pid draining w db.fires (read_watch w db.watches)
  unfolding worker_round
  worker_round-stays visit pid draining w db stays =
      ap
        (λ b.
          if b then returns else on_watch visit pid draining w db.fires (read_watch w db.watches))
        stays

  -- With the watch there, the worker told to drain and not cancelled, and nobody else at the ledger, as many rounds as
  -- fires of the watch wait and one more are enough: the worker returns, no fire of the watch waits,
  -- and no more of its fires run than before.
  pub worker_run-drains :
      (n : ℕ) (visits : ℕ → Visit N) (pid : ℕ) (w : Text) (db : Db N) (state : WatchState N)
      → read_watch w db.watches ≡ some state
      → ((m : ℕ) → m < n → (visits m).leaving ≡ false)
      → count_where (pending_of w) db.fires < n
      → (after : List (Fire (Json N))) × (worker_run n visits pid true w db ≡ some after)
        × (count_where (pending_of w) after ≡ 0)
        × (count_where (running_of w) after ≤ count_where (running_of w) db.fires)
  unfolding worker_run claim_next_fire
  worker_run-drains zero visits pid w db state read stays few = absurd (omega arith)
  worker_run-drains (suc n) visits pid w db state read stays few =
      let here = worker_round-stays (visits n) pid true w db (stays n (omega arith)) in
      elim (Option-cases (oldest (select (pending_of w) db.fires))) [
        | inl none_waits ↦ (
          db.fires,
          rw here (rw read (rw none_waits refl)),
          (claim_row-ClaimOf (visits n).clock w pid 0 db.fires none none_waits).0,
          omega arith,
        )
        | inr (row, found) ↦
            let lease = lease_of state in
            let fires =
              history (execute (visits n).world (visits n).cancelled (visits n).err state row) (
                update_where (has_id row.fire_id) (lease_row (visits n).clock pid lease)
                  db.fires) in
            let step = executed-Fewer (visits n) state w pid lease db.fires row found in
            let (after, ends, empty, busy) =
              worker_run-drains n visits pid w (record db { fires = fires }) state read
                (λ m h. stays m (omega (arith, h))) (omega (arith, step.waiting)) in
            (after, rw here (rw read (rw found ends)), empty, omega (arith, busy, step.busy))
      ]
