-- ===== src/Store/Ledger.antt =====
-- src/picket/persistence/store.py: the fire ledger, the operations on the table `fires`. A table is
-- the list of its rows in rowid order; each operation is one transaction. `clock k` is the reading
-- that the k-th mention of the time in an operation's text takes.
use picket_mcp.Prelude.{
  ℕ, ℤ, ◌+◌, Text, text_eq, Bool, true, false, not, ◌&&◌, ◌||◌, Option, none, some, List, [], ◌∷◌,
  ◌++◌, leb, is_some, select, count_where, update_where, exists_where, if◌then◌else◌,
}
use picket_mcp.Store.Fire.{
  Fire, FireStatus, DeliveryStatus, pending, running, skipped_overlap, is_pending, is_running,
  is_active, is_skipped_overlap,
}

-- The keyword arguments of `finish_fire`.
pub record Finish : Type 0 where
  pub exit_code : Option ℤ
  pub error : Option Text
  pub handler_pid : Option ℕ
  pub duration_ms : Option ℕ
  pub transcript_tail : Option Text
  pub result_path : Option Text

-- Equality of two nullable columns as the partial unique index sees it: NULL equals nothing.
unfoldable pub same_key : Option Text → Option Text → Bool
unfolding text_eq
same_key (some a) (some b) = text_eq a b
same_key _ _ = false

-- Times in ORDER BY: NULL comes before every time.
abbrev time_leb : Option ℕ → Option ℕ → Bool
time_leb none _ = true
time_leb (some a) none = false
time_leb (some a) (some b) = leb a b

unfoldable pub started_of : (ℕ → ℕ) → FireStatus → Option ℕ
started_of clock pending = none
started_of clock _ = some (clock 0)

unfoldable pub ended_of : (ℕ → ℕ) → FireStatus → Option ℕ
ended_of clock skipped_overlap = some (clock 1)
ended_of clock _ = none

module _ {V : Type 0} where
  abbrev pub of_watch : Text → Fire V → Bool
  of_watch watch_id row = text_eq row.watch_id watch_id

  abbrev pub has_id : Text → Fire V → Bool
  has_id fire_id row = text_eq row.fire_id fire_id

  -- The primary key or the unique index on `idem_key` refuses the row.
  abbrev pub conflicts : Text → Option Text → Fire V → Bool
  conflicts fire_id idem_key row = has_id fire_id row || same_key row.idem_key idem_key

  abbrev pub new_row :
      (ℕ → ℕ) → Text → Text → FireStatus → Option Text → Option Text → V → Option V → Fire V
  new_row clock fire_id watch_id status runbook_id idem_key value payload = record {
    fire_id = fire_id;
    watch_id = watch_id;
    idem_key = idem_key;
    status = status;
    runbook_id = runbook_id;
    value = some value;
    payload = payload;
    started_at = started_of clock status;
    ended_at = ended_of clock status;
    exit_code = none;
    error = none;
    handler_pid = none;
    duration_ms = none;
    transcript_tail = none;
    result_path = none;
    worker_pid = none;
    lease_expires_at = none;
    delivery_status = none;
    delivered_at = none;
    created_at = clock 2;
  }

  unfoldable pub create_fire :
      (ℕ → ℕ)
      → Text
      → Text
      → FireStatus
      → Option Text
      → Option Text
      → V
      → Option V
      → List (Fire V)
      → List (Fire V) × Bool
  unfolding same_key started_of ended_of
  create_fire clock fire_id watch_id status runbook_id idem_key value payload fires =
      if exists_where (conflicts fire_id idem_key) fires then (fires, false) else (
        fires ++ new_row clock fire_id watch_id status runbook_id idem_key value payload ∷ [],
        true,
      )

  -- ORDER BY created_at LIMIT 1; of two rows of the same time, the one with the smaller rowid.
  abbrev pub older_of : Fire V → Option (Fire V) → Option (Fire V)
  older_of row none = some row
  older_of row (some other) = if leb row.created_at other.created_at then some row else some other

  unfoldable pub oldest : List (Fire V) → Option (Fire V)
  oldest [] = none
  oldest (row ∷ rows) = older_of row (oldest rows)

  abbrev pub pending_of : Text → Fire V → Bool
  pending_of watch_id row = of_watch watch_id row && is_pending row.status

  abbrev pub lease_row : (ℕ → ℕ) → ℕ → ℕ → Fire V → Fire V
  lease_row clock worker_pid lease_seconds row = record row {
    status = running;
    worker_pid = some worker_pid;
    lease_expires_at = some (clock 0 + lease_seconds);
    started_at = some (clock 1);
  }

  abbrev pub claim_row :
      (ℕ → ℕ) → ℕ → ℕ → List (Fire V) → Option (Fire V) → List (Fire V) × Option (Fire V)
  claim_row clock worker_pid lease_seconds fires none = (fires, none)
  claim_row clock worker_pid lease_seconds fires (some row) =
      (update_where (has_id row.fire_id) (lease_row clock worker_pid lease_seconds) fires, some row)

  -- The row comes back as it was before the update.
  unfoldable pub claim_next_fire :
      (ℕ → ℕ) → Text → ℕ → ℕ → List (Fire V) → List (Fire V) × Option (Fire V)
  unfolding oldest text_eq
  claim_next_fire clock watch_id worker_pid lease_seconds fires =
      claim_row clock worker_pid lease_seconds fires (oldest (select (pending_of watch_id) fires))

  abbrev pub finish_row : ℕ → FireStatus → Finish → Fire V → Fire V
  finish_row now status args row = record row {
    status = status;
    exit_code = args.exit_code;
    error = args.error;
    handler_pid = args.handler_pid;
    duration_ms = args.duration_ms;
    transcript_tail = args.transcript_tail;
    result_path = args.result_path;
    ended_at = some now;
    lease_expires_at = none;
  }

  unfoldable pub finish_fire : ℕ → Text → FireStatus → Finish → List (Fire V) → List (Fire V)
  unfolding text_eq
  finish_fire now fire_id status args fires =
      update_where (has_id fire_id) (finish_row now status args) fires

  abbrev pub delivery_row : ℕ → DeliveryStatus → Fire V → Fire V
  delivery_row now delivery_status row = record row {
    delivery_status = some delivery_status;
    delivered_at = some now;
  }

  unfoldable pub set_delivery : ℕ → Text → DeliveryStatus → List (Fire V) → List (Fire V)
  unfolding text_eq
  set_delivery now fire_id delivery_status fires =
      update_where (has_id fire_id) (delivery_row now delivery_status) fires

  abbrev pub pid_row : ℕ → Fire V → Fire V
  pid_row pid row = record row { handler_pid = some pid }

  unfoldable pub set_running_pid : Text → ℕ → List (Fire V) → List (Fire V)
  unfolding text_eq
  set_running_pid fire_id pid fires = update_where (has_id fire_id) (pid_row pid) fires

  abbrev pub running_handler_of : Text → Fire V → Bool
  running_handler_of watch_id row =
      of_watch watch_id row && is_running row.status && is_some row.handler_pid

  -- ORDER BY started_at DESC LIMIT 1
  abbrev pub later_started : Fire V → Option (Fire V) → Option (Fire V)
  later_started row none = some row
  later_started row (some other) =
      if time_leb other.started_at row.started_at then some row else some other

  unfoldable pub latest_started : List (Fire V) → Option (Fire V)
  latest_started [] = none
  latest_started (row ∷ rows) = later_started row (latest_started rows)

  abbrev pub handler_pid_of : Option (Fire V) → Option ℕ
  handler_pid_of none = none
  handler_pid_of (some row) = row.handler_pid

  unfoldable pub active_handler_pid : Text → List (Fire V) → Option ℕ
  unfolding latest_started text_eq
  active_handler_pid watch_id fires =
      handler_pid_of (latest_started (select (running_handler_of watch_id) fires))

  abbrev pub counts_for : Text → Fire V → Bool
  counts_for watch_id row = of_watch watch_id row && not (is_skipped_overlap row.status)

  unfoldable pub count_fires : Text → List (Fire V) → ℕ
  unfolding text_eq
  count_fires watch_id fires = count_where (counts_for watch_id) fires

  abbrev pub active_of : Text → Fire V → Bool
  active_of watch_id row = of_watch watch_id row && is_active row.status

  unfoldable pub has_active_fire : Text → List (Fire V) → Bool
  unfolding text_eq
  has_active_fire watch_id fires = exists_where (active_of watch_id) fires
