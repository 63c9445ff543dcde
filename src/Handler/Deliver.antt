-- ===== src/Handler/Deliver.antt =====
-- src/picket/execution/handler.py: `_finalize` and `_deliver`, and what an execution leaves behind.
-- What it does to the ledger is the list of its transactions, between which those of other processes
-- may stand. The store's operations succeed.
use picket_mcp.Prelude.{
  ℕ, ◌-◌, ◌/◌, Text, codes, ℤ, Bool, true, false, Option, none, some, List, [], ◌∷◌, if◌then◌else◌,
}
use picket_mcp.Core.Json.{Json, text, object, end, field}
use picket_mcp.Core.Models.{WatchState, DeliveryEvent}
use picket_mcp.Store.Fire.{
  FireStatus, pending, running, completed, failed, timed_out, dead_lettered, skipped_overlap,
  DeliveryStatus, delivered, undelivered,
}
use picket_mcp.Store.Ledger.{Finish}
use picket_mcp.Store.Trace.{Transaction, finish, deliver}
use picket_mcp.Store.Ids.{runbook_dir, result_path}
use picket_mcp.Handler.Types.{Runbook, World, ◌>>=◌}
use picket_mcp.Handler.Runbooks.{join_path, read_runbook}
use picket_mcp.Handler.Payload.{text_or_null}

-- What `_write_result` writes to the fire's file.
pub record Artifact (N : Type 0) : Type 0 where
  pub fire_id : Text
  pub watch_id : Text
  pub runbook_id : Text
  pub status : FireStatus
  pub value : Json N
  pub started_at : ℕ
  pub ended_at : ℕ
  pub returncode : Option ℤ
  pub stdout : Text
  pub stderr : Text

-- The transactions in their order, the file, and whether an exception leaves the execution.
pub record Execution (N : Type 0) : Type 0 where
  pub writes : List (Transaction (Json N))
  pub artifact : Option (Artifact N)
  pub launches : ℕ
  pub raised : Bool

abbrev status_text : FireStatus → Text
status_text pending = codes "pending"
status_text running = codes "running"
status_text completed = codes "completed"
status_text failed = codes "failed"
status_text timed_out = codes "timed_out"
status_text dead_lettered = codes "dead_lettered"
status_text skipped_overlap = codes "skipped_overlap"

abbrev event_is : FireStatus → DeliveryEvent → Bool
event_is completed DeliveryEvent.completed = true
event_is failed DeliveryEvent.failed = true
event_is timed_out DeliveryEvent.timed_out = true
event_is dead_lettered DeliveryEvent.dead_lettered = true
event_is _ _ = false

-- status in delivery_events
unfoldable pub subscribed : FireStatus → List DeliveryEvent → Bool
subscribed status [] = false
subscribed status (e ∷ events) = if event_is status e then true else subscribed status events

-- `a or b` of texts
abbrev pub or_text : Text → Text → Text
or_text [] b = b
or_text (c ∷ a) b = c ∷ a

abbrev pub text_or : Option Text → Text → Text
text_or none b = b
text_or (some a) b = or_text a b

-- The keyword arguments of `_finalize` that are left out.
abbrev pub only_error : Text → Finish
only_error message = record {
  exit_code = none;
  error = some message;
  handler_pid = none;
  duration_ms = none;
  transcript_tail = none;
  result_path = none;
}

-- `state.notify_runbook` is a text that may be missing or empty.
abbrev wants_delivery : Option Text → FireStatus → List DeliveryEvent → Option Text
wants_delivery none status events = none
wants_delivery (some []) status events = none
wants_delivery (some (c ∷ s)) status events =
    if subscribed status events then some (c ∷ s) else none

module _ {N : Type 0} where
  abbrev delivery_payload : WatchState N → Text → FireStatus → Text → Text → Json N
  delivery_payload state fire_id status summary path = object (
      field (codes "watch_id") (text state.watch_id) (
        field (codes "fire_id") (text fire_id) (
          field (codes "status") (text (status_text status)) (
            field (codes "label") (text_or_null state.label) (
              field (codes "summary") (text summary)
                (field (codes "result_path") (text path) end))))))

  -- The receipt of a delivery to a runbook that was looked up.
  unfoldable pub deliver_to :
      World N → WatchState N → Text → FireStatus → Text → Option Runbook → Option DeliveryStatus
  unfolding runbook_dir result_path
  deliver_to world state fire_id status summary none = some undelivered
  deliver_to world state fire_id status summary (some rb) =
      result_path world.home fire_id >>= λ path. runbook_dir world.home rb.id >>= λ dir. some (
        if world.send (join_path dir rb.entry)
          (world.dumps (delivery_payload state fire_id status summary path))
        then delivered
        else undelivered)

  abbrev receipt : ℕ → Text → Option DeliveryStatus → Execution N
  receipt now fire_id none = record { writes = []; artifact = none; launches = 0; raised = true }
  receipt now fire_id (some st) = record {
    writes = deliver now fire_id st ∷ [];
    artifact = none;
    launches = 0;
    raised = false;
  }

  -- `_deliver`
  unfoldable pub deliver_fire : World N → WatchState N → Text → FireStatus → Text → Execution N
  unfolding subscribed read_runbook deliver_to
  deliver_fire world state fire_id status summary =
      elim (wants_delivery state.notify_runbook status state.delivery_events) [
        | none ↦ record { writes = []; artifact = none; launches = 0; raised = false }
        | some notify ↦ receipt (world.clock 4) fire_id (
            read_runbook world notify >>= λ found.
            deliver_to world state fire_id status summary found)
      ]

  -- `_finalize`
  unfoldable pub finalize : World N → WatchState N → Text → FireStatus → Finish → Execution N
  unfolding deliver_fire
  finalize world state fire_id status args =
      let timed = record args { duration_ms = some ((world.clock 2 - world.clock 1) / 1000) } in
      let sent = deliver_fire world state fire_id status (text_or args.error (codes "ok")) in
      record sent { writes = finish (world.clock 3) fire_id status timed ∷ sent.writes }
