-- ===== src/Store/Fire.antt =====
-- src/picket/persistence/store.py: a row of the `fires` table. `V` is the type of the JSON values in
-- the columns `value` and `payload`: the columns hold their JSON text, the model the values. A
-- timestamp is a number of microseconds; all are written by `now_iso` in UTC, so that the order of
-- the texts is the order of the times.
use picket_mcp.Prelude.{ℕ, ℤ, Text, Bool, true, false, Option}

-- The values of the column `status`.
pub data FireStatus : Type 0 where
  pending running completed failed timed_out dead_lettered skipped_overlap : FireStatus

pub data DeliveryStatus : Type 0 where
  delivered undelivered skipped : DeliveryStatus

pub record Fire (V : Type 0) : Type 0 where
  pub fire_id : Text
  pub watch_id : Text
  pub idem_key : Option Text
  pub status : FireStatus
  pub runbook_id : Option Text
  pub value : Option V
  pub payload : Option V
  pub started_at : Option ℕ
  pub ended_at : Option ℕ
  pub exit_code : Option ℤ
  pub error : Option Text
  pub handler_pid : Option ℕ
  pub duration_ms : Option ℕ
  pub transcript_tail : Option Text
  pub result_path : Option Text
  pub worker_pid : Option ℕ
  pub lease_expires_at : Option ℕ
  pub delivery_status : Option DeliveryStatus
  pub delivered_at : Option ℕ
  pub created_at : ℕ

abbrev pub is_pending : FireStatus → Bool
is_pending pending = true
is_pending _ = false

abbrev pub is_running : FireStatus → Bool
is_running running = true
is_running _ = false

-- status IN ('pending','running')
abbrev pub is_active : FireStatus → Bool
is_active pending = true
is_active running = true
is_active _ = false

abbrev pub is_skipped_overlap : FireStatus → Bool
is_skipped_overlap skipped_overlap = true
is_skipped_overlap _ = false

-- What `_fire_dict` shows of a row: the columns of `_FIRE_PUBLIC`, the value and the payload.
pub record FireDict (V : Type 0) : Type 0 where
  pub fire_id : Text
  pub watch_id : Text
  pub runbook_id : Option Text
  pub status : FireStatus
  pub started_at : Option ℕ
  pub ended_at : Option ℕ
  pub exit_code : Option ℤ
  pub error : Option Text
  pub handler_pid : Option ℕ
  pub duration_ms : Option ℕ
  pub transcript_tail : Option Text
  pub result_path : Option Text
  pub delivery_status : Option DeliveryStatus
  pub delivered_at : Option ℕ
  pub idem_key : Option Text
  pub created_at : ℕ
  pub value : Option V
  pub payload : Option V

unfoldable pub fire_dict : {V : Type 0} → Fire V → FireDict V
fire_dict row = record {
  fire_id = row.fire_id;
  watch_id = row.watch_id;
  runbook_id = row.runbook_id;
  status = row.status;
  started_at = row.started_at;
  ended_at = row.ended_at;
  exit_code = row.exit_code;
  error = row.error;
  handler_pid = row.handler_pid;
  duration_ms = row.duration_ms;
  transcript_tail = row.transcript_tail;
  result_path = row.result_path;
  delivery_status = row.delivery_status;
  delivered_at = row.delivered_at;
  idem_key = row.idem_key;
  created_at = row.created_at;
  value = row.value;
  payload = row.payload;
}
