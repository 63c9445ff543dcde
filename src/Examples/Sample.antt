-- ===== src/Examples/Sample.antt =====
-- Sample data: a watch on an endpoint, natural numbers as the program's numbers, and a ledger.
use picket_mcp.Prelude.{
  ℕ, ◌+◌, ◌-◌, ◌*◌, ◌/◌, Text, codes, false, Option, none, some, List, [], ◌∷◌, ltb, leb, ◌==◌,
}
use picket_mcp.Core.Json.{Json, null, number, Numbers}
use picket_mcp.Core.Models.{
  EndpointSpec, PredicateSpec, gt, BaselineMode, Threshold, WatchState, WatchStatus, DesiredStatus,
  DriftPolicy,
}
use picket_mcp.Condition.Extract.{Observed, ok}
use picket_mcp.Store.Fire.{Fire, FireStatus, pending, completed}
use picket_mcp.Store.Ledger.{Finish}
use picket_mcp.Store.Trace.{Transaction, create, claim, finish, recover, prune}
use picket_mcp.Daemon.Poll.{Sources, Db}

abbrev pub nat_numbers : Numbers ℕ
nat_numbers = record {
  to_float = λ n. some n;
  parse_float = λ s. none;
  of_bool = λ b. 0;
  lt = ltb;
  le = leb;
  eq = ◌==◌;
  sub = ◌-◌;
  mul = ◌*◌;
  div = ◌/◌;
  zero = 0;
  hundred = 100;
}

abbrev pub endpoint : EndpointSpec ℕ
endpoint = record {
  url = codes "https://x/spx";
  method = codes "GET";
  headers = [];
  body = null;
  auth_ref = none;
}

abbrev pub predicate : PredicateSpec ℕ
predicate = record {
  path = codes "$.last";
  op = gt;
  value = some (Threshold.number 10);
  baseline_mode = BaselineMode.last_value;
  baseline_value = none;
  baseline_path = none;
}

abbrev pub watch_id : Text
watch_id = codes "w"

abbrev pub watch : WatchState ℕ
watch = record {
  watch_id = watch_id;
  runbook_id = codes "rb";
  runbook_rev = none;
  endpoint = some endpoint;
  predicate = some predicate;
  probe_id = none;
  probe_rev = none;
  probe_params = null;
  cadence = record { interval_seconds = 30; jitter_seconds = 0; active_window = none };
  label = none;
  status = WatchStatus.active;
  desired_status = DesiredStatus.active;
  max_fires = some 1;
  ttl_seconds = none;
  debounce_seconds = 0;
  cooldown_seconds = 5;
  handler_timeout_seconds = 600;
  max_retries = 0;
  drift_policy = DriftPolicy.block;
  notify_runbook = none;
  delivery_events = [];
  skip_permissions = false;
  created_at = some 1;
  baseline = null;
  last_value = null;
  last_observed_at = none;
  last_error = none;
  satisfied = false;
  satisfied_since = none;
  fired_this_episode = false;
  episode_seq = 0;
  heartbeat_at = none;
  fire_count = 0;
  last_fire_at = some 3;
  pid = none;
  pgid = none;
  proc_create_time = none;
}

-- Every fetch answers with the number.
abbrev pub answering : ℕ → Sources ℕ
answering n = record {
  probe = λ state. ok (record { value = null; satisfied = false; payload = none });
  fetch = λ ep. ok (number n);
  find = λ path doc. some (doc ∷ []);
}

abbrev pub failing : Sources ℕ
failing = record {
  probe = λ state. Observed.crash;
  fetch = λ ep. Observed.observe_error (codes "fetch failed");
  find = λ path doc. none;
}

abbrev pub clock : ℕ → ℕ
clock k = 10 + k

abbrev pub fire_id : Text
fire_id = codes "f1"

abbrev pub empty_db : Db ℕ
empty_db = record { watches = []; fires = [] }

abbrev pub nothing : Finish
nothing = record {
  exit_code = none;
  error = none;
  handler_pid = none;
  duration_ms = none;
  transcript_tail = none;
  result_path = none;
}

abbrev pub new_fire : ℕ → Text → Text → Transaction (Json ℕ)
new_fire t id key =
    create (λ k. t + k) id watch_id pending (some (codes "rb")) (some key) (number t) none

-- Two fires are queued, one of them is leased and finished, the other's worker crashes.
abbrev pub story : List (Transaction (Json ℕ))
story =
    new_fire 10 (codes "f1") (codes "w:1")
    ∷ new_fire 20 (codes "f2") (codes "w:2")
    ∷ claim clock watch_id 7 60
    ∷ finish 40 (codes "f1") completed nothing
    ∷ claim clock watch_id 7 60
    ∷ recover 1000 none
    ∷ claim clock watch_id 7 60
    ∷ prune 1
    ∷ []

-- The ledger after the first transactions of the story.
abbrev pub row : Text → Text → FireStatus → Option ℕ → ℕ → Fire (Json ℕ)
row id key status lease t = record {
  fire_id = id;
  watch_id = watch_id;
  idem_key = some key;
  status = status;
  runbook_id = some (codes "rb");
  value = some (number t);
  payload = none;
  started_at = none;
  ended_at = none;
  exit_code = none;
  error = none;
  handler_pid = none;
  duration_ms = none;
  transcript_tail = none;
  result_path = none;
  worker_pid = none;
  lease_expires_at = lease;
  delivery_status = none;
  delivered_at = none;
  created_at = t;
}
