-- ===== src/Examples/Specs.antt =====
-- The theorems of specs, probes, the dry run and the arming of a watch at concrete inputs.
use picket_mcp.Prelude.{
  Option, Bool, ℕ, ◌+◌, Text, codes, text_eq, ◌≡◌, refl, ◌⊎◌, true, false, ◌&&◌, ◌||◌, ◌<◌, ◌++◌,
  All, pos, none, some, List, [], ◌∷◌, leb, ◌==◌, exists_where, arith, length, ◌≢◌,
}
use picket_mcp.Core.Json.{Json, null, number, boolean, object, field, end, get_field}
use picket_mcp.Core.Models.{
  WatchState, ActiveWindow, DriftPolicy, completed, failed, timed_out, dead_lettered,
}
use picket_mcp.Core.Errors.{success}
use picket_mcp.Core.Validate.{
  RawWindow, RawCadence, starts_with, is_http, upper, safe_method, validate_endpoint,
  validate_predicate, weekdays, is_hhmm, validate_window, window_maybe, validate_cadence,
}
use picket_mcp.Condition.Extract.{Observed, ok, extract}
use picket_mcp.Condition.Predicate.{
  is_satisfied, satisfied_by, compare_values, as_number, initial_baseline, baseline_by,
}
use picket_mcp.Condition.Fetch.{
  Http, streamed, read_body, headers_of, receive, fetch, concat, read_whole, fetch-read_whole,
}
use picket_mcp.Condition.Trial.{TestPredicate, evaluate, run_test_predicate}
use picket_mcp.Store.Ids.{is_id, id_tail, safe_id, runbook_dir, probe_dir}
use picket_mcp.Daemon.Window.{LocalTime, in_window, elapsed, minutes}
use picket_mcp.Daemon.Hours.{IsDigit, validate_window-elapsed}
use picket_mcp.Daemon.Poll.{Sources}
use picket_mcp.Daemon.Poll
use picket_mcp.Daemon.DryRun.{run_test_predicate-observe}
use picket_mcp.Handler.Runbooks.{read_runbook}
use picket_mcp.Probes.Types.{python, Probe, ProbeResult, exited, ProbeWorld}
use picket_mcp.Probes.Verdict.{
  fire_of, payload_of, verdict_of, parse_line, last_line, parse_verdict,
}
use picket_mcp.Probes.Run
use picket_mcp.Probes.Evidence.{IsObserved, observe-IsObserved}
use picket_mcp.Watches.Control.{Tables, write_state}
use picket_mcp.Watches.Request.{Request, ArmWorld, Armed, Trial}
use picket_mcp.Watches.Arm.{parse_specs, check_request, prepare, launch, arm_watch}
use picket_mcp.Watches.Arming.{IsArmed, arm_watch-IsArmed}
use picket_mcp.Examples.Sample.{nat_numbers, endpoint, predicate, watch, watch_id, clock, empty_db}
use picket_mcp.Examples.Handler.{world}

abbrev verdict : Json ℕ
verdict = object (field (codes "fire") (boolean true) end)

abbrev probe : Probe
probe = record {
  id = codes "p";
  language = python;
  entry = codes "p.py";
  description = [];
  content_hash = [];
  version = 1;
}

abbrev probe_world : ProbeWorld ℕ
probe_world = record {
  base = record world { loads = λ s. some verdict };
  executable = codes "python3";
  toml = λ path. some (some probe);
  lines = λ s. s ∷ [];
  lower = λ s. s;
  decode_error = λ s. s;
  execute = λ command env. exited (pos 0) (codes "out") [];
}

abbrev probing : WatchState ℕ
probing = record watch { probe_id = some (codes "p"); endpoint = none; predicate = none }

abbrev fires : ProbeResult ℕ
fires = record { fire = true; value = null; payload = end }

observe-IsObserved_example : IsObserved probe_world probing (codes "p") fires
unfolding Run.observe Run.read_probe Run.observe_found Run.is_blocked Run.has_drifted Run.run_probe
    Run.after_process probe_dir safe_id is_id id_tail parse_verdict last_line parse_line verdict_of
    fire_of payload_of get_field
observe-IsObserved_example = observe-IsObserved probe_world probing (codes "p") fires refl

abbrev pub http : Http ℕ
http = record {
  environ = λ name. none;
  stream = λ method url headers body. streamed ((1 ∷ 2 ∷ []) ∷ (3 ∷ []) ∷ []) none;
  loads = λ body. ok (number (length body + 10));
  repr = λ s. s;
}

fetch-read_whole_example : fetch http endpoint ≡ read_whole http (1 ∷ 2 ∷ 3 ∷ [])
unfolding headers_of concat
fetch-read_whole_example =
    fetch-read_whole http endpoint [] ((1 ∷ 2 ∷ []) ∷ (3 ∷ []) ∷ []) refl refl

abbrev find : Text → Json ℕ → Option (List (Json ℕ))
find path doc = some (doc ∷ [])

-- The value 13 is above the threshold.
abbrev report : TestPredicate ℕ
report = record {
  would_fire = true;
  extracted_value = number 13;
  baseline = null;
  response_excerpt = some [];
  extract_error = none;
}

run_test_predicate-observe_example :
    let sources : Sources ℕ = record {
      probe = λ state. Observed.crash;
      fetch = fetch http;
      find = find;
    } in
    Poll.observe nat_numbers sources watch none
    ≡ ok (record { value = number 13; satisfied = true; payload = none })
unfolding run_test_predicate evaluate fetch headers_of receive read_body extract is_satisfied
    satisfied_by compare_values as_number initial_baseline baseline_by
run_test_predicate-observe_example =
    run_test_predicate-observe nat_numbers http find (λ doc. []) endpoint predicate
      (λ state. Observed.crash) watch report refl refl refl refl refl refl

-- \d as the class of the digits of ASCII.
abbrev ascii_digit : ℕ → Bool
ascii_digit c = leb 48 c && leb c 57

abbrev raw_window : RawWindow
raw_window = record {
  tz = codes "UTC";
  start = codes "22:00";
  end = codes "06:30";
  days = pos 4 ∷ [];
}

abbrev window : ActiveWindow
window = record { tz = codes "UTC"; start = codes "22:00"; end = codes "06:30"; days = 4 ∷ [] }

abbrev late : LocalTime
late = record { weekday = 4; hour = 23; minute = 15 }

-- \d with the digits of another script besides.
abbrev wide_digit : ℕ → Bool
wide_digit c = ascii_digit c || leb 1632 c && leb c 1641

-- The second character is an Arabic nine.
wide_hhmm : is_hhmm wide_digit (λ name. true) (codes "0" ++ 1641 ∷ codes ":00") ≡ true
unfolding is_hhmm
wide_hhmm = refl

wide_digit-IsDigit : (c : ℕ) → c < 128 → wide_digit c ≡ true → IsDigit c
wide_digit-IsDigit c p h = (ground arith, ground arith)

start-ascii : All (λ c. wide_digit c ≡ true → IsDigit c) raw_window.start
start-ascii = (
  wide_digit-IsDigit _ (omega arith),
  (
    wide_digit-IsDigit _ (omega arith),
    (
      wide_digit-IsDigit _ (omega arith),
      (wide_digit-IsDigit _ (omega arith), (wide_digit-IsDigit _ (omega arith), tt)),
    ),
  ),
)

end-ascii : All (λ c. wide_digit c ≡ true → IsDigit c) raw_window.end
end-ascii = (
  wide_digit-IsDigit _ (omega arith),
  (
    wide_digit-IsDigit _ (omega arith),
    (
      wide_digit-IsDigit _ (omega arith),
      (wide_digit-IsDigit _ (omega arith), (wide_digit-IsDigit _ (omega arith), tt)),
    ),
  ),
)

validate_window-elapsed_example : in_window window late ≡ (
    exists_where (λ d. d == 4) (4 ∷ [])
    && leb (elapsed (minutes 22 0) (minutes 23 15)) (elapsed (minutes 22 0) (minutes 6 30)))
unfolding validate_window weekdays is_hhmm
validate_window-elapsed_example =
    validate_window-elapsed wide_digit (λ name. true) raw_window window late start-ascii end-ascii
      refl refl refl (omega arith, omega arith)

abbrev pub request : Request ℕ
request = record {
  runbook_id = codes "rb";
  endpoint = some null;
  predicate = some null;
  cadence = null;
  probe_id = none;
  probe_params = null;
  label = none;
  max_fires = none;
  recurring = false;
  ttl_seconds = none;
  debounce_seconds = pos 0;
  cooldown_seconds = pos 0;
  max_retries = pos 1;
  drift_policy = codes "run";
  notify_runbook = none;
  delivery_events = none;
  skip_permissions = true;
  confirm_skip = true;
}

abbrev raw_cadence : RawCadence
raw_cadence = record { interval_seconds = pos 30; jitter_seconds = pos 0; active_window = none }

-- No process can be spawned.
abbrev pub arm_world : ArmWorld ℕ
arm_world = record {
  probes = probe_world;
  decimal = ascii_digit;
  zone = λ name. true;
  cadence_of = λ j. some raw_cadence;
  endpoint_of = λ j. some endpoint;
  predicate_of = λ j. some predicate;
  spec_error = λ j. [];
  watch_error = λ raw. [];
  fetch = fetch http;
  find = find;
  spawn = λ w. some (codes "no python");
  readings = [];
  last_reading = none;
}

abbrev tables : Tables ℕ
tables = record { db = empty_db; commands = record { rows = []; last_id = 0 } }

abbrev trial : Trial ℕ
trial = record { probe_rev = none; trial_value = number 13; baseline = null }

abbrev ready : WatchState ℕ
ready = record watch {
  runbook_rev = some [];
  probe_params = null;
  cooldown_seconds = 0;
  handler_timeout_seconds = 600;
  max_retries = 1;
  drift_policy = DriftPolicy.run;
  delivery_events = completed ∷ failed ∷ timed_out ∷ dead_lettered ∷ [];
  skip_permissions = true;
  created_at = some 10;
  last_fire_at = none;
}

arm_watch-IsArmed_example :
    let after = arm_watch nat_numbers arm_world clock watch_id request tables in
    ((after.tables ≡ tables) × ((a : Armed ℕ) → after.reply ≢ some (success a)))
    ⊎ ((state : WatchState ℕ) × IsArmed nat_numbers arm_world watch_id request state
        × (after.tables ≡ write_state 11 state tables))
arm_watch-IsArmed_example = arm_watch-IsArmed nat_numbers arm_world clock watch_id request tables

-- A runbook id that safe_id refuses leaves the tool by an exception.
arm_watch_bad_id :
    (arm_watch nat_numbers arm_world clock watch_id
      (record request { runbook_id = codes "a/b" })
      tables).reply
    ≡ none
unfolding arm_watch launch prepare parse_specs check_request read_runbook runbook_dir safe_id is_id
    id_tail validate_endpoint validate_predicate validate_cadence window_maybe safe_method upper
    is_http starts_with text_eq
arm_watch_bad_id = refl
