-- ===== src/Examples/Handler.antt =====
-- The theorems of the handler at concrete inputs: a script that fails twice and then succeeds.
use picket_mcp.Prelude.{
  ℕ, ◌≡◌, refl, pos, codes, true, false, none, some, [], ◌∷◌, ltb, if◌then◌else◌, text_eq, map, All,
  count_where,
}
use picket_mcp.Core.Json.{Json, null, text, number, Fields, end, field, get_field}
use picket_mcp.Core.Models.{WatchState, DeliveryEvent}
use picket_mcp.Store.Fire.{Fire, failed, running}
use picket_mcp.Store.Ids.{
  is_id, id_tail, safe_id, runbook_dir, result_path, IsComponent, safe_id-IsComponent,
}
use picket_mcp.Store.Ledger.{finish_fire}
use picket_mcp.Store.Trace.{history, apply}
use picket_mcp.Daemon.Decimal.{decimal}
use picket_mcp.Daemon.Poll.{idem_of}
use picket_mcp.Handler.Types.{exec, Runbook, HandlerResult, Launch, ran, World}
use picket_mcp.Handler.Runbooks.{read_runbook, content_hash, digest_input}
use picket_mcp.Handler.Payload.{
  add_field, set_default, merge, endpoint_payload, source_payload, build_payload, core_payload,
  build_payload-keeps,
}
use picket_mcp.Handler.Attempts.{attempt_status, run_attempts}
use picket_mcp.Handler.Retries.{IsRetry, run_attempts-IsRetry}
use picket_mcp.Handler.Run.{has_drifted, prepared, execute_with, run_fire}
use picket_mcp.Handler.Worker.{execute}
use picket_mcp.Handler.Ends.{About, in_flight, execute-finishes}
use picket_mcp.Handler.Completion.{IsEarned, records_completion, run_fire-IsEarned}
use picket_mcp.Examples.Sample.{watch, fire_id, row}

abbrev pub runbook : Runbook
runbook = record {
  id = codes "rb";
  type = exec;
  entry = codes "run.sh";
  description = [];
  allowed_tools = [];
  content_hash = [];
  version = 1;
}

abbrev result : ℕ → HandlerResult
result n = record {
  returncode = some (pos n);
  stdout = codes "out";
  stderr = [];
  pid = some 7;
  timed_out = false;
}

-- The first two processes end with the code 1.
abbrev launch : ℕ → Launch
launch k = ran (result (if ltb k 2 then 1 else 0))

abbrev pub world : World ℕ
world = record {
  home = codes "/h";
  temp = codes "/t";
  claude = codes "claude";
  toml = λ path. some (some runbook);
  files = λ dir entry. some ((entry, codes "echo") ∷ []);
  sha256 = λ s. s;
  read_text = λ path. none;
  dumps = λ j. [];
  dumps_indented = λ j. [];
  loads = λ s. none;
  truth = λ j. true;
  model_dump = λ p. null;
  strip = λ s. s;
  launch = λ k cmd timeout env. launch k;
  send = λ path payload. true;
  repr = λ s. s;
  seconds = λ n. codes "600.0";
  iso = λ n. [];
  clock = λ k. k;
}

abbrev retrying : WatchState ℕ
retrying = record watch { max_retries = 2 }

abbrev pinned : WatchState ℕ
pinned = record watch { runbook_rev = some (codes "other") }

safe_id_example : (codes "rb" ≡ codes "rb") × IsComponent (codes "rb")
unfolding safe_id is_id id_tail
safe_id_example = safe_id-IsComponent (codes "rb") (codes "rb") refl

-- An id with a newline at its end is accepted.
safe_id_newline : safe_id (98 ∷ 10 ∷ []) ≡ some (98 ∷ 10 ∷ [])
unfolding safe_id is_id id_tail
safe_id_newline = refl

run_attempts_example :
    IsRetry world runbook launch 0 3 (run_attempts world runbook launch 0 3 failed none)
run_attempts_example = run_attempts-IsRetry world runbook launch 0 2 failed none

-- Three launches, and sleeps of one and of two seconds.
attempts_run :
    ((run_attempts world runbook launch 0 3 failed none).launches ≡ 3)
    × ((run_attempts world runbook launch 0 3 failed none).sleeps ≡ 1 ∷ 2 ∷ [])
unfolding run_attempts attempt_status
attempts_run = (refl, refl)

abbrev claimed : Fire (Json ℕ)
claimed = row (codes "f1") (codes "w:1") running (some 100) 10

execute_example :
    All (About (codes "f1")) (execute world false [] retrying claimed)
    × (count_where
          (in_flight (codes "f1"))
          (history (execute world false [] retrying claimed) (claimed ∷ []))
        ≡ 0)
execute_example = execute-finishes world false [] retrying claimed (claimed ∷ [])

run_fire_completes :
    records_completion (run_fire world retrying (number 11) fire_id 600 none) ≡ true
unfolding run_fire read_runbook content_hash digest_input has_drifted runbook_dir result_path
    safe_id is_id id_tail prepared execute_with run_attempts attempt_status source_payload
    endpoint_payload
run_fire_completes = refl

run_fire-IsEarned_example : IsEarned world retrying (number 11) fire_id 600 none
run_fire-IsEarned_example =
    run_fire-IsEarned world retrying (number 11) fire_id 600 none run_fire_completes

runbook_found : read_runbook world (codes "rb") ≡ some (some runbook)
unfolding read_runbook runbook_dir safe_id is_id id_tail text_eq
runbook_found = refl

pinned_drifts : has_drifted world runbook pinned.runbook_rev ≡ some true
unfolding has_drifted content_hash digest_input runbook_dir safe_id is_id id_tail text_eq
pinned_drifts = refl

abbrev probing : WatchState ℕ
probing = record watch { probe_id = some (codes "p") }

-- A probe's field with the name of a core field.
abbrev forged : Fields ℕ
forged = field (codes "value") null (field (codes "note") (number 1) end)

abbrev built : Fields ℕ
built = add_field (codes "note") (number 1) (
    add_field (codes "probe_id") (text (codes "p"))
      (core_payload probing (number 11) [] (some fire_id)))

payload_built :
    build_payload world.model_dump probing (number 11) [] (some fire_id) (some forged) ≡ some built
unfolding build_payload source_payload merge set_default add_field core_payload get_field idem_of
    decimal
payload_built = refl

core_value :
    get_field (codes "value") (core_payload probing (number 11) [] (some fire_id))
    ≡ some (number 11)
unfolding core_payload get_field
core_value = refl

build_payload-keeps_example : get_field (codes "value") built ≡ some (number 11)
build_payload-keeps_example =
    build_payload-keeps world.model_dump probing (number 11) [] (some fire_id) (some forged) built
      (codes "value") (number 11) payload_built core_value

-- A handler that succeeds at once.
abbrev quick : World ℕ
quick = record world { launch = λ k cmd timeout env. ran (result 0) }

-- A watch whose notify runbook has an id that safe_id refuses.
abbrev badly_notified : WatchState ℕ
badly_notified = record watch {
  notify_runbook = some (codes "../n");
  delivery_events = DeliveryEvent.completed ∷ [];
}

-- The handler runs and completes, the delivery raises, and the worker finishes the fire as failed.
delivery_overwrites :
    map (λ f. f.status) (history (execute quick false [] badly_notified claimed) (claimed ∷ []))
    ≡ failed ∷ []
unfolding run_fire read_runbook content_hash digest_input has_drifted runbook_dir result_path
    safe_id is_id id_tail prepared execute_with run_attempts attempt_status source_payload
    endpoint_payload execute history apply finish_fire text_eq
delivery_overwrites = refl

quick_completes :
    records_completion (run_fire quick badly_notified (number 10) fire_id 600 none) ≡ true
unfolding run_fire read_runbook content_hash digest_input has_drifted runbook_dir result_path
    safe_id is_id id_tail prepared execute_with run_attempts attempt_status source_payload
    endpoint_payload
quick_completes = refl
