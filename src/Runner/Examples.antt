-- ===== src/Runner/Examples.antt =====
-- A plan is started on a small host, its process ends, and its output is captured and read in pages.
use repo_plane.Base.{
  ℕ, ◌+◌, arith, ◌≡◌, refl, String, true, false, none, some, List, [], ◌∷◌, ok, err, length, take,
  ltb, subst,
}
use repo_plane.Base.Int.{pos}
use repo_plane.Contracts.{normalize_limits}
use repo_plane.Catalog.{Capability, Manifest, Execution}
use repo_plane.Store.{Record}
use repo_plane.Store.Tx.{Tables, statement, transaction}
use repo_plane.Store.Records.Rows.{
  row_of, is_valid_record, violates_index, same_topic, same_predecessor, changes_topic, set_record,
}
use repo_plane.Store.Records.Write.{
  create, create_body, insert_record, insert_row, insert_revision, get_record, scan_record, update,
  update_body, update_row, update_observation, create_observation,
}
use repo_plane.Store.Records.History.{IsConsistent}
use repo_plane.Store.Records.Run.{Call, create_observation_call, run, run_all}
use repo_plane.Store.Records.Guarantees.{run_all-IsConsistent, empty-IsConsistent, empty_tables}
use repo_plane.Store.Records.Examples.{json}
use repo_plane.Runner.{RunPayload, CacheDecision}
use repo_plane.Runner.Capture.{new_capture, capture_all, healthy, joined, snapshot, capture_lem}
use repo_plane.Runner.Files.{OpenFile}
use repo_plane.Runner.Stream.Pages.{IsReadable, Pieces, fetch, fetch-whole}
use repo_plane.Runner.Host.{Host, starts}
use repo_plane.Runner.Machine.{Machine, Act, platform}
use repo_plane.Runner.Receipt.{load_run, update_run, encoded_run}
use repo_plane.Runner.Plan.{check_plan, current_execution, same_hashes}
use repo_plane.Runner.Execute.{
  ExecuteRequest, ExecuteResponse, Waiting, Ended, completed, no_error, execute, execute_plan,
  start_process, running_payload, wait_for_run,
}
use repo_plane.Runner.Frame.{Keeps}
use repo_plane.Runner.Execute.Starts.{Outcome, execute-Starts}
use repo_plane.Runner.Execute.Once.{execute_once}
use repo_plane.Runner.Execute.Waits.{Ends, wait_for_run-Ends}

abbrev chunks : List (List ℕ)
chunks = (1 ∷ 2 ∷ []) ∷ (3 ∷ 4 ∷ []) ∷ []

capture_lem_example :
    ((capture_all (healthy chunks) (new_capture 3)).file ≡ take 3 (joined (healthy chunks)))
    × (snapshot (capture_all (healthy chunks) (new_capture 3))
        ≡ (length (take 3 (joined (healthy chunks))), ltb 3 (length (joined (healthy chunks)))))
capture_lem_example = capture_lem 3 chunks

abbrev log : OpenFile
log = record {
  content = 1 ∷ 2 ∷ 3 ∷ [];
  regular = true;
  stat_fails = false;
  seek_fails = false;
  read_fails = false;
  cancelled = false;
}

readable : IsReadable log
readable = record { stat = refl; seek = refl; reads = refl }

abbrev encode_bytes : List ℕ → String
encode_bytes [] = ""
encode_bytes (x ∷ xs) = "x"

fetch-whole_example :
    Pieces encode_bytes 2 log.content
      (fetch encode_bytes "run_1" "stdout" 2 log (length log.content + 1) 0)
fetch-whole_example =
    fetch-whole encode_bytes "run_1" "stdout" 2 log readable (omega arith) (omega arith)

abbrev id : String
id = "run_0123456789abcdef0123456789abcdef"

abbrev decision : CacheDecision
decision = record {
  policy = "disabled";
  mode = "auto";
  status = "disabled";
  eligible = false;
  reason = "policy_disabled";
  key = "";
  source_run_ref = "";
  qualification_refs = [];
}

abbrev prepared : RunPayload
prepared = record {
  state = "prepared";
  capability_id = "build";
  capability_revision = "1";
  configuration = "default";
  arguments = [];
  argv = "--all" ∷ [];
  cwd = ".";
  executable_ref = "make";
  executable_identity = "sha256:m";
  execution_fingerprint = "f";
  cache = decision;
  cache_key_checks = [];
  input_hashes = [];
  output_paths = [];
  outputs_before = [];
  outputs_after = [];
  preflight_record_ref = "record:e";
  ready = true;
  timeout_sec = 300;
  artifact_mode = "metadata";
  prepared_at = 5;
  started_at = none;
  finished_at = none;
  exit_code = none;
  termination_reason = "";
  stdout_bytes = 0;
  stderr_bytes = 0;
  stdout_truncated = false;
  stderr_truncated = false;
  artifact_refs = [];
  observation_partial = false;
  streams_retained = false;
}

abbrev execution : Execution
execution = record {
  kind = "process";
  executable_ref = "make";
  cwd = ".";
  argv_template = "--all" ∷ [];
  trusted_for_run = true;
  timeout_sec = 0;
  artifact_mode = "";
  preflight = [];
}

abbrev pub manifest : Manifest
manifest = record {
  id = "build";
  revision = 1;
  summary = "";
  use_when = [];
  tags = [];
  aliases = [];
  execution = some execution;
  arguments = [];
  inputs = [];
  outputs = [];
  checks = [];
  docs = [];
  cache_policy = "";
  cache = none;
}

abbrev pub capability : Capability
capability = record {
  manifest = manifest;
  revision = "1";
  source_ref = "file:build.yaml";
  execution_fingerprint = "f";
  generation_id = "g";
}

abbrev pub host : Host
host = record {
  json = json;
  project_id = "p";
  workspace_id = "w";
  clock = λ n. 100;
  random = λ n. none;
  encode = λ payload. some payload.state;
  decode = λ text. some (record prepared { state = text });
  encode_artifact = λ a. a.path;
  decode_artifact = λ text. none;
  resolve_capability = λ name. ok capability;
  resolve_executable = λ ref. some ("/bin/make", "sha256:m");
  snapshot_patterns = λ ps. some [];
  resolve_cwd = λ c. some ("/repo", ".");
  creates_logs = λ r. true;
  start = λ path argv cwd. starts;
  output_size = λ path. none;
  captures = λ path hash. true;
  artifact_byte_limit = 10;
  run_artifact_byte_limit = 20;
  has_cache = false;
  cache_faults = record { begin = false; select = false; write = false; commit = false };
}

abbrev receipt : Record
receipt = record {
  id = id;
  kind = "run";
  schema_version = "run-receipt.v2";
  project_id = "p";
  workspace_id = "w";
  revision = 1;
  source = "observed";
  writer_class = "server";
  validity = "current";
  created_at = 5;
  updated_at = 5;
  payload = "prepared";
  evidence_refs = [];
  supersedes = "";
}

abbrev tables : Tables
tables = record { records = receipt ∷ []; revisions = row_of receipt ∷ []; imports = [] }

abbrev pub machine : Machine
machine = record {
  db = record { tables = tables; faults = [] };
  entries = [];
  running = [];
  processes = [];
  readings = 0;
  draws = 0;
}

abbrev no_hit : Record → RunPayload → Capability → Act ExecuteResponse
no_hit r payload c m = (err platform, m)

abbrev request : ExecuteRequest
request = record { plan_id = id; time_limit_ms = pos 0 }

abbrev waiting : Waiting
waiting = record {
  id = id;
  running_record = record receipt { revision = 2; updated_at = 100; payload = "running" };
  payload = running_payload prepared 100;
}

executes :
    (execute host no_hit request machine).0
    ≡ ok (record { run_id = id; state = "running" }, some waiting)
unfolding execute execute_plan start_process check_plan current_execution same_hashes load_run
    update_run encoded_run get_record scan_record statement update_observation update update_body
    update_row insert_revision transaction changes_topic violates_index same_topic same_predecessor
    set_record normalize_limits
executes = refl

abbrev created : List (ℕ × Call)
created = (5, create_observation_call receipt) ∷ []

stores :
    run_all json created (record { tables = empty_tables; faults = [] })
    ≡ record { tables = tables; faults = [] }
unfolding run_all run create_observation create create_body insert_record insert_row insert_revision
    is_valid_record violates_index same_topic same_predecessor set_record transaction statement
stores = refl

tables-IsConsistent : IsConsistent tables
tables-IsConsistent =
    subst (λ db. IsConsistent db.tables) stores
      (run_all-IsConsistent json created (record { tables = empty_tables; faults = [] })
        empty-IsConsistent)

quiet : (r : Record) (p : RunPayload) (c : Capability) → Keeps (λ m. m.processes) (no_hit r p c)
quiet r p c m = refl

execute-Starts_example : Outcome host id machine (execute host no_hit request machine)
execute-Starts_example = execute-Starts host no_hit quiet request machine

no_calls :
    (execute host no_hit request machine).1.db.tables
    ≡ (run_all json [] (execute host no_hit request machine).1.db).tables
unfolding run_all
no_calls = refl

execute_once_example :
    (execute host no_hit request (execute host no_hit request machine).1).1.processes
    ≡ (execute host no_hit request machine).1.processes
execute_once_example =
    execute_once host no_hit no_hit quiet request request machine
      (execute host no_hit request machine).1 tables-IsConsistent executes [] no_calls refl

abbrev ended : Ended
ended = record {
  termination = completed;
  wait_error = no_error;
  stdout = new_capture 3;
  stderr = new_capture 3;
}

wait_for_run-Ends_example :
    ((wait_for_run host waiting ended (execute host no_hit request machine).1).0 ≡ ok tt)
    × Ends host waiting ended
        (execute host no_hit request machine).1
        (wait_for_run host waiting ended (execute host no_hit request machine).1).1
wait_for_run-Ends_example =
    wait_for_run-Ends host waiting ended (execute host no_hit request machine).1
