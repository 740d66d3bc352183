-- ===== src/Runner/Execute.antt =====
-- Execute, waitForRun and the cancel action of internal/runner/execute.go, and the loop of Recover over
-- the runs that a restart cut off. A plan whose cache decision is a hit goes on in
-- `execute_cache_hit`, a parameter here, which Reuse/Apply models. A call of Execute is one step here; the
-- source holds no mutex over it.
pub mod Started
pub mod Starts
pub mod Once
pub mod Waits
use repo_plane.Base.{
  ℕ, String, Bool, true, false, not, ◌&&◌, ◌||◌, Option, none, some, List, [], ◌∷◌, ◌==◌, ◌!=◌,
  String_eq, ℕ_eq, if◌then◌else◌, Result, ok, err,
}
use repo_plane.Base.Int.{ℤ, pos, negsuc}
use repo_plane.Contracts.{LimitError, Limits, LimitRequest, normalize_limits}
use repo_plane.Catalog.{Capability, Execution}
use repo_plane.Store.{Record}
use repo_plane.Runner.{RunPayload}
use repo_plane.Runner.Capture.{BoundedFileWriter, snapshot}
use repo_plane.Runner.Host.{Host, Start, unsupported, fails, starts}
use repo_plane.Runner.Machine.{
  RunError, invalid, run_state, not_executable, plan_stale, start_failed, platform, limits, Act,
  ◌>>=◌, ◌>>◌, pure, raise, reject, from_option, ignored, now, is_running, add_running,
  mark_process, remove_running,
}
use repo_plane.Runner.Plan.{check_plan}
use repo_plane.Runner.Receipt.{valid_run_id, load_run, update_run}
use repo_plane.Runner.Artifacts.{observe_artifacts, publish_cache_observation}

pub record ExecuteRequest : Type 0 where
  pub plan_id : String
  pub time_limit_ms : ℤ

pub record ExecuteResponse : Type 0 where
  pub run_id : String
  pub state : String

-- The arguments of the goroutine that waits for a started process.
pub record Waiting : Type 0 where
  pub id : String
  pub running_record : Record
  pub payload : RunPayload

-- How the process ended, as the `select` of waitForRun sees it.
pub data Termination : Type 0 where
  completed cancelled timeout : Termination

abbrev pub termination_reason : Termination → String
termination_reason completed = "completed"
termination_reason cancelled = "cancelled"
termination_reason timeout = "timeout"

-- `wait_error` is the error of Wait: none, another error, or an ExitError with its code.
pub data WaitError : Type 0 where
  no_error other_error : WaitError
  exit_error : ℤ → WaitError

abbrev pub exit_code : WaitError → ℤ
exit_code no_error = pos 0
exit_code other_error = negsuc 0
exit_code (exit_error code) = code

unfoldable pub final_state : Termination → WaitError → String
final_state timeout e = "timed_out"
final_state cancelled e = "cancelled"
final_state completed no_error = "completed"
final_state completed other_error = "failed"
final_state completed (exit_error code) = "failed"

pub record Ended : Type 0 where
  pub termination : Termination
  pub wait_error : WaitError
  pub stdout : BoundedFileWriter
  pub stderr : BoundedFileWriter

abbrev pub from_result : {A : Type 0} → Result RunError A → Act A
from_result (ok c) m = (ok c, m)
from_result (err e) m = (err e, m)

abbrev pub from_limits : Result LimitError Limits → Act Limits
from_limits (ok l) m = (ok l, m)
from_limits (err e) m = (err (limits e), m)

abbrev pub time_limit : ℤ → LimitRequest
time_limit ms = record { item_limit = 0; byte_limit = 0; time_limit_ms = ms }

abbrev pub failed_payload : RunPayload → ℕ → RunPayload
failed_payload payload at = record payload {
  state = "failed";
  finished_at = some at;
  termination_reason = "start_failed";
}

abbrev pub running_payload : RunPayload → ℕ → RunPayload
running_payload payload at = record payload {
  state = "running";
  started_at = some at;
  streams_retained = true;
}

-- The receipt before the outputs are observed.
unfoldable pub ended_payload : RunPayload → Ended → ℕ → RunPayload
unfolding final_state
ended_payload payload e at = record payload {
  finished_at = some at;
  stdout_bytes = (snapshot e.stdout).0;
  stderr_bytes = (snapshot e.stderr).0;
  stdout_truncated = (snapshot e.stdout).1;
  stderr_truncated = (snapshot e.stderr).1;
  termination_reason = termination_reason e.termination;
  exit_code = some (exit_code e.wait_error);
  state = final_state e.termination e.wait_error;
}

abbrev pub observed_payload : RunPayload → List String × List (String × String) × Bool → RunPayload
observed_payload payload seen = record payload {
  artifact_refs = seen.0;
  outputs_after = seen.1;
  observation_partial = seen.2;
}

abbrev pub interrupted_payload : RunPayload → ℕ → RunPayload
interrupted_payload payload at = record payload {
  state = "interrupted";
  finished_at = some at;
  termination_reason = "server_restart";
  observation_partial = true;
}

module _ (h : Host) where
  start_fails : String → Record → RunPayload → Act (ExecuteResponse × Option Waiting)
  start_fails id r payload = do
    finished ← now h.clock
    ignored (update_run h r (failed_payload payload finished) "current")
    raise start_failed

  start_runs : String → Record → RunPayload → Act (ExecuteResponse × Option Waiting)
  start_runs id r payload = do
    started ← now h.clock
    running_record ← update_run h r (running_payload payload started) "current"
    exists ← is_running id
    reject exists run_state
    add_running id
    pure (
      record { run_id = id; state = "running" },
      some (record {
        id = id;
        running_record = running_record;
        payload = running_payload payload started;
      }),
    )

  started : Start → String → Record → RunPayload → Act (ExecuteResponse × Option Waiting)
  started unsupported id r payload = raise platform
  started fails id r payload = start_fails id r payload
  started starts id r payload = do mark_process id; start_runs id r payload

  unfoldable pub start_process :
      String → String → String → Record → RunPayload → Act (ExecuteResponse × Option Waiting)
  unfolding start_fails start_runs started
  start_process id executable cwd r payload = do
    reject (not (h.creates_logs id)) platform
    started (h.start executable payload.argv cwd) id r payload

  module _ (execute_cache_hit : Record → RunPayload → Capability → Act ExecuteResponse) where
    launch :
        Bool
        → String
        → Record
        → RunPayload
        → Capability × String × String
        → Act (ExecuteResponse × Option Waiting)
    launch true id r payload checked = do
      response ← execute_cache_hit r payload checked.0
      pure (response, none)
    launch false id r payload checked = start_process id checked.1 checked.2 r payload

    unfoldable pub execute_plan :
        String → Record → RunPayload → Act (ExecuteResponse × Option Waiting)
    unfolding launch
    execute_plan id r payload = do
      reject (r.revision != 1 || payload.state != "prepared") run_state
      reject (not payload.ready) not_executable
      checked ← from_result (check_plan h payload)
      launch (payload.cache.status == "hit") id r payload checked

    unfoldable pub execute : ExecuteRequest → Act (ExecuteResponse × Option Waiting)
    execute request = do
      reject (not (valid_run_id request.plan_id)) invalid
      normal ← from_limits (normalize_limits (time_limit request.time_limit_ms))
      loaded ← load_run h request.plan_id
      execute_plan request.plan_id loaded.0 loaded.1

  unfoldable pub wait_for_run : Waiting → Ended → Act Unit
  wait_for_run w e = do
    finished ← now h.clock
    seen ← observe_artifacts h w.id (ended_payload w.payload e finished)
    payload ←
        publish_cache_observation h w.id
          (observed_payload (ended_payload w.payload e finished) seen)
    ignored (update_run h w.running_record payload "current")
    remove_running w.id

  abbrev pub is_cut_off : RunPayload → Bool
  is_cut_off payload = payload.state == "running" || payload.state == "materializing"

  interrupt : Record → RunPayload → Act Unit
  interrupt r payload = do
    finished ← now h.clock
    update_run h r (interrupted_payload payload finished) "unknown" >>= λ updated. pure tt

  unfoldable pub interrupt_run : Record → Act Unit
  unfolding interrupt
  interrupt_run r = do
    payload ← from_option platform (h.decode r.payload)
    if is_cut_off payload then interrupt r payload else pure tt

  unfoldable pub interrupt_runs : List Record → Act Unit
  interrupt_runs [] = pure tt
  interrupt_runs (r ∷ rs) = do interrupt_run r; interrupt_runs rs
