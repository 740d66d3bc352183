-- ===== src/Runner/Receipt.antt =====
-- validRecordID, loadRun and updateRun of internal/runner/execute.go: the receipt of a run, a durable
-- record whose payload is the run's state.
use text.Mathlib.Text.{starts_with}
use repo_plane.Base.{
  ℕ, ◌+◌, ◌*◌, String, len, Bool, false, not, ◌||◌, Option, none, some, ltb, ◌!=◌, String_eq, ℕ_eq,
  if◌then◌else◌, all_hex,
}
use repo_plane.Store.{not_found, Record, RecordUpdate}
use repo_plane.Store.Records.Write.{get_record, update_observation}
use repo_plane.Runner.{RunPayload}
use repo_plane.Runner.Host.{Host}
use repo_plane.Runner.Machine.{
  limit_exceeded, platform, store, Act, ◌>>=◌, ◌>>◌, pure, reject, from_option, stored, now,
}

abbrev pub valid_record_id : String → String → Bool
valid_record_id id prefix =
    if not (starts_with id prefix) || len id != len prefix + 32
    then false
    else all_hex id (len prefix) 32

abbrev pub valid_run_id : String → Bool
valid_run_id id = valid_record_id id "run_"

abbrev pub valid_artifact_id : String → Bool
valid_artifact_id id = valid_record_id id "artifact_"

abbrev pub maximum_plan_payload : ℕ
maximum_plan_payload = 64 * 1024

module _ (h : Host) where
  unfoldable pub load_run : String → Act (Record × RunPayload)
  load_run id = do
    found ← stored (get_record h.project_id h.workspace_id id)
    reject (found.kind != "run" || found.writer_class != "server") (store not_found)
    payload ← from_option platform (h.decode found.payload)
    pure (found, payload)

  -- An encoding that fails, or is too long.
  unfoldable pub encoded_run : Option String → Option String
  encoded_run none = none
  encoded_run (some text) = if ltb maximum_plan_payload (len text) then none else some text

  abbrev pub run_update : Record → String → String → RecordUpdate
  run_update r text validity = record {
    project_id = h.project_id;
    workspace_id = h.workspace_id;
    id = r.id;
    expected_revision = r.revision;
    payload = text;
    evidence_refs = r.evidence_refs;
    validity = validity;
    supersedes = "";
  }

  -- UpdateObservation reads the clock for the new row.
  unfoldable pub update_run : Record → RunPayload → String → Act Record
  unfolding encoded_run
  update_run r payload validity = do
    text ← from_option limit_exceeded (encoded_run (h.encode payload))
    at ← now h.clock
    stored (update_observation h.json "run" (run_update r text validity) at)
