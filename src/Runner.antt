-- ===== src/Runner.antt =====
-- internal/runner/types.go: the requests, the receipt of a run and the results of the runner. A JSON
-- object with text values is an association list, a `*time.Time` an Option of nanoseconds.
pub mod Capture
pub mod Files
pub mod Stream
pub mod Machine
pub mod Host
pub mod Receipt
pub mod Artifacts
pub mod Plan
pub mod Frame
pub mod Execute
pub mod Reuse
mod Examples
use repo_plane.Base.{ℕ, ◌*◌, String, Bool, Option, List}
use repo_plane.Base.Int.{ℤ}
use repo_plane.Catalog.{ArgumentValue}

-- 8 MiB, 64 MiB and 512 MiB.
abbrev pub default_stream_byte_limit : ℕ
default_stream_byte_limit = 8 * 1024 * 1024

abbrev pub default_artifact_byte_limit : ℕ
default_artifact_byte_limit = 64 * 1024 * 1024

abbrev pub default_run_artifact_limit : ℕ
default_run_artifact_limit = 512 * 1024 * 1024

pub record CacheDecision : Type 0 where
  pub policy : String
  pub mode : String
  pub status : String
  pub eligible : Bool
  pub reason : String
  pub key : String
  pub source_run_ref : String
  pub qualification_refs : List String

pub record RunPayload : Type 0 where
  pub state : String
  pub capability_id : String
  pub capability_revision : String
  pub configuration : String
  pub arguments : List (String × ArgumentValue)
  pub argv : List String
  pub cwd : String
  pub executable_ref : String
  pub executable_identity : String
  pub execution_fingerprint : String
  pub cache : CacheDecision
  pub cache_key_checks : List (String × String)
  pub input_hashes : List (String × String)
  pub output_paths : List String
  pub outputs_before : List (String × String)
  pub outputs_after : List (String × String)
  pub preflight_record_ref : String
  pub ready : Bool
  pub timeout_sec : ℕ
  pub artifact_mode : String
  pub prepared_at : ℕ
  pub started_at : Option ℕ
  pub finished_at : Option ℕ
  pub exit_code : Option ℤ
  pub termination_reason : String
  pub stdout_bytes : ℕ
  pub stderr_bytes : ℕ
  pub stdout_truncated : Bool
  pub stderr_truncated : Bool
  pub artifact_refs : List String
  pub observation_partial : Bool
  pub streams_retained : Bool

pub record PreflightResult : Type 0 where
  pub id : String
  pub kind : String
  pub requirement : String
  pub status : String
  pub summary : String
  pub identity : String

pub record ArtifactPayload : Type 0 where
  pub run_ref : String
  pub path : String
  pub content_hash : String
  pub size : ℤ
  pub storage : String
  pub basis : String
  pub writer_attribution : String
