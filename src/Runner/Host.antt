-- ===== src/Runner/Host.antt =====
-- What the runner asks of the platform and of other components: encoding/json on the two payloads,
-- the clock, crypto/rand, the catalog, and the observations of the file system of
-- internal/runner/service.go (resolveExecutable, snapshotPatterns, resolveCWD), for one state of it.
use repo_plane.Base.{ℕ, String, Bool, Option, List, Result}
use repo_plane.Catalog.{Capability}
use repo_plane.Store.Records.Rows.{Json}
use repo_plane.Store.Cache.{Faults}
use repo_plane.Runner.{RunPayload, ArtifactPayload}
use repo_plane.Runner.Machine.{RunError}

-- newProcessCommand refuses the executable, Start fails, or the process runs.
pub data Start : Type 0 where
  unsupported fails starts : Start

pub record Host : Type 0 where
  pub json : Json
  pub project_id : String
  pub workspace_id : String
  pub clock : ℕ → ℕ
  -- hexadecimal digits of 16 random bytes
  pub random : ℕ → Option String
  pub encode : RunPayload → Option String
  pub decode : String → Option RunPayload
  pub encode_artifact : ArtifactPayload → String
  pub decode_artifact : String → Option ArtifactPayload
  pub resolve_capability : String → Result RunError Capability
  -- the path and its identity
  pub resolve_executable : String → Option (String × String)
  -- the hash of each path, in the order of the paths
  pub snapshot_patterns : List String → Option (List (String × String))
  -- the directory and its path below the root
  pub resolve_cwd : String → Option (String × String)
  -- the run directory and its two log files are created
  pub creates_logs : String → Bool
  pub start : String → List String → String → Start
  -- the size of a regular output file below the root
  pub output_size : String → Option ℕ
  -- captureBlob of the file succeeds
  pub captures : String → String → Bool
  pub artifact_byte_limit : ℕ
  pub run_artifact_byte_limit : ℕ
  -- a table of reusable runs is configured
  pub has_cache : Bool
  pub cache_faults : Faults
