-- ===== src/Runner/Files.antt =====
-- The files that the runner reads, as os.Open gives them, and hashFile of internal/runner/service.go.
-- SHA-256 is a parameter, which gives the digest in hexadecimal.
use Prim.Native.String.{◌++◌ as join}
use repo_plane.Base.{ℕ, String, Bool, not, ◌||◌, List, ltb, length, Result, ok, err, reject, ◌>>◌}

-- An open file: what it holds, and which of the calls on it fail. `cancelled` says that the context
-- ends while the file is read.
pub record OpenFile : Type 0 where
  pub content : List ℕ
  pub regular : Bool
  pub stat_fails : Bool
  pub seek_fails : Bool
  pub read_fails : Bool
  pub cancelled : Bool

pub data Opened : Type 0 where
  missing : Opened
  failing : Opened
  opened : OpenFile → Opened

pub data FileError : Type 0 where
  not_exist open_failed limit_exceeded read_failed : FileError

unfoldable pub hash_file : (List ℕ → String) → Opened → ℕ → Result FileError String
hash_file digest missing maximum = err not_exist
hash_file digest failing maximum = err open_failed
hash_file digest (opened f) maximum = do
  reject (f.stat_fails || not f.regular || ltb maximum (length f.content)) limit_exceeded
  reject (f.cancelled || f.read_fails) read_failed
  ok (join "sha256:" (digest f.content))
