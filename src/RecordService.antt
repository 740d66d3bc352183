-- ===== src/RecordService.antt =====
-- internal/records: the service over the durable records. The functions of strings, unicode/utf8, time
-- and regexp that it calls are a parameter.
pub mod Report
pub mod Page
pub mod Validate
pub mod Mutate
mod Examples
use repo_plane.Base.{ℕ, String, Bool, Option, List}

-- strings.TrimSpace, strings.ToLower and strings.Fields, the number of runes, the patterns of
-- service.go, and time.Parse of RFC 3339 (the zero time is 0).
pub record Strings : Type 0 where
  pub trim_space : String → String
  pub to_lower : String → String
  pub fields : String → List String
  pub rune_count : String → ℕ
  pub matches_commit : String → Bool
  pub matches_topic : String → Bool
  pub matches_alias : String → Bool
  pub parse_time : String → Option ℕ
