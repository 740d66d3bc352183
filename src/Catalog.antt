-- ===== src/Catalog.antt =====
-- internal/catalog/manifest.go and service.go: the declaration of a capability. A map is an association
-- list; a default value of an argument is a text, a flag or an integer.
use repo_plane.Base.{ℕ, String, Bool, Option, List}
use repo_plane.Base.Int.{ℤ}

-- A value of a JSON object of arguments.
pub data ArgumentValue : Type 0 where
  text : String → ArgumentValue
  flag : Bool → ArgumentValue
  integer : ℤ → ArgumentValue

pub record CacheAssumptions : Type 0 where
  pub inputs_complete : Bool
  pub outputs_complete : Bool
  pub external_state : String
  pub nondeterminism : String
  pub side_effects : String

pub record Cache : Type 0 where
  pub contract_revision : ℕ
  pub output_contract : String
  pub key_checks : List String
  pub qualification_checks : List String
  pub restore_policy : String
  pub isolated_root : String
  pub assumptions : CacheAssumptions

pub record PreflightCheck : Type 0 where
  pub id : String
  pub kind : String
  pub ref : String
  pub requirement : String
  pub argv : List String

pub record Execution : Type 0 where
  pub kind : String
  pub executable_ref : String
  pub cwd : String
  pub argv_template : List String
  pub trusted_for_run : Bool
  pub timeout_sec : ℕ
  pub artifact_mode : String
  pub preflight : List PreflightCheck

pub record Argument : Type 0 where
  pub kind : String
  pub required : Bool
  pub default : Option ArgumentValue
  pub description : String

pub record Manifest : Type 0 where
  pub id : String
  pub revision : ℕ
  pub summary : String
  pub use_when : List String
  pub tags : List String
  pub aliases : List String
  pub execution : Option Execution
  pub arguments : List (String × Argument)
  pub inputs : List String
  pub outputs : List String
  pub checks : List String
  pub docs : List String
  pub cache_policy : String
  pub cache : Option Cache

pub record Capability : Type 0 where
  pub manifest : Manifest
  pub revision : String
  pub source_ref : String
  pub execution_fingerprint : String
  pub generation_id : String
