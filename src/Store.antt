-- ===== src/Store.antt =====
-- The persistence contracts of internal/store/store.go: durable records, their revisions, the
-- requests of the record writers, and the errors. A time counts nanoseconds from Go's zero time,
-- so `IsZero` is `== 0`; a raw JSON message is its text.
pub mod Tx
pub mod Records
pub mod Archive
pub mod Cache
pub mod Results
use repo_plane.Base.{ℕ, String, List}

-- ErrNotFound, ErrConflict, and any other error of the adapter.
pub data StoreError : Type 0 where
  not_found conflict failed : StoreError

pub record Record : Type 0 where
  pub id : String
  pub kind : String
  pub schema_version : String
  pub project_id : String
  pub workspace_id : String
  pub revision : ℕ
  pub source : String
  pub writer_class : String
  pub validity : String
  pub created_at : ℕ
  pub updated_at : ℕ
  pub payload : String
  pub evidence_refs : List String
  pub supersedes : String

pub record RecordUpdate : Type 0 where
  pub project_id : String
  pub workspace_id : String
  pub id : String
  pub expected_revision : ℕ
  pub payload : String
  pub evidence_refs : List String
  pub validity : String
  pub supersedes : String

pub record RecordReplace : Type 0 where
  pub project_id : String
  pub workspace_id : String
  pub old_id : String
  pub expected_revision : ℕ
  pub new : Record

pub record RecordRevision : Type 0 where
  pub record_id : String
  pub revision : ℕ
  pub updated_at : ℕ
  pub payload : String
  pub evidence_refs : List String
  pub validity : String
  pub supersedes : String

pub record ReportReceipt : Type 0 where
  pub source_hash : String
  pub parser_revision : String
  pub record_id : String
  pub imported_at : ℕ

pub record RecordArchive : Type 0 where
  pub records : List Record
  pub revisions : List RecordRevision
  pub imports : List ReportReceipt
