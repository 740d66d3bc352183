-- ===== src/Store/Archive.antt =====
-- Export and restore of the durable records: `ExportRecords`, `RestoreRecords` and
-- `validateRecordArchive` of internal/store/sqlite/records.go. The proofs are in the modules below.
pub mod Order
pub mod Validate
pub mod Stored
pub mod Export
mod Examples
use repo_plane.Base.{
  ℕ, zero, suc, ◌+◌, String, len, Bool, true, false, not, ◌&&◌, ◌||◌, Option, none, some, List, [],
  ◌∷◌, ltb, ◌==◌, ◌!=◌, String_eq, ℕ_eq, if◌then◌else◌, length, any, find, filter, count, map,
  Result, ok, err,
}
use repo_plane.Store.{
  StoreError, conflict, failed, Record, RecordRevision, ReportReceipt, RecordArchive,
}
use repo_plane.Store.Tx.{
  Tables, ImportRow, Tx, ◌>>=◌, ◌>>◌, pure, raise, reject, gets, write, statement, Ending, commit,
  transaction,
}
use repo_plane.Store.Records.Rows.{
  Json, has_id, is_owned, is_row, violates_index, add_record, add_revision, add_import,
}
use Validate.{is_stored_revision, validate_record_archive}
use Order.{sort_by, record_le, revision_le, import_le}

-- The row is one of the owner's, by the join with `records`.
abbrev pub is_owned_row : String → String → List Record → RecordRevision → Bool
is_owned_row p w rs v = any (λ r. has_id v.record_id r && is_owned p w r) rs

abbrev pub is_owned_import : String → String → ImportRow → Bool
is_owned_import p w row = row.project_id == p && row.workspace_id == w

abbrev pub receipt_of : ImportRow → ReportReceipt
receipt_of row = record {
  source_hash = row.source_hash;
  parser_revision = row.parser_revision;
  record_id = row.record_id;
  imported_at = row.imported_at;
}

-- What the three queries of the export select, in their order.
unfoldable pub owned_archive : String → String → Tables → RecordArchive
owned_archive p w t = record {
  records = sort_by record_le (filter (is_owned p w) t.records);
  revisions = sort_by revision_le (filter (is_owned_row p w t.records) t.revisions);
  imports = map receipt_of (sort_by import_le (filter (is_owned_import p w) t.imports));
}

abbrev archive_size : RecordArchive → ℕ
archive_size a = length a.records + length a.revisions + length a.imports

-- Begin, three counts, three queries, commit: all read one snapshot.
unfoldable pub export_body : String → String → ℕ → Tx (Ending RecordArchive)
export_body p w limit = do
  statement failed
  statement failed
  statement failed
  archive ← gets (owned_archive p w)
  reject (ltb limit (archive_size archive)) conflict
  statement failed
  statement failed
  statement failed
  pure (commit archive)

unfoldable pub export_records : String → String → ℕ → Tx RecordArchive
export_records p w limit = do
  reject (p == "" || w == "" || limit == 0 || ltb 100000 limit) conflict
  transaction (export_body p w limit)

lift : Result StoreError (Unit {0}) → Tx (Unit {0})
lift r db = (r, db)

abbrev rebased : String → String → Record → Record
rebased p w r = record r { project_id = p; workspace_id = w }

abbrev import_of : String → String → ReportReceipt → ImportRow
import_of p w v = record {
  project_id = p;
  workspace_id = w;
  source_hash = v.source_hash;
  parser_revision = v.parser_revision;
  record_id = v.record_id;
  imported_at = v.imported_at;
}

abbrev same_import : ImportRow → ImportRow → Bool
same_import a b =
    a.project_id == b.project_id
    && a.workspace_id == b.workspace_id
    && a.source_hash == b.source_hash
    && a.parser_revision == b.parser_revision

module _ (j : Json) where
  restore_record : Record → Tx Unit
  restore_record r = do
    statement failed
    refused ← gets (λ t. any (has_id r.id) t.records || violates_index j r t.records)
    reject refused failed
    write (add_record r)

  restore_all : String → String → List Record → Tx Unit
  unfolding restore_record
  restore_all p w [] = pure tt
  restore_all p w (r ∷ rs) = do restore_record (rebased p w r); restore_all p w rs

  restore_revision : List Record → RecordRevision → Tx Unit
  restore_revision records v = do
    reject (not (any (has_id v.record_id) records) || not (is_stored_revision j v)) conflict
    statement failed
    taken ← gets (λ t. any (is_row v.record_id v.revision) t.revisions)
    reject taken failed
    write (add_revision v)

  restore_history : List Record → List RecordRevision → Tx Unit
  unfolding restore_revision
  restore_history records [] = pure tt
  restore_history records (v ∷ vs) = do restore_revision records v; restore_history records vs

  restore_import : String → String → List Record → ReportReceipt → Tx Unit
  restore_import p w records v = do
    reject
        (not (any (has_id v.record_id) records)
          || v.source_hash == ""
          || v.parser_revision == ""
          || v.imported_at == 0)
        conflict
    statement failed
    taken ← gets (λ t. any (same_import (import_of p w v)) t.imports)
    reject taken failed
    write (add_import (import_of p w v))

  restore_imports : String → String → List Record → List ReportReceipt → Tx Unit
  unfolding restore_import
  restore_imports p w records [] = pure tt
  restore_imports p w records (v ∷ vs) = do
    restore_import p w records v
    restore_imports p w records vs

  restore_body : String → String → RecordArchive → Tx (Ending (Unit {0}))
  unfolding restore_all restore_history restore_imports
  restore_body p w a = do
    statement failed
    existing ← gets (λ t. any (is_owned p w) t.records)
    reject existing conflict
    restore_all p w a.records
    restore_history a.records a.revisions
    restore_imports p w a.records a.imports
    pure (commit tt)

  unfoldable pub restore_records : String → String → RecordArchive → Tx (Unit {0})
  unfolding restore_body lift
  restore_records p w a = do
    reject (p == "" || w == "" || ltb 100000 (archive_size a)) conflict
    lift (validate_record_archive j a)
    transaction (restore_body p w a)
