-- ===== src/Store/Archive/Examples.antt =====
-- An export of the database of a created and updated memo.
use repo_plane.Base.{◌≡◌, refl, subst, sym, [], ◌∷◌, ok}
use repo_plane.Store.{RecordArchive}
use repo_plane.Store.Tx.{Db, statement, transaction}
use repo_plane.Store.Archive.{export_records, export_body, owned_archive}
use repo_plane.Store.Archive.Validate.{validate_record_archive}
use repo_plane.Store.Archive.Export.{export-valid}
use repo_plane.Store.Archive.Order.{sort_by}
use repo_plane.Store.Records.Rows.{
  row_of, is_valid_record, violates_index, same_topic, same_predecessor,
}
use repo_plane.Store.Records.Write.{
  create, create_body, create_memo, insert_record, insert_row, insert_revision,
}
use repo_plane.Store.Records.Run.{run, run_all}
use repo_plane.Store.Records.Guarantees.{empty_tables}
use repo_plane.Store.Records.Examples.{json, one_call, memo}

abbrev filled : Db
filled = record {
  tables = record { records = memo ∷ []; revisions = row_of memo ∷ []; imports = [] };
  faults = [];
}

abbrev archive : RecordArchive
archive = owned_archive "p" "w" filled.tables

fills : run_all json one_call (record { tables = empty_tables; faults = [] }) ≡ filled
unfolding run_all run create_memo create create_body insert_record insert_row insert_revision
    is_valid_record violates_index same_topic same_predecessor transaction statement
fills = refl

filled_exports : (export_records "p" "w" 100 filled).0 ≡ ok archive
unfolding transaction statement export_records export_body owned_archive sort_by
filled_exports = refl

exports :
    (export_records "p" "w" 100
      (run_all json one_call (record { tables = empty_tables; faults = [] }))).0
    ≡ ok archive
exports = subst (λ db. (export_records "p" "w" 100 db).0 ≡ ok archive) (sym fills) filled_exports

export-valid_example : validate_record_archive json archive ≡ ok tt
export-valid_example = export-valid json one_call [] "p" "w" 100 refl exports
