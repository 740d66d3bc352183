-- ===== src/Store/Records/Examples.antt =====
-- A memo is created, updated and replaced, and a report imported twice, on a database without faults.
use repo_plane.Base.{
  ℕ, ◌+◌, String, ◌≡◌, ◌≢◌, refl, subst, true, false, none, some, List, [], ◌∷◌, ok, err, find,
}
use repo_plane.Store.{conflict, Record, RecordUpdate, RecordReplace}
use repo_plane.Store.Tx.{Tables, Db, statement, transaction}
use repo_plane.Store.Records.Rows.{
  Json, is_row, is_valid_record, has_id, is_at, others, row_of, violates_index, set_record,
  changes_topic, same_topic, same_predecessor,
}
use repo_plane.Store.Records.Write.{
  update, updated, create, replace_memo, import_verification, update_body, create_body, get_record,
  scan_record, update_row, insert_row, insert_record, insert_revision, retire, replace_body,
  create_memo, update_memo, import_body, import_found, import_new, import_old,
}
use repo_plane.Store.Records.Run.{
  Call, create_memo_call, update_memo_call, run, run_all, run_atomic,
}
use repo_plane.Store.Records.History.{IsConsistent}
use repo_plane.Store.Records.Guarantees.{
  run_all-IsConsistent, run_all-keeps_row, update-reads_back, empty-IsConsistent, empty_tables,
}
use repo_plane.Store.Records.Guarantees.Success.{update_succeeds}
use repo_plane.Store.Records.Guarantees.Conflict.{update_once}
use repo_plane.Store.Records.Effects.Memo.{Replaced, replace_memo-Replaced}
use repo_plane.Store.Records.Effects.Import.{ImportOutcome, import_verification-ImportOutcome}

abbrev pub json : Json
json = record {
  valid = λ s. true;
  topic_key = λ s. none;
  scope = λ s. none;
  configuration = λ s. none;
}

abbrev pub memo : Record
memo = record {
  id = "m1";
  kind = "memo";
  schema_version = "v1";
  project_id = "p";
  workspace_id = "w";
  revision = 1;
  source = "agent";
  writer_class = "intention";
  validity = "current";
  created_at = 5;
  updated_at = 5;
  payload = "{}";
  evidence_refs = [];
  supersedes = "";
}

abbrev pub change : RecordUpdate
change = record {
  project_id = "p";
  workspace_id = "w";
  id = "m1";
  expected_revision = 1;
  payload = "{\"a\":1}";
  evidence_refs = [];
  validity = "current";
  supersedes = "";
}

abbrev pub calls : List (ℕ × Call)
calls =
    (5, create_memo_call memo) ∷ (7, update_memo_call change) ∷ (8, update_memo_call change) ∷ []

abbrev empty_db : Db
empty_db = record { tables = empty_tables; faults = [] }

run_all-IsConsistent_example : IsConsistent (run_all json calls empty_db).tables
run_all-IsConsistent_example = run_all-IsConsistent json calls empty_db empty-IsConsistent

abbrev changed : Record
changed = record memo { revision = 2; updated_at = 7; payload = "{\"a\":1}" }

abbrev pub one_call : List (ℕ × Call)
one_call = (5, create_memo_call memo) ∷ []

creates : (create_memo json memo empty_db).0 ≡ ok memo
unfolding run_all run create_memo update_memo create create_body insert_record insert_row
    insert_revision is_valid_record violates_index same_topic same_predecessor changes_topic
    set_record update update_body update_row get_record scan_record transaction statement retire
    replace_body replace_memo import_verification import_body import_found import_new import_old
creates = refl

updates : (update json "memo" change 7 (run_all json one_call empty_db)).0 ≡ ok changed
unfolding run_all run create_memo update_memo create create_body insert_record insert_row
    insert_revision is_valid_record violates_index same_topic same_predecessor changes_topic
    set_record update update_body update_row get_record scan_record transaction statement retire
    replace_body replace_memo import_verification import_body import_found import_new import_old
updates = refl

update_once_example : ¬ (
    (update json "memo" change 9
      (run_all json calls (update json "memo" change 7 (run_all json one_call empty_db)).1)).0
    ≡ ok changed)
update_once_example =
    update_once json "memo" change 7 (run_all json one_call empty_db)
      (run_all-IsConsistent json one_call empty_db empty-IsConsistent) updates calls "memo" change 9
      refl refl

stale :
    (run json 8
      (update_memo_call (record change { expected_revision = 9 }))
      (run_all json one_call empty_db)).0
    ≡ err conflict
unfolding run_all run create_memo update_memo create create_body insert_record insert_row
    insert_revision is_valid_record violates_index same_topic same_predecessor changes_topic
    set_record update update_body update_row get_record scan_record transaction statement retire
    replace_body replace_memo import_verification import_body import_found import_new import_old
stale = refl

run_atomic_example :
    (run json 8
      (update_memo_call (record change { expected_revision = 9 }))
      (run_all json one_call empty_db)).1.tables
    ≡ (run_all json one_call empty_db).tables
run_atomic_example =
    run_atomic json 8 (update_memo_call (record change { expected_revision = 9 }))
      (run_all json one_call empty_db) stale

first_row :
    find (is_row "m1" 1) (run_all json one_call empty_db).tables.revisions ≡ some (row_of memo)
unfolding run_all run create_memo update_memo create create_body insert_record insert_row
    insert_revision is_valid_record violates_index same_topic same_predecessor changes_topic
    set_record update update_body update_row get_record scan_record transaction statement retire
    replace_body replace_memo import_verification import_body import_found import_new import_old
first_row = refl

run_all-keeps_row_example :
    find (is_row "m1" 1) (run_all json calls (run_all json one_call empty_db)).tables.revisions
    ≡ some (row_of memo)
run_all-keeps_row_example =
    run_all-keeps_row "m1" 1 json calls (run_all json one_call empty_db) first_row

update-reads_back_example :
    (changed.revision ≡ change.expected_revision + 1)
    × (find
          (has_id "m1")
          (update json "memo" change 7 (run_all json one_call empty_db)).1.tables.records
        ≡ some changed)
update-reads_back_example =
    update-reads_back json "memo" change 7 (run_all json one_call empty_db)
      (run_all-IsConsistent json one_call empty_db empty-IsConsistent) updates

abbrev replacement : RecordReplace
replacement = record {
  project_id = "p";
  workspace_id = "w";
  old_id = "m1";
  expected_revision = 1;
  new = record memo { id = "m2"; created_at = 9; updated_at = 9; supersedes = "m1" };
}

replaces : (replace_memo json replacement (run_all json one_call empty_db)).0 ≡ ok replacement.new
unfolding run_all run create_memo update_memo create create_body insert_record insert_row
    insert_revision is_valid_record violates_index same_topic same_predecessor changes_topic
    set_record update update_body update_row get_record scan_record transaction statement retire
    replace_body replace_memo import_verification import_body import_found import_new import_old
replaces = refl

replace_memo-Replaced_example :
    (old : Record) × (replacement.new ≡ replacement.new)
    × Replaced json replacement old
        (run_all json one_call empty_db).tables
        (replace_memo json replacement (run_all json one_call empty_db)).1.tables
replace_memo-Replaced_example =
    replace_memo-Replaced json replacement (run_all json one_call empty_db) replaces

abbrev report : Record
report = record memo { id = "v1"; kind = "verification"; writer_class = "importer" }

abbrev hash : String
hash = "sha"

abbrev parser : String
parser = "1"

imports : (import_verification json report hash parser 6 empty_db).0 ≡ ok (report, false)
unfolding run_all run create_memo update_memo create create_body insert_record insert_row
    insert_revision is_valid_record violates_index same_topic same_predecessor changes_topic
    set_record update update_body update_row get_record scan_record transaction statement retire
    replace_body replace_memo import_verification import_body import_found import_new import_old
imports = refl

import_verification-ImportOutcome_example :
    (report.kind ≡ "verification")
    × (hash ≢ "")
    × (parser ≢ "")
    × ImportOutcome json report hash parser 6 report false empty_tables
        (import_verification json report hash parser 6 empty_db).1.tables
import_verification-ImportOutcome_example =
    import_verification-ImportOutcome json report hash parser 6 empty_db imports

abbrev stored : Tables
stored = record { records = memo ∷ []; revisions = row_of memo ∷ []; imports = [] }

stores : run_all json one_call empty_db ≡ record { tables = stored; faults = [] }
unfolding run_all run create_memo update_memo create create_body insert_record insert_row
    insert_revision is_valid_record violates_index same_topic same_predecessor changes_topic
    set_record update update_body update_row get_record scan_record transaction statement retire
    replace_body replace_memo import_verification import_body import_found import_new import_old
stores = refl

memo_found : find (is_at "p" "w" "m1") stored.records ≡ some memo
memo_found = refl

memo_topic : changes_topic json memo (updated change 7 memo) ≡ false
unfolding changes_topic
memo_topic = refl

memo_index : violates_index json (updated change 7 memo) (others "m1" stored.records) ≡ false
unfolding violates_index
memo_index = refl

stored-IsConsistent : IsConsistent stored
stored-IsConsistent =
    subst (λ db. IsConsistent db.tables) stores
      (run_all-IsConsistent json one_call empty_db empty-IsConsistent)

update_succeeds_example :
    (update json "memo" change 7 (record { tables = stored; faults = [] })).0
    ≡ ok (updated change 7 memo)
update_succeeds_example =
    update_succeeds json "memo" change 7 stored stored-IsConsistent refl memo_found refl refl
      memo_topic memo_index
