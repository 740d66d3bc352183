-- ===== src/RecordService/Mutate/Examples.antt =====
-- A memo is retired, whose request carries another payload.
use repo_plane.Base.{◌+◌, ◌≡◌, refl, true, none, some, [], ◌∷◌, ok, find}
use repo_plane.Store.{Record}
use repo_plane.Store.Tx.{Db, statement, transaction}
use repo_plane.Store.Records.Rows.{
  is_at, row_of, violates_index, set_record, add_revision, changes_topic, same_topic,
  same_predecessor,
}
use repo_plane.Store.Records.Write.{
  update, update_memo, update_body, get_record, scan_record, update_row, insert_revision,
}
use repo_plane.RecordService.Mutate.{Owner, Mutation, mutate, mutate_update}
use repo_plane.RecordService.Mutate.Retired.{mutate-superseded}

abbrev owner : Owner
owner = record {
  json = record {
    valid = λ s. true;
    topic_key = λ s. none;
    scope = λ s. none;
    configuration = λ s. none;
  };
  project_id = "p";
  workspace_id = "w";
}

abbrev memo : Record
memo = record {
  id = "memo_1";
  kind = "memo";
  schema_version = "memo.v1";
  project_id = "p";
  workspace_id = "w";
  revision = 1;
  source = "user_asserted";
  writer_class = "intention";
  validity = "current";
  created_at = 5;
  updated_at = 5;
  payload = "{}";
  evidence_refs = [];
  supersedes = "";
}

abbrev retired : Record
retired = record memo { revision = 2; updated_at = 9; validity = "superseded" }

abbrev one_memo : Db
one_memo = record {
  tables = record { records = memo ∷ []; revisions = row_of memo ∷ []; imports = [] };
  faults = [];
}

abbrev retirement : Mutation
retirement = record {
  kind = "memo";
  schema_version = "memo.v1";
  source = "user_asserted";
  id = "memo_1";
  expected = 1;
  payload = "{\"content\":\"other\"}";
  evidence = "record:x" ∷ [];
}

retires : (mutate owner retirement "supersede" none 8 9 one_memo).0 ≡ ok retired
unfolding mutate mutate_update update_memo update update_body update_row get_record scan_record
    transaction statement insert_revision violates_index same_topic same_predecessor changes_topic
    set_record
retires = refl

mutate-superseded_example :
    (current : Record) × (find (is_at "p" "w" "memo_1") one_memo.tables.records ≡ some current)
    × (current.revision ≡ 1)
    × (retired ≡ record current {
      revision = current.revision + 1;
      updated_at = 9;
      validity = "superseded";
    })
    × ((mutate owner retirement "supersede" none 8 9 one_memo).1.tables
        ≡ add_revision (row_of retired) (set_record retired one_memo.tables))
mutate-superseded_example = mutate-superseded owner retirement none 8 9 one_memo retires
