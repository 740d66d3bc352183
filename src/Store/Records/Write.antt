-- ===== src/Store/Records/Write.antt =====
-- The writers of internal/store/sqlite/records.go.
use repo_plane.Base.{
  ℕ, ◌+◌, String, len, Bool, true, false, not, ◌&&◌, ◌||◌, Option, none, some, ltb, ◌==◌, ◌!=◌,
  String_eq, ℕ_eq, length, any, find,
}
use repo_plane.Store.{
  not_found, conflict, failed, Record, RecordUpdate, RecordReplace, RecordRevision,
}
use repo_plane.Store.Tx.{
  ImportRow, Tx, ◌>>=◌, ◌>>◌, pure, raise, reject, gets, write, statement, Ending, commit, rollback,
  transaction,
}
use repo_plane.Store.Records.Rows.{
  Json, max_payload, max_evidence, is_valid_record, row_of, has_id, is_at, is_row, violates_index,
  changes_topic, add_record, add_revision, add_import, others, set_record,
}

unfoldable pub scan_record : Option Record → Tx Record
scan_record none = raise not_found
scan_record (some r) = pure r

-- `getRecordTx`, and `GetRecord` outside a transaction
unfoldable pub get_record : String → String → String → Tx Record
unfolding scan_record
get_record project workspace id = do
  statement failed
  row ← gets (λ t. find (is_at project workspace id) t.records)
  scan_record row

-- INSERT INTO record_revisions: the key is (record_id, revision).
unfoldable pub insert_revision : RecordRevision → Tx Unit
insert_revision v = do
  statement failed
  taken ← gets (λ t. any (is_row v.record_id v.revision) t.revisions)
  reject taken failed
  write (add_revision v)

abbrev pub updated : RecordUpdate → ℕ → Record → Record
updated u now current = record current {
  revision = current.revision + 1;
  updated_at = now;
  payload = u.payload;
  evidence_refs = u.evidence_refs;
  validity = u.validity;
  supersedes = u.supersedes;
}

abbrev pub superseded : ℕ → Record → Record
superseded at old = record old {
  revision = old.revision + 1;
  updated_at = at;
  validity = "superseded";
}

abbrev pub bad_replace : RecordReplace → Bool
bad_replace r =
    r.project_id == ""
    || r.workspace_id == ""
    || r.old_id == ""
    || r.expected_revision == 0
    || r.new.kind != "memo"
    || r.new.supersedes != r.old_id
    || r.new.project_id != r.project_id
    || r.new.workspace_id != r.workspace_id

-- The UPDATE of the old memo writes no payload, so the trigger does not run, and the row leaves the
-- index of current topics; its key in the index of successors stays.
unfoldable pub retire : Record → Tx Unit
retire old = do statement failed; write (set_record old); insert_revision (row_of old)

abbrev pub is_import : Record → String → String → ImportRow → Bool
is_import r source_hash parser_revision row =
    row.project_id == r.project_id
    && row.workspace_id == r.workspace_id
    && row.source_hash == source_hash
    && row.parser_revision == parser_revision

abbrev pub import_row : Record → String → String → ℕ → ImportRow
import_row r source_hash parser_revision now = record {
  project_id = r.project_id;
  workspace_id = r.workspace_id;
  source_hash = source_hash;
  parser_revision = parser_revision;
  record_id = r.id;
  imported_at = now;
}

abbrev pub bad_import : Record → String → String → Bool
bad_import r source_hash parser_revision =
    r.kind != "verification"
    || r.writer_class != "importer"
    || source_hash == ""
    || parser_revision == ""

abbrev pub observation_kind : String → Bool
observation_kind kind = kind == "environment" || kind == "run" || kind == "artifact"

module _ (j : Json) where
  -- INSERT INTO records: every error of the statement is wrapped as a conflict.
  unfoldable pub insert_row : Record → Tx Unit
  insert_row r = do
    statement conflict
    refused ← gets (λ t. any (has_id r.id) t.records || violates_index j r t.records)
    reject refused conflict
    write (add_record r)

  unfoldable pub insert_record : Record → Tx Unit
  insert_record r = do
    reject (not (is_valid_record j r)) conflict
    insert_row r
    insert_revision (row_of r)

  unfoldable pub create_body : Record → Tx (Ending Record)
  create_body r = do insert_record r; pure (commit r)

  unfoldable pub create : Record → Tx Record
  create r = transaction (create_body r)

  abbrev pub bad_update : RecordUpdate → Bool
  bad_update u =
      u.project_id == ""
      || u.workspace_id == ""
      || u.id == ""
      || u.expected_revision == 0
      || u.validity == ""
      || not (j.valid u.payload)
      || ltb max_payload (len u.payload)
      || ltb max_evidence (length u.evidence_refs)

  -- UPDATE records SET … WHERE id=? AND project_id=? AND workspace_id=? AND revision=?, in the
  -- transaction that has just read `current` at that revision, so that one row changes.
  unfoldable pub update_row : Record → Record → Tx Unit
  update_row current new = do
    statement failed
    reject (changes_topic j current new) conflict
    refused ← gets (λ t. violates_index j new (others new.id t.records))
    reject refused failed
    write (set_record new)

  unfoldable pub update_body : String → RecordUpdate → ℕ → Tx (Ending Record)
  update_body kind u now = do
    current ← get_record u.project_id u.workspace_id u.id
    reject (current.kind != kind || current.revision != u.expected_revision) conflict
    update_row current (updated u now current)
    insert_revision (row_of (updated u now current))
    pure (commit (updated u now current))

  -- `now` is what `time.Now()` returns.
  unfoldable pub update : String → RecordUpdate → ℕ → Tx Record
  update kind u now = do reject (bad_update u) conflict; transaction (update_body kind u now)

  unfoldable pub replace_body : RecordReplace → Tx (Ending Record)
  replace_body r = do
    old ← get_record r.project_id r.workspace_id r.old_id
    reject (old.kind != "memo" || old.validity != "current" || old.revision != r.expected_revision)
        conflict
    retire (superseded r.new.created_at old)
    insert_record r.new
    pure (commit r.new)

  unfoldable pub replace_memo : RecordReplace → Tx Record
  replace_memo r = do
    reject (bad_replace r) conflict
    reject (not (is_valid_record j r.new)) conflict
    transaction (replace_body r)

  -- The report was not seen before; the `SELECT` above found no row of this key.
  unfoldable pub import_new : Record → ImportRow → Tx (Ending (Record × Bool))
  import_new r row = do
    insert_record r
    statement failed
    write (add_import row)
    pure (commit (r, false))

  unfoldable pub import_old : Record → String → Tx (Ending (Record × Bool))
  import_old r id = do
    found ← get_record r.project_id r.workspace_id id
    pure (rollback (found, true))

  unfoldable pub import_found : Record → ImportRow → Option ImportRow → Tx (Ending (Record × Bool))
  import_found r row none = import_new r row
  import_found r row (some seen) = import_old r seen.record_id

  unfoldable pub import_body : Record → String → String → ℕ → Tx (Ending (Record × Bool))
  import_body r source_hash parser_revision now = do
    statement failed
    seen ← gets (λ t. find (is_import r source_hash parser_revision) t.imports)
    import_found r (import_row r source_hash parser_revision now) seen

  unfoldable pub import_verification : Record → String → String → ℕ → Tx (Record × Bool)
  import_verification r source_hash parser_revision now = do
    reject (bad_import r source_hash parser_revision) conflict
    transaction (import_body r source_hash parser_revision now)

  unfoldable pub create_checkpoint : Record → Tx Record
  create_checkpoint r = do
    reject (r.kind != "checkpoint" || r.writer_class != "intention") conflict
    create r

  unfoldable pub update_checkpoint : RecordUpdate → ℕ → Tx Record
  update_checkpoint = update "checkpoint"

  unfoldable pub create_memo : Record → Tx Record
  create_memo r = do reject (r.kind != "memo" || r.writer_class != "intention") conflict; create r

  unfoldable pub update_memo : RecordUpdate → ℕ → Tx Record
  update_memo = update "memo"

  unfoldable pub create_observation : Record → Tx Record
  create_observation r = do
    reject (not (observation_kind r.kind) || r.writer_class != "server" || r.source != "observed")
        conflict
    create r

  unfoldable pub update_observation : String → RecordUpdate → ℕ → Tx Record
  update_observation kind u now = do
    reject (not (observation_kind kind)) conflict
    update kind u now
