-- ===== src/Store/Records/Rows.antt =====
-- The rows of internal/store/sqlite/records.go, its indexes and its trigger, and `validateRecord`.
use repo_plane.Base.{
  ℕ, ◌*◌, String, len, Bool, false, not, ◌&&◌, ◌||◌, Option, none, some, List, [], ◌∷◌, ◌++◌, ltb,
  ◌==◌, ◌!=◌, String_eq, ℕ_eq, if◌then◌else◌, length, any, map,
}
use repo_plane.Store.{Record, RecordRevision}
use repo_plane.Store.Tx.{Tables, ImportRow}

-- What the code asks of `encoding/json` and of SQLite's JSON functions: whether a payload is valid
-- JSON, and the SQL value that `json_extract` finds at a path, if it is a text (`topic_key`) or not
-- NULL (`scope`, `configuration`).
pub record Json : Type 0 where
  pub valid : String → Bool
  pub topic_key : String → Option String
  pub scope : String → Option String
  pub configuration : String → Option String

-- 64*1024 bytes, and 128 evidence refs.
abbrev pub max_payload : ℕ
max_payload = 64 * 1024

abbrev pub max_evidence : ℕ
max_evidence = 128

unfoldable pub is_valid_record : Json → Record → Bool
is_valid_record j r = not (
    r.id == ""
    || r.kind == ""
    || r.schema_version == ""
    || r.project_id == ""
    || r.workspace_id == ""
    || r.revision != 1
    || r.source == ""
    || r.writer_class == ""
    || r.validity == ""
    || r.created_at == 0
    || r.updated_at == 0
    || not (j.valid r.payload)
    || ltb max_payload (len r.payload)
    || ltb max_evidence (length r.evidence_refs))

-- The row that a write adds to `record_revisions`.
abbrev pub row_of : Record → RecordRevision
row_of r = record {
  record_id = r.id;
  revision = r.revision;
  updated_at = r.updated_at;
  payload = r.payload;
  evidence_refs = r.evidence_refs;
  validity = r.validity;
  supersedes = r.supersedes;
}

abbrev pub has_id : String → Record → Bool
has_id id r = r.id == id

abbrev pub is_owned : String → String → Record → Bool
is_owned project workspace r = r.project_id == project && r.workspace_id == workspace

-- WHERE project_id=? AND workspace_id=? AND id=?
abbrev pub is_at : String → String → String → Record → Bool
is_at project workspace id r = is_owned project workspace r && has_id id r

abbrev pub has_record_id : String → RecordRevision → Bool
has_record_id id v = v.record_id == id

abbrev pub is_row : String → ℕ → RecordRevision → Bool
is_row id n v = has_record_id id v && v.revision == n

-- Two SQL values in a unique index: NULL differs from every value.
same_value : Option String → Option String → Bool
same_value (some a) (some b) = a == b
same_value _ _ = false

-- COALESCE(value, '')
abbrev or_empty : Option String → String
or_empty none = ""
or_empty (some a) = a

-- The rows that the index records_current_memo_topic covers.
has_topic : Json → Record → Bool
has_topic j r =
    r.kind == "memo" && r.validity == "current" && or_empty (j.topic_key r.payload) != ""

-- Two rows with one key in records_current_memo_topic.
unfoldable pub same_topic : Json → Record → Record → Bool
unfolding has_topic same_value
same_topic j a b =
    has_topic j a
    && has_topic j b
    && a.project_id == b.project_id
    && a.workspace_id == b.workspace_id
    && same_value (j.scope a.payload) (j.scope b.payload)
    && same_value (j.configuration a.payload) (j.configuration b.payload)
    && same_value (j.topic_key a.payload) (j.topic_key b.payload)

-- Two rows with one key in records_memo_successor.
unfoldable pub same_predecessor : Record → Record → Bool
same_predecessor a b =
    a.kind == "memo"
    && b.kind == "memo"
    && a.supersedes != ""
    && a.supersedes == b.supersedes
    && a.project_id == b.project_id
    && a.workspace_id == b.workspace_id

-- The unique indexes refuse the new row beside the rows given.
unfoldable pub violates_index : Json → Record → List Record → Bool
unfolding same_topic same_predecessor
violates_index j new = any (λ r. same_topic j new r || same_predecessor new r)

-- The trigger records_memo_topic_identity_immutable on an update of `old` to `new`.
unfoldable pub changes_topic : Json → Record → Record → Bool
changes_topic j old new =
    old.kind == "memo"
    && old.validity == "current"
    && new.validity == "current"
    && (or_empty (j.topic_key old.payload) != or_empty (j.topic_key new.payload)
        || or_empty (j.topic_key old.payload) != ""
          && (or_empty (j.scope old.payload) != or_empty (j.scope new.payload)
              || or_empty (j.configuration old.payload) != or_empty (j.configuration new.payload)))

abbrev pub add_record : Record → Tables → Tables
add_record r t = record t { records = t.records ++ r ∷ [] }

abbrev pub add_revision : RecordRevision → Tables → Tables
add_revision v t = record t { revisions = t.revisions ++ v ∷ [] }

abbrev pub add_import : ImportRow → Tables → Tables
add_import v t = record t { imports = t.imports ++ v ∷ [] }

-- The rows that are not the one with this ID.
abbrev pub others : String → List Record → List Record
others id [] = []
others id (r ∷ rs) = let rest = others id rs in if has_id id r then rest else r ∷ rest

-- UPDATE records SET … WHERE id=?
abbrev pub replace_row : Record → Record → Record
replace_row new r = if has_id new.id r then new else r

unfoldable pub set_record : Record → Tables → Tables
set_record new t = record t { records = map (replace_row new) t.records }
