-- ===== src/RecordService/Mutate.antt =====
-- The writes of internal/records/service.go and update.go on the durable records: mutate,
-- recordForUpdate, currentTopicMemo, existingTopicResponse and the receipts. crypto/rand and the clock
-- are arguments.
pub mod Retired
mod Examples
use Prim.Native.String.{◌++◌ as join}
use repo_plane.Base.{
  ℕ, String, Bool, true, false, not, ◌&&◌, ◌||◌, Option, none, some, List, [], ◌∷◌, ◌==◌, ◌!=◌,
  String_eq, ℕ_eq, if◌then◌else◌, Result, ok, err,
}
use repo_plane.Contracts.{Status, Warning, status_ok, status_partial}
use repo_plane.Store.{Record, RecordUpdate, StoreError}
use repo_plane.Store.Tx.{Db, Tx}
use repo_plane.Store.Records.Rows.{Json}
use repo_plane.Store.Records.Write.{
  get_record, create_checkpoint, create_memo, update_checkpoint, update_memo,
}
use repo_plane.Store.Records.Query.{TextSearch, RecordQuery, RecordPage, query_records}
use repo_plane.RecordService.Validate.{Problem, field}

pub data ServiceError : Type 0 where
  not_found conflict storage_failure no_random unsupported : ServiceError
  invalid : Problem → ServiceError
  -- a TransitionError, by the field it names
  transition : String → ServiceError

abbrev pub Act : Type 0 → Type 0
Act A = Db → Result ServiceError A × Db

abbrev continue : {A B : Type 0} → Result ServiceError A → (A → Act B) → Act B
continue (ok a) f db = f a db
continue (err e) f db = (err e, db)

infixl 5 ◌>>=◌ ◌>>◌
abbrev pub ◌>>=◌ : {A B : Type 0} → Act A → (A → Act B) → Act B
◌>>=◌ a f db = let (r, db') = a db in continue r f db'

abbrev pub ◌>>◌ : {B : Type 0} → Act Unit → Act B → Act B
a >> b = a >>= λ _. b

abbrev pub pure : {A : Type 0} → A → Act A
pure a db = (ok a, db)

abbrev pub raise : {A : Type 0} → ServiceError → Act A
raise e db = (err e, db)

abbrev pub reject : Bool → ServiceError → Act Unit
reject true e db = (err e, db)
reject false e db = (ok tt, db)

-- Only the two errors that a client can act on pass; any other is a storage failure.
abbrev pub mutation_store_error : StoreError → ServiceError
mutation_store_error StoreError.not_found = not_found
mutation_store_error StoreError.conflict = conflict
mutation_store_error StoreError.failed = storage_failure

abbrev pub service_result : {A : Type 0} → Result StoreError A → Result ServiceError A
service_result (ok a) = ok a
service_result (err e) = err (mutation_store_error e)

abbrev pub stored : {A : Type 0} → Tx A → Act A
stored tx db = let (r, db') = tx db in (service_result r, db')

pub record Owner : Type 0 where
  pub json : Json
  pub project_id : String
  pub workspace_id : String

-- The arguments of mutate besides the mode.
pub record Mutation : Type 0 where
  pub kind : String
  pub schema_version : String
  pub source : String
  pub id : String
  pub expected : ℕ
  pub payload : String
  pub evidence : List String

module _ (o : Owner) where
  unfoldable pub record_for_update : String → String → ℕ → Act Record
  record_for_update kind id revision = do
    reject (id == "" || revision == 0) (invalid (field "id/expected_revision"))
    current ← stored (get_record o.project_id o.workspace_id id)
    reject (current.kind != kind) (transition "id")
    reject (current.revision != revision) conflict
    pure current

  abbrev pub new_record : Mutation → String → ℕ → Record
  new_record m id now = record {
    id = id;
    kind = m.kind;
    schema_version = m.schema_version;
    project_id = o.project_id;
    workspace_id = o.workspace_id;
    revision = 1;
    source = m.source;
    writer_class = "intention";
    validity = "current";
    created_at = now;
    updated_at = now;
    payload = m.payload;
    evidence_refs = m.evidence;
    supersedes = "";
  }

  abbrev create_one : Bool → Record → Tx Record
  create_one true r = create_checkpoint o.json r
  create_one false r = create_memo o.json r

  mutate_create : Mutation → Option String → ℕ → Act Record
  mutate_create m none now = raise no_random
  mutate_create m (some hex) now =
      stored (create_one (m.kind == "checkpoint") (new_record m (join m.kind (join "_" hex)) now))

  -- A retirement carries the payload and the references over, every write the predecessor.
  abbrev pub update_of : Mutation → Bool → Record → RecordUpdate
  update_of m retires current = record {
    project_id = o.project_id;
    workspace_id = o.workspace_id;
    id = m.id;
    expected_revision = m.expected;
    payload = if retires then current.payload else m.payload;
    evidence_refs = if retires then current.evidence_refs else m.evidence;
    validity = if retires then "superseded" else "current";
    supersedes = current.supersedes;
  }

  abbrev pub update_one : Bool → RecordUpdate → ℕ → Tx Record
  update_one true u at = update_checkpoint o.json u at
  update_one false u at = update_memo o.json u at

  unfoldable pub mutate_update : Mutation → Bool → ℕ → Act Record
  mutate_update m retires at = do
    current ← stored (get_record o.project_id o.workspace_id m.id)
    reject (current.kind != m.kind || current.revision != m.expected) conflict
    stored (update_one (m.kind == "checkpoint") (update_of m retires current) at)

  -- `now` is the clock of the service, and `at` that of the repository.
  unfoldable pub mutate : Mutation → String → Option String → ℕ → ℕ → Act Record
  unfolding mutate_create
  mutate m mode drawn now at =
      if mode == "create"
      then mutate_create m drawn now
      else (if mode == "update"
          then mutate_update m false at
          else (if mode == "supersede" then mutate_update m true at else raise unsupported))

  abbrev pub topic_query : String → String → String → RecordQuery
  topic_query scope configuration topic_key = record {
    project_id = o.project_id;
    workspace_id = o.workspace_id;
    kind = "memo";
    validity = "current";
    source = "";
    updated_after = 0;
    updated_before = 0;
    topic_key = topic_key;
    scope = scope;
    configuration = configuration;
    supersedes = "";
    terms = [];
    match_all = false;
    limit = 1;
  }

  abbrev pub only_record : List Record → Option Record
  only_record (r ∷ []) = some r
  only_record _ = none

  -- The error of the query is given as it is.
  unfoldable pub current_topic_memo : TextSearch → String → String → String → Tx (Option Record)
  current_topic_memo search scope configuration topic_key db =
      let (r, db') = query_records o.json search (topic_query scope configuration topic_key) db in
      elim r [ err e ↦ (err e, db') | ok page ↦ (ok (only_record page.records), db') ]

-- A response to a write whose view is the receipt.
pub record Receipt : Type 0 where
  pub status : Status
  pub id : String
  pub revision : ℕ
  pub duplicate : Bool
  pub warnings : List Warning

abbrev pub receipt : Record → Bool → Receipt
receipt r duplicate = record {
  status = status_ok;
  id = r.id;
  revision = r.revision;
  duplicate = duplicate;
  warnings = [];
}

abbrev pub existing_topic_receipt : Record → Receipt
existing_topic_receipt r = record (receipt r false) {
  status = status_partial;
  warnings =
      record {
        code = "memo_topic_exists";
        message = "current topic exists; update by ID/revision or supersede";
        ref = some (join "record:" r.id);
      }
      ∷ [];
}
