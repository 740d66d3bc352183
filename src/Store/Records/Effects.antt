-- ===== src/Store/Records/Effects.antt =====
-- What the writers of internal/store/sqlite/records.go leave in the tables when they succeed, and
-- that they leave nothing when they fail.
pub mod Memo
pub mod Import
use repo_plane.Base.{
  ℕ, ◌+◌, String, ◌≡◌, refl, Bool, true, false, not, ◌&&◌, ◌||◌, Option, none, some, List, arith,
  Result, ok, err, any, find, Bool-cases, Result-cases, ◌⊎◌, inl, inr, eq_iff,
}
use repo_plane.Store.{
  StoreError, conflict, failed, Record, RecordUpdate, RecordReplace, RecordRevision,
}
use repo_plane.Store.Tx.{
  Tables, ImportRow, Db, Tx, statement, Ending, commit, rollback, transaction, tables-statement,
  ◌>>=◌,
}
use repo_plane.Store.Tx.Laws.{transaction-ok}
use repo_plane.Store.Records.Rows.{
  Json, is_valid_record, row_of, has_id, is_at, is_row, violates_index, changes_topic, others,
  add_record, add_revision, set_record,
}
use repo_plane.Store.Records.Write.{
  get_record, insert_revision, insert_row, insert_record, create, create_body, bad_update, update,
  update_row, update_body, updated, replace_memo, import_verification,
}

-- What a successful `insertRecord` has checked and written.
pub record Inserted (j : Json) (r : Record) (before after : Tables) : Type 0 where
  pub valid : is_valid_record j r ≡ true
  pub fresh : any (has_id r.id) before.records ≡ false
  pub indexed : violates_index j r before.records ≡ false
  pub first : any (is_row r.id r.revision) before.revisions ≡ false
  pub written : after ≡ add_revision (row_of r) (add_record r before)

insert_row-ok :
    (j : Json) (r : Record) (db : Db)
    → (insert_row j r db).0 ≡ ok tt
    → (any (has_id r.id) db.tables.records ≡ false)
      × (violates_index j r db.tables.records ≡ false)
      × ((insert_row j r db).1.tables ≡ add_record r db.tables)
unfolding insert_row
insert_row-ok j r db h = ground (arith, tables-statement conflict db)

pub insert_revision-ok :
    (v : RecordRevision) (db : Db)
    → (insert_revision v db).0 ≡ ok tt
    → (any (is_row v.record_id v.revision) db.tables.revisions ≡ false)
      × ((insert_revision v db).1.tables ≡ add_revision v db.tables)
unfolding insert_revision
insert_revision-ok v db h = ground (arith, tables-statement failed db)

pub insert_record-Inserted :
    (j : Json) (r : Record) (db : Db)
    → (insert_record j r db).0 ≡ ok tt
    → Inserted j r db.tables (insert_record j r db).1.tables
unfolding insert_record
insert_record-Inserted j r db h =
    ground (arith, insert_row-ok j r db, insert_revision-ok (row_of r) (insert_row j r db).1)

-- What a successful read has found.
pub get_record-ok :
    (p w id : String) (db : Db) {r : Record}
    → (get_record p w id db).0 ≡ ok r
    → (find (is_at p w id) db.tables.records ≡ some r)
      × ((get_record p w id db).1.tables ≡ db.tables)
unfolding get_record
get_record-ok p w id db h = ground (arith, tables-statement failed db)

-- What a successful update has checked and written.
pub record Updated (j : Json) (kind : String) (u : RecordUpdate) (now : ℕ) (current new : Record)
    (before after : Tables) : Type 0 where
  pub accepted : bad_update j u ≡ false
  pub found : find (is_at u.project_id u.workspace_id u.id) before.records ≡ some current
  pub same_kind : current.kind ≡ kind
  pub expected : current.revision ≡ u.expected_revision
  pub result : new ≡ updated u now current
  pub same_topic : changes_topic j current new ≡ false
  pub indexed : violates_index j new (others new.id before.records) ≡ false
  pub next : any (is_row new.id new.revision) before.revisions ≡ false
  pub written : after ≡ add_revision (row_of new) (set_record new before)

update_row-ok :
    (j : Json) (current new : Record) (db : Db)
    → (update_row j current new db).0 ≡ ok tt
    → (changes_topic j current new ≡ false)
      × (violates_index j new (others new.id db.tables.records) ≡ false)
      × ((update_row j current new db).1.tables ≡ set_record new db.tables)
unfolding update_row
update_row-ok j current new db h = ground (arith, tables-statement failed db)

-- The steps of the body of `update`, once its read has found `current`.
module _ (j : Json) (kind : String) (u : RecordUpdate) (now : ℕ) (db : Db) (current : Record) where
  update_body-Updated :
      bad_update j u ≡ false
      → (get_record u.project_id u.workspace_id u.id db).0 ≡ ok current
      → {x : Ending Record} → (update_body j kind u now db).0 ≡ ok x
      → (x ≡ commit (updated u now current))
        × Updated j kind u now current
            (updated u now current)
            db.tables
            (update_body j kind u now db).1.tables
  unfolding update_body set_record
  update_body-Updated good q h =
      let read = (get_record u.project_id u.workspace_id u.id db).1 in
      let new = updated u now current in
      ground (
        arith,
        get_record-ok u.project_id u.workspace_id u.id db q,
        update_row-ok j current new read,
        insert_revision-ok (row_of new) (update_row j current new read).1,
        eq_iff current.kind kind,
      )

update_body_reads :
    (j : Json) (kind : String) (u : RecordUpdate) (now : ℕ) (db : Db) {x : Ending Record}
    → (update_body j kind u now db).0 ≡ ok x
    → (current : Record) × ((get_record u.project_id u.workspace_id u.id db).0 ≡ ok current)
unfolding update_body
update_body_reads j kind u now db h =
    elim (Result-cases (get_record u.project_id u.workspace_id u.id db).0) [
      | inl (e, q) ↦ ground (arith, q)
      | inr found ↦ found
    ]

update_commits :
    (j : Json) (kind : String) (u : RecordUpdate) (now : ℕ) (db : Db) {new : Record}
    → bad_update j u ≡ false
    → (transaction (update_body j kind u now) db).0 ≡ ok new
    → (current : Record) × Updated j kind u now current new db.tables
        (transaction (update_body j kind u now) db).1.tables
update_commits j kind u now db {new} good h =
    elim (transaction-ok (update_body j kind u now) db h) [
      | inl (e, t) ↦
          (let (current, read) = update_body_reads j kind u now (statement failed db).1 e in
            let (same, done) =
              update_body-Updated j kind u now (statement failed db).1 current good read e in
            (current, ground (arith, same, done, t, tables-statement failed db)))
      | inr (e, t) ↦
          (let (current, read) = update_body_reads j kind u now (statement failed db).1 e in
            absurd (
              ground (
                arith,
                (update_body-Updated j kind u now (statement failed db).1 current good read e).0,
              )))
    ]

-- `update` on success: the record that it found at the expected revision is one revision further.
pub update-Updated :
    (j : Json) (kind : String) (u : RecordUpdate) (now : ℕ) (db : Db) {new : Record}
    → (update j kind u now db).0 ≡ ok new
    → (current : Record) × Updated j kind u now current new db.tables
        (update j kind u now db).1.tables
unfolding update
update-Updated j kind u now db {new} h = elim (Bool-cases (bad_update j u)) [
  | inl bad ↦ ground (arith)
  | inr good ↦ rw good (update_commits j kind u now db good (rw good at h))
]

-- `create` on success: the record is inserted as it was given.
pub create-Inserted :
    (j : Json) (r : Record) (db : Db) {r' : Record}
    → (create j r db).0 ≡ ok r'
    → (r' ≡ r) × Inserted j r db.tables (create j r db).1.tables
unfolding create create_body
create-Inserted j r db h =
    let start = (statement failed db).1 in
    ground (
      arith,
      transaction-ok (create_body j r) db h,
      insert_record-Inserted j r start,
      tables-statement failed db,
    )
