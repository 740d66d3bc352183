-- ===== src/Store/Records/Effects/Memo.antt =====
-- What `ReplaceMemo` of internal/store/sqlite/records.go leaves in the tables when it succeeds.
use repo_plane.Base.{
  ◌≡◌, false, arith, ok, any, find, Bool-cases, Result-cases, inl, inr, eq_iff, some,
}
use repo_plane.Store.{failed, Record, RecordReplace}
use repo_plane.Store.Tx.{Tables, Db, statement, Ending, commit, transaction, tables-statement}
use repo_plane.Store.Tx.Laws.{transaction-ok}
use repo_plane.Store.Records.Rows.{
  Json, is_valid_record, row_of, is_at, is_row, add_revision, set_record,
}
use repo_plane.Store.Records.Write.{
  get_record, superseded, retire, bad_replace, replace_body, replace_memo,
}
use repo_plane.Store.Records.Effects.{
  Inserted, get_record-ok, insert_revision-ok, insert_record-Inserted,
}

-- The tables after the old memo is superseded, before the new one is inserted.
abbrev pub retired : Record → Tables → Tables
retired old t = add_revision (row_of old) (set_record old t)

-- What a successful `ReplaceMemo` has checked and written.
pub record Replaced (j : Json) (r : RecordReplace) (old : Record) (before after : Tables)
    : Type 0 where
  pub found : find (is_at r.project_id r.workspace_id r.old_id) before.records ≡ some old
  pub memo : old.kind ≡ "memo"
  pub current : old.validity ≡ "current"
  pub expected : old.revision ≡ r.expected_revision
  pub next : any (is_row old.id (superseded r.new.created_at old).revision) before.revisions ≡ false
  pub inserted : Inserted j r.new (retired (superseded r.new.created_at old) before) after

retire-retired :
    (old : Record) (db : Db)
    → (retire old db).0 ≡ ok tt
    → (any (is_row old.id old.revision) db.tables.revisions ≡ false)
      × ((retire old db).1.tables ≡ retired old db.tables)
unfolding retire set_record
retire-retired old db h =
    let start = (statement failed db).1 in
    ground (
      arith,
      tables-statement failed db,
      insert_revision-ok (row_of old) (record start { tables = set_record old start.tables }),
    )

module _ (j : Json) (r : RecordReplace) (db : Db) (old : Record) where
  replace_body-Replaced :
      (get_record r.project_id r.workspace_id r.old_id db).0 ≡ ok old
      → {x : Ending Record} → (replace_body j r db).0 ≡ ok x
      → (x ≡ commit r.new) × Replaced j r old db.tables (replace_body j r db).1.tables
  unfolding replace_body
  replace_body-Replaced q h =
      let read = (get_record r.project_id r.workspace_id r.old_id db).1 in
      let gone = superseded r.new.created_at old in
      ground (
        arith,
        get_record-ok r.project_id r.workspace_id r.old_id db q,
        retire-retired gone read,
        insert_record-Inserted j r.new (retire gone read).1,
        eq_iff old.kind "memo",
        eq_iff old.validity "current",
      )

replace_body_reads :
    (j : Json) (r : RecordReplace) (db : Db) {x : Ending Record}
    → (replace_body j r db).0 ≡ ok x
    → (old : Record) × ((get_record r.project_id r.workspace_id r.old_id db).0 ≡ ok old)
unfolding replace_body
replace_body_reads j r db h =
    elim (Result-cases (get_record r.project_id r.workspace_id r.old_id db).0) [
      | inl (e, q) ↦ ground (arith, q)
      | inr found ↦ found
    ]

replace_commits :
    (j : Json) (r : RecordReplace) (db : Db) {new : Record}
    → (transaction (replace_body j r) db).0 ≡ ok new
    → (old : Record) × (new ≡ r.new)
      × Replaced j r old db.tables (transaction (replace_body j r) db).1.tables
replace_commits j r db {new} h = elim (transaction-ok (replace_body j r) db h) [
  | inl (e, t) ↦
      (let start = (statement failed db).1 in
        let (old, read) = replace_body_reads j r start e in
        let (same, done) = replace_body-Replaced j r start old read e in
        (old, ground (arith, same), rw t (rw tables-statement at done)))
  | inr (e, t) ↦
      (let start = (statement failed db).1 in
        let (old, read) = replace_body_reads j r start e in
        absurd (ground (arith, (replace_body-Replaced j r start old read e).0)))
]

-- `ReplaceMemo` on success: the current memo is superseded, and the new one inserted beside it.
pub replace_memo-Replaced :
    (j : Json) (r : RecordReplace) (db : Db) {new : Record}
    → (replace_memo j r db).0 ≡ ok new
    → (old : Record) × (new ≡ r.new) × Replaced j r old db.tables (replace_memo j r db).1.tables
unfolding replace_memo
replace_memo-Replaced j r db h = elim (Bool-cases (bad_replace r)) [
  | inl bad ↦ ground (arith)
  | inr good ↦ elim (Bool-cases (is_valid_record j r.new)) [
    | inr bad ↦ ground (arith)
    | inl valid ↦ rw (good, valid) (replace_commits j r db (rw (good, valid) at h))
  ]
]
