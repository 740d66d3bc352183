-- ===== src/Store/Records/Effects/Import.antt =====
-- What `ImportVerification` of internal/store/sqlite/records.go leaves in the tables.
use repo_plane.Base.{
  ℕ, String, ◌≡◌, ◌⊎◌, Bool, true, false, arith, Result, ok, find, Bool-cases, Option-cases,
  Result-cases, ◌∙◌, refl, subst, ap, eq_iff, ◌≢◌, inl, inr, some, none, String_eq,
}
use repo_plane.Store.{StoreError, failed, Record}
use repo_plane.Store.Tx.{
  Tables, Db, statement, Ending, commit, rollback, transaction, tables-statement, ImportRow,
}
use repo_plane.Store.Tx.Laws.{transaction-ok}
use repo_plane.Store.Records.Rows.{Json, is_at, add_import}
use repo_plane.Store.Records.Write.{
  get_record, insert_record, is_import, import_row, import_new, import_old, import_found,
  import_body, bad_import, import_verification,
}
use repo_plane.Store.Records.Effects.{Inserted, get_record-ok, insert_record-Inserted}

-- A report that was not imported before: the record and its receipt are inserted.
pub record Imported (j : Json) (r : Record) (row : ImportRow) (before after : Tables) : Type 0 where
  pub between : Tables
  pub unseen : find (is_import r row.source_hash row.parser_revision) before.imports ≡ none
  pub inserted : Inserted j r before between
  pub written : after ≡ add_import row between

-- A report that was imported before: its record is found, and nothing is written.
pub record Repeated (r found : Record) (source_hash parser_revision : String)
    (before after : Tables) : Type 0 where
  pub seen : ImportRow
  pub receipt : find (is_import r source_hash parser_revision) before.imports ≡ some seen
  pub target : find (is_at r.project_id r.workspace_id seen.record_id) before.records ≡ some found
  pub unchanged : after ≡ before

import_new-ok :
    (j : Json) (r : Record) (row : ImportRow) (db : Db) {x : Ending (Record × Bool)}
    → (import_new j r row db).0 ≡ ok x
    → (x ≡ commit (r, false))
      × Inserted j r db.tables (insert_record j r db).1.tables
      × ((import_new j r row db).1.tables ≡ add_import row (insert_record j r db).1.tables)
unfolding import_new
import_new-ok j r row db h =
    ground (arith, insert_record-Inserted j r db, tables-statement failed (insert_record j r db).1)

import_old-ok :
    (j : Json) (r : Record) (id : String) (db : Db) {x : Ending (Record × Bool)}
    → (import_old j r id db).0 ≡ ok x
    → (found : Record) × (x ≡ rollback (found, true))
      × (find (is_at r.project_id r.workspace_id id) db.tables.records ≡ some found)
unfolding import_old
import_old-ok j r id db h = elim (Result-cases (get_record r.project_id r.workspace_id id db).0) [
  | inl (e, q) ↦ ground (arith, q)
  | inr (found, q) ↦
      (found, ground (arith, q), (get_record-ok r.project_id r.workspace_id id db q).0)
]

module _ (j : Json) (r : Record) (source_hash parser_revision : String) (now : ℕ) where
  abbrev pub ImportOutcome : Record → Bool → Tables → Tables → Type 0
  ImportOutcome found repeated before after =
      (repeated ≡ false)
        × (found ≡ r)
        × Imported j r (import_row r source_hash parser_revision now) before after
      ⊎ (repeated ≡ true) × Repeated r found source_hash parser_revision before after

  -- The two ways on: after `Commit` the tables are the body's, after `Rollback` the old ones.
  import_new_outcome :
      (before after : Tables) (db : Db) {a : Record × Bool}
      → db.tables ≡ before
      → find (is_import r source_hash parser_revision) before.imports ≡ none
      → (import_new j r (import_row r source_hash parser_revision now) db).0 ≡ ok (commit a)
      → after ≡ (import_new j r (import_row r source_hash parser_revision now) db).1.tables
      → ImportOutcome a.0 a.1 before after
  import_new_outcome before after db same unseen h t =
      let row = import_row r source_hash parser_revision now in
      let (e, ins, w) = import_new-ok j r row db h in
      inl (
        ground (arith, e),
        ground (arith, e),
        record {
          between = (insert_record j r db).1.tables;
          unseen = unseen;
          inserted = subst (λ t. Inserted j r t (insert_record j r db).1.tables) same ins;
          written = t ∙ w;
        },
      )

  import_old_outcome :
      (before : Tables) (row : ImportRow) (db : Db) {a : Record × Bool}
      → db.tables ≡ before
      → find (is_import r source_hash parser_revision) before.imports ≡ some row
      → (import_old j r row.record_id db).0 ≡ ok (rollback a)
      → ImportOutcome a.0 a.1 before before
  import_old_outcome before row db same seen h =
      let (found, e, at) = import_old-ok j r row.record_id db h in
      inr (
        ground (arith, e),
        record {
          seen = row;
          receipt = seen;
          target = ground (arith, at, e, same);
          unchanged = refl;
        },
      )

module _ (j : Json) (r : Record) (source_hash parser_revision : String) (now : ℕ) where
  import_body_cases :
      (db : Db) {x : Ending (Record × Bool)}
      → (import_body j r source_hash parser_revision now db).0 ≡ ok x
      → (find (is_import r source_hash parser_revision) db.tables.imports ≡ none)
          × (import_body j r source_hash parser_revision now db
              ≡ import_new j r
                  (import_row r source_hash parser_revision now)
                  (statement failed db).1)
        ⊎ ((row : ImportRow) × (find (is_import r source_hash parser_revision) db.tables.imports
              ≡ some row)
            × (import_body j r source_hash parser_revision now db
                ≡ import_old j r row.record_id (statement failed db).1))
  unfolding import_body import_found
  import_body_cases db h =
      elim (Option-cases (find (is_import r source_hash parser_revision) db.tables.imports)) [
        | inl q ↦ inl (q, ground (arith, tables-statement failed db))
        | inr (row, q) ↦ inr (row, q, ground (arith, tables-statement failed db))
      ]

  import_commits :
      (db : Db) {a : Record × Bool}
      → (transaction (import_body j r source_hash parser_revision now) db).0 ≡ ok a
      → ImportOutcome j r source_hash parser_revision now a.0 a.1 db.tables
          (transaction (import_body j r source_hash parser_revision now) db).1.tables
  import_commits db {a} h =
      let body = import_body j r source_hash parser_revision now in
      let row = import_row r source_hash parser_revision now in
      let start = (statement failed db).1 in
      let same : start.tables ≡ db.tables = tables-statement failed db in
      let next : (statement failed start).1.tables ≡ db.tables =
        tables-statement failed start ∙ same in
      elim (transaction-ok body db h) [
        | inl (e, t) ↦ elim (import_body_cases start e) [
          | inl (unseen, as_new) ↦
              import_new_outcome j r source_hash parser_revision now db.tables
                (transaction body db).1.tables (statement failed start).1 next (rw same at unseen)
                (rw as_new at e)
                (t
                  ∙ ap (λ (p : Result StoreError (Ending (Record × Bool)) × Db). p.1.tables) as_new)
          | inr (seen, receipt, as_old) ↦ absurd (
              ground (
                arith,
                import_old-ok j r seen.record_id (statement failed start).1 (rw as_old at e),
              ))
        ]
        | inr (e, t) ↦ elim (import_body_cases start e) [
          | inl (unseen, as_new) ↦
              absurd
                (ground (arith, import_new-ok j r row (statement failed start).1 (rw as_new at e)))
          | inr (seen, receipt, as_old) ↦ rw t (
              import_old_outcome j r source_hash parser_revision now db.tables seen
                (statement failed start).1 next (rw same at receipt) (rw as_old at e))
        ]
      ]

  -- `ImportVerification` on success: the report is new and both rows are written, or its receipt is
  -- found and nothing is.
  pub import_verification-ImportOutcome :
      (db : Db) {found : Record} {repeated : Bool}
      → (import_verification j r source_hash parser_revision now db).0 ≡ ok (found, repeated)
      → (r.kind ≡ "verification")
        × (source_hash ≢ "")
        × (parser_revision ≢ "")
        × ImportOutcome j r source_hash parser_revision now found repeated db.tables
            (import_verification j r source_hash parser_revision now db).1.tables
  unfolding import_verification
  import_verification-ImportOutcome db h =
      elim (Bool-cases (bad_import r source_hash parser_revision)) [
        | inl bad ↦ ground (arith)
        | inr good ↦ (
          ground (arith, eq_iff r.kind "verification"),
          ground (arith, eq_iff source_hash ""),
          ground (arith, eq_iff parser_revision ""),
          rw good (import_commits db (rw good at h)),
        )
      ]
