-- ===== src/Store/Records/Run.antt =====
-- Any sequence of calls of the writers of internal/store/sqlite/records.go, failing or not, keeps
-- the revision history consistent.
use repo_plane.Base.{
  ℕ, String, ◌≡◌, ◌≢◌, refl, Bool, true, false, List, [], ◌∷◌, arith, Result, ok, err, Result-cases,
  Bool-cases, inl, inr,
}
use repo_plane.Store.{StoreError, conflict, Record, RecordUpdate, RecordReplace}
use repo_plane.Store.Tx.{Tables, Db, Tx, reject, ◌>>◌}
use repo_plane.Store.Tx.Laws.{transaction_atomic}
use repo_plane.Store.Records.Rows.{Json, is_valid_record}
use repo_plane.Store.Records.Write.{
  create, update, replace_memo, import_verification, create_checkpoint, update_checkpoint,
  create_memo, update_memo, create_observation, update_observation, create_body, update_body,
  replace_body, import_body, bad_import, bad_update, bad_replace, import_row,
}
use repo_plane.Store.Records.Effects.{Inserted, create-Inserted, Updated, update-Updated}
use repo_plane.Store.Records.Effects.Memo.{Replaced, replace_memo-Replaced}
use repo_plane.Store.Records.Effects.Import.{Imported, import_verification-ImportOutcome}

-- A call of a writer.
pub data Call : Type 0 where
  create_checkpoint_call create_memo_call create_observation_call : Record → Call
  update_checkpoint_call update_memo_call : RecordUpdate → Call
  update_observation_call : String → RecordUpdate → Call
  replace_memo_call : RecordReplace → Call
  import_verification_call : Record → String → String → Call

-- `drop` forgets what a call returned beside its error.
abbrev drop_value : {A : Type 0} → Result StoreError A × Db → Result StoreError (Unit {0}) × Db
drop_value (ok a, db) = (ok tt, db)
drop_value (err e, db) = (err e, db)

tables-drop_value :
    {A : Type 0} (p : Result StoreError A × Db) → (drop_value p).1.tables ≡ p.1.tables
tables-drop_value (ok a, db) = refl
tables-drop_value (err e, db) = refl

module _ (j : Json) where
  -- `now` is what the call reads from the clock, if it does.
  unfoldable pub run : ℕ → Call → Db → Result StoreError (Unit {0}) × Db
  run now (create_checkpoint_call r) db = drop_value (create_checkpoint j r db)
  run now (create_memo_call r) db = drop_value (create_memo j r db)
  run now (create_observation_call r) db = drop_value (create_observation j r db)
  run now (update_checkpoint_call u) db = drop_value (update_checkpoint j u now db)
  run now (update_memo_call u) db = drop_value (update_memo j u now db)
  run now (update_observation_call kind u) db = drop_value (update_observation j kind u now db)
  run now (replace_memo_call r) db = drop_value (replace_memo j r db)
  run now (import_verification_call r s p) db = drop_value (import_verification j r s p now db)

  unfoldable pub run_all : List (ℕ × Call) → Db → Db
  run_all [] db = db
  run_all ((now, c) ∷ cs) db = run_all cs (run now c db).1

-- A writer that fails leaves the tables as they were.
create_atomic :
    (j : Json) (r : Record) (db : Db) {e : StoreError}
    → (create j r db).0 ≡ err e
    → (create j r db).1.tables ≡ db.tables
unfolding create
create_atomic j r db h = transaction_atomic (create_body j r) db h

update_atomic :
    (j : Json) (kind : String) (u : RecordUpdate) (now : ℕ) (db : Db) {e : StoreError}
    → (update j kind u now db).0 ≡ err e
    → (update j kind u now db).1.tables ≡ db.tables
unfolding update
update_atomic j kind u now db {e} h = elim (Bool-cases (bad_update j u)) [
  | inl bad ↦ ground arith
  | inr good ↦ rw good (transaction_atomic (update_body j kind u now) db (rw good at h))
]

replace_atomic :
    (j : Json) (r : RecordReplace) (db : Db) {e : StoreError}
    → (replace_memo j r db).0 ≡ err e
    → (replace_memo j r db).1.tables ≡ db.tables
unfolding replace_memo
replace_atomic j r db h = elim (Bool-cases (bad_replace r)) [
  | inl bad ↦ ground arith
  | inr good ↦ elim (Bool-cases (is_valid_record j r.new)) [
    | inr bad ↦ ground arith
    | inl valid ↦
        rw (good, valid) (transaction_atomic (replace_body j r) db (rw (good, valid) at h))
  ]
]

import_atomic :
    (j : Json) (r : Record) (s p : String) (now : ℕ) (db : Db) {e : StoreError}
    → (import_verification j r s p now db).0 ≡ err e
    → (import_verification j r s p now db).1.tables ≡ db.tables
unfolding import_verification
import_atomic j r s p now db h = elim (Bool-cases (bad_import r s p)) [
  | inl bad ↦ ground arith
  | inr good ↦ rw good (transaction_atomic (import_body j r s p now) db (rw good at h))
]

-- A call that fails, whatever the reason and at whichever statement, leaves every table as it was.
pub run_atomic :
    (j : Json) (now : ℕ) (c : Call) (db : Db) {e : StoreError}
    → (run j now c db).0 ≡ err e
    → (run j now c db).1.tables ≡ db.tables
unfolding run create_checkpoint create_memo create_observation update_checkpoint update_memo
    update_observation
run_atomic j now (create_checkpoint_call r) db {e} h = ground (arith, create_atomic j r db {e = e})
run_atomic j now (create_memo_call r) db {e} h = ground (arith, create_atomic j r db {e = e})
run_atomic j now (create_observation_call r) db {e} h = ground (arith, create_atomic j r db {e = e})
run_atomic j now (update_checkpoint_call u) db {e} h =
    ground (arith, update_atomic j "checkpoint" u now db {e = e})
run_atomic j now (update_memo_call u) db {e} h =
    ground (arith, update_atomic j "memo" u now db {e = e})
run_atomic j now (update_observation_call kind u) db {e} h =
    ground (arith, update_atomic j kind u now db {e = e})
run_atomic j now (replace_memo_call r) db {e} h = ground (arith, replace_atomic j r db {e = e})
run_atomic j now (import_verification_call r s p) db {e} h =
    ground (arith, import_atomic j r s p now db {e = e})

-- What one call does to the tables.
pub data Change (j : Json) (now : ℕ) (before after : Tables) : Type 0 where
  unchanged : after ≡ before → Change j now before after
  inserted : (r : Record) → Inserted j r before after → Change j now before after
  advanced :
      (kind : String) (u : RecordUpdate) (old new : Record)
      → Updated j kind u now old new before after
      → Change j now before after
  replaced :
      (r : RecordReplace) (old : Record) → Replaced j r old before after → Change j now before after
  imported :
      (r : Record) (s p : String)
      → r.kind ≡ "verification"
      → s ≢ ""
      → p ≢ ""
      → Imported j r (import_row r s p now) before after
      → Change j now before after

create-Change :
    (j : Json) (now : ℕ) (r : Record) (db : Db) → Change j now db.tables (create j r db).1.tables
create-Change j now r db = elim (Result-cases (create j r db).0) [
  | inl (e, h) ↦ unchanged (create_atomic j r db h)
  | inr (r', h) ↦ inserted r (create-Inserted j r db h).1
]

update-Change :
    (j : Json) (kind : String) (u : RecordUpdate) (now : ℕ) (db : Db)
    → Change j now db.tables (update j kind u now db).1.tables
update-Change j kind u now db = elim (Result-cases (update j kind u now db).0) [
  | inl (e, h) ↦ unchanged (update_atomic j kind u now db h)
  | inr (new, h) ↦
      (let (old, done) = update-Updated j kind u now db h in advanced kind u old new done)
]

replace-Change :
    (j : Json) (now : ℕ) (r : RecordReplace) (db : Db)
    → Change j now db.tables (replace_memo j r db).1.tables
replace-Change j now r db = elim (Result-cases (replace_memo j r db).0) [
  | inl (e, h) ↦ unchanged (replace_atomic j r db h)
  | inr (new, h) ↦ (let (old, same, done) = replace_memo-Replaced j r db h in replaced r old done)
]

import-Change :
    (j : Json) (r : Record) (s p : String) (now : ℕ) (db : Db)
    → Change j now db.tables (import_verification j r s p now db).1.tables
import-Change j r s p now db = elim (Result-cases (import_verification j r s p now db).0) [
  | inl (e, h) ↦ unchanged (import_atomic j r s p now db h)
  | inr ((found, repeated), h) ↦
      (let (kind, hash, parser, outcome) = import_verification-ImportOutcome j r s p now db h in
        elim outcome [
          | inl (no_repeat, same, done) ↦ imported r s p kind hash parser done
          | inr (yes_repeat, done) ↦ unchanged done.unchanged
        ])
]

guarded-Change :
    {A : Type 0} (j : Json) (now : ℕ) (b : Bool) (m : Tx A) (db : Db)
    → Change j now db.tables (m db).1.tables
    → Change j now db.tables ((reject b conflict >> m) db).1.tables
guarded-Change j now true m db h = unchanged refl
guarded-Change j now false m db h = h

-- Every call makes one of these changes.
pub run-Change :
    (j : Json) (now : ℕ) (c : Call) (db : Db) → Change j now db.tables (run j now c db).1.tables
unfolding run create_checkpoint create_memo create_observation update_checkpoint update_memo
    update_observation
run-Change j now (create_checkpoint_call r) db =
    rw tables-drop_value (guarded-Change j now _ (create j r) db (create-Change j now r db))
run-Change j now (create_memo_call r) db =
    rw tables-drop_value (guarded-Change j now _ (create j r) db (create-Change j now r db))
run-Change j now (create_observation_call r) db =
    rw tables-drop_value (guarded-Change j now _ (create j r) db (create-Change j now r db))
run-Change j now (update_checkpoint_call u) db =
    rw tables-drop_value (update-Change j "checkpoint" u now db)
run-Change j now (update_memo_call u) db = rw tables-drop_value (update-Change j "memo" u now db)
run-Change j now (update_observation_call kind u) db =
    rw tables-drop_value
      (guarded-Change j now _ (update j kind u now) db (update-Change j kind u now db))
run-Change j now (replace_memo_call r) db = rw tables-drop_value (replace-Change j now r db)
run-Change j now (import_verification_call r s p) db =
    rw tables-drop_value (import-Change j r s p now db)
