-- ===== src/Store/Tx.antt =====
-- Transactions of the durable SQLite database (internal/store/sqlite/records.go). The engine is not
-- part of the repository: `faults` says, statement by statement, which ones it fails to run.
pub mod Laws
use repo_plane.Base.{ℕ, String, ◌≡◌, refl, Bool, true, false, List, [], ◌∷◌, arith, Result, ok, err}
use repo_plane.Store.{StoreError, failed, Record, RecordRevision}

-- A row of `report_imports`.
pub record ImportRow : Type 0 where
  pub project_id : String
  pub workspace_id : String
  pub source_hash : String
  pub parser_revision : String
  pub record_id : String
  pub imported_at : ℕ

pub record Tables : Type 0 where
  pub records : List Record
  pub revisions : List RecordRevision
  pub imports : List ImportRow

pub record Db : Type 0 where
  pub tables : Tables
  pub faults : List Bool

abbrev pub Tx : Type 0 → Type 0
Tx A = Db → Result StoreError A × Db

abbrev continue : {A B : Type 0} → Result StoreError A → (A → Tx B) → Tx B
continue (ok a) f db = f a db
continue (err e) f db = (err e, db)

infixl 5 ◌>>=◌ ◌>>◌
abbrev pub ◌>>=◌ : {A B : Type 0} → Tx A → (A → Tx B) → Tx B
◌>>=◌ m f db = let (r, db') = m db in continue r f db'

abbrev pub ◌>>◌ : {B : Type 0} → Tx Unit → Tx B → Tx B
m >> n = m >>= λ _. n

abbrev pub pure : {A : Type 0} → A → Tx A
pure a db = (ok a, db)

abbrev pub raise : {A : Type 0} → StoreError → Tx A
raise e db = (err e, db)

abbrev pub reject : Bool → StoreError → Tx Unit
reject true e db = (err e, db)
reject false e db = (ok tt, db)

abbrev pub gets : {A : Type 0} → (Tables → A) → Tx A
gets f db = (ok (f db.tables), db)

abbrev pub write : (Tables → Tables) → Tx Unit
write f db = (ok tt, record db { tables = f db.tables })

run_statement : List Bool → StoreError → Tx Unit
run_statement [] e db = (ok tt, db)
run_statement (true ∷ rest) e db = (err e, record db { faults = rest })
run_statement (false ∷ rest) e db = (ok tt, record db { faults = rest })

-- One statement reaches the engine; the code turns a fault into the error given.
unfoldable pub statement : StoreError → Tx Unit
unfolding run_statement
statement e db = run_statement db.faults e db

-- How a function that began a transaction returns: after `Commit`, or by the deferred `Rollback`.
pub data Ending (A : Type 0) : Type 0 where
  commit : A → Ending A
  rollback : A → Ending A

restore_tables : Tables → Db → Db
restore_tables t db = record db { tables = t }

finish : {A : Type 0} → Tables → Result StoreError (Ending A) → Db → Result StoreError A × Db
unfolding restore_tables
finish before (ok (commit a)) db =
    let (r, db') = statement failed db in
    elim r [ ok _ ↦ (ok a, db') | err e ↦ (err e, restore_tables before db') ]
finish before (ok (rollback a)) db = (ok a, restore_tables before db)
finish before (err e) db = (err e, restore_tables before db)

-- BeginTx, `defer tx.Rollback()`, the body, Commit.
unfoldable pub transaction : {A : Type 0} → Tx (Ending A) → Tx A
unfolding finish
transaction body db =
    let (begun, db') = statement failed db in
    elim begun [
      | err e ↦ (err e, db')
      | ok _ ↦ (let (r, db'') = body db' in finish db.tables r db'')
    ]

pub tables-statement : (e : StoreError) (db : Db) → (statement e db).1.tables ≡ db.tables
unfolding statement
tables-statement e db = ground arith
