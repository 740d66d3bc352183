-- ===== src/Store/Tx/Laws.antt =====
-- What a transaction does to the tables, whatever its body and whichever statement fails.
use repo_plane.Base.{◌≡◌, ◌⊎◌, arith, ok, err}
use repo_plane.Store.{StoreError, failed}
use repo_plane.Store.Tx.{Db, Tx, statement, Ending, commit, rollback, transaction, tables-statement}

-- A transaction that fails leaves the tables as they were.
pub transaction_atomic :
    {A : Type 0} (body : Tx (Ending A)) (db : Db) {e : StoreError}
    → (transaction body db).0 ≡ err e
    → (transaction body db).1.tables ≡ db.tables
unfolding transaction
transaction_atomic body db h =
    ground
      (arith, tables-statement failed db, tables-statement failed (body (statement failed db).1).1)

pub transaction-ok :
    {A : Type 0} (body : Tx (Ending A)) (db : Db) {a : A}
    → (transaction body db).0 ≡ ok a
    → ((body (statement failed db).1).0 ≡ ok (commit a))
        × ((transaction body db).1.tables ≡ (body (statement failed db).1).1.tables)
      ⊎ ((body (statement failed db).1).0 ≡ ok (rollback a))
        × ((transaction body db).1.tables ≡ db.tables)
unfolding transaction
transaction-ok body db h =
    ground
      (arith, tables-statement failed db, tables-statement failed (body (statement failed db).1).1)
