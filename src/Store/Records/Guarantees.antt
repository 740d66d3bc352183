-- ===== src/Store/Records/Guarantees.antt =====
-- What callers of internal/store/sqlite/records.go may rely on, over every sequence of calls.
pub mod Conflict
pub mod Success
use repo_plane.Base.{
  ℕ, zero, suc, ◌+◌, ◌≤◌, String, ◌≡◌, refl, sym, ◌∙◌, ap, subst, ◌≢◌, Bool, true, false, ◌&&◌,
  List, [], ◌∷◌, ◌++◌, arith, Result, ok, err, find, Result-cases, Bool-cases, inl, inr, eq_iff,
  find_unique, find_holds, some, and_true, or_else, none, Option, find-append, length, any,
  find_of_any, map, if◌then◌else◌, ◌==◌, String_eq,
}
use repo_plane.Store.{StoreError, conflict, Record, RecordUpdate, RecordReplace, RecordRevision}
use repo_plane.Store.Tx.{Tables, Db, ImportRow}
use repo_plane.Store.Records.Rows.{
  Json, has_id, is_owned, is_at, is_row, row_of, add_record, add_revision, set_record,
  is_valid_record, replace_row,
}
use repo_plane.Store.Records.Write.{update, updated, superseded}
use repo_plane.Store.Records.Effects.{Inserted, Updated, update-Updated}
use repo_plane.Store.Records.Effects.Memo.{Replaced, retired}
use repo_plane.Store.Records.Effects.Import.{Imported}
use repo_plane.Store.Records.History.{
  IsConsistent, insert-IsConsistent, advance-IsConsistent, find-replace,
}
use repo_plane.Store.Records.Run.{
  Call, run, run_all, run_atomic, Change, unchanged, inserted, advanced, replaced, imported,
  run-Change,
}

-- The record that a query by owner and ID finds is the one that has the ID.
pub find-at :
    (p w id : String) (t : Tables) {r : Record}
    → IsConsistent t
    → find (is_at p w id) t.records ≡ some r
    → find (has_id r.id) t.records ≡ some r
find-at p w id t {r} c h =
    let same : r.id ≡ id = ground (arith, find_holds (is_at p w id) t.records h, eq_iff r.id id) in
    subst (λ i. find (has_id i) t.records ≡ some r) (sym same)
      (find_unique (has_id id) (is_owned p w) t.records (c.unique id) h)

Inserted-IsConsistent :
    (j : Json) (r : Record) {before after : Tables}
    → Inserted j r before after
    → IsConsistent before
    → IsConsistent after
unfolding is_valid_record
Inserted-IsConsistent j r {before} i c =
    subst IsConsistent (sym i.written)
      (insert-IsConsistent r before i.fresh (ground (arith, i.valid)) c)

pub Updated-IsConsistent :
    (j : Json) (kind : String) (u : RecordUpdate) (now : ℕ) (old new : Record)
    {before after : Tables}
    → Updated j kind u now old new before after
    → IsConsistent before
    → IsConsistent after
Updated-IsConsistent j kind u now old new {before} d c = subst IsConsistent (sym d.written) (
    rw d.result (
      advance-IsConsistent old (updated u now old) before
        (find-at u.project_id u.workspace_id u.id before c d.found) refl c))

Replaced-IsConsistent :
    (j : Json) (r : RecordReplace) (old : Record) {before after : Tables}
    → Replaced j r old before after
    → IsConsistent before
    → IsConsistent after
Replaced-IsConsistent j r old {before} d c = Inserted-IsConsistent j r.new d.inserted (
    advance-IsConsistent old (superseded r.new.created_at old) before
      (find-at r.project_id r.workspace_id r.old_id before c d.found) refl c)

Imported-IsConsistent :
    (j : Json) (r : Record) (row : ImportRow) {before after : Tables}
    → Imported j r row before after
    → IsConsistent before
    → IsConsistent after
Imported-IsConsistent j r row {before} {after} d c =
    let between = Inserted-IsConsistent j r d.inserted c in
    subst IsConsistent (sym d.written) (record {
      unique = between.unique;
      history = between.history;
      total = between.total;
      latest = between.latest;
    })

pub Change-IsConsistent :
    (j : Json) {now : ℕ} {before after : Tables}
    → Change j now before after
    → IsConsistent before
    → IsConsistent after
Change-IsConsistent j (unchanged e) c = subst IsConsistent (sym e) c
Change-IsConsistent j (inserted r d) c = Inserted-IsConsistent j r d c
Change-IsConsistent j (advanced kind u old new d) c = Updated-IsConsistent j kind u _ old new d c
Change-IsConsistent j (replaced r old d) c = Replaced-IsConsistent j r old d c
Change-IsConsistent j (imported r s p k kh kp d) c = Imported-IsConsistent j r _ d c

abbrev pub empty_tables : Tables
empty_tables = record { records = []; revisions = []; imports = [] }

pub empty-IsConsistent : IsConsistent empty_tables
empty-IsConsistent = record {
  unique = λ id. omega arith;
  history = λ id n. ground arith;
  total = λ id. omega arith;
  latest = λ id r h. ground arith;
}

-- Whatever calls are made on a consistent database and whichever statements the engine fails, every
-- ID has one record, whose revisions 1 to its current one have one row each, the last equal to it.
pub run_all-IsConsistent :
    (j : Json) (cs : List (ℕ × Call)) (db : Db)
    → IsConsistent db.tables
    → IsConsistent (run_all j cs db).tables
unfolding run_all
run_all-IsConsistent j [] db c = c
run_all-IsConsistent j ((now, call) ∷ cs) db c =
    run_all-IsConsistent j cs (run j now call db).1
      (Change-IsConsistent j (run-Change j now call db) c)

-- A row of the history, once written, is found again.
module _ (id : String) (n : ℕ) {v : RecordRevision} where
  find_row-add :
      (rows : List RecordRevision) (new : RecordRevision)
      → find (is_row id n) rows ≡ some v
      → find (is_row id n) (rows ++ new ∷ []) ≡ some v
  find_row-add rows new h = rw (find-append, h)

  Change-keeps_row :
      (j : Json) {now : ℕ} {before after : Tables}
      → Change j now before after
      → find (is_row id n) before.revisions ≡ some v
      → find (is_row id n) after.revisions ≡ some v
  unfolding set_record
  Change-keeps_row j (unchanged e) h = rw e h
  Change-keeps_row j {before} (inserted r d) h =
      rw (d.written) (find_row-add before.revisions (row_of r) h)
  Change-keeps_row j {before} (advanced kind u old new d) h =
      rw (d.written) (find_row-add before.revisions (row_of new) h)
  Change-keeps_row j {before} (replaced r old d) h = rw (d.inserted.written) (
      find_row-add _ (row_of r.new)
        (find_row-add before.revisions (row_of (superseded r.new.created_at old)) h))
  Change-keeps_row j {before} (imported r s p k kh kp d) h =
      rw (d.written, d.inserted.written) (find_row-add before.revisions (row_of r) h)

  -- No sequence of calls changes or removes a row of the revision history.
  pub run_all-keeps_row :
      (j : Json) (cs : List (ℕ × Call)) (db : Db)
      → find (is_row id n) db.tables.revisions ≡ some v
      → find (is_row id n) (run_all j cs db).tables.revisions ≡ some v
  unfolding run_all
  run_all-keeps_row j [] db h = h
  run_all-keeps_row j ((now, call) ∷ cs) db h =
      run_all-keeps_row j cs (run j now call db).1 (Change-keeps_row j (run-Change j now call db) h)

module _ (j : Json) (kind : String) (u : RecordUpdate) (now : ℕ) (db : Db)
    (c : IsConsistent db.tables) where
  -- After an update that succeeds on a consistent database, the record returned is the one stored under
  -- its ID, and its revision is the expected one plus 1.
  pub update-reads_back :
      {new : Record}
      → (update j kind u now db).0 ≡ ok new
      → (new.revision ≡ u.expected_revision + 1)
        × (find (has_id new.id) (update j kind u now db).1.tables.records ≡ some new)
  unfolding set_record
  update-reads_back {new} h =
      let (old, d) = update-Updated j kind u now db h in
      let id : new.id ≡ old.id = ground (arith, d.result) in
      let here : find (has_id new.id) db.tables.records ≡ some old =
        rw id (find-at u.project_id u.workspace_id u.id db.tables c d.found) in
      (
        ground (arith, d.result, d.expected),
        rw (d.written, find-replace) (ground (arith, here, eq_iff new.id new.id)),
      )
