-- ===== src/Store/Records/Guarantees/Conflict.antt =====
-- Optimistic concurrency of internal/store/sqlite/records.go: one revision is updated at most once.
use repo_plane.Base.{
  ℕ, ◌+◌, ◌<◌, String, ◌≡◌, refl, sym, subst, List, arith, ok, find, some, eq_iff, find_holds,
  count-pos_of_find, count,
}
use repo_plane.Store.{Record, RecordUpdate}
use repo_plane.Store.Tx.{Tables, Db}
use repo_plane.Store.Records.Rows.{Json, has_id, is_at, is_row, row_of}
use repo_plane.Store.Records.Write.{update}
use repo_plane.Store.Records.Effects.{update-Updated}
use repo_plane.Store.Records.History.{IsConsistent}
use repo_plane.Store.Records.Run.{Call, run_all}
use repo_plane.Store.Records.Guarantees.{
  find-at, Updated-IsConsistent, run_all-IsConsistent, run_all-keeps_row, update-reads_back,
}

-- A row of revision n in the history of a record: its current revision is n at least.
row_bound :
    (t : Tables) (r : Record) (n : ℕ)
    → IsConsistent t
    → find (has_id r.id) t.records ≡ some r
    → 0 < count (is_row r.id n) t.revisions
    → n < r.revision + 1
row_bound t r n c h pos = ground (arith, c.history r.id n)

module _ (j : Json) (kind : String) (u : RecordUpdate) (now : ℕ) (db : Db)
    (c : IsConsistent db.tables) {new : Record} (done : (update j kind u now db).0 ≡ ok new) where
  updated_id : new.id ≡ u.id
  updated_id =
      let (old, d) = update-Updated j kind u now db done in
      ground (
        arith,
        d.result,
        find_holds (is_at u.project_id u.workspace_id u.id) db.tables.records d.found,
        eq_iff old.id u.id,
      )

  update_done-IsConsistent : IsConsistent (update j kind u now db).1.tables
  update_done-IsConsistent =
      let (old, d) = update-Updated j kind u now db done in
      Updated-IsConsistent j kind u now old new d c

  -- A record found with that ID in the tables that any calls have made since is at a later revision.
  pub updated_since :
      (calls : List (ℕ × Call)) (t : Tables) (p w id : String) {found : Record}
      → t ≡ (run_all j calls (update j kind u now db).1).tables
      → id ≡ u.id
      → find (is_at p w id) t.records ≡ some found
      → u.expected_revision < found.revision
  updated_since calls t p w id {found} from same at =
      let after = (update j kind u now db).1 in
      let back = update-reads_back j kind u now db c done in
      let row : find (is_row new.id new.revision) t.revisions ≡ some (row_of new) =
        subst (λ t. find (is_row new.id new.revision) t.revisions ≡ some (row_of new)) (sym from)
          (run_all-keeps_row new.id new.revision j calls after
            (update_done-IsConsistent.latest new.id new back.1)) in
      let final_c : IsConsistent t =
        subst (λ t. IsConsistent t) (sym from)
          (run_all-IsConsistent j calls after update_done-IsConsistent) in
      let id' : found.id ≡ new.id =
        ground (arith, find_holds (is_at p w id) t.records at, eq_iff found.id id, updated_id) in
      let pos : 0 < count (is_row found.id new.revision) t.revisions =
        subst (λ i. 0 < count (is_row i new.revision) t.revisions) (sym id')
          (count-pos_of_find (is_row new.id new.revision) t.revisions row) in
      omega
        (arith, row_bound t found new.revision final_c (find-at p w id t final_c at) pos, back.0)

  -- No update of the same ID that expects the same revision succeeds on tables that any calls have made
  -- since.
  pub update_again :
      (calls : List (ℕ × Call)) (kind' : String) (u' : RecordUpdate) (now' : ℕ) (db' : Db)
      {new' : Record}
      → db'.tables ≡ (run_all j calls (update j kind u now db).1).tables
      → u'.id ≡ u.id
      → u'.expected_revision ≡ u.expected_revision
      → ¬ ((update j kind' u' now' db').0 ≡ ok new')
  update_again calls kind' u' now' db' from same expected again =
      let (old', d') = update-Updated j kind' u' now' db' again in
      absurd (
        omega (
          arith,
          updated_since calls db'.tables u'.project_id u'.workspace_id u'.id from same d'.found,
          expected,
          d'.expected,
        ))

  -- Once an update has succeeded, no update of the same ID that expects the same revision succeeds
  -- again, whatever calls were made in between.
  pub update_once :
      (calls : List (ℕ × Call)) (kind' : String) (u' : RecordUpdate) (now' : ℕ) {new' : Record}
      → u'.id ≡ u.id
      → u'.expected_revision ≡ u.expected_revision
      → ¬ ((update j kind' u' now' (run_all j calls (update j kind u now db).1)).0 ≡ ok new')
  update_once calls kind' u' now' same expected again =
      update_again calls kind' u' now' (run_all j calls (update j kind u now db).1) refl same
        expected again
