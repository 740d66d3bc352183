-- ===== src/Store/Archive/Export.antt =====
-- What `ExportRecords` writes, `RestoreRecords` accepts: every archive exported from a database that
-- the writers have filled passes `validateRecordArchive`.
use repo_plane.Base.{
  ℕ, zero, suc, ◌+◌, ◌≤◌, ◌<◌, String, ◌≡◌, ◌≢◌, refl, sym, subst, Bool, true, not, ◌&&◌, ◌||◌,
  List, [], ◌∷◌, arith, find, some, any, all, count, filter, map, eq_iff, eq_refl, ◌==◌, String_eq,
  ℕ_eq, ok, any_of_count, any_of_find, any_of_count-pos, count-pos_of_find, Bool-cases, inl, inr,
  count-filter_of, count-filter-le, find-filter_of, all-filter, all-filter_self, all-filter_or,
  all_mono, any-filter_of, all-map, if◌then◌else◌,
}
use repo_plane.Store.{failed, Record, RecordRevision, RecordArchive}
use repo_plane.Store.Tx.{
  Tables, Db, ImportRow, statement, Ending, commit, rollback, tables-statement,
}
use repo_plane.Store.Tx.Laws.{transaction-ok}
use repo_plane.Store.Records.Rows.{Json, has_id, has_record_id, is_row, is_owned, is_at, row_of}
use repo_plane.Store.Records.History.{IsConsistent, in_history}
use repo_plane.Store.Archive.Order.{
  sort_by, record_le, revision_le, import_le, count-sort_by, all-sort_by, any-sort_by, find-sort_by,
}
use repo_plane.Store.Archive.Validate.{
  is_stored_record, is_stored_revision, validate_records, validate_revisions, has_revisions,
  equal_strings, agrees, has_history, is_receipt, validate_record_archive,
}
use repo_plane.Store.Archive.{
  owned_archive, export_body, export_records, is_owned_row, is_owned_import, receipt_of,
}
use repo_plane.Store.Archive.Stored.{IsStored, is_import_target, is_timed, run_all-IsStored}
use repo_plane.Store.Records.Run.{Call, run_all}
use repo_plane.Store.Records.Guarantees.{empty_tables, empty-IsConsistent, run_all-IsConsistent}

-- The loop over the records accepts rows of one owner with distinct IDs.
module _ (j : Json) (p w : String) (owner : p ≢ "") where
  validate_records-ok :
      (p' w' : String) (seen rs : List Record)
      → (if p' == "" then p else p') ≡ p
      → (if p' == "" then w else w') ≡ w
      → all (is_stored_record j) rs ≡ true
      → all (is_owned p w) rs ≡ true
      → ((id : String) → count (has_id id) seen + count (has_id id) rs ≤ 1)
      → validate_records j p' w' seen rs ≡ ok tt
  unfolding validate_records
  validate_records-ok p' w' seen [] hp hw s o u = refl
  validate_records-ok p' w' seen (r ∷ rs) hp hw s o u = ground (
    arith,
    eq_iff r.project_id p,
    eq_iff r.workspace_id w,
    eq_iff p "",
    eq_refl p,
    eq_refl w,
    eq_refl r.id,
    u r.id,
    any_of_count (has_id r.id) seen,
    validate_records-ok p w (r ∷ seen) rs (ground (arith, eq_iff p ""))
        (ground (arith, eq_iff p "")) (ground arith) (ground arith) (λ id. omega (arith, u id)),
  )

validate_revisions-ok :
    (j : Json) (records : List Record) (seen vs : List RecordRevision)
    → all (λ v. any (has_id v.record_id) records) vs ≡ true
    → all (is_stored_revision j) vs ≡ true
    → ((id : String) (n : ℕ) → count (is_row id n) seen + count (is_row id n) vs ≤ 1)
    → validate_revisions j records seen vs ≡ ok tt
unfolding validate_revisions
validate_revisions-ok j records seen [] k s u = refl
validate_revisions-ok j records seen (v ∷ vs) k s u = ground (
  arith,
  eq_refl v.record_id,
  u v.record_id v.revision,
  any_of_count (is_row v.record_id v.revision) seen,
  validate_revisions-ok j records (v ∷ seen) vs (ground arith) (ground arith)
      (λ id n. omega (arith, u id n)),
)

has_revisions-ok :
    (id : String) (n : ℕ) (rows : List RecordRevision)
    → ((k : ℕ) → 0 < k → k ≤ n → 0 < count (is_row id k) rows)
    → has_revisions id n rows ≡ true
unfolding has_revisions
has_revisions-ok id zero rows f = refl
has_revisions-ok id (suc n) rows f = ground (
  arith,
  has_revisions-ok id n rows (λ k a b. f k a (omega arith)),
  any_of_count-pos (is_row id (suc n)) rows (f (suc n) (omega arith) (omega arith)),
)

equal_strings_refl : (xs : List String) → equal_strings xs xs ≡ true
unfolding equal_strings
equal_strings_refl [] = refl
equal_strings_refl (x ∷ xs) = ground (arith, eq_refl x, equal_strings_refl xs)

agrees-row_of : (r : Record) → agrees r (some (row_of r)) ≡ true
unfolding agrees
agrees-row_of r = ground (
  arith,
  eq_refl r.payload,
  eq_refl r.validity,
  eq_refl r.supersedes,
  equal_strings_refl r.evidence_refs,
)

-- Where IDs are distinct, a test holds of every record if it holds of each one that its ID finds.
all_found :
    (q : Record → Bool) (rs : List Record)
    → ((id : String) → count (has_id id) rs ≤ 1)
    → ((r : Record) → find (has_id r.id) rs ≡ some r → q r ≡ true)
    → all q rs ≡ true
all_found q [] u f = refl
all_found q (r ∷ rs) u f = ground (
  arith,
  f r,
  eq_refl r.id,
  all_found q rs (λ id. ground (arith, u id))
      (λ x h. ground (arith, f x, u x.id, count-pos_of_find (has_id x.id) rs h)),
)

module _ (j : Json) (p w : String) (owner : p ≢ "") (t : Tables) (c : IsConsistent t)
    (s : IsStored j t) where
  abbrev records : List Record
  records = sort_by record_le (filter (is_owned p w) t.records)

  abbrev rows : List RecordRevision
  rows = sort_by revision_le (filter (is_owned_row p w t.records) t.revisions)

  exported_records : validate_records j "" "" [] records ≡ ok tt
  exported_records =
      validate_records-ok j p w owner "" "" [] records refl refl
        (rw all-sort_by (all-filter (is_stored_record j) (is_owned p w) t.records s.records))
        (rw all-sort_by (all-filter_self (is_owned p w) t.records))
        (λ id.
          rw count-sort_by
            (omega (arith, count-filter-le (has_id id) (is_owned p w) t.records, c.unique id)))

  exported_revisions : validate_revisions j records [] rows ≡ ok tt
  exported_revisions =
      validate_revisions-ok j records [] rows
        (rw all-sort_by (
          all_mono (is_owned_row p w t.records) (λ v. any (has_id v.record_id) records)
            (filter (is_owned_row p w t.records) t.revisions)
            (λ v h. rw any-sort_by (
              any-filter_of (λ r. has_id v.record_id r && is_owned p w r) (is_owned p w)
                (has_id v.record_id) t.records (λ r k. ground (arith, k)) h))
            (all-filter_self (is_owned_row p w t.records) t.revisions)))
        (rw all-sort_by
          (all-filter (is_stored_revision j) (is_owned_row p w t.records) t.revisions s.revisions))
        (λ id n. rw count-sort_by (
          ground (
            arith,
            count-filter-le (is_row id n) (is_owned_row p w t.records) t.revisions,
            c.history id n,
          )))

  -- The rows of an owned record are all exported.
  module _ (r : Record) (found : find (has_id r.id) t.records ≡ some r)
      (owned : is_owned p w r ≡ true) where
    row_owned :
        (v : RecordRevision) → has_record_id r.id v ≡ true → is_owned_row p w t.records v ≡ true
    row_owned v h =
        subst (λ i. any (λ x. has_id i x && is_owned p w x) t.records ≡ true)
          (sym ((eq_iff v.record_id r.id).0 h))
          (any_of_find (has_id r.id) (is_owned p w) t.records found owned)

    row_owned_at :
        (n : ℕ) (v : RecordRevision) → is_row r.id n v ≡ true → is_owned_row p w t.records v ≡ true
    row_owned_at n v h = row_owned v (ground arith)

    count-rows : (n : ℕ) → count (is_row r.id n) rows ≡ (if in_history n r.revision then 1 else 0)
    count-rows n = rw (
      count-sort_by,
      count-filter_of (is_row r.id n) (is_owned_row p w t.records) t.revisions (row_owned_at n),
      c.history,
      found,
    )

    exported_history : has_history rows r ≡ true
    unfolding has_history
    exported_history =
        let total : count (has_record_id r.id) rows ≡ r.revision =
          rw
            (
              count-sort_by,
              count-filter_of (has_record_id r.id) (is_owned_row p w t.records) t.revisions
                  row_owned,
              c.total,
              found,
            )
            refl in
        let last : find (is_row r.id r.revision) rows ≡ some (row_of r) =
          rw
            (
              find-sort_by revision_le (is_row r.id r.revision)
                  (filter (is_owned_row p w t.records) t.revisions)
                  (rw
                    (count-filter_of (is_row r.id r.revision) (is_owned_row p w t.records)
                      t.revisions (row_owned_at r.revision))
                    (ground (arith, c.history r.id r.revision))),
              find-filter_of (is_row r.id r.revision) (is_owned_row p w t.records) t.revisions
                  (row_owned_at r.revision),
            )
            (c.latest r.id r found) in
        let each = has_revisions-ok r.id r.revision rows (λ k a b. rw count-rows (ground arith)) in
        rw (total, last, each, agrees-row_of) (ground arith)

  abbrev is_target : ImportRow → Record → Bool
  is_target row x =
      is_at row.project_id row.workspace_id row.record_id x && x.kind == "verification"

  exported_receipt :
      (row : ImportRow)
      → is_import_target t.records row ≡ true
      → (not (is_owned_import p w row) || is_receipt records (receipt_of row)) ≡ true
  unfolding is_receipt
  exported_receipt row h = elim (Bool-cases (is_owned_import p w row)) [
    | inr o ↦ rw o refl
    | inl o ↦
        (let here : any (λ x. has_id row.record_id x && x.kind == "verification") records ≡ true =
            rw any-sort_by (
              any-filter_of (is_target row) (is_owned p w)
                (λ x. has_id row.record_id x && x.kind == "verification") t.records
                (λ x k. ground (
                  arith,
                  k,
                  o,
                  eq_iff row.project_id p,
                  eq_iff row.workspace_id w,
                  eq_iff x.project_id row.project_id,
                  eq_iff x.workspace_id row.workspace_id,
                  eq_iff x.project_id p,
                  eq_iff x.workspace_id w,
                ))
                (ground (arith, h))) in
          rw (o, here) (ground (arith, h)))
  ]

  exported_receipts :
      all
        (is_receipt records)
        (map receipt_of (sort_by import_le (filter (is_owned_import p w) t.imports)))
      ≡ true
  unfolding is_receipt
  exported_receipts =
      rw (all-map, all-sort_by)
        (all-filter_or (λ row. is_receipt records (receipt_of row)) (is_owned_import p w) t.imports
          (all_mono (is_import_target t.records)
            (λ row. not (is_owned_import p w row) || is_receipt records (receipt_of row)) t.imports
            exported_receipt s.imports))

  exported_histories : all (has_history rows) records ≡ true
  exported_histories = rw all-sort_by (
      all-filter_or (has_history rows) (is_owned p w) t.records (
        all_found (λ r. not (is_owned p w r) || has_history rows r) t.records c.unique
          (λ r f. elim (Bool-cases (is_owned p w r)) [
            | inl o ↦ rw (o, exported_history r f o) refl
            | inr o ↦ rw o refl
          ])))

  -- Every archive that an export of consistent tables selects is one that a restore accepts.
  pub owned_archive-valid : validate_record_archive j (owned_archive p w t) ≡ ok tt
  unfolding owned_archive validate_record_archive
  owned_archive-valid =
      ground (arith, exported_records, exported_revisions, exported_histories, exported_receipts)

export_body-ok :
    (p w : String) (limit : ℕ) (db : Db) {x : Ending RecordArchive}
    → (export_body p w limit db).0 ≡ ok x
    → x ≡ commit (owned_archive p w db.tables)
unfolding export_body
export_body-ok p w limit db h =
    let a = (statement failed db).1 in
    let b = (statement failed a).1 in
    ground (arith, tables-statement failed db, tables-statement failed a, tables-statement failed b)

export_records-ok :
    (p w : String) (limit : ℕ) (db : Db) {a : RecordArchive}
    → (export_records p w limit db).0 ≡ ok a
    → (p ≢ "") × (a ≡ owned_archive p w db.tables)
unfolding export_records
export_records-ok p w limit db {a} h =
    let start = (statement failed db).1 in
    ground (
      arith,
      eq_iff p "",
      transaction-ok (export_body p w limit) db {a = a},
      export_body-ok p w limit start {x = commit a},
      export_body-ok p w limit start {x = rollback a},
      tables-statement failed db,
    )

-- Whatever calls fill an empty database, at real times and with any statements failing, an archive
-- that an export then returns is accepted by the checks of a restore.
pub export-valid :
    (j : Json) (cs : List (ℕ × Call)) (faults : List Bool) (p w : String) (limit : ℕ)
    {a : RecordArchive}
    → is_timed cs ≡ true
    → (export_records p w limit
        (run_all j cs (record { tables = empty_tables; faults = faults }))).0
      ≡ ok a
    → validate_record_archive j a ≡ ok tt
export-valid j cs faults p w limit {a} timed done =
    let start : Db = record { tables = empty_tables; faults = faults } in
    let (owner, same) = export_records-ok p w limit (run_all j cs start) done in
    rw same (
      owned_archive-valid j p w owner (run_all j cs start).tables
        (run_all-IsConsistent j cs start empty-IsConsistent)
        (run_all-IsStored j cs start timed empty-IsConsistent
          (record { records = refl; revisions = refl; imports = refl })))
