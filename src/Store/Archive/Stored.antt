-- ===== src/Store/Archive/Stored.antt =====
-- The rows that the writers of internal/store/sqlite/records.go leave pass the field checks of
-- `validateRecordArchive`.
use repo_plane.Base.{
  ℕ, ◌≤◌, String, ◌≡◌, ◌≢◌, refl, sym, subst, Bool, true, false, ◌&&◌, List, [], ◌∷◌, ◌++◌, arith,
  find, some, any, all, count, map, all-append, all_mono, eq_iff, eq_refl, ◌==◌, ◌!=◌, String_eq,
  ℕ_eq, all_of_find,
}
use repo_plane.Store.{Record, RecordUpdate}
use repo_plane.Store.Tx.{Tables, Db, ImportRow}
use repo_plane.Store.Records.Rows.{
  Json, has_id, is_at, row_of, set_record, replace_row, is_valid_record,
}
use repo_plane.Store.Records.Write.{bad_update, updated, superseded, import_row}
use repo_plane.Store.Records.Effects.{Inserted}
use repo_plane.Store.Records.Effects.Memo.{retired}
use repo_plane.Store.Records.History.{IsConsistent}
use repo_plane.Store.Records.Run.{
  Call, run, run_all, Change, unchanged, inserted, advanced, replaced, imported, run-Change,
}
use repo_plane.Store.Records.Guarantees.{find-at, Change-IsConsistent}
use repo_plane.Store.Archive.Validate.{is_stored_record, is_stored_revision}

-- The receipt names a verification record of its own owner.
abbrev pub is_import_target : List Record → ImportRow → Bool
is_import_target records row =
    any (λ r. is_at row.project_id row.workspace_id row.record_id r && r.kind == "verification")
      records
    && row.source_hash != ""
    && row.parser_revision != ""
    && row.imported_at != 0

pub record IsStored (j : Json) (t : Tables) : Type 0 where
  pub records : all (is_stored_record j) t.records ≡ true
  pub revisions : all (is_stored_revision j) t.revisions ≡ true
  pub imports : all (is_import_target t.records) t.imports ≡ true

valid-stored : (j : Json) (r : Record) → is_valid_record j r ≡ true → is_stored_record j r ≡ true
unfolding is_valid_record is_stored_record
valid-stored j r h = ground arith

stored-row :
    (j : Json) (r : Record) → is_stored_record j r ≡ true → is_stored_revision j (row_of r) ≡ true
unfolding is_stored_record is_stored_revision
stored-row j r h = ground arith

all-replace :
    (q : Record → Bool) (new : Record) (rs : List Record)
    → q new ≡ true
    → all q rs ≡ true
    → all q (map (replace_row new) rs) ≡ true
all-replace q new [] h k = refl
all-replace q new (r ∷ rs) h k = ground (arith, all-replace q new rs)

replace_absent :
    (new : Record) (rs : List Record) → count (has_id new.id) rs ≡ 0 → map (replace_row new) rs ≡ rs
replace_absent new [] c = refl
replace_absent new (r ∷ rs) c = ground (arith, replace_absent new rs)

any-replace :
    (p : Record → Bool) (old new : Record) (rs : List Record)
    → count (has_id new.id) rs ≤ 1
    → find (has_id new.id) rs ≡ some old
    → p old ≡ p new
    → any p (map (replace_row new) rs) ≡ any p rs
any-replace p old new [] c f e = refl
any-replace p old new (r ∷ rs) c f e =
    ground (arith, any-replace p old new rs, replace_absent new rs)

any-grow :
    (p : Record → Bool) (rs : List Record) (r : Record)
    → any p rs ≡ true
    → any p (rs ++ r ∷ []) ≡ true
any-grow p [] r h = ground arith
any-grow p (x ∷ rs) r h = ground (arith, any-grow p rs r)

any-last :
    (p : Record → Bool) (rs : List Record) (r : Record) → p r ≡ true → any p (rs ++ r ∷ []) ≡ true
any-last p [] r h = ground arith
any-last p (x ∷ rs) r h = ground (arith, any-last p rs r)

module _ (j : Json) where
  Inserted-IsStored :
      (r : Record) {before after : Tables}
      → Inserted j r before after
      → IsStored j before
      → IsStored j after
  Inserted-IsStored r {before} d s =
      let ok_r = valid-stored j r d.valid in
      subst (IsStored j) (sym d.written) (record {
        records = rw (all-append, s.records) ok_r;
        revisions = rw (all-append, s.revisions) (stored-row j r ok_r);
        imports =
            all_mono (is_import_target before.records) (is_import_target (before.records ++ r ∷ []))
              before.imports
              (λ row h. ground (
                arith,
                any-grow
                    (λ x.
                      is_at row.project_id row.workspace_id row.record_id x
                      && x.kind == "verification")
                    before.records r,
              ))
              s.imports;
      })

  -- The next revision of a record has its ID, owner and kind.
  advance-IsStored :
      (old new : Record) (t : Tables)
      → IsConsistent t
      → find (has_id new.id) t.records ≡ some old
      → (new.project_id ≡ old.project_id)
      → (new.workspace_id ≡ old.workspace_id)
      → new.kind ≡ old.kind
      → new.id ≡ old.id
      → is_stored_record j new ≡ true
      → IsStored j t
      → IsStored j (retired new t)
  unfolding set_record
  advance-IsStored old new t c found same_p same_w same_k same_id ok_new s = record {
    records = all-replace (is_stored_record j) new t.records ok_new s.records;
    revisions = rw (all-append, s.revisions) (stored-row j new ok_new);
    imports =
        all_mono (is_import_target t.records) (is_import_target (map (replace_row new) t.records))
          t.imports
          (λ row h.
            rw
              (any-replace
                (λ x.
                  is_at row.project_id row.workspace_id row.record_id x && x.kind == "verification")
                old new t.records (c.unique new.id) found (cc))
              h)
          s.imports;
  }

updated-stored :
    (j : Json) (u : RecordUpdate) (now : ℕ) (old : Record)
    → bad_update j u ≡ false
    → now ≢ 0
    → is_stored_record j old ≡ true
    → is_stored_record j (updated u now old) ≡ true
unfolding is_stored_record
updated-stored j u now old good clock h = ground arith

superseded-stored :
    (j : Json) (at : ℕ) (old : Record)
    → at ≢ 0
    → is_stored_record j old ≡ true
    → is_stored_record j (superseded at old) ≡ true
unfolding is_stored_record
superseded-stored j at old clock h = ground arith

created_at-ne : (j : Json) (r : Record) → is_valid_record j r ≡ true → r.created_at ≢ 0
unfolding is_valid_record
created_at-ne j r h = ground arith

import-target :
    (j : Json) (r : Record) (s p : String) (now : ℕ) (rs : List Record)
    → r.kind ≡ "verification"
    → s ≢ ""
    → p ≢ ""
    → now ≢ 0
    → is_import_target (rs ++ r ∷ []) (import_row r s p now) ≡ true
import-target j r s p now rs k hs hp clock =
    let here =
      any-last (λ x. is_at r.project_id r.workspace_id r.id x && x.kind == "verification") rs r
        (ground (
          arith,
          k,
          eq_refl r.project_id,
          eq_refl r.workspace_id,
          eq_refl r.id,
          eq_iff r.kind "verification",
        )) in
    ground (arith, here, eq_iff s "", eq_iff p "")

module _ (j : Json) where
  Change-IsStored :
      {now : ℕ} {before after : Tables}
      → now ≢ 0
      → Change j now before after
      → IsConsistent before
      → IsStored j before
      → IsStored j after
  Change-IsStored clock (unchanged e) c s = subst (IsStored j) (sym e) s
  Change-IsStored clock (inserted r d) c s = Inserted-IsStored j r d s
  Change-IsStored {now} {before} clock (advanced kind u old new d) c s =
      let good = updated-stored j u now old d.accepted clock (
        all_of_find (is_at u.project_id u.workspace_id u.id) (is_stored_record j) before.records
          s.records d.found) in
      subst (IsStored j) (sym d.written) (
        rw d.result (
          advance-IsStored j old (updated u now old) before c
            (find-at u.project_id u.workspace_id u.id before c d.found) refl refl refl refl good s))
  Change-IsStored {now} {before} clock (replaced r old d) c s =
      let at = r.new.created_at in
      let good = superseded-stored j at old (created_at-ne j r.new d.inserted.valid) (
        all_of_find (is_at r.project_id r.workspace_id r.old_id) (is_stored_record j) before.records
          s.records d.found) in
      Inserted-IsStored j r.new d.inserted (
        advance-IsStored j old (superseded at old) before c
          (find-at r.project_id r.workspace_id r.old_id before c d.found) refl refl refl refl good
          s)
  Change-IsStored {now} {before} clock (imported r hash parser k kh kp d) c s =
      let between = Inserted-IsStored j r d.inserted s in
      subst (IsStored j) (sym d.written) (record {
        records = between.records;
        revisions = between.revisions;
        imports =
            rw (all-append, between.imports)
              (rw (d.inserted.written)
                (import-target j r hash parser now before.records k kh kp clock));
      })

-- Every call read a time that is not Go's zero time.
abbrev pub is_timed : List (ℕ × Call) → Bool
is_timed cs = all (λ c. c.0 != 0) cs

-- Calls at real times keep the stored rows such that a restore accepts their fields.
pub run_all-IsStored :
    (j : Json) (cs : List (ℕ × Call)) (db : Db)
    → is_timed cs ≡ true
    → IsConsistent db.tables
    → IsStored j db.tables
    → IsStored j (run_all j cs db).tables
unfolding run_all
run_all-IsStored j [] db timed c s = s
run_all-IsStored j ((now, call) ∷ cs) db timed c s =
    run_all-IsStored j cs (run j now call db).1 (ground (arith))
      (Change-IsConsistent j (run-Change j now call db) c)
      (Change-IsStored j (ground (arith)) (run-Change j now call db) c s)
