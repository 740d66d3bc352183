-- ===== src/Store/Records/History.antt =====
-- The revision history that the writers of internal/store/sqlite/records.go keep: one record for an
-- ID, one row for each of its revisions, and the last row equal to the record.
use repo_plane.Base.{
  ℕ, ◌+◌, ◌≤◌, String, ◌≡◌, refl, Bool, true, false, ◌&&◌, Option, none, some, List, [], ◌∷◌, ◌++◌,
  arith, ltb, leb, ◌==◌, String_eq, ℕ_eq, if◌then◌else◌, any, find, count, map, eq_iff,
  count-append, find-append, find_of_count, Bool-cases, inl, inr, subst,
}
use repo_plane.Store.{Record}
use repo_plane.Store.Tx.{Tables}
use repo_plane.Store.Records.Rows.{
  row_of, has_id, has_record_id, is_row, add_record, add_revision, set_record, replace_row,
}

-- The revision of the record with this ID, or 0.
abbrev pub revision_of : Option Record → ℕ
revision_of none = 0
revision_of (some r) = r.revision

abbrev pub in_history : ℕ → ℕ → Bool
in_history n last = ltb 0 n && leb n last

pub record IsConsistent (t : Tables) : Type 0 where
  pub unique : (id : String) → count (has_id id) t.records ≤ 1
  pub history :
      (id : String) (n : ℕ)
      → count (is_row id n) t.revisions
        ≡ (if in_history n (revision_of (find (has_id id) t.records)) then 1 else 0)
  pub total :
      (id : String)
      → count (has_record_id id) t.revisions ≡ revision_of (find (has_id id) t.records)
  pub latest :
      (id : String) (r : Record)
      → find (has_id id) t.records ≡ some r
      → find (is_row id r.revision) t.revisions ≡ some (row_of r)

find-new_id :
    (r : Record) (id : String) (rs : List Record)
    → any (has_id r.id) rs ≡ false
    → (r.id == id) ≡ true
    → find (has_id id) rs ≡ none
find-new_id r id [] h e = refl
find-new_id r id (x ∷ rs) h e =
    ground (arith, find-new_id r id rs, eq_iff x.id r.id, eq_iff r.id id, eq_iff x.id id)

count-new_id :
    (r : Record) (id : String) (rs : List Record)
    → any (has_id r.id) rs ≡ false
    → (r.id == id) ≡ true
    → count (has_id id) rs ≡ 0
count-new_id r id [] h e = refl
count-new_id r id (x ∷ rs) h e =
    ground (arith, count-new_id r id rs, eq_iff x.id r.id, eq_iff r.id id, eq_iff x.id id)

-- Inserting a first revision under a new ID.
module _ (r : Record) (t : Tables) (fresh : any (has_id r.id) t.records ≡ false)
    (first : r.revision ≡ 1) (c : IsConsistent t) where
  insert_unique : (id : String) → count (has_id id) (t.records ++ r ∷ []) ≤ 1
  insert_unique id = ground (
    arith,
    count-append (has_id id) t.records (r ∷ []),
    c.unique id,
    count-new_id r id t.records fresh,
  )

  insert_history :
      (id : String) (n : ℕ)
      → count (is_row id n) (t.revisions ++ row_of r ∷ [])
        ≡ (if in_history n (revision_of (find (has_id id) (t.records ++ r ∷ []))) then 1 else 0)
  insert_history id n = ground (
    arith,
    count-append (is_row id n) t.revisions (row_of r ∷ []),
    find-append (has_id id) t.records r,
    c.history id n,
    find-new_id r id t.records fresh,
  )

  insert_total :
      (id : String)
      → count (has_record_id id) (t.revisions ++ row_of r ∷ [])
        ≡ revision_of (find (has_id id) (t.records ++ r ∷ []))
  insert_total id = ground (
    arith,
    count-append (has_record_id id) t.revisions (row_of r ∷ []),
    find-append (has_id id) t.records r,
    c.total id,
    find-new_id r id t.records fresh,
  )

  insert_latest :
      (id : String) (s : Record)
      → find (has_id id) (t.records ++ r ∷ []) ≡ some s
      → find (is_row id s.revision) (t.revisions ++ row_of r ∷ []) ≡ some (row_of s)
  insert_latest id s h = ground (
    arith,
    find-append (has_id id) t.records r,
    find-append (is_row id s.revision) t.revisions (row_of r),
    c.latest id s,
    c.history id s.revision,
    find_of_count (is_row id s.revision) t.revisions,
    eq_iff r.id id,
  )

  pub insert-IsConsistent : IsConsistent (add_revision (row_of r) (add_record r t))
  insert-IsConsistent = record {
    unique = insert_unique;
    history = insert_history;
    total = insert_total;
    latest = insert_latest;
  }

pub find-replace :
    (new : Record) (id : String) (rs : List Record)
    → find (has_id id) (map (replace_row new) rs) ≡ (
        if new.id == id
        then (elim (find (has_id id) rs) [ none ↦ none | some _ ↦ some new ])
        else find (has_id id) rs)
find-replace new id [] = ground arith
find-replace new id (x ∷ rs) =
    ground (arith, find-replace new id rs, eq_iff x.id new.id, eq_iff new.id id, eq_iff x.id id)

pub count-replace :
    (new : Record) (id : String) (rs : List Record)
    → count (has_id id) (map (replace_row new) rs) ≡ count (has_id id) rs
count-replace new id [] = refl
count-replace new id (x ∷ rs) =
    ground (arith, count-replace new id rs, eq_iff x.id new.id, eq_iff new.id id, eq_iff x.id id)

-- Writing the next revision of a record.
module _ (old new : Record) (t : Tables) (found : find (has_id new.id) t.records ≡ some old)
    (next : new.revision ≡ old.revision + 1) (c : IsConsistent t) where
  advance_unique : (id : String) → count (has_id id) (map (replace_row new) t.records) ≤ 1
  advance_unique id = omega (arith, count-replace new id t.records, c.unique id)

  advance_history :
      (id : String) (n : ℕ)
      → count (is_row id n) (t.revisions ++ row_of new ∷ []) ≡ (
          if in_history n (revision_of (find (has_id id) (map (replace_row new) t.records)))
          then 1
          else 0)
  advance_history id n = elim (Bool-cases (new.id == id)) [
    | inl same ↦
        (let here : find (has_id id) t.records ≡ some old =
            subst (λ i. find (has_id i) t.records ≡ some old) ((eq_iff new.id id).0 same) found in
          ground (
            arith,
            here,
            count-append (is_row id n) t.revisions (row_of new ∷ []),
            find-replace new id t.records,
            c.history id n,
          ))
    | inr other ↦ ground (
      arith,
      count-append (is_row id n) t.revisions (row_of new ∷ []),
      find-replace new id t.records,
      c.history id n,
    )
  ]

  advance_total :
      (id : String)
      → count (has_record_id id) (t.revisions ++ row_of new ∷ [])
        ≡ revision_of (find (has_id id) (map (replace_row new) t.records))
  advance_total id = elim (Bool-cases (new.id == id)) [
    | inl same ↦
        (let here : find (has_id id) t.records ≡ some old =
            subst (λ i. find (has_id i) t.records ≡ some old) ((eq_iff new.id id).0 same) found in
          ground (
            arith,
            here,
            count-append (has_record_id id) t.revisions (row_of new ∷ []),
            find-replace new id t.records,
            c.total id,
          ))
    | inr other ↦ ground (
      arith,
      count-append (has_record_id id) t.revisions (row_of new ∷ []),
      find-replace new id t.records,
      c.total id,
    )
  ]

  advance_latest :
      (id : String) (s : Record)
      → find (has_id id) (map (replace_row new) t.records) ≡ some s
      → find (is_row id s.revision) (t.revisions ++ row_of new ∷ []) ≡ some (row_of s)
  advance_latest id s h = elim (Bool-cases (new.id == id)) [
    | inl same ↦
        (let here : find (has_id id) t.records ≡ some old =
            subst (λ i. find (has_id i) t.records ≡ some old) ((eq_iff new.id id).0 same) found in
          ground (
            arith,
            here,
            find-append (is_row id s.revision) t.revisions (row_of new),
            find-replace new id t.records,
            c.history id s.revision,
            find_of_count (is_row id s.revision) t.revisions,
          ))
    | inr other ↦ ground (
      arith,
      find-append (is_row id s.revision) t.revisions (row_of new),
      find-replace new id t.records,
      c.latest id s,
    )
  ]

  pub advance-IsConsistent : IsConsistent (add_revision (row_of new) (set_record new t))
  unfolding set_record
  advance-IsConsistent = record {
    unique = advance_unique;
    history = advance_history;
    total = advance_total;
    latest = advance_latest;
  }
