-- ===== src/Store/Cache/Agreement.antt =====
-- An entry of internal/store/sqlite/cache.go that is not quarantined agrees with every observation.
use repo_plane.Base.{
  ◌≡◌, refl, Bool, true, not, ◌&&◌, ◌||◌, Option, none, some, List, [], ◌∷◌, map, arith, ◌==◌, ◌!=◌,
  String_eq, ℕ_eq, find, ltb, length, ok, eq_refl, ◌∙◌, Bool-cases, inl, inr, find-append,
  find_holds,
}
use repo_plane.Base.Int.{ℤ, pos, negsuc, same_int}
use repo_plane.Store.Cache.{
  CacheOutput, CacheEntry, Faults, same_entry, sorted, renewed, compared, qualified, observed,
  replace_entry, written, publish, same_cache_outputs,
}
use repo_plane.Store.Cache.Laws.{Operation, run, run-Follows, find-replace, is_entry-of}

same_int_refl : (n : ℤ) → same_int n n ≡ true
same_int_refl (pos n) = ground arith
same_int_refl (negsuc n) = ground arith

same_cache_outputs_refl : (os : List CacheOutput) → same_cache_outputs os os ≡ true
unfolding same_cache_outputs
same_cache_outputs_refl [] = refl
same_cache_outputs_refl (o ∷ os) = ground (
  arith,
  eq_refl o.path,
  eq_refl o.content_hash,
  same_int_refl o.size,
  same_cache_outputs_refl os,
)

-- The stored entry is quarantined, or has the outputs of the observation.
abbrev pub agrees : CacheEntry → CacheEntry → Bool
agrees new entry = new.state == "quarantined" || same_cache_outputs new.outputs entry.outputs

agrees-qualified : (entry e : CacheEntry) → agrees (qualified entry e) entry ≡ agrees e entry
agrees-qualified entry e =
    elim (Bool-cases (e.state != "quarantined" && ltb 0 (length entry.qualification_refs))) [
      | inl renews ↦ rw renews refl
      | inr keeps ↦ rw keeps refl
    ]

compared-agrees : (entry e : CacheEntry) → agrees (compared entry e) entry ≡ true
compared-agrees entry e =
    elim (Bool-cases
      (e.state != "quarantined" && not (same_cache_outputs e.outputs entry.outputs))) [
        | inl differs ↦ rw differs refl
        | inr same ↦ rw same (ground (arith, same))
      ]

observed-agrees : (entry current : CacheEntry) → agrees (observed entry current) entry ≡ true
unfolding observed
observed-agrees entry current =
    agrees-qualified entry (compared entry (renewed entry current))
    ∙ compared-agrees entry (renewed entry current)

observed-entry :
    (entry current : CacheEntry)
    → same_entry entry current ≡ true
    → same_entry entry (observed entry current) ≡ true
unfolding observed
observed-entry entry current h = ground (arith, h)

agreeing-write :
    (entry e : CacheEntry) (rows : List CacheEntry)
    → find (same_entry entry) rows ≡ some e
    → find (same_entry entry) (map (replace_entry (observed entry e)) rows)
      ≡ some (observed entry e)
agreeing-write entry e rows found =
    find-replace entry.project_id entry.workspace_id entry.key (observed entry e) e rows found
    ∙ rw (observed-entry entry e (find_holds (same_entry entry) rows found)) refl

written-agrees :
    (entry : CacheEntry) (current : Option CacheEntry) (rows : List CacheEntry)
    → find (same_entry entry) rows ≡ current
    → (agrees (written entry current rows).0 entry ≡ true)
      × (find (same_entry entry) (written entry current rows).1
          ≡ some (written entry current rows).0)
unfolding written
written-agrees entry none rows found = (
  ground (arith, same_cache_outputs_refl entry.outputs),
  ground (arith, found, find-append (same_entry entry) rows entry, is_entry-of entry),
)
written-agrees entry (some e) rows found =
    (observed-agrees entry e, agreeing-write entry e rows found)

publish-agrees :
    (faults : Faults) (given : CacheEntry) (rows : List CacheEntry) {new : CacheEntry}
    → (publish faults given rows).0 ≡ ok new
    → (agrees new (sorted given) ≡ true)
      × (find (same_entry (sorted given)) (publish faults given rows).1 ≡ some new)
unfolding publish
publish-agrees faults given rows {new} h =
    let entry = sorted given in
    ground (arith, h, written-agrees entry (find (same_entry entry) rows) rows refl)

-- Once an observation is published, whatever else is published, marked and quarantined and whichever
-- statements fail, its key has an entry, and that entry is quarantined or has the outputs of the
-- observation.
pub published-agrees :
    (faults : Faults) (given : CacheEntry) (rows : List CacheEntry) {new : CacheEntry}
    → (publish faults given rows).0 ≡ ok new
    → (os : List Operation)
    → (last : CacheEntry) × (find (same_entry (sorted given)) (run os (publish faults given rows).1)
        ≡ some last)
      × (agrees last (sorted given) ≡ true)
published-agrees faults given rows {new} h os =
    let (agree, found) = publish-agrees faults given rows h in
    let entry = sorted given in
    let (last, (there, follows)) =
      run-Follows entry.project_id entry.workspace_id entry.key os (publish faults given rows).1
        found in
    (last, there, ground (arith, agree, follows.held, follows.outputs))
