-- ===== src/Store/Cache/Laws.antt =====
-- What the operations of internal/store/sqlite/cache.go keep of an entry.
use repo_plane.Base.{
  ℕ, String, ◌≡◌, refl, eq_refl, sym, subst, ◌∙◌, Bool, true, false, ◌||◌, Option, none, some, List,
  [], ◌∷◌, ◌++◌, map, arith, ◌==◌, String_eq, ℕ_eq, if◌then◌else◌, find, eq_iff, Bool-cases, inl,
  inr, find_holds,
}
use repo_plane.Store.Cache.{
  CacheEntry, Faults, is_entry, same_entry, sorted, observed, replace_entry, written, publish, hit,
  mark_found, mark_cache_hit, quarantine_found, bad_reason, quarantine, bad_entry,
}

-- A call of an operation that writes, and does not delete.
pub data Operation : Type 0 where
  publishes : Faults → CacheEntry → Operation
  marks : Faults → String → String → String → ℕ → Operation
  quarantines : Faults → String → String → String → String → ℕ → Operation

unfoldable pub step : Operation → List CacheEntry → List CacheEntry
step (publishes faults e) rows = (publish faults e rows).1
step (marks faults p w k at) rows = (mark_cache_hit faults p w k at rows).1
step (quarantines faults p w k reason at) rows = (quarantine faults p w k reason at rows).1

unfoldable pub run : List Operation → List CacheEntry → List CacheEntry
run [] rows = rows
run (o ∷ os) rows = run os (step o rows)

-- What a later state of an entry shares with an earlier one.
pub record Follows (old new : CacheEntry) : Type 0 where
  pub key : new.key ≡ old.key
  pub project : new.project_id ≡ old.project_id
  pub workspace : new.workspace_id ≡ old.workspace_id
  pub source : new.source_run_ref ≡ old.source_run_ref
  pub outputs : new.outputs ≡ old.outputs
  pub held : (old.state == "quarantined") ≡ true → (new.state == "quarantined") ≡ true

refl-Follows : (e : CacheEntry) → Follows e e
refl-Follows e = record {
  key = refl;
  project = refl;
  workspace = refl;
  source = refl;
  outputs = refl;
  held = λ h. h;
}

trans-Follows : (a b c : CacheEntry) → Follows a b → Follows b c → Follows a c
trans-Follows a b c f g = record {
  key = g.key ∙ f.key;
  project = g.project ∙ f.project;
  workspace = g.workspace ∙ f.workspace;
  source = g.source ∙ f.source;
  outputs = g.outputs ∙ f.outputs;
  held = λ h. g.held (f.held h);
}

observed-Follows : (entry e : CacheEntry) → Follows e (observed entry e)
unfolding observed
observed-Follows entry e = record {
  key = ground arith;
  project = ground arith;
  workspace = ground arith;
  source = ground arith;
  outputs = ground arith;
  held = λ h. ground (arith, h);
}

pub is_entry_iff :
    (p w k : String) (e : CacheEntry)
    → is_entry p w k e ≡ true
    → (e.project_id ≡ p) × (e.workspace_id ≡ w) × (e.key ≡ k)
is_entry_iff p w k e h =
    ground (arith, h, eq_iff e.project_id p, eq_iff e.workspace_id w, eq_iff e.key k)

pub is_entry-of : (e : CacheEntry) → same_entry e e ≡ true
is_entry-of e = ground (arith, eq_refl e.project_id, eq_refl e.workspace_id, eq_refl e.key)

-- Two rows of one key answer to the same keys.
same_entry-agree :
    (p w k : String) (new e : CacheEntry)
    → same_entry new e ≡ true
    → is_entry p w k new ≡ is_entry p w k e
same_entry-agree p w k new e h =
    let (same_p, same_w, same_k) = is_entry_iff new.project_id new.workspace_id new.key e h in
    rw (same_p, same_w, same_k) refl

pub eq_sym : (a b : String) → (a == b) ≡ (b == a)
eq_sym a b = ground (arith, eq_iff a b, eq_iff b a)

is_entry-same :
    (p w k : String) (new e : CacheEntry)
    → is_entry p w k e ≡ true
    → same_entry new e ≡ is_entry p w k new
is_entry-same p w k new e h =
    let (same_p, same_w, same_k) = is_entry_iff p w k e h in
    rw
      (same_p, same_w, same_k, eq_sym p new.project_id, eq_sym w new.workspace_id, eq_sym k new.key)
      refl

-- Replacing the row of `new` leaves at the key of an entry either that entry or `new`.
pub find-replace :
    (p w k : String) (new old : CacheEntry) (rows : List CacheEntry)
    → find (is_entry p w k) rows ≡ some old
    → find (is_entry p w k) (map (replace_entry new) rows)
      ≡ some (if is_entry p w k new then new else old)
find-replace p w k new old [] h = absurd (ground (arith, h))
find-replace p w k new old (e ∷ rows) h = elim (Bool-cases (is_entry p w k e)) [
  | inl here ↦ rw (is_entry-same p w k new e here) (elim (Bool-cases (is_entry p w k new)) [
    | inl ours ↦ rw (ours, ours) refl
    | inr other ↦ rw (other, here) (rw here at h)
  ])
  | inr not_here ↦ elim (Bool-cases (same_entry new e)) [
    | inl same ↦
        rw (same, same_entry-agree p w k new e same, not_here)
          (rw (same_entry-agree p w k new e same, not_here) at
            (find-replace p w k new old rows (rw not_here at h)))
    | inr differs ↦ rw (differs, not_here) (find-replace p w k new old rows (rw not_here at h))
  ]
]

-- The row at a key after an operation.
pub record Stays (p w k : String) (old : CacheEntry) (rows : List CacheEntry) : Type 0 where
  new : CacheEntry
  found : find (is_entry p w k) rows ≡ some new
  follows : Follows old new

same-Stays :
    (p w k : String) (old : CacheEntry) (rows : List CacheEntry)
    → find (is_entry p w k) rows ≡ some old
    → Stays p w k old rows
same-Stays p w k old rows h = record { new = old; found = h; follows = refl-Follows old }

-- The entry that is read at equal keys is the same.
same_found :
    {p p' w w' k k' : String} (old e : CacheEntry) (rows : List CacheEntry)
    → p' ≡ p
    → w' ≡ w
    → k' ≡ k
    → find (is_entry p w k) rows ≡ some old
    → find (is_entry p' w' k') rows ≡ some e
    → e ≡ old
same_found old e rows ep ew ek h found = ground (arith, rw (ep, ew, ek) at found, h)

-- An operation that replaces the row of `e`, which it has read at the key p', w', k', by `new`.
replace-Stays :
    (p w k p' w' k' : String) (old e new : CacheEntry) (rows : List CacheEntry)
    → find (is_entry p w k) rows ≡ some old
    → find (is_entry p' w' k') rows ≡ some e
    → Follows e new
    → Stays p w k old (map (replace_entry new) rows)
replace-Stays p w k p' w' k' old e new rows h found f = elim (Bool-cases (is_entry p w k new)) [
  | inr other ↦ record {
    new = old;
    found = find-replace p w k new old rows h ∙ (rw other refl);
    follows = refl-Follows old;
  }
  | inl ours ↦
      (let (new_p, new_w, new_k) = is_entry_iff p w k new ours in
        let (e_p, e_w, e_k) = is_entry_iff p' w' k' e (find_holds (is_entry p' w' k') rows found) in
        let same : e ≡ old =
          same_found {p = p} {p' = p'} {w = w} {w' = w'} {k = k} {k' = k'} old e rows
            (sym e_p ∙ sym f.project ∙ new_p) (sym e_w ∙ sym f.workspace ∙ new_w)
            (sym e_k ∙ sym f.key ∙ new_k) h found in
        record {
          new = new;
          found = find-replace p w k new old rows h ∙ (rw ours refl);
          follows = subst (λ x. Follows x new) same f;
        })
]

hit-Follows : (at : ℕ) (e : CacheEntry) → Follows e (hit at e)
hit-Follows at e = record {
  key = refl;
  project = refl;
  workspace = refl;
  source = refl;
  outputs = refl;
  held = λ h. h;
}

-- Adding a row at another key.
find-add :
    (p w k : String) (old e : CacheEntry) (rows : List CacheEntry)
    → find (is_entry p w k) rows ≡ some old
    → find (is_entry p w k) (rows ++ e ∷ []) ≡ some old
find-add p w k old e [] h = absurd (ground (arith, h))
find-add p w k old e (x ∷ rows) h = ground (arith, h, find-add p w k old e rows)

module _ (p w k : String) (old : CacheEntry) (rows : List CacheEntry)
    (h : find (is_entry p w k) rows ≡ some old) where
  guard-Stays :
      {A : Type 0} (b : Bool) (r r' : A × List CacheEntry)
      → Stays p w k old r.1
      → Stays p w k old r'.1
      → Stays p w k old (if b then r else r').1
  guard-Stays true r r' s s' = s
  guard-Stays false r r' s s' = s'

  written-Stays :
      (entry : CacheEntry) (current : Option CacheEntry)
      → find (same_entry entry) rows ≡ current
      → Stays p w k old (written entry current rows).1
  unfolding written
  written-Stays entry none found =
      same-Stays p w k old (rows ++ entry ∷ []) (find-add p w k old entry rows h)
  written-Stays entry (some e) found =
      replace-Stays p w k entry.project_id entry.workspace_id entry.key old e (observed entry e)
        rows h found (observed-Follows entry e)

  publish-Stays :
      (faults : Faults) (given : CacheEntry) → Stays p w k old (publish faults given rows).1
  unfolding publish
  publish-Stays faults given =
      let entry = sorted given in
      let stays = same-Stays p w k old rows h in
      let done = written-Stays entry (find (same_entry entry) rows) refl in
      guard-Stays (bad_entry entry) _ _ stays (
        guard-Stays (faults.begin || faults.select) _ _ stays
          (guard-Stays faults.write _ _ stays (guard-Stays faults.commit _ _ stays done)))

  mark-Stays :
      (at : ℕ) (faults : Faults) (p' w' k' : String) (current : Option CacheEntry)
      → find (is_entry p' w' k') rows ≡ current
      → Stays p w k old (mark_found at faults current rows).1
  unfolding mark_found
  mark-Stays at faults p' w' k' none found = same-Stays p w k old rows h
  mark-Stays at faults p' w' k' (some e) found =
      let done = replace-Stays p w k p' w' k' old e (hit at e) rows h found (hit-Follows at e) in
      guard-Stays (e.state == "active") _ _ (guard-Stays faults.select _ _ done done)
        (same-Stays p w k old rows h)

  quarantine-Stays :
      (reason : String) (at : ℕ) (p' w' k' : String) (current : Option CacheEntry)
      → find (is_entry p' w' k') rows ≡ current
      → Stays p w k old (quarantine_found reason at current rows).1
  unfolding quarantine_found
  quarantine-Stays reason at p' w' k' none found = same-Stays p w k old rows h
  quarantine-Stays reason at p' w' k' (some e) found =
      let new = record e { state = "quarantined"; reason = reason; observed_at = at } in
      replace-Stays p w k p' w' k' old e new rows h found (record {
        key = refl;
        project = refl;
        workspace = refl;
        source = refl;
        outputs = refl;
        held = λ q. refl;
      })

  step-Stays : (o : Operation) → Stays p w k old (step o rows)
  unfolding step mark_cache_hit quarantine
  step-Stays (publishes faults e) = publish-Stays faults e
  step-Stays (marks faults p' w' k' at) =
      guard-Stays faults.write _ _ (same-Stays p w k old rows h)
        (mark-Stays at faults p' w' k' (find (is_entry p' w' k') rows) refl)
  step-Stays (quarantines faults p' w' k' reason at) =
      let stays = same-Stays p w k old rows h in
      let done = quarantine-Stays reason at p' w' k' (find (is_entry p' w' k') rows) refl in
      guard-Stays (bad_reason reason) _ _ stays (guard-Stays faults.write _ _ stays done)

-- Whatever is published, marked and quarantined afterwards, and whichever statements fail, an entry
-- stays at its key with the outputs and the source run it was created with; once quarantined it stays
-- quarantined.
pub run-Follows :
    (p w k : String) (os : List Operation) (rows : List CacheEntry) {old : CacheEntry}
    → find (is_entry p w k) rows ≡ some old
    → (new : CacheEntry) × ((find (is_entry p w k) (run os rows) ≡ some new) × Follows old new)
unfolding run
run-Follows p w k [] rows {old} h = (old, (h, refl-Follows old))
run-Follows p w k (o ∷ os) rows {old} h =
    let next = step-Stays p w k old rows h o in
    let (new, (found, follows)) = run-Follows p w k os (step o rows) next.found in
    (new, (found, trans-Follows old next.new new next.follows follows))
