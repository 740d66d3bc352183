-- ===== src/Store/Cache.antt =====
-- internal/store/sqlite/cache.go: the table `cache_entries` of reusable runs. A row is the entry that
-- scanCacheEntry reads back; which statements of the engine fail is a parameter of each operation.
-- Limits are below 2^63 - 1, so that `limit+1` does not wrap around.
pub mod Laws
pub mod Agreement
pub mod Protected
mod Examples
use text.Mathlib.Text.{starts_with}
use repo_plane.Base.{
  ℕ, ◌+◌, ◌%◌, ◌^◌, ◌-◌, String, len, Bool, true, false, not, ◌&&◌, ◌||◌, Option, none, some, List,
  [], ◌∷◌, ◌++◌, map, ltb, leb, ◌==◌, ◌!=◌, String_eq, ℕ_eq, if◌then◌else◌, length, filter, find,
  any, take, Result, ok, err,
}
use repo_plane.Base.Int.{ℤ, is_negative, same_int}
use repo_plane.Store.{StoreError, not_found, conflict, failed}
use repo_plane.Store.Archive.Order.{text_le, sort_by}

pub record CacheOutput : Type 0 where
  pub path : String
  pub content_hash : String
  pub size : ℤ
  pub artifact_ref : String

pub record CacheEntry : Type 0 where
  pub key : String
  pub project_id : String
  pub workspace_id : String
  pub capability_id : String
  pub capability_revision : String
  pub configuration : String
  pub state : String
  pub reason : String
  pub source_run_ref : String
  pub outputs : List CacheOutput
  pub qualification_refs : List String
  pub created_at : ℕ
  pub observed_at : ℕ
  pub last_used_at : ℕ
  pub expires_at : ℕ
  pub observation_count : ℕ
  pub hit_count : ℕ

-- The statements of an operation that fail.
pub record Faults : Type 0 where
  pub begin : Bool
  pub select : Bool
  pub write : Bool
  pub commit : Bool

-- WHERE project_id=? AND workspace_id=? AND cache_key=?
abbrev pub is_entry : String → String → String → CacheEntry → Bool
is_entry project workspace key e =
    e.project_id == project && e.workspace_id == workspace && e.key == key

abbrev pub same_entry : CacheEntry → CacheEntry → Bool
same_entry e = is_entry e.project_id e.workspace_id e.key

scan_entry : Option CacheEntry → Result StoreError CacheEntry
scan_entry none = err not_found
scan_entry (some e) = ok e

unfoldable pub get_cache_entry :
    Bool → String → String → String → List CacheEntry → Result StoreError CacheEntry
unfolding scan_entry
get_cache_entry fault project workspace key rows =
    if fault then err failed else scan_entry (find (is_entry project workspace key) rows)

abbrev pub by_path : CacheOutput → CacheOutput → Bool
by_path a b = text_le a.path b.path

abbrev bad_output : CacheOutput → Bool
bad_output o =
    o.path == ""
    || not (starts_with o.content_hash "sha256:")
    || is_negative o.size
    || o.artifact_ref == ""

-- A path that stands twice in a row.
repeats : List CacheOutput → Bool
repeats [] = false
repeats (a ∷ []) = false
repeats (a ∷ b ∷ rest) = a.path == b.path || repeats (b ∷ rest)

unfoldable pub bad_entry : CacheEntry → Bool
unfolding repeats
bad_entry e =
    not (starts_with e.key "hmac-sha256:")
    || len e.key != len "hmac-sha256:" + 64
    || e.project_id == ""
    || e.workspace_id == ""
    || e.capability_id == ""
    || e.capability_revision == ""
    || e.configuration == ""
    || e.state != "active"
    || e.source_run_ref == ""
    || length e.outputs == 0
    || e.created_at == 0
    || e.observed_at == 0
    || e.expires_at == 0
    || e.observation_count == 0
    || any bad_output e.outputs
    || repeats e.outputs

unfoldable pub same_cache_outputs : List CacheOutput → List CacheOutput → Bool
same_cache_outputs [] [] = true
same_cache_outputs (a ∷ left) (b ∷ right) =
    a.path == b.path
    && a.content_hash == b.content_hash
    && same_int a.size b.size
    && same_cache_outputs left right
same_cache_outputs _ _ = false

-- `sort.Slice` by path, before anything else.
abbrev pub sorted : CacheEntry → CacheEntry
sorted e = record e { outputs = sort_by by_path e.outputs }

-- The three fields that every further observation renews.
abbrev pub renewed : CacheEntry → CacheEntry → CacheEntry
renewed entry current = record current {
  observed_at = entry.observed_at;
  expires_at = entry.expires_at;
  observation_count = (current.observation_count + 1) % 2 ^ 64;
}

abbrev pub compared : CacheEntry → CacheEntry → CacheEntry
compared entry current =
    if current.state != "quarantined" && not (same_cache_outputs current.outputs entry.outputs)
    then record current { state = "quarantined"; reason = "output_mismatch" }
    else current

abbrev pub qualified : CacheEntry → CacheEntry → CacheEntry
qualified entry current =
    if current.state != "quarantined" && ltb 0 (length entry.qualification_refs)
    then record current { qualification_refs = entry.qualification_refs }
    else current

-- What a further observation makes of the entry that is stored.
unfoldable pub observed : CacheEntry → CacheEntry → CacheEntry
observed entry current = qualified entry (compared entry (renewed entry current))

abbrev pub replace_entry : CacheEntry → CacheEntry → CacheEntry
replace_entry new e = if same_entry new e then new else e

-- INSERT of a first observation, or UPDATE of the row that the transaction has read.
unfoldable pub written :
    CacheEntry → Option CacheEntry → List CacheEntry → CacheEntry × List CacheEntry
unfolding observed
written entry none rows = (entry, rows ++ entry ∷ [])
written entry (some current) rows =
    let new = observed entry current in (new, map (replace_entry new) rows)

-- The error of the write: that of the INSERT is wrapped as a conflict.
write_error : Option CacheEntry → StoreError
write_error none = conflict
write_error (some current) = failed

unfoldable pub publish :
    Faults → CacheEntry → List CacheEntry → Result StoreError CacheEntry × List CacheEntry
unfolding written write_error
publish faults given rows =
    let entry = sorted given in
    let current = find (same_entry entry) rows in
    let (new, rows') = written entry current rows in
    if bad_entry entry
    then (err conflict, rows)
    else (if faults.begin || faults.select
        then (err failed, rows)
        else (if faults.write
            then (err (write_error current), rows)
            else (if faults.commit then (err failed, rows) else (ok new, rows'))))

abbrev pub hit : ℕ → CacheEntry → CacheEntry
hit used_at e = record e { last_used_at = used_at; hit_count = e.hit_count + 1 }

-- Whether an entry is there and active, the row that the UPDATE changes.
mark_found :
    ℕ
    → Faults
    → Option CacheEntry
    → List CacheEntry
    → Result StoreError CacheEntry × List CacheEntry
mark_found used_at faults none rows = (err not_found, rows)
mark_found used_at faults (some e) rows =
    let new = hit used_at e in
    let rows' = map (replace_entry new) rows in
    if e.state == "active"
    then (if faults.select then (err failed, rows') else (ok new, rows'))
    else (err not_found, rows)

-- The UPDATE, and the SELECT that reads the row again.
unfoldable pub mark_cache_hit :
    Faults
    → String
    → String
    → String
    → ℕ
    → List CacheEntry
    → Result StoreError CacheEntry × List CacheEntry
unfolding mark_found
mark_cache_hit faults project workspace key used_at rows =
    let out = mark_found used_at faults (find (is_entry project workspace key) rows) rows in
    if faults.write then (err failed, rows) else out

quarantine_found :
    String
    → ℕ
    → Option CacheEntry
    → List CacheEntry
    → Result StoreError (Unit {0}) × List CacheEntry
quarantine_found reason at none rows = (err not_found, rows)
quarantine_found reason at (some e) rows =
    let new = record e { state = "quarantined"; reason = reason; observed_at = at } in
    (ok tt, map (replace_entry new) rows)

unfoldable pub bad_reason : String → Bool
bad_reason reason = reason == "" || ltb 128 (len reason)

unfoldable pub quarantine :
    Faults
    → String
    → String
    → String
    → String
    → ℕ
    → List CacheEntry
    → Result StoreError (Unit {0}) × List CacheEntry
unfolding quarantine_found
quarantine faults project workspace key reason at rows =
    let out = quarantine_found reason at (find (is_entry project workspace key) rows) rows in
    if bad_reason reason
    then (err conflict, rows)
    else (if faults.write then (err failed, rows) else out)

-- The entries whose outputs have to stay: WHERE … AND state='active' AND expires_at>?
abbrev pub is_protecting : String → String → ℕ → CacheEntry → Bool
is_protecting project workspace now e =
    e.project_id == project
    && e.workspace_id == workspace
    && e.state == "active"
    && ltb now e.expires_at

-- `hashes[h] = struct{}{}` for each hash, each kept once.
abbrev pub distinct : List String → List String
distinct [] = []
distinct (x ∷ xs) = let rest = distinct xs in if any (λ y. y == x) rest then rest else x ∷ rest

abbrev pub hashes_of : List CacheEntry → List String
hashes_of [] = []
hashes_of (e ∷ rest) = map (λ o. o.content_hash) e.outputs ++ hashes_of rest

abbrev pub by_key : CacheEntry → CacheEntry → Bool
by_key a b = text_le a.key b.key

-- The hashes of the first `limit` entries by key, and whether these are all.
unfoldable pub list_protected_cache_hashes :
    Bool → String → String → ℕ → ℕ → List CacheEntry → Result StoreError (List String × Bool)
list_protected_cache_hashes fault project workspace now limit rows =
    let found = sort_by by_key (filter (is_protecting project workspace now) rows) in
    if limit == 0
    then ok ([], false)
    else (if fault
        then err failed
        else ok
            (sort_by text_le (distinct (hashes_of (take limit found))), leb (length found) limit))

abbrev pub is_expired : String → String → ℕ → CacheEntry → Bool
is_expired project workspace now e =
    e.project_id == project && e.workspace_id == workspace && leb e.expires_at now

-- ORDER BY expires_at, cache_key
abbrev by_expiry : CacheEntry → CacheEntry → Bool
by_expiry a b = ltb a.expires_at b.expires_at || a.expires_at == b.expires_at && text_le a.key b.key

abbrev pub is_among : List CacheEntry → CacheEntry → Bool
is_among chosen e = any (λ c. same_entry c e) chosen

unfoldable pub delete_expired :
    Bool → String → String → ℕ → ℕ → List CacheEntry → Result StoreError ℕ × List CacheEntry
delete_expired fault project workspace now limit rows =
    let chosen = take limit (sort_by by_expiry (filter (is_expired project workspace now) rows)) in
    if limit == 0
    then (ok 0, rows)
    else (if fault
        then (err failed, rows)
        else (ok (length chosen), filter (λ e. not (is_among chosen e)) rows))
