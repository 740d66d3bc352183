-- ===== src/Store/Results.antt =====
-- The snapshots of query results in internal/store/sqlite/sqlite.go: the tables `result_sets` and
-- `result_items`. A row holds the items of its set in the order of their ordinals, which the foreign key
-- deletes with it; which statements of the engine fail is a parameter.
-- Limits are below 2^63 - 1, so that `limit+1` does not wrap around.
pub mod Pages
mod Examples
use repo_plane.Base.{
  ℕ, suc, ◌+◌, String, Bool, true, false, not, ◌&&◌, ◌||◌, Option, none, some, List, [], ◌∷◌, ◌++◌,
  ltb, leb, ◌==◌, ◌!=◌, String_eq, ℕ_eq, if◌then◌else◌, length, filter, find, any, take, drop,
  Result, ok, err,
}
use repo_plane.Store.{StoreError, not_found, conflict, failed}
use repo_plane.Store.Archive.Order.{text_le, sort_by}

pub record ResultItem : Type 0 where
  pub ordinal : ℕ
  pub item_ref : String
  pub item_hash : String
  pub payload : String

pub record ResultSet : Type 0 where
  pub id : String
  pub workspace_id : String
  pub query_hash : String
  pub generation_id : String
  pub created_at : ℕ
  pub expires_at : ℕ
  pub metadata : String
  pub items : List ResultItem

pub record ResultPage : Type 0 where
  pub result_set_id : String
  pub items : List ResultItem
  pub total : ℕ
  pub metadata : String
  pub next_ordinal : Option ℕ

pub record Faults : Type 0 where
  pub begin : Bool
  pub prune : Bool
  pub insert : Bool
  pub commit : Bool

-- The items count their ordinals from n on, and are well formed.
bad_items : (String → Bool) → ℕ → List ResultItem → Bool
bad_items valid n [] = false
bad_items valid n (i ∷ is) =
    i.ordinal != n
    || i.item_ref == ""
    || i.item_hash == ""
    || not (valid i.payload)
    || bad_items valid (n + 1) is

unfoldable pub bad_result_set : (String → Bool) → ResultSet → Bool
unfolding bad_items
bad_result_set valid s =
    s.id == ""
    || s.workspace_id == ""
    || s.query_hash == ""
    || s.generation_id == ""
    || s.created_at == 0
    || not (ltb s.created_at s.expires_at)
    || not (valid s.metadata)
    || bad_items valid 0 s.items

abbrev pub has_set_id : String → ResultSet → Bool
has_set_id id s = s.id == id

abbrev expires_first : ResultSet → ResultSet → Bool
expires_first a b =
    ltb a.expires_at b.expires_at || a.expires_at == b.expires_at && text_le a.id b.id

abbrev pub has_expired : ℕ → ResultSet → Bool
has_expired now s = leb s.expires_at now

-- The sets that the DELETE of the expired ones takes, at most `limit`.
unfoldable pub expired_batch : ℕ → ℕ → List ResultSet → List ResultSet
expired_batch now limit sets = take limit (sort_by expires_first (filter (has_expired now) sets))

abbrev pub is_in : List ResultSet → ResultSet → Bool
is_in chosen s = any (has_set_id s.id) chosen

unfoldable pub pruned : ℕ → ℕ → List ResultSet → List ResultSet
pruned now limit sets = filter (λ s. not (is_in (expired_batch now limit sets) s)) sets

abbrev pub expired_result_set_batch : ℕ
expired_result_set_batch = 64

-- `valid` is json.Valid. The INSERT fails, as a conflict, on an ID that is there.
unfoldable pub create_result_set :
    (String → Bool)
    → Faults
    → ResultSet
    → List ResultSet
    → Result StoreError (Unit {0}) × List ResultSet
create_result_set valid faults s sets =
    let left = pruned s.created_at expired_result_set_batch sets in
    if bad_result_set valid s
    then (err conflict, sets)
    else (if faults.begin || faults.prune
        then (err failed, sets)
        else (if faults.insert || any (has_set_id s.id) left
            then (err conflict, sets)
            else (if faults.commit then (err failed, sets) else (ok tt, left ++ s ∷ []))))

first_ordinal : List ResultItem → Option ℕ
first_ordinal [] = none
first_ordinal (i ∷ is) = some i.ordinal

page_of_set : String → ℕ → ℕ → Option ResultSet → Result StoreError ResultPage
page_of_set id from limit none = err not_found
page_of_set id from limit (some s) =
    let rows = take (suc limit) (filter (λ i. leb from i.ordinal) s.items) in
    ok (record {
      result_set_id = id;
      items = take limit rows;
      total = length s.items;
      metadata = s.metadata;
      next_ordinal = first_ordinal (drop limit rows);
    })

unfoldable pub read_result_page :
    Bool → String → ℕ → ℕ → List ResultSet → Result StoreError ResultPage
unfolding page_of_set first_ordinal
read_result_page fault id from limit sets =
    if limit == 0
    then err conflict
    else (if fault then err failed else page_of_set id from limit (find (has_set_id id) sets))

unfoldable pub delete_expired_result_sets :
    Bool → ℕ → ℕ → List ResultSet → Result StoreError ℕ × List ResultSet
delete_expired_result_sets fault now limit sets =
    if limit == 0
    then (ok 0, sets)
    else (if fault
        then (err failed, sets)
        else (ok (length (expired_batch now limit sets)), pruned now limit sets))

-- The set of a query that lives longest.
abbrev longest : ResultSet → ResultSet → Bool
longest a b = leb b.expires_at a.expires_at

abbrev answers : String → String → String → ℕ → ResultSet → Bool
answers workspace generation query_hash min_expires s =
    s.generation_id == generation
    && s.workspace_id == workspace
    && s.query_hash == query_hash
    && ltb min_expires s.expires_at

-- FindResultSet reads the ID and the two times of the row, and leaves the metadata and the items empty.
unfoldable pub find_result_set :
    Bool → String → String → String → ℕ → List ResultSet → Result StoreError ResultSet
find_result_set fault workspace generation query_hash min_expires sets =
    if fault
    then err failed
    else elim (take 1
        (sort_by longest (filter (answers workspace generation query_hash min_expires) sets))) [
          | [] ↦ err not_found
          | s ∷ _ ↦ ok (record s { metadata = ""; items = [] })
        ]
