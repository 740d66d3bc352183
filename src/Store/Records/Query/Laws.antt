-- ===== src/Store/Records/Query/Laws.antt =====
-- What a page of QueryRecords (internal/store/sqlite/records.go) holds.
use repo_plane.Base.{
  zero, suc, ℕ, ◌≤◌, ◌≡◌, refl, Bool, true, ◌&&◌, List, [], ◌∷◌, map, arith, length, filter, take,
  take_all, length-take, count, all, ok, ap, ◌∙◌, all-filter_self,
}
use repo_plane.Store.{failed, Record}
use repo_plane.Store.Tx.{Db, statement, tables-statement}
use repo_plane.Store.Archive.Order.{sort_by, count-sort_by, all-sort_by}
use repo_plane.Store.Records.Rows.{Json}
use repo_plane.Store.Records.Query.{
  TextSearch, RecordQuery, RecordPage, selected, ordered, page_of, query_records,
}

length-count : {A : Type 0} (xs : List A) → count (λ x. true) xs ≡ length xs
length-count [] = refl
length-count (x ∷ xs) = omega (arith, length-count xs)

pub length-sort_by :
    {A : Type 0} (le : A → A → Bool) (xs : List A) → length (sort_by le xs) ≡ length xs
length-sort_by le xs =
    omega (arith, length-count xs, length-count (sort_by le xs), count-sort_by le (λ x. true) xs)

count-filter :
    {A : Type 0} (p q : A → Bool) (xs : List A) → count p (filter q xs) ≡ count (λ x. q x && p x) xs
count-filter p q [] = refl
count-filter p q (x ∷ xs) = ground (arith, count-filter p q xs)

all-take :
    {A : Type 0} (p : A → Bool) (n : ℕ) (xs : List A) → all p xs ≡ true → all p (take n xs) ≡ true
all-take p zero xs h = refl
all-take p (suc n) [] h = refl
all-take p (suc n) (x ∷ xs) h = ground (arith, h, all-take p n xs)

module _ (j : Json) (s : TextSearch) (q : RecordQuery) (db : Db) where
  abbrev rows : List Record
  rows = filter (selected j s q (map s.normal_term q.terms)) db.tables.records

  pub query_records-page :
      {found : RecordPage}
      → (query_records j s q db).0 ≡ ok found
      → (found ≡ page_of j s q (map s.normal_term q.terms) rows)
        × ((query_records j s q db).1.tables ≡ db.tables)
  unfolding query_records
  query_records-page h =
      let start = (statement failed db).1 in
      ground (arith, h, tables-statement failed db, tables-statement failed start)

-- A page that says it is complete holds every record of the WHERE clause as often as the table does,
-- and no other; `matched` counts them, and the query writes nothing.
pub query_records_lem :
    (j : Json) (s : TextSearch) (q : RecordQuery) (db : Db) {found : RecordPage}
    → (query_records j s q db).0 ≡ ok found
    → found.complete ≡ true
    → ((p : Record → Bool)
        → count p found.records
          ≡ count (λ r. selected j s q (map s.normal_term q.terms) r && p r) db.tables.records)
      × (found.matched ≡ length found.records)
      × ((query_records j s q db).1.tables ≡ db.tables)
unfolding page_of
query_records_lem j s q db {found} h whole =
    let terms = map s.normal_term q.terms in
    let matching = rows j s q db in
    let (same, kept) = query_records-page j s q db h in
    let fits : length (sort_by (ordered j s terms) matching) ≤ q.limit =
      ground
        (arith, length-sort_by (ordered j s terms) matching, ap (λ x. x.complete) same, whole) in
    let listed : found.records ≡ sort_by (ordered j s terms) matching =
      ap (λ x. x.records) same ∙ take_all q.limit (sort_by (ordered j s terms) matching) fits in
    (
      λ p.
          ap (count p) listed
          ∙ count-sort_by (ordered j s terms) p matching
          ∙ count-filter p (selected j s q terms) db.tables.records,
      ground (
        arith,
        ap (λ x. x.matched) same,
        ap length listed,
        length-sort_by (ordered j s terms) matching,
      ),
      kept,
    )

-- Every record of a page satisfies the WHERE clause, and there are at most `limit` of them.
pub query_records-bounded :
    (j : Json) (s : TextSearch) (q : RecordQuery) (db : Db) {found : RecordPage}
    → (query_records j s q db).0 ≡ ok found
    → (all (selected j s q (map s.normal_term q.terms)) found.records ≡ true)
      × (length found.records ≤ q.limit)
unfolding page_of
query_records-bounded j s q db {found} h =
    let terms = map s.normal_term q.terms in
    let matching = rows j s q db in
    let listed = ap (λ x. x.records) (query_records-page j s q db h).0 in
    (
      ap (all (selected j s q terms)) listed
          ∙ all-take (selected j s q terms) q.limit (sort_by (ordered j s terms) matching) (
              all-sort_by (ordered j s terms) (selected j s q terms) matching
              ∙ all-filter_self (selected j s q terms) db.tables.records),
      ground (arith, ap length listed, length-take q.limit (sort_by (ordered j s terms) matching)),
    )
