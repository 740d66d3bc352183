-- ===== src/Store/Results/Pages.antt =====
-- What ReadResultPage of internal/store/sqlite/sqlite.go gives of a set that CreateResultSet has stored.
use repo_plane.Base.{
  ℕ, zero, suc, ◌+◌, ◌-◌, ◌≤◌, String, ◌≡◌, refl, Bool, false, Option, none, some, List, [], ◌∷◌,
  arith, ltb, leb, String_eq, ℕ_eq, if◌then◌else◌, length, filter, find, take, drop, ok, ap, sym,
  ◌∙◌, eq_refl, find-append, find_of_any, drop_at, drop_empty, drop-drop, Bool-cases, inl, inr,
}
use repo_plane.Store.Results.{
  ResultItem, ResultSet, ResultPage, Faults, bad_items, bad_result_set, has_set_id, pruned,
  expired_result_set_batch, create_result_set, page_of_set, first_ordinal, read_result_page,
}

abbrev is_from : ℕ → ResultItem → Bool
is_from from i = leb from i.ordinal

first-bad_items :
    (valid : String → Bool) (n : ℕ) (i : ResultItem) (is : List ResultItem)
    → bad_items valid n (i ∷ is) ≡ false
    → (i.ordinal ≡ n) × (bad_items valid (n + 1) is ≡ false)
unfolding bad_items
first-bad_items valid n i is h = ground (arith, h)

-- In a well-formed list the items from an ordinal on are a suffix.
filter-bad_items :
    (valid : String → Bool) (n from : ℕ) (is : List ResultItem)
    → bad_items valid n is ≡ false
    → filter (is_from from) is ≡ drop (from - n) is
unfolding bad_items
filter-bad_items valid n from [] h = sym (drop_empty (from - n))
filter-bad_items valid n from (i ∷ is) h =
    let (at, rest_good) = first-bad_items valid n i is h in
    let rest = filter-bad_items valid (n + 1) from is rest_good in
    elim (Bool-cases (leb from i.ordinal)) [
      | inl here ↦ rw here (
          ap (λ xs. i ∷ xs) (rest ∙ drop_at (from - (n + 1)) 0 is (ground (arith, here, at)))
          ∙ drop_at 0 (from - n) (i ∷ is) (ground (arith, here, at)))
      | inr before ↦
          rw before
            (rest ∙ drop_at (suc (from - (n + 1))) (from - n) (i ∷ is) (ground (arith, before, at)))
    ]

created-found :
    (valid : String → Bool) (faults : Faults) (s : ResultSet) (sets : List ResultSet)
    → (create_result_set valid faults s sets).0 ≡ ok tt
    → (find (has_set_id s.id) (create_result_set valid faults s sets).1 ≡ some s)
      × (bad_result_set valid s ≡ false)
unfolding create_result_set
created-found valid faults s sets done =
    let left = pruned s.created_at expired_result_set_batch sets in
    ground (
      arith,
      done,
      find-append (has_set_id s.id) left s,
      find_of_any (has_set_id s.id) left,
      eq_refl s.id,
    )

take-take-suc :
    {A : Type 0} (limit : ℕ) (xs : List A) → take limit (take (suc limit) xs) ≡ take limit xs
take-take-suc zero xs = refl
take-take-suc (suc limit) [] = refl
take-take-suc (suc limit) (x ∷ xs) = ap (λ ys. x ∷ ys) (take-take-suc limit xs)

first_ordinal-drop-take :
    (limit : ℕ) (is : List ResultItem)
    → first_ordinal (drop limit (take (suc limit) is)) ≡ first_ordinal (drop limit is)
unfolding first_ordinal
first_ordinal-drop-take zero [] = refl
first_ordinal-drop-take zero (i ∷ is) = refl
first_ordinal-drop-take (suc limit) [] = refl
first_ordinal-drop-take (suc limit) (i ∷ is) = first_ordinal-drop-take limit is

-- The ordinal that follows a page of `limit` items from the ordinal `from` in a set of `total`.
unfoldable pub next_of : ℕ → ℕ → ℕ → Option ℕ
next_of from limit total = if ltb (from + limit) total then some (from + limit) else none

first_ordinal-drop :
    (valid : String → Bool) (n k : ℕ) (is : List ResultItem)
    → bad_items valid n is ≡ false
    → first_ordinal (drop k is) ≡ (if ltb k (length is) then some (n + k) else none)
unfolding first_ordinal
first_ordinal-drop valid n zero [] h = refl
first_ordinal-drop valid n (suc k) [] h = ground arith
first_ordinal-drop valid n zero (i ∷ is) h =
    let (at, _) = first-bad_items valid n i is h in ground (arith, at)
first_ordinal-drop valid n (suc k) (i ∷ is) h =
    let (_, rest_good) = first-bad_items valid n i is h in
    let rest = first_ordinal-drop valid (n + 1) k is rest_good in ground (arith, rest)

next-created :
    (valid : String → Bool) (s : ResultSet) (from limit : ℕ)
    → bad_items valid 0 s.items ≡ false
    → first_ordinal (drop limit (drop from s.items)) ≡ next_of from limit (length s.items)
unfolding next_of
next-created valid s from limit good =
    sym (ap first_ordinal (drop-drop from limit s.items))
    ∙ first_ordinal-drop valid 0 (from + limit) s.items good
    ∙ ap (λ k. if ltb (from + limit) (length s.items) then some k else none) (omega arith)

abbrev pub page_with : ResultSet → List ResultItem → Option ℕ → ResultPage
page_with s items next = record {
  result_set_id = s.id;
  items = items;
  total = length s.items;
  metadata = s.metadata;
  next_ordinal = next;
}

-- The page of the set whose rows from the ordinal on are `rows`.
abbrev page_rows : ResultSet → ℕ → List ResultItem → ResultPage
page_rows s limit rows =
    page_with s (take limit (take (suc limit) rows))
      (first_ordinal (drop limit (take (suc limit) rows)))

page_of-created :
    (valid : String → Bool) (s : ResultSet) (from limit : ℕ)
    → bad_items valid 0 s.items ≡ false
    → page_of_set s.id from limit (some s)
      ≡ ok (page_with s (take limit (drop from s.items)) (next_of from limit (length s.items)))
unfolding page_of_set
page_of-created valid s from limit good =
    let rows = drop from s.items in
    ap (λ is. ok (page_rows s limit is))
      (filter-bad_items valid 0 from s.items good ∙ drop_at (from - 0) from s.items (omega arith))
    ∙ ap (λ is. ok (page_with s is (first_ordinal (drop limit (take (suc limit) rows)))))
        (take-take-suc limit rows)
    ∙ ap (λ next. ok (page_with s (take limit rows) next))
        (first_ordinal-drop-take limit rows ∙ next-created valid s from limit good)

good_items :
    (valid : String → Bool) (s : ResultSet)
    → bad_result_set valid s ≡ false
    → bad_items valid 0 s.items ≡ false
unfolding bad_result_set
good_items valid s good = ground (arith, good)

read-found :
    (id : String) (from limit : ℕ) (sets : List ResultSet) (s : ResultSet)
    → 1 ≤ limit
    → find (has_set_id id) sets ≡ some s
    → read_result_page false id from limit sets ≡ page_of_set id from limit (some s)
unfolding read_result_page
read-found id from limit sets s positive found =
    ground (arith, positive, ap (page_of_set id from limit) found)

-- A set that has been stored is read back page by page: for any limit from 1 the page from an ordinal
-- on has the next items of the set, up to the limit, the number of all of them and the metadata, and
-- it names the ordinal that follows it, when the set has one.
pub created-read :
    (valid : String → Bool) (faults : Faults) (s : ResultSet) (sets : List ResultSet)
    (from limit : ℕ)
    → (create_result_set valid faults s sets).0 ≡ ok tt
    → 1 ≤ limit
    → read_result_page false s.id from limit (create_result_set valid faults s sets).1
      ≡ ok (page_with s (take limit (drop from s.items)) (next_of from limit (length s.items)))
created-read valid faults s sets from limit done positive =
    let (found, good) = created-found valid faults s sets done in
    read-found s.id from limit (create_result_set valid faults s sets).1 s positive found
    ∙ page_of-created valid s from limit (good_items valid s good)
