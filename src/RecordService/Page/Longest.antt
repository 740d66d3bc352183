-- ===== src/RecordService/Page/Longest.antt =====
-- How many items a page of internal/records/service.go shows: the loop of readPage over its length.
use repo_plane.Base.{
  ℕ, zero, suc, ◌+◌, ◌≤◌, ◌<◌, ◌≡◌, refl, sym, ◌∙◌, ap, String, Bool, false, Option, some, List, [],
  ◌∷◌, arith, leb, ◌==◌, String_eq, ℕ_eq, length, take, Result, ok, err, Bool-cases, inl, inr,
}
use repo_plane.Contracts.{Response}
use repo_plane.Store.Results.{ResultSet, Faults, create_result_set, read_result_page}
use repo_plane.Store.Results.Pages.{created-read, page_with}
use repo_plane.Store.{StoreError}
use Prim.Native.String.{◌++◌ as join}
use repo_plane.RecordService.Page.{
  Format, PageError, Shown, response_too_large, tried, chosen, fit, read_page, decode_items,
  metadata_of, items_from, set_of, result_set_ttl, persist, stored_page,
}

-- A response of `count` items, which fits, and than which no longer one that was tried does.
pub record Longest {Item : Type 0} (f : Format Item) (byte_limit : ℕ) (s : Shown Item) (n : ℕ)
    (r : Response Item) : Type 0 where
  pub count : ℕ
  pub at_most : count ≤ n
  pub made : tried f s count ≡ ok r
  pub fits : f.size r ≤ byte_limit
  pub progress : 1 ≤ length s.items → 1 ≤ count
  pub longest :
      (j : ℕ)
      → count < j
      → j ≤ n
      → (r' : Response Item) → tried f s j ≡ ok r'
      → byte_limit < f.size r'

module _ {Item : Type 0} (f : Format Item) (byte_limit : ℕ) (s : Shown Item) where
  chosen-Longest :
      (n : ℕ) (rest : Result PageError (Response Item)) {r : Response Item}
      → ((r' : Response Item)
          → tried f s n ≡ ok r'
          → rest ≡ ok r
          → byte_limit < f.size r'
          → Longest f byte_limit s n r)
      → (out : Result PageError (Response Item)) → tried f s n ≡ out
      → chosen f byte_limit s n out rest ≡ ok r
      → Longest f byte_limit s n r
  unfolding chosen
  chosen-Longest n rest {r} go (err e) same h = absurd (ground (arith, h))
  chosen-Longest n rest {r} go (ok r') same h = elim (Bool-cases (leb (f.size r') byte_limit)) [
    | inr large ↦ go r' same (ground (arith, h, large)) (ground (arith, large))
    | inl small ↦
        let equal : r' ≡ r = ground (arith, h, small) in
        record {
          count = n;
          at_most = omega arith;
          made = same ∙ ap (λ x. ok x) equal;
          fits = ground (arith, small, ap f.size equal);
          progress = ground (arith, h, small);
          longest = λ j above below r'' t. absurd (omega (arith, above, below));
        }
  ]

  -- The response of one item more is too long, and so is every longer one.
  longer :
      (n : ℕ) (rest : Result PageError (Response Item)) {r : Response Item}
      (before : Longest f byte_limit s n r) (r' : Response Item)
      → tried f s (suc n) ≡ ok r'
      → byte_limit < f.size r'
      → (j : ℕ) → before.count < j
      → j ≤ suc n
      → (r'' : Response Item) → tried f s j ≡ ok r''
      → byte_limit < f.size r''
  longer n rest before r' t big j above below r'' t' = elim (Bool-cases (leb j n)) [
    | inl within ↦ before.longest j above (ground (arith, within)) r'' t'
    | inr beyond ↦
        let last : j ≡ suc n = ground (arith, below, beyond) in
        let same : Path (Result PageError (Response Item)) (ok r') (ok r'') =
          sym t ∙ ap (tried f s) (sym last) ∙ t' in
        let equal : r' ≡ r'' = ground (arith, same) in ground (arith, big, ap f.size equal)
  ]

  fit-Longest :
      (n : ℕ) {r : Response Item} → fit f byte_limit s n ≡ ok r → Longest f byte_limit s n r
  unfolding fit
  fit-Longest zero {r} h =
      chosen-Longest 0 (err response_too_large) (λ r' t e big. absurd (ground (arith, e)))
        (tried f s 0) refl h
  fit-Longest (suc n) {r} h =
      chosen-Longest (suc n) (fit f byte_limit s n)
        (λ r' t e big.
          let before = fit-Longest n {r = r} e in
          record {
            count = before.count;
            at_most = omega (arith, before.at_most);
            made = before.made;
            fits = before.fits;
            progress = before.progress;
            longest = λ j above below r'' t'.
                longer n (fit f byte_limit s n) before r' t big j above below r'' t';
          })
        (tried f s (suc n)) refl h

module _ {Item : Type 0} (f : Format Item) where
  decode_items-items_from :
      ((x : Item) → f.decode_item (f.encode_item x) ≡ some x)
      → (k n : ℕ) (xs : List Item) → decode_items f (take k (items_from f n xs)) ≡ ok (take k xs)
  unfolding decode_items items_from
  decode_items-items_from back zero n xs = refl
  decode_items-items_from back (suc k) n [] = refl
  decode_items-items_from back (suc k) n (x ∷ xs) =
      rw (back x) (rw (decode_items-items_from back k (n + 1) xs) refl)

  length-items_from : (n : ℕ) (xs : List Item) → length (items_from f n xs) ≡ length xs
  unfolding items_from
  length-items_from n [] = refl
  length-items_from n (x ∷ xs) = ground (arith, length-items_from (n + 1) xs)

  metadata-back :
      (b : Bool)
      → f.decode_metadata (f.encode_metadata b) ≡ some b
      → (f.encode_metadata b == "") ≡ false
      → metadata_of f (f.encode_metadata b) ≡ ok b
  metadata-back b back there = rw there (rw back refl)

  -- What readPage knows of the first page of a set just stored.
  abbrev pub first_shown : String → ℕ → Bool → List Item → ℕ → Shown Item
  first_shown id now complete results item_limit = record {
    set_id = id;
    from = 0;
    expires = now + result_set_ttl;
    total = length results;
    complete = complete;
    items = take item_limit results;
  }

  read_page-stored :
      ((x : Item) → f.decode_item (f.encode_item x) ≡ some x)
      → (complete : Bool) → metadata_of f (f.encode_metadata complete) ≡ ok complete
      → (id query_hash : String) (now : ℕ) (results : List Item) (item_limit byte_limit : ℕ)
      → (sets : List ResultSet) {next : Option ℕ}
      → read_result_page false id 0 item_limit sets
        ≡ ok (
            page_with
              (set_of f id query_hash now complete results)
              (take item_limit (items_from f 0 results))
              next)
      → read_page f false id 0 item_limit byte_limit (now + result_set_ttl) sets
        ≡ fit f byte_limit
            (first_shown id now complete results item_limit)
            (length (take item_limit results))
  unfolding read_page set_of
  read_page-stored back complete meta id query_hash now results item_limit byte_limit sets read =
      rw read (
        rw meta (
          rw (decode_items-items_from back item_limit 0 results)
            (rw (length-items_from 0 results) refl)))

  stored_page-ok :
      (s : ResultSet) (item_limit byte_limit : ℕ)
      (out : Result StoreError (Unit {0}) × List ResultSet) {r : Response Item}
      → (stored_page f false s item_limit byte_limit out).0 ≡ ok r
      → (out.0 ≡ ok tt) × (read_page f false s.id 0 item_limit byte_limit s.expires_at out.1 ≡ ok r)
  unfolding stored_page
  stored_page-ok s item_limit byte_limit (err e, sets) h = absurd (ground (arith, h))
  stored_page-ok s item_limit byte_limit (ok _, sets) h = (refl, h)

  -- When JSON gives back the results and the metadata that were encoded and the read does not fail, the
  -- first page that a query stores and returns is the longest prefix of its results, among those of at
  -- most `item_limit`, whose response fits into `byte_limit`; it is not empty when there are results.
  pub persist-Longest :
      ((x : Item) → f.decode_item (f.encode_item x) ≡ some x)
      → ((b : Bool) → f.decode_metadata (f.encode_metadata b) ≡ some b)
      → ((b : Bool) → (f.encode_metadata b == "") ≡ false)
      → (valid : String → Bool) (faults : Faults) (hex query_hash : String) (now : ℕ)
        (complete : Bool)
      → (results : List Item) (item_limit byte_limit : ℕ) (sets : List ResultSet)
        {r : Response Item}
      → 1 ≤ item_limit
      → (persist f valid faults false
          (some hex)
          query_hash
          now
          complete
          results
          item_limit
          byte_limit
          sets).0
        ≡ ok r
      → Longest f byte_limit
          (first_shown (join "record_results_" hex) now complete results item_limit)
          (length (take item_limit results))
          r
  unfolding persist set_of
  persist-Longest back again there valid faults hex query_hash now complete results item_limit
        byte_limit sets {r} positive h =
      let id = join "record_results_" hex in
      let s = set_of f id query_hash now complete results in
      let out = create_result_set valid faults s sets in
      let (done, read) = stored_page-ok s item_limit byte_limit out h in
      fit-Longest f byte_limit (first_shown id now complete results item_limit)
        (length (take item_limit results))
        (sym (
            read_page-stored back complete
              (metadata-back complete (again complete) (there complete)) id query_hash now results
              item_limit byte_limit out.1
              (created-read valid faults s sets 0 item_limit done positive))
          ∙ read)
