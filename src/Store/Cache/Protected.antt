-- ===== src/Store/Cache/Protected.antt =====
-- ListProtectedCacheHashes of internal/store/sqlite/cache.go.
use repo_plane.Base.{
  ℕ, ◌≤◌, String, ◌≡◌, refl, Bool, true, false, ◌&&◌, ◌||◌, List, [], ◌∷◌, ◌++◌, map, arith, ◌==◌,
  String_eq, ℕ_eq, length, filter, any, take, take_all, ok, eq_iff, ap, ◌∙◌, sym,
}
use repo_plane.Store.Archive.Order.{text_le, sort_by, any-sort_by}
use repo_plane.Store.Cache.{
  CacheOutput, CacheEntry, is_protecting, distinct, hashes_of, by_key, list_protected_cache_hashes,
}

any-append :
    {A : Type 0} (q : A → Bool) (xs ys : List A) → any q (xs ++ ys) ≡ (any q xs || any q ys)
any-append q [] ys = refl
any-append q (x ∷ xs) ys = ground (arith, any-append q xs ys)

any-filter :
    {A : Type 0} (q p : A → Bool) (xs : List A) → any q (filter p xs) ≡ any (λ x. p x && q x) xs
any-filter q p [] = refl
any-filter q p (x ∷ xs) = ground (arith, any-filter q p xs)

abbrev pub is_text : String → String → Bool
is_text h x = x == h

any-equal :
    (h x : String) (xs : List String) → (x == h) ≡ true → any (is_text x) xs ≡ any (is_text h) xs
any-equal h x xs same = ap (λ y. any (is_text y) xs) ((eq_iff x h).0 same)

any-distinct : (h : String) (xs : List String) → any (is_text h) (distinct xs) ≡ any (is_text h) xs
any-distinct h [] = refl
any-distinct h (x ∷ xs) = ground (arith, any-distinct h xs, any-equal h x (distinct xs))

abbrev pub has_hash : String → CacheEntry → Bool
has_hash h e = any (λ o. o.content_hash == h) e.outputs

any-hashes :
    (h : String) (os : List CacheOutput)
    → any (is_text h) (map (λ o. o.content_hash) os) ≡ any (λ o. o.content_hash == h) os
any-hashes h [] = refl
any-hashes h (o ∷ os) = ground (arith, any-hashes h os)

any-hashes_of :
    (h : String) (es : List CacheEntry) → any (is_text h) (hashes_of es) ≡ any (has_hash h) es
any-hashes_of h [] = refl
any-hashes_of h (e ∷ es) =
    any-append (is_text h) (map (λ o. o.content_hash) e.outputs) (hashes_of es)
    ∙ ground (arith, any-hashes h e.outputs, any-hashes_of h es)

-- When the answer is complete, it holds exactly the hashes of the outputs of the active entries of this
-- workspace that have not expired.
pub list_protected-exact :
    (project workspace : String) (now limit : ℕ) (rows : List CacheEntry) {hashes : List String}
    → list_protected_cache_hashes false project workspace now limit rows ≡ ok (hashes, true)
    → (h : String)
    → any (is_text h) hashes ≡ any (λ e. is_protecting project workspace now e && has_hash h e) rows
unfolding list_protected_cache_hashes
list_protected-exact project workspace now limit rows {hashes} done h =
    let found = filter (is_protecting project workspace now) rows in
    let sorted = sort_by by_key found in
    let listed = sort_by text_le (distinct (hashes_of (take limit sorted))) in
    let same : listed ≡ hashes = ground (arith, done) in
    let fits : length sorted ≤ limit = ground (arith, done) in
    ap (any (is_text h)) (sym same)
    ∙ any-sort_by text_le (is_text h) (distinct (hashes_of (take limit sorted)))
    ∙ any-distinct h (hashes_of (take limit sorted))
    ∙ any-hashes_of h (take limit sorted)
    ∙ ap (any (has_hash h)) (take_all limit sorted fits)
    ∙ any-sort_by by_key (has_hash h) found
    ∙ any-filter (has_hash h) (is_protecting project workspace now) rows
