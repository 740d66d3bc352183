-- ===== src/Base/Search.antt =====
-- How `find`, `any` and `count` see a list that grows at its end.
use Prim.Native.Nat.{◌+◌, ◌≤◌, ◌<◌}
use mathlib.Core.Path.{◌≡◌, refl}
use mathlib.Core.Bool.{Bool, true, false, ◌&&◌}
use mathlib.Core.List.{List, [], ◌∷◌, ◌++◌}
use mathlib.Core.Option.{Option, none, some}
use native.Mathlib.Omega.{arith}
use repo_plane.Base.Tests.{if◌then◌else◌}
use repo_plane.Base.Lists.{any, all, find, count}

abbrev pub or_else {ℓ} : {A : Type ℓ} → Option A → Option A → Option A
or_else none b = b
or_else (some a) b = some a

module _ {ℓ} {A : Type ℓ} (p : A → Bool) where
  pub count-append : (xs ys : List A) → count p (xs ++ ys) ≡ count p xs + count p ys
  count-append [] ys = omega arith
  count-append (x ∷ xs) ys = omega (arith, count-append xs ys)

  pub find-append :
      (xs : List A) (x : A)
      → find p (xs ++ x ∷ []) ≡ or_else (find p xs) (if p x then some x else none)
  find-append [] x = ground arith
  find-append (y ∷ xs) x = ground (arith, find-append xs x)

  pub all-append : (xs : List A) (x : A) → all p (xs ++ x ∷ []) ≡ (all p xs && p x)
  all-append [] x = ground arith
  all-append (y ∷ xs) x = ground (arith, all-append xs x)

  pub count_of_any : (xs : List A) → any p xs ≡ false → count p xs ≡ 0
  count_of_any [] h = refl
  count_of_any (x ∷ xs) h = ground (arith, count_of_any xs)

  pub find_of_any : (xs : List A) → any p xs ≡ false → find p xs ≡ none
  find_of_any [] h = refl
  find_of_any (x ∷ xs) h = ground (arith, find_of_any xs)

  pub find_of_count : (xs : List A) → count p xs ≡ 0 → find p xs ≡ none
  find_of_count [] h = refl
  find_of_count (x ∷ xs) h = ground (arith, find_of_count xs)

  pub any_of_count : (xs : List A) → count p xs ≡ 0 → any p xs ≡ false
  any_of_count [] h = refl
  any_of_count (x ∷ xs) h = ground (arith, any_of_count xs)

  pub find_holds : (xs : List A) {x : A} → find p xs ≡ some x → p x ≡ true
  find_holds [] h = ground arith
  find_holds (y ∷ xs) {x} h = ground (arith, find_holds xs {x = x})

  pub count-pos_of_find : (xs : List A) {x : A} → find p xs ≡ some x → 0 < count p xs
  count-pos_of_find [] h = ground arith
  count-pos_of_find (y ∷ xs) {x} h = ground (arith, count-pos_of_find xs {x = x})

  pub all_of_find :
      (q : A → Bool) (xs : List A) {x : A} → all q xs ≡ true → find p xs ≡ some x → q x ≡ true
  all_of_find q [] h f = ground arith
  all_of_find q (y ∷ xs) {x} h f = ground (arith, all_of_find q xs {x = x})

-- The stronger test finds the same element where the weaker one holds at most once.
pub find_unique {ℓ} :
    {A : Type ℓ} (p q : A → Bool) (xs : List A) {x : A}
    → count p xs ≤ 1
    → find (λ a. q a && p a) xs ≡ some x
    → find p xs ≡ some x
find_unique p q [] c h = ground arith
find_unique p q (y ∷ xs) {x} c h = ground (
  arith,
  find_unique p q xs {x = x},
  find_holds (λ a. q a && p a) xs {x = x},
  count-pos_of_find p xs {x = x},
)
