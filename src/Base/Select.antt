-- ===== src/Base/Select.antt =====
-- How `find`, `any`, `all` and `count` see a filtered list.
use mathlib.Core.Path.{◌≡◌, refl}
use mathlib.Core.Bool.{Bool, true, not, ◌&&◌, ◌||◌}
use mathlib.Core.List.{List, [], ◌∷◌, map}
use mathlib.Core.Option.{some}
use Prim.Native.Nat.{◌≤◌, ◌<◌}
use native.Mathlib.Omega.{arith}
use repo_plane.Base.Lists.{any, all, find, count, filter}

module _ {ℓ} {A : Type ℓ} where
  pub count-filter_of :
      (p q : A → Bool) (xs : List A)
      → ((x : A) → p x ≡ true → q x ≡ true)
      → count p (filter q xs) ≡ count p xs
  count-filter_of p q [] f = refl
  count-filter_of p q (x ∷ xs) f = ground (arith, f x, count-filter_of p q xs f)

  pub find-filter_of :
      (p q : A → Bool) (xs : List A)
      → ((x : A) → p x ≡ true → q x ≡ true)
      → find p (filter q xs) ≡ find p xs
  find-filter_of p q [] f = refl
  find-filter_of p q (x ∷ xs) f = ground (arith, f x, find-filter_of p q xs f)

  pub count-filter-le : (p q : A → Bool) (xs : List A) → count p (filter q xs) ≤ count p xs
  count-filter-le p q [] = omega arith
  count-filter-le p q (x ∷ xs) = ground (arith, count-filter-le p q xs)

  pub all-filter : (p q : A → Bool) (xs : List A) → all p xs ≡ true → all p (filter q xs) ≡ true
  all-filter p q [] h = refl
  all-filter p q (x ∷ xs) h = ground (arith, all-filter p q xs)

  pub all-filter_self : (q : A → Bool) (xs : List A) → all q (filter q xs) ≡ true
  all-filter_self q [] = refl
  all-filter_self q (x ∷ xs) = ground (arith, all-filter_self q xs)

  pub all-filter_or :
      (p q : A → Bool) (xs : List A)
      → all (λ x. not (q x) || p x) xs ≡ true
      → all p (filter q xs) ≡ true
  all-filter_or p q [] h = refl
  all-filter_or p q (x ∷ xs) h = ground (arith, all-filter_or p q xs)

  pub all_mono :
      (p q : A → Bool) (xs : List A)
      → ((x : A) → p x ≡ true → q x ≡ true)
      → all p xs ≡ true
      → all q xs ≡ true
  all_mono p q [] f h = refl
  all_mono p q (x ∷ xs) f h = ground (arith, f x, all_mono p q xs f)

  pub any-filter_of :
      (p q r : A → Bool) (xs : List A)
      → ((x : A) → p x ≡ true → (q x && r x) ≡ true)
      → any p xs ≡ true
      → any r (filter q xs) ≡ true
  any-filter_of p q r [] f h = h
  any-filter_of p q r (x ∷ xs) f h = ground (arith, f x, any-filter_of p q r xs f)

  pub any_of_find :
      (p q : A → Bool) (xs : List A) {x : A}
      → find p xs ≡ some x
      → q x ≡ true
      → any (λ a. p a && q a) xs ≡ true
  any_of_find p q [] h k = ground arith
  any_of_find p q (y ∷ xs) {x} h k = ground (arith, any_of_find p q xs {x = x})

  pub any_of_count-pos : (p : A → Bool) (xs : List A) → 0 < count p xs → any p xs ≡ true
  any_of_count-pos p [] h = absurd (omega arith)
  any_of_count-pos p (x ∷ xs) h = ground (arith, any_of_count-pos p xs)

pub all-map {ℓ κ} :
    {A : Type ℓ} {B : Type κ} (p : B → Bool) (f : A → B) (xs : List A)
    → all p (map f xs) ≡ all (λ x. p (f x)) xs
all-map p f [] = refl
all-map p f (x ∷ xs) = ground (arith, all-map p f xs)
