-- ===== src/Store/Archive/Order.antt =====
-- ORDER BY of the queries of `ExportRecords`: texts by their bytes, numbers by size.
use Prim.Native.String.{compare}
use Prim.Native.Nat.{Ordering}
use repo_plane.Base.{
  ◌≤◌, String, ◌≡◌, refl, Bool, true, false, ◌&&◌, ◌||◌, List, [], ◌∷◌, arith, leb, if◌then◌else◌,
  count, find, any, all, ◌==◌, String_eq,
}
use repo_plane.Store.{Record, RecordRevision}
use repo_plane.Store.Tx.{ImportRow}

abbrev pub text_le : String → String → Bool
text_le a b = elim (compare a b) [ Ordering.gt ↦ false | _ ↦ true ]

abbrev text_lt : String → String → Bool
text_lt a b = elim (compare a b) [ Ordering.lt ↦ true | _ ↦ false ]

abbrev pub record_le : Record → Record → Bool
record_le a b = text_le a.id b.id

abbrev pub revision_le : RecordRevision → RecordRevision → Bool
revision_le a b =
    text_lt a.record_id b.record_id || a.record_id == b.record_id && leb a.revision b.revision

abbrev pub import_le : ImportRow → ImportRow → Bool
import_le a b =
    text_lt a.source_hash b.source_hash
    || a.source_hash == b.source_hash && text_le a.parser_revision b.parser_revision

module _ {A : Type 0} (le : A → A → Bool) where
  unfoldable pub insert_by : A → List A → List A
  insert_by x [] = x ∷ []
  insert_by x (y ∷ ys) = let rest = insert_by x ys in if le x y then x ∷ y ∷ ys else y ∷ rest

  unfoldable pub sort_by : List A → List A
  unfolding insert_by
  sort_by [] = []
  sort_by (x ∷ xs) = insert_by x (sort_by xs)

  count-insert_by :
      (p : A → Bool) (x : A) (ys : List A) → count p (insert_by x ys) ≡ count p (x ∷ ys)
  unfolding insert_by
  count-insert_by p x [] = refl
  count-insert_by p x (y ∷ ys) = ground (arith, count-insert_by p x ys)

  pub count-sort_by : (p : A → Bool) (xs : List A) → count p (sort_by xs) ≡ count p xs
  unfolding sort_by
  count-sort_by p [] = refl
  count-sort_by p (x ∷ xs) = ground (arith, count-insert_by p x (sort_by xs), count-sort_by p xs)

  all-insert_by : (p : A → Bool) (x : A) (ys : List A) → all p (insert_by x ys) ≡ all p (x ∷ ys)
  unfolding insert_by
  all-insert_by p x [] = refl
  all-insert_by p x (y ∷ ys) = ground (arith, all-insert_by p x ys)

  pub all-sort_by : (p : A → Bool) (xs : List A) → all p (sort_by xs) ≡ all p xs
  unfolding sort_by
  all-sort_by p [] = refl
  all-sort_by p (x ∷ xs) = ground (arith, all-insert_by p x (sort_by xs), all-sort_by p xs)

  find-insert_by :
      (p : A → Bool) (x : A) (ys : List A)
      → count p (x ∷ ys) ≤ 1
      → find p (insert_by x ys) ≡ find p (x ∷ ys)
  unfolding insert_by
  find-insert_by p x [] h = refl
  find-insert_by p x (y ∷ ys) h = ground (arith, find-insert_by p x ys)

  pub find-sort_by : (p : A → Bool) (xs : List A) → count p xs ≤ 1 → find p (sort_by xs) ≡ find p xs
  unfolding sort_by
  find-sort_by p [] h = refl
  find-sort_by p (x ∷ xs) h =
      ground (arith, find-insert_by p x (sort_by xs), find-sort_by p xs, count-sort_by p xs)

  any-insert_by : (p : A → Bool) (x : A) (ys : List A) → any p (insert_by x ys) ≡ any p (x ∷ ys)
  unfolding insert_by
  any-insert_by p x [] = refl
  any-insert_by p x (y ∷ ys) = ground (arith, any-insert_by p x ys)

  pub any-sort_by : (p : A → Bool) (xs : List A) → any p (sort_by xs) ≡ any p xs
  unfolding sort_by
  any-sort_by p [] = refl
  any-sort_by p (x ∷ xs) = ground (arith, any-insert_by p x (sort_by xs), any-sort_by p xs)
