-- ===== src/Runtime/Config/Accepts.antt =====
-- What the check of internal/runtimeconfig/types.go accepts, target by target.
use repo_plane.Base.{
  String, len, ◌≡◌, refl, ◌⊎◌, inl, inr, true, false, Option, none, some, List, arith, ltb, ◌==◌,
  String_eq, ℕ_eq, eq_iff, length, any, ok, ◌≤◌, ◌≢◌, subst, sym, Bool-cases,
}
use repo_plane.Runtime.Config.{
  Request, values_of, is_one_value, validate_source, validate_target, validate, is_source_target,
}

validate_source-replace :
    (trim : String → String) (values : Option (List String))
    → validate_source trim "replace" values ≡ ok tt
    → any (λ v. trim v == "") (values_of values) ≡ false
unfolding validate_source
validate_source-replace trim none h = ground (arith, h)
validate_source-replace trim (some vs) h = ground (arith, h)

validate_source-one :
    (trim : String → String) (action : String) (values : Option (List String))
    → validate_source trim action values ≡ ok tt
    → (action ≡ "add") ⊎ (action ≡ "remove")
    → is_one_value trim (values_of values) ≡ true
unfolding validate_source
validate_source-one trim action values h (inl e) =
    ground (arith, e, h, eq_iff action "add", eq_iff action "remove")
validate_source-one trim action values h (inr e) =
    ground (arith, e, h, eq_iff action "add", eq_iff action "remove")

validate_target-literal :
    (trim : String → String) (target : String) (values : Option (List String))
    → ((validate_target trim "select" target values ≡ ok tt)
        → is_one_value trim (values_of values) ≡ true)
      × ((validate_target trim "start" target values ≡ ok tt)
          → is_one_value trim (values_of values) ≡ true)
unfolding validate_target validate_source
validate_target-literal trim target values = elim (Bool-cases (is_source_target target)) [
  | inl e ↦ ((λ h. ground (arith, e, h)), (λ h. ground (arith, e, h)))
  | inr e ↦ ((λ h. ground (arith, e, h)), (λ h. ground (arith, e, h)))
]

validate_target-source :
    (trim : String → String) (target : String) (values : Option (List String))
    → ((validate_target trim "add" target values ≡ ok tt)
        → is_one_value trim (values_of values) ≡ true)
      × ((validate_target trim "remove" target values ≡ ok tt)
          → is_one_value trim (values_of values) ≡ true)
unfolding validate_target validate_source
validate_target-source trim target values = elim (Bool-cases (is_source_target target)) [
  | inl e ↦ ((λ h. ground (arith, e, h)), (λ h. ground (arith, e, h)))
  | inr e ↦ ((λ h. ground (arith, e, h)), (λ h. ground (arith, e, h)))
]

validate-target :
    (trim : String → String) (r : Request) (a : String)
    → trim r.action ≡ a
    → (a == "status") ≡ false
    → validate trim r ≡ ok tt
    → validate_target trim a (trim r.target) r.values ≡ ok tt
unfolding validate
validate-target trim r a e n h =
    subst (λ x. validate_target trim x (trim r.target) r.values ≡ ok tt) e
      (ground (arith, subst (λ x. (x == "status") ≡ false) (sym e) n, h))

-- An action that takes one value.
pub data TakesOne : String → Type 0 where
  add : TakesOne "add"
  remove : TakesOne "remove"
  select : TakesOne "select"
  start : TakesOne "start"

-- When the check accepts a request whose trimmed action is add, remove, select or start, the request
-- has exactly one value, and that value is not blank.
pub validate-one_value :
    (trim : String → String) (r : Request) (a : String)
    → trim r.action ≡ a
    → TakesOne a
    → validate trim r ≡ ok tt
    → is_one_value trim (values_of r.values) ≡ true
validate-one_value trim r a e add h =
    (validate_target-source trim (trim r.target) r.values).0 (validate-target trim r "add" e refl h)
validate-one_value trim r a e remove h =
    (validate_target-source trim (trim r.target) r.values).1
      (validate-target trim r "remove" e refl h)
validate-one_value trim r a e select h =
    (validate_target-literal trim (trim r.target) r.values).0
      (validate-target trim r "select" e refl h)
validate-one_value trim r a e start h =
    (validate_target-literal trim (trim r.target) r.values).1
      (validate-target trim r "start" e refl h)

-- An accepted request has at most 64 values, each of at most 4096 bytes.
pub validate-bounds :
    (trim : String → String) (r : Request)
    → validate trim r ≡ ok tt
    → (length (values_of r.values) ≤ 64)
      × (any (λ v. ltb 4096 (len v)) (values_of r.values) ≡ false)
unfolding validate
validate-bounds trim r h = ground (arith, h)

validate_target-replace :
    (trim : String → String) (target : String) → validate_target trim "replace" target none ≢ ok tt
unfolding validate_target validate_source
validate_target-replace trim target h = elim (Bool-cases (is_source_target target)) [
  | inl e ↦ ground (arith, e, h)
  | inr e ↦ ground (arith, e, h)
]

-- An accepted replacement of a source target carries an explicit list, which a nil slice is not.
pub validate-replace :
    (trim : String → String) (r : Request)
    → trim r.action ≡ "replace"
    → validate trim r ≡ ok tt
    → r.values ≢ none
validate-replace trim r e h n = validate_target-replace trim (trim r.target) (
    subst (λ v. validate_target trim "replace" (trim r.target) v ≡ ok tt) n
      (validate-target trim r "replace" e refl h))
