-- ===== src/Workspace/Examples.antt =====
-- A workspace at /w on a file system where every path but /w/b exists and resolves to itself.
use repo_plane.Base.{
  ◌<◌, String, len, ◌≡◌, ◌≢◌, refl, inl, inr, true, false, none, some, [], ◌∷◌, ◌==◌, String_eq, ok,
  err, insert, arith, ◌||◌, Option, subst, sym, eq_iff, Bool-cases, if◌then◌else◌,
}
use repo_plane.Workspace.{
  Platform, present, absent, Root, ReadGrantPlan, exhausted, within, resolve, resolve_existing,
  resolve_primary_existing, resolve_for_lookup, real_path_allow_missing, read_allowed,
  apply_read_grant,
}
use repo_plane.Workspace.Boundary.{
  Paths, resolve_for_lookup-allowed, resolve_primary-within, lookup_terminates,
}

-- Only /w and /w/a are inside /w, and every path but /w/b is a top.
abbrev pub platform : Platform
platform = record {
  windows = false;
  separator = "/";
  clean = λ s. s;
  is_abs = λ s. s == "/w";
  join_path = λ a b. if b == "a" then "/w/a" else if b == "b" then "/w/b" else a;
  dir = λ s. if s == "/w/b" then "/w" else s;
  base = λ s. s;
  to_slash = λ s. s;
  from_slash = λ s. s;
  rel = λ a b. if b == "/w/a" then some "a" else if b == a then some "." else none;
  abs = λ s. some s;
  real_path = λ s. some s;
  lstat = λ s. if s == "/w/b" then absent else present;
  stat_is_dir = λ s. some false;
  equal_fold = λ a b. a == b;
  trim_space = λ s. s;
  to_lower = λ s. s;
  digest = λ s. s;
}

abbrev pub root : Root
root = record { id = "ws"; lexical = "/w"; resolved = "/w"; grants = [] }

abbrev pub plan : ReadGrantPlan
plan = record {
  grant = record { id = "rg_1"; path = "../x" };
  candidate = record { resolved = "/x"; directory = false };
}

resolves : resolve_existing platform root "a" ≡ ok "/w/a"
unfolding resolve_existing resolve read_allowed within
resolves = refl

looks_up : resolve_for_lookup platform root "a" ≡ ok ("/w/a", true)
unfolding resolve_for_lookup resolve_existing resolve read_allowed within
looks_up = refl

resolve_for_lookup-allowed_example : read_allowed platform root "/w/a" ≡ true
resolve_for_lookup-allowed_example = resolve_for_lookup-allowed platform root "a" looks_up

resolve_primary-within_example :
    (resolve_primary_existing platform (apply_read_grant plan root) "a"
      ≡ resolve_primary_existing platform root "a")
    × ((path : String)
        → resolve_primary_existing platform root "a" ≡ ok path
        → within platform "/w" path ≡ true)
unfolding apply_read_grant insert
resolve_primary-within_example =
    resolve_primary-within platform root "a" (("rg_1", plan.candidate) ∷ [])

-- The paths /w, /w/a and /w/b are absolute.
abbrev tree : Platform
tree = record platform {
  is_abs = λ s. s == "/w" || s == "/w/a" || s == "/w/b";
  abs = λ s. if s == "/w" || s == "/w/a" || s == "/w/b" then some s else some "/w";
}

some_eq : {x y : String} → Path (Option String) (some x) (some y) → x ≡ y
some_eq h = ground (arith, h)

paths : Paths tree
paths = record {
  dir_rooted =
      λ path r. elim (Bool-cases (path == "/w/b")) [ inl e ↦ rw e (refl, refl) | inr e ↦ rw e r ];
  dir_shortens = λ path r. elim (Bool-cases (path == "/w/b")) [
    | inl e ↦
        inr (subst (λ x. len (tree.dir x) < len x) (sym ((eq_iff path "/w/b").0 e)) (omega arith))
    | inr e ↦ inl (ground (arith, e))
  ];
  join_rooted = λ a b h. elim (Bool-cases (b == "a")) [
    | inl e ↦ rw e (refl, refl)
    | inr e ↦ elim (Bool-cases (b == "b")) [
      | inl e' ↦ rw (e, e') (refl, refl)
      | inr e' ↦ rw (e, e') (h, refl)
    ]
  ];
  abs_rooted = λ path {full} h. elim (Bool-cases (tree.is_abs path)) [
    | inl e ↦ (subst (λ x. tree.is_abs x ≡ true) (some_eq (rw e at h)) e, refl)
    | inr e ↦ (subst (λ x. tree.is_abs x ≡ true) (some_eq (rw e at h)) refl, refl)
  ];
}

lookup_terminates_example :
    (resolve_for_lookup tree root "b" ≢ err exhausted)
    × (real_path_allow_missing tree "b" ≢ err exhausted)
lookup_terminates_example = lookup_terminates tree root "b" paths refl
