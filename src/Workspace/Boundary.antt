-- ===== src/Workspace/Boundary.antt =====
-- What the resolving functions of internal/workspace/root.go return, and their walk up to an existing
-- ancestor.
use repo_plane.Base.{
  ℕ, zero, suc, ◌<◌, String, len, ◌≡◌, ◌≢◌, refl, ◌⊎◌, inl, inr, Bool, true, List, [], ◌∷◌, arith,
  some, ◌==◌, String_eq, eq_iff, ok, err, Result-cases, Option-cases, Bool-cases,
}
use repo_plane.Workspace.{
  Platform, Presence-cases, Root, ReadTarget, WorkspaceError, escape, failed, exhausted, within,
  read_allowed, resolve, resolve_existing, resolve_primary_existing, existing_parent,
  resolve_missing, resolve_for_lookup, real_path_allow_missing,
}

-- A path that `ResolveExisting` returns is allowed for reading: it is within the workspace or covered
-- by a read grant.
pub resolve_existing-allowed :
    (p : Platform) (r : Root) (relative : String) {path : String}
    → resolve_existing p r relative ≡ ok path
    → read_allowed p r path ≡ true
unfolding resolve_existing
resolve_existing-allowed p r relative h = ground (arith, h)

resolve_missing-allowed :
    (p : Platform) (r : Root) (lexical : String) {found : String × Bool}
    → resolve_missing p r lexical ≡ ok found
    → read_allowed p r found.0 ≡ true
unfolding resolve_missing
resolve_missing-allowed p r lexical h = ground (arith, h)

-- A path that `ResolveForLookup` returns, of an existing file or not, is allowed for reading.
pub resolve_for_lookup-allowed :
    (p : Platform) (r : Root) (relative : String) {found : String × Bool}
    → resolve_for_lookup p r relative ≡ ok found
    → read_allowed p r found.0 ≡ true
unfolding resolve_for_lookup
resolve_for_lookup-allowed p r relative h =
    let path = p.join_path r.lexical (p.clean relative) in
    elim (Presence-cases (p.lstat path)) [
      | inl e ↦ elim (Result-cases (resolve_existing p r relative)) [
        | inl bad ↦ ground (arith, e, h, bad.1)
        | inr good ↦ ground (arith, e, h, good.1, resolve_existing-allowed p r relative good.1)
      ]
      | inr (inl e) ↦ elim (Result-cases (resolve_missing p r path)) [
        | inl bad ↦ ground (arith, e, h, bad.1)
        | inr good ↦ ground (arith, e, h, good.1, resolve_missing-allowed p r path good.1)
      ]
      | inr (inr e) ↦ ground (arith, e, h)
    ]

-- A path that `ResolvePrimaryExisting` returns is within the workspace itself, and the read grants have
-- no part in the answer: with other grants it is the same.
pub resolve_primary-within :
    (p : Platform) (r : Root) (relative : String) (grants : List (String × ReadTarget))
    → (resolve_primary_existing p (record r { grants = grants }) relative
        ≡ resolve_primary_existing p r relative)
      × ((path : String)
          → resolve_primary_existing p r relative ≡ ok path
          → within p r.resolved path ≡ true)
unfolding resolve_primary_existing
resolve_primary-within p r relative grants = (refl, λ path h. ground (arith, h))

-- An absolute path that filepath.Clean leaves as it is.
abbrev pub IsRooted : Platform → String → Type 0
IsRooted p path = (p.is_abs path ≡ true) × (p.clean path ≡ path)

-- What filepath.Dir does on such a path, where it gives one that is shorter, or the path itself at the
-- top, and that filepath.Join (from an absolute path) and filepath.Abs give such paths.
pub record Paths (p : Platform) : Type 0 where
  pub dir_rooted : (path : String) → IsRooted p path → IsRooted p (p.dir path)
  pub dir_shortens :
      (path : String) → IsRooted p path → (p.dir path ≡ path) ⊎ (len (p.dir path) < len path)
  pub join_rooted : (a b : String) → p.is_abs a ≡ true → IsRooted p (p.join_path a b)
  pub abs_rooted : (path : String) {full : String} → p.abs path ≡ some full → IsRooted p full

existing_parent-total :
    (p : Platform) (fuel : ℕ) (top : WorkspaceError) (parent : String) (missing : List String)
    → Paths p
    → IsRooted p parent
    → top ≢ exhausted
    → len parent < fuel
    → existing_parent p fuel top parent missing ≢ err exhausted
unfolding existing_parent
existing_parent-total p zero top parent missing s r t h = ground arith
existing_parent-total p (suc fuel) top parent missing s r t h =
    let rest =
      existing_parent-total p fuel top (p.dir parent) (p.base parent ∷ missing) s
        (s.dir_rooted parent r) t in
    elim (Presence-cases (p.lstat parent)) [
      | inl e ↦ ground (arith, e)
      | inr (inl e) ↦ elim (s.dir_shortens parent r) [
        | inl same ↦ ground (arith, e, same, eq_iff (p.dir parent) parent)
        | inr less ↦ elim (Bool-cases (p.dir parent == parent)) [
          | inl same ↦ ground (arith, e, same)
          | inr other ↦ ground (arith, e, other, rest (omega arith))
        ]
      ]
      | inr (inr e) ↦ ground (arith, e)
    ]

walk-total :
    (p : Platform) (top : WorkspaceError) (path : String)
    → Paths p
    → IsRooted p path
    → top ≢ exhausted
    → existing_parent p (suc (len path)) top path [] ≢ err exhausted
walk-total p top path s rooted t =
    existing_parent-total p (suc (len path)) top path [] s rooted t (omega arith)

lookup-total :
    (p : Platform) (r : Root) (relative : String)
    → Paths p
    → p.is_abs r.lexical ≡ true
    → resolve_for_lookup p r relative ≢ err exhausted
unfolding resolve_for_lookup resolve_missing resolve_existing resolve
lookup-total p r relative s absolute =
    let path = p.join_path r.lexical (p.clean relative) in
    elim (Presence-cases (p.lstat path)) [
      | inl e ↦ ground (arith, e)
      | inr (inl e) ↦ elim (Result-cases (existing_parent p (suc (len path)) escape path [])) [
        | inl bad ↦ ground (
          arith,
          e,
          bad.1,
          walk-total p escape path s (s.join_rooted r.lexical (p.clean relative) absolute)
              (ground arith),
        )
        | inr good ↦ ground (arith, e, good.1)
      ]
      | inr (inr e) ↦ ground (arith, e)
    ]

real_path-total :
    (p : Platform) (path : String) → Paths p → real_path_allow_missing p path ≢ err exhausted
unfolding real_path_allow_missing
real_path-total p path s = elim (Option-cases (p.abs path)) [
  | inl e ↦ ground (arith, e)
  | inr (full, e) ↦ elim (Result-cases (existing_parent p (suc (len full)) failed full [])) [
    | inl bad ↦
        ground (arith, e, bad.1, walk-total p failed full s (s.abs_rooted path e) (ground arith))
    | inr good ↦ ground (arith, e, good.1)
  ]
]

-- The walk to an existing ancestor ends for every path, so neither `ResolveForLookup` nor
-- `RealPathAllowMissing` runs out of the fuel, when the root is an absolute path, filepath.Dir shortens
-- an absolute clean path until the top, and filepath.Join and filepath.Abs give such paths.
pub lookup_terminates :
    (p : Platform) (r : Root) (path : String)
    → Paths p
    → p.is_abs r.lexical ≡ true
    → (resolve_for_lookup p r path ≢ err exhausted)
      × (real_path_allow_missing p path ≢ err exhausted)
lookup_terminates p r path s absolute = (lookup-total p r path s absolute, real_path-total p path s)
