-- ===== src/Workspace.antt =====
-- internal/workspace/root.go: the trust boundary of a workspace. The calls of path/filepath, os,
-- strings and crypto are a parameter, one `Platform` for the state of the file system in which an
-- operation runs; `none` is an error of the call. Open is not modelled.
pub mod Boundary
pub mod Grants
pub mod Examples
use text.Mathlib.Text.{starts_with}
use Prim.Native.String.{◌++◌ as join}
use repo_plane.Base.{
  ℕ, zero, suc, ◌+◌, String, len, ◌≡◌, refl, ◌⊎◌, inl, inr, Bool, true, false, not, ◌&&◌, ◌||◌,
  Option, none, some, List, [], ◌∷◌, ◌==◌, ◌!=◌, String_eq, if◌then◌else◌, any, insert, delete,
  Result, ok, err, reject, ◌>>=◌, ◌>>◌,
}

-- `failed` is an error of a platform call, `exhausted` is the fuel of the model.
pub data WorkspaceError : Type 0 where
  escape absolute path_required failed exhausted : WorkspaceError

pub data Presence : Type 0 where
  present absent unreadable : Presence

pub Presence-cases : (x : Presence) → (x ≡ present) ⊎ ((x ≡ absent) ⊎ (x ≡ unreadable))
Presence-cases present = inl refl
Presence-cases absent = inr (inl refl)
Presence-cases unreadable = inr (inr refl)

pub record Platform : Type 0 where
  pub windows : Bool
  pub separator : String
  pub clean : String → String
  pub is_abs : String → Bool
  pub join_path : String → String → String
  pub dir : String → String
  pub base : String → String
  pub to_slash : String → String
  pub from_slash : String → String
  pub rel : String → String → Option String
  pub abs : String → Option String
  pub real_path : String → Option String
  pub lstat : String → Presence
  pub stat_is_dir : String → Option Bool
  pub equal_fold : String → String → Bool
  pub trim_space : String → String
  pub to_lower : String → String
  -- base64 of the first 18 bytes of the SHA-256 digest
  pub digest : String → String

pub record ReadTarget : Type 0 where
  pub resolved : String
  pub directory : Bool

pub record ReadGrant : Type 0 where
  pub id : String
  pub path : String

pub record ReadGrantPlan : Type 0 where
  pub grant : ReadGrant
  pub candidate : ReadTarget

pub record Root : Type 0 where
  pub id : String
  pub lexical : String
  pub resolved : String
  pub grants : List (String × ReadTarget)

abbrev os {ℓ} : {A : Type ℓ} → Option A → Result WorkspaceError A
os none = err failed
os (some a) = ok a

module _ (p : Platform) where
  is_inside : Option String → Bool
  is_inside none = false
  is_inside (some r) = r != ".." && not (starts_with r (join ".." p.separator)) && not (p.is_abs r)

  unfoldable pub within : String → String → Bool
  unfolding is_inside
  within root candidate = is_inside (p.rel root candidate)

  unfoldable pub same_path : String → String → Bool
  same_path left right =
      if p.windows
      then p.equal_fold (p.clean left) (p.clean right)
      else p.clean left == p.clean right

  unfoldable pub covers : ReadTarget → String → Bool
  covers g candidate =
      not g.directory && same_path g.resolved candidate
      || g.directory && within g.resolved candidate

  unfoldable pub read_allowed : Root → String → Bool
  read_allowed r candidate =
      within r.resolved candidate || any (λ entry. covers entry.1 candidate) r.grants

  -- realPath, then filepath.Abs, then filepath.Clean
  unfoldable pub resolve : String → Result WorkspaceError String
  resolve path = do real ← os (p.real_path path); full ← os (p.abs real); ok (p.clean full)

  unfoldable pub resolve_existing : Root → String → Result WorkspaceError String
  resolve_existing r relative = do
    reject (p.is_abs relative) absolute
    resolved ← resolve (p.join_path r.lexical (p.clean relative))
    reject (not (read_allowed r resolved)) escape
    ok resolved

  unfoldable pub resolve_primary_existing : Root → String → Result WorkspaceError String
  resolve_primary_existing r relative = do
    reject (p.is_abs relative) absolute
    reject (not (within r.lexical (p.join_path r.lexical (p.clean relative)))) escape
    resolved ← resolve (p.join_path r.lexical (p.clean relative))
    reject (not (within r.resolved resolved)) escape
    ok resolved

  -- The loop from a path up to its nearest existing ancestor, with the names below that ancestor, the
  -- highest first: the source appends each name and joins them from the last one back. `top` is the
  -- error of a path without such an ancestor.
  unfoldable pub existing_parent :
      ℕ → WorkspaceError → String → List String → Result WorkspaceError (String × List String)
  existing_parent zero top parent missing = err exhausted
  existing_parent (suc fuel) top parent missing =
      let rest = existing_parent fuel top (p.dir parent) (p.base parent ∷ missing) in
      elim (p.lstat parent) [
        | present ↦ ok (parent, missing)
        | absent ↦ if p.dir parent == parent then err top else rest
        | unreadable ↦ err failed
      ]

  unfoldable pub join_all : String → List String → String
  join_all path [] = path
  join_all path (name ∷ names) = join_all (p.join_path path name) names

  unfoldable pub resolve_missing : Root → String → Result WorkspaceError (String × Bool)
  resolve_missing r lexical = do
    found ← existing_parent (suc (len lexical)) escape lexical []
    parent ← os (p.real_path found.0)
    reject (not (read_allowed r parent)) escape
    reject (not (read_allowed r (p.clean (join_all parent found.1)))) escape
    ok (p.clean (join_all parent found.1), false)

  unfoldable pub resolve_for_lookup : Root → String → Result WorkspaceError (String × Bool)
  resolve_for_lookup r relative = do
    reject (p.is_abs relative) absolute
    elim (p.lstat (p.join_path r.lexical (p.clean relative))) [
      | present ↦ (resolve_existing r relative >>= λ resolved. ok (resolved, true))
      | absent ↦ resolve_missing r (p.join_path r.lexical (p.clean relative))
      | unreadable ↦ err failed
    ]

  unfoldable pub real_path_allow_missing : String → Result WorkspaceError String
  real_path_allow_missing path = do
    full ← os (p.abs path)
    found ← existing_parent (suc (len full)) failed full []
    resolved ← os (p.real_path found.0)
    ok (p.clean (join_all resolved found.1))

  unfoldable pub grant_identity : String → String
  grant_identity resolved =
      let canonical = if p.windows then p.to_lower (p.clean resolved) else p.clean resolved in
      join "rg_" (p.digest (join "repoplane-read-grant-v1\0" canonical))

  unfoldable pub read_grant_candidate : Root → String → Result WorkspaceError ReadGrantPlan
  read_grant_candidate r relative = do
    reject (p.is_abs relative) absolute
    reject (p.clean relative == "." || p.trim_space relative == "") path_required
    resolved ← resolve (p.join_path r.lexical (p.clean relative))
    directory ← os (p.stat_is_dir resolved)
    ok (record {
      grant = record { id = grant_identity resolved; path = p.to_slash (p.clean relative) };
      candidate = record { resolved = resolved; directory = directory };
    })

  abbrev pub prepare_read_grant : Root → String → Result WorkspaceError ReadGrantPlan
  prepare_read_grant r relative = read_grant_candidate r relative

unfoldable pub apply_read_grant : ReadGrantPlan → Root → Root
apply_read_grant plan r = record r { grants = insert plan.grant.id plan.candidate r.grants }

unfoldable pub revoke_read : String → Root → Root
revoke_read id r = record r { grants = delete id r.grants }

-- GrantRead and ValidateReadGrant.
unfoldable pub grant_read : Platform → String → Root → Result WorkspaceError ReadGrant × Root
grant_read p relative r = elim (prepare_read_grant p r relative) [
  | err e ↦ (err e, r)
  | ok plan ↦ (ok plan.grant, apply_read_grant plan r)
]
