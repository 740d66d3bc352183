-- ===== src/Workspace/Grants.antt =====
-- How applying and revoking a read grant change what may be read (internal/workspace/root.go).
use repo_plane.Base.{
  String, ◌≡◌, refl, Bool, true, ◌||◌, List, [], ◌∷◌, arith, String_eq, eq_iff, eq_refl, any,
  insert, delete, lookup, none,
}
use repo_plane.Workspace.{
  Platform, Root, ReadTarget, ReadGrantPlan, covers, read_allowed, apply_read_grant, revoke_read,
}

module _ (f : (String × ReadTarget) → Bool) where
  any-insert_sound :
      (k : String) (v : ReadTarget) (m : List (String × ReadTarget))
      → any f (insert k v m) ≡ true
      → (f (k, v) || any f m) ≡ true
  unfolding insert
  any-insert_sound k v [] h = ground (arith, h)
  any-insert_sound k v ((j, w) ∷ m) h = ground (arith, h, any-insert_sound k v m)

  any-insert-new :
      (k : String) (v : ReadTarget) (m : List (String × ReadTarget))
      → f (k, v) ≡ true
      → any f (insert k v m) ≡ true
  unfolding insert
  any-insert-new k v [] h = ground (arith, h)
  any-insert-new k v ((j, w) ∷ m) h = ground (arith, h, any-insert-new k v m)

  any-delete_sound :
      (k : String) (m : List (String × ReadTarget)) → any f (delete k m) ≡ true → any f m ≡ true
  unfolding delete
  any-delete_sound k [] h = ground (arith, h)
  any-delete_sound k ((j, w) ∷ m) h = ground (arith, h, any-delete_sound k m)

delete-insert :
    (k : String) (v : ReadTarget) (m : List (String × ReadTarget))
    → delete k (insert k v m) ≡ delete k m
unfolding delete insert
delete-insert k v [] = ground (arith, eq_refl k)
delete-insert k v ((j, w) ∷ m) = ground (arith, eq_iff j k, eq_refl k, delete-insert k v m)

delete-absent : (k : String) (m : List (String × ReadTarget)) → lookup k m ≡ none → delete k m ≡ m
unfolding delete lookup
delete-absent k [] h = refl
delete-absent k ((j, w) ∷ m) h = ground (arith, h, delete-absent k m)

-- Applying a grant allows every path that its captured target covers, and no path beyond that target
-- and what was allowed before.
pub apply_read_grant-extent :
    (p : Platform) (plan : ReadGrantPlan) (r : Root) (path : String)
    → (covers p plan.candidate path ≡ true → read_allowed p (apply_read_grant plan r) path ≡ true)
      × (read_allowed p (apply_read_grant plan r) path ≡ true
          → (covers p plan.candidate path || read_allowed p r path) ≡ true)
unfolding read_allowed apply_read_grant
apply_read_grant-extent p plan r path =
    let f = λ (entry : String × ReadTarget). covers p entry.1 path in
    (
      λ h. ground (arith, any-insert-new f plan.grant.id plan.candidate r.grants h),
      λ h. ground (arith, h, any-insert_sound f plan.grant.id plan.candidate r.grants),
    )

pub revoke_read-shrinks :
    (p : Platform) (id : String) (r : Root) (path : String)
    → read_allowed p (revoke_read id r) path ≡ true
    → read_allowed p r path ≡ true
unfolding read_allowed revoke_read
revoke_read-shrinks p id r path h =
    ground (arith, h, any-delete_sound (λ entry. covers p entry.1 path) id r.grants)

-- Revoking a grant just applied restores the boundary exactly, when its id was not in use before.
pub revoke_read-restores :
    (plan : ReadGrantPlan) (r : Root)
    → lookup plan.grant.id r.grants ≡ none
    → revoke_read plan.grant.id (apply_read_grant plan r) ≡ r
unfolding apply_read_grant revoke_read
revoke_read-restores plan r fresh = ground (
  arith,
  delete-insert plan.grant.id plan.candidate r.grants,
  delete-absent plan.grant.id r.grants fresh,
)
