-- ===== src/Runtime/Access.antt =====
-- internal/runtimeaccess/service.go: the grants that a user approves for one server process. An
-- operation is one step of the model, though the source holds the mutex over parts of it only: Begin
-- prepares its plan before, Complete applies the grant after it has taken the token, Revoke calls
-- RevokeRead at its end. The time is an argument in nanoseconds, and so is the random token; the prompt
-- that Begin returns beside its token is not modelled.
pub mod Authority
pub mod Queue
use Prim.Native.String.{◌++◌ as join}
use repo_plane.Base.{
  ℕ, ◌+◌, ◌*◌, String, len, Bool, true, false, not, ◌&&◌, ◌||◌, Option, none, some, List, [], ◌∷◌,
  ltb, leb, ◌==◌, ◌!=◌, String_eq, if◌then◌else◌, length, filter, find, map, lookup, insert, delete,
  Result, ok, err, reject, ◌>>=◌, ◌>>◌,
}
use repo_plane.Store.Archive.Order.{text_le, sort_by}
use repo_plane.Workspace.{
  Platform, Root, ReadGrantPlan, WorkspaceError, prepare_read_grant, apply_read_grant, revoke_read,
}

-- `failed` is an error of a call, or the full queue.
pub data AccessError : Type 0 where
  disabled declined invalid no_pending failed : AccessError

pub record Initial : Type 0 where
  pub intent_write : Bool
  pub report_import : Bool
  pub runner : Bool
  pub cache : Bool

pub record Grant : Type 0 where
  pub id : String
  pub kind : String
  pub path : String
  pub revocable : Bool

pub record Pending : Type 0 where
  pub kind : String
  pub path : String
  pub read_plan : Option ReadGrantPlan
  pub expires_at : ℕ

pub record Service : Type 0 where
  pub root : Root
  pub allowed : Bool
  pub fixed : List (String × Bool)
  pub enabled : List (String × Bool)
  pub grants : List (String × Grant)
  pub pending : List (String × Pending)

abbrev pub pending_ttl : ℕ
pending_ttl = 300 * 1000000000

abbrev pub max_pending : ℕ
max_pending = 64

-- A missing key of a map[string]bool reads as false.
abbrev pub flag : Option Bool → Bool
flag none = false
flag (some b) = b

abbrev host_grant : String × Bool → List (String × Grant) → List (String × Grant)
host_grant (kind, true) gs =
    insert (join "host_" kind)
      (record { id = join "host_" kind; kind = kind; path = ""; revocable = false }) gs
host_grant (kind, false) gs = gs

abbrev host_grants : List (String × Bool) → List (String × Grant)
host_grants [] = []
host_grants (f ∷ fs) = host_grant f (host_grants fs)

unfoldable pub new : Root → Bool → Initial → Service
new root allowed initial =
    let fixed =
      ("intent_write", initial.intent_write)
      ∷ ("report_import", initial.report_import)
      ∷ ("runner_execute", initial.runner)
      ∷ ("cache_reuse", initial.cache)
      ∷ [] in
    record {
      root = root;
      allowed = allowed;
      fixed = fixed;
      enabled = fixed;
      grants = host_grants fixed;
      pending = [];
    }

unfoldable pub is_enabled : String → Service → Bool
is_enabled kind s = flag (lookup kind s.enabled)

unfoldable pub is_fixed : String → Service → Bool
is_fixed kind s = flag (lookup kind s.fixed)

unfoldable pub sorted_grants : Service → List Grant
sorted_grants s = sort_by (λ a b. text_le a.id b.id) (map (λ entry. entry.1) s.grants)

abbrev is_capability : String → Bool
is_capability kind =
    kind == "intent_write"
    || kind == "report_import"
    || kind == "runner_execute"
    || kind == "cache_reuse"

module _ (p : Platform) where
  unfoldable pub validate : String → String → Result AccessError (Unit {0})
  validate kind path =
      if kind == "read_path"
      then reject (path == "" || path == "." || p.is_abs (p.from_slash path) || ltb 4096 (len path))
          invalid
      else if kind == "memory_export"
      then reject (path == "" || not (p.is_abs path) || ltb 4096 (len path)) invalid
      else if is_capability kind
      then reject (path != "." && p.trim_space path != "") invalid
      else err invalid

  resolved_export : Option String → Result AccessError String
  resolved_export none = err invalid
  resolved_export (some path) = ok path

  unfoldable pub proposed_path : String → String → Result AccessError String
  unfolding resolved_export
  proposed_path kind path =
      if kind == "memory_export"
      then (reject (not (p.is_abs path)) invalid >> resolved_export (p.real_path (p.clean path)))
      else ok (p.to_slash (p.clean (p.from_slash path)))

  planned : Result WorkspaceError ReadGrantPlan → Result AccessError (Option ReadGrantPlan)
  planned (ok plan) = ok (some plan)
  planned (err e) = err failed

  unfoldable pub read_plan : String → String → Service → Result AccessError (Option ReadGrantPlan)
  unfolding planned
  read_plan kind path s =
      if kind == "read_path"
      then planned (prepare_read_grant p s.root (p.from_slash path))
      else ok none

  unfoldable pub proposal :
      String → String → Service → Result AccessError (String × Option ReadGrantPlan)
  proposal kind path s = do
    reject (not s.allowed) disabled
    proposed ← proposed_path kind path
    validate kind proposed
    plan ← read_plan kind proposed s
    ok (proposed, plan)

  abbrev live : ℕ → List (String × Pending) → List (String × Pending)
  live now items = filter (λ entry. ltb now entry.1.expires_at) items

  begin_with :
      String
      → ℕ
      → String
      → Service
      → String × Option ReadGrantPlan
      → Result AccessError String × Service
  begin_with token now kind s proposed =
      let kept = live now s.pending in
      let item : Pending = record {
        kind = kind;
        path = proposed.0;
        read_plan = proposed.1;
        expires_at = now + pending_ttl;
      } in
      if leb max_pending (length kept)
      then (err failed, record s { pending = kept })
      else (ok token, record s { pending = insert token item kept })

  begin_drawn :
      Option String
      → ℕ
      → String
      → Service
      → String × Option ReadGrantPlan
      → Result AccessError String × Service
  unfolding begin_with
  begin_drawn none now kind s proposed = (err failed, s)
  begin_drawn (some drawn) now kind s proposed =
      begin_with (join "approval_" drawn) now kind s proposed

  begin_proposed :
      Option String
      → ℕ
      → String
      → Service
      → Result AccessError (String × Option ReadGrantPlan)
      → Result AccessError String × Service
  unfolding begin_drawn
  begin_proposed random now kind s (err e) = (err e, s)
  begin_proposed random now kind s (ok proposed) = begin_drawn random now kind s proposed

  unfoldable pub begin :
      Option String → ℕ → String → String → Service → Result AccessError String × Service
  unfolding begin_proposed
  begin random now kind path s = begin_proposed random now kind s (proposal kind path s)

unfoldable pub rebind_root : Root → Service → Service
rebind_root root s = record s {
  root = root;
  grants = filter (λ entry. entry.1.kind != "read_path") s.grants;
  pending = [];
}

add_grant : Grant → Service → Result AccessError (List Grant) × Service
add_grant g s =
    let after = record s { grants = insert g.id g s.grants } in (ok (sorted_grants after), after)

unfoldable pub apply_pending : Pending → Service → Result AccessError (List Grant) × Service
unfolding add_grant
apply_pending item s =
    if item.kind == "read_path"
    then (elim item.read_plan [
      | none ↦ (err no_pending, s)
      | some plan ↦
          add_grant
            (record {
              id = plan.grant.id;
              kind = item.kind;
              path = plan.grant.path;
              revocable = true;
            })
            (record s { root = apply_read_grant plan s.root })
    ])
    else if item.kind == "memory_export"
    then add_grant
        (record {
          id = join "runtime_" item.kind;
          kind = item.kind;
          path = item.path;
          revocable = true;
        })
        s
    else add_grant
        (record { id = join "runtime_" item.kind; kind = item.kind; path = ""; revocable = true })
        (record s { enabled = insert item.kind true s.enabled })

unfoldable pub complete_item :
    ℕ → Bool → Option Pending → Service → Result AccessError (List Grant) × Service
complete_item now accepted none s = (err no_pending, s)
complete_item now accepted (some item) s =
    if not (ltb now item.expires_at)
    then (err no_pending, s)
    else if not accepted
    then (err declined, s)
    else apply_pending item s

unfoldable pub complete : ℕ → String → Bool → Service → Result AccessError (List Grant) × Service
complete now token accepted s =
    if not s.allowed
    then (err disabled, s)
    else complete_item now accepted (lookup token s.pending)
        (record s { pending = delete token s.pending })

revoke_grant : String → Grant → Service → Service
revoke_grant id g s = record s {
  root = if g.kind == "read_path" then revoke_read id s.root else s.root;
  enabled =
      if g.kind != "read_path" && g.kind != "memory_export"
      then insert g.kind (is_fixed g.kind s) s.enabled
      else s.enabled;
  grants = delete id s.grants;
}

revoke_found : String → Option Grant → Service → Result AccessError (List Grant) × Service
revoke_found id none s = (err invalid, s)
revoke_found id (some g) s =
    let after = revoke_grant id g s in
    if not g.revocable then (err invalid, s) else (ok (sorted_grants after), after)

unfoldable pub revoke : String → Service → Result AccessError (List Grant) × Service
unfolding revoke_found revoke_grant
revoke id s = if not s.allowed then (err disabled, s) else revoke_found id (lookup id s.grants) s

-- `volume` is filepath.VolumeName.
module _ (p : Platform) (volume : String → String) where
  same_granted_path : String → String → Bool
  same_granted_path left right =
      if volume left != "" || volume right != ""
      then p.equal_fold (p.clean left) (p.clean right)
      else p.clean left == p.clean right

  granted_path : Option (String × Grant) → Option String
  granted_path none = none
  granted_path (some entry) = some entry.1.path

  approved_resolved : String → Service → Option String → Option String
  unfolding granted_path
  approved_resolved kind s none = none
  approved_resolved kind s (some resolved) =
      granted_path
        (find (λ entry. entry.1.kind == kind && same_granted_path entry.1.path resolved) s.grants)

  unfoldable pub approved_path : String → String → Service → Option String
  unfolding approved_resolved same_granted_path
  approved_path kind path s =
      if kind != "memory_export" || not (p.is_abs path)
      then none
      else approved_resolved kind s (p.real_path (p.clean path))

-- What the server does to the service. Begin carries the token drawn, if one could be drawn.
pub data Operation : Type 0 where
  asks : Option String → String → String → Operation
  answers : String → Bool → Operation
  revokes : String → Operation
  rebinds : Root → Operation

unfoldable pub step : Platform → ℕ → Operation → Service → Service
step p now (asks random kind path) s = (begin p random now kind path s).1
step p now (answers token accepted) s = (complete now token accepted s).1
step p now (revokes id) s = (revoke id s).1
step p now (rebinds root) s = rebind_root root s

-- The operations of a session, the first one first, each at its time.
unfoldable pub run : Platform → List (ℕ × Operation) → Service → Service
run p [] s = s
run p ((now, o) ∷ os) s = run p os (step p now o s)
