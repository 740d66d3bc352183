-- ===== src/Runtime/Examples.antt =====
-- A session in which a capability is asked for and approved, and two configuration requests.
use repo_plane.Base.{
  ◌≤◌, String, len, ◌≡◌, ◌≢◌, refl, ◌⊎◌, true, false, none, some, List, [], ◌∷◌, String_eq, lookup,
  insert, delete, length, any, ltb, ok, err, arith,
}
use repo_plane.Workspace.{Root, ReadGrantPlan, read_allowed, covers, within}
use repo_plane.Workspace.Examples.{platform, root}
use repo_plane.Runtime.Access.{
  Service, Initial, Pending, asks, answers, revokes, rebinds, is_enabled, is_fixed, new, step, run,
  no_pending, complete, complete_item, apply_pending,
}
use repo_plane.Runtime.Access.Authority.{Approved, step-enabled, step-reads}
use repo_plane.Runtime.Access.Queue.{IsValid, complete_once, session-IsValid}
use repo_plane.Runtime.Config.{Request}
use repo_plane.Runtime.Config as Config
use repo_plane.Runtime.Config.Accepts.{validate-bounds}

abbrev initial : Initial
initial = record { intent_write = true; report_import = false; runner = false; cache = false }

abbrev waiting : Pending
waiting = record { kind = "cache_reuse"; path = "."; read_plan = none; expires_at = 100 }

-- A service in which one proposal waits.
abbrev service : Service
service = record {
  root = root;
  allowed = true;
  fixed = ("intent_write", true) ∷ [];
  enabled = ("intent_write", true) ∷ [];
  grants = [];
  pending = ("t", waiting) ∷ [];
}

turned_on : is_enabled "cache_reuse" (step platform 7 (answers "t" true) service) ≡ true
unfolding step complete complete_item apply_pending is_enabled lookup insert delete
turned_on = refl

step-enabled_example :
    (is_enabled "cache_reuse" service ≡ true)
    ⊎ ((is_fixed "cache_reuse" service ≡ true)
        ⊎ ((item : Pending) × (Approved 7 (answers "t" true) service item
              × (item.kind ≡ "cache_reuse"))))
step-enabled_example = step-enabled platform 7 (answers "t" true) service "cache_reuse" turned_on

readable : read_allowed platform (step platform 7 (answers "t" true) service).root "/w/a" ≡ true
unfolding step complete complete_item apply_pending lookup delete read_allowed within
readable = refl

answers-rebinds : (other : Root) → answers "t" true ≢ rebinds other
answers-rebinds other = λ e. ground (arith, e)

step-reads_example :
    (read_allowed platform root "/w/a" ≡ true)
    ⊎ ((item : Pending) × (Approved 7 (answers "t" true) service item
          × ((plan : ReadGrantPlan) × ((item.read_plan ≡ some plan)
                × (covers platform plan.candidate "/w/a" ≡ true)))))
step-reads_example =
    step-reads platform 7 (answers "t" true) service "/w/a" answers-rebinds readable

complete_once_example :
    (lookup "t" (complete 7 "t" false service).1.pending ≡ none)
    × ((complete 8 "t" true (complete 7 "t" false service).1).0 ≡ err no_pending)
complete_once_example = complete_once 7 8 "t" false true service refl

session-IsValid_example : IsValid (
    run platform
      ((1, asks (some "x") "cache_reuse" ".")
        ∷ (2, answers "approval_x" true)
        ∷ (3, revokes "runtime_cache_reuse")
        ∷ [])
      (new root true initial))
session-IsValid_example = session-IsValid platform root true initial (
    (1, asks (some "x") "cache_reuse" ".")
    ∷ (2, answers "approval_x" true)
    ∷ (3, revokes "runtime_cache_reuse")
    ∷ [])

abbrev request : Request
request = record { action = "select"; target = "workspace"; values = some ("/w" ∷ []) }

abbrev value_list : List String
value_list = "/w" ∷ []

abbrev clearing : Request
clearing = record { action = "replace"; target = "rule_file"; values = some [] }

valid : Config.validate (λ s. s) request ≡ ok tt
unfolding Config.validate Config.validate_target Config.validate_source Config.is_one_value
valid = refl

clears : Config.validate (λ s. s) clearing ≡ ok tt
unfolding Config.validate Config.validate_target Config.validate_source Config.is_one_value
clears = refl

validate-bounds_example :
    (length value_list ≤ 64) × (any (λ v. ltb 4096 (len v)) value_list ≡ false)
validate-bounds_example = validate-bounds (λ s. s) request valid
