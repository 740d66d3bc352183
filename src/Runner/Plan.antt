-- ===== src/Runner/Plan.antt =====
-- The checks of Execute (internal/runner/execute.go) that a prepared plan still holds.
use repo_plane.Base.{
  String, Bool, true, false, not, ◌&&◌, ◌||◌, Option, none, some, List, [], ◌∷◌, ◌==◌, ◌!=◌,
  String_eq, if◌then◌else◌, Result, ok, err, reject, ◌>>=◌, ◌>>◌,
}
use repo_plane.Catalog.{Capability, Execution}
use repo_plane.Runner.{RunPayload}
use repo_plane.Runner.Host.{Host}
use repo_plane.Runner.Machine.{RunError, plan_stale}

abbrev same_strings : String × String → String × String → Bool
same_strings a b = a.0 == b.0 && a.1 == b.1

-- reflect.DeepEqual of two maps, whose entries stand in the order of their keys.
unfoldable pub same_hashes : List (String × String) → List (String × String) → Bool
same_hashes [] [] = true
same_hashes (a ∷ left) (b ∷ right) = same_strings a b && same_hashes left right
same_hashes _ _ = false

trusted_execution : Option Execution → Option Execution
trusted_execution none = none
trusted_execution (some e) = if e.trusted_for_run then some e else none

-- The declaration is still the one that was prepared, and may be run.
unfoldable pub current_execution : Capability → RunPayload → Option Execution
unfolding trusted_execution
current_execution capability payload =
    if capability.revision != payload.capability_revision
      || capability.execution_fingerprint != payload.execution_fingerprint
    then none
    else trusted_execution capability.manifest.execution

abbrev pub stale : {A : Type 0} → Option A → Result RunError A
stale none = err plan_stale
stale (some a) = ok a

-- The declaration, the executable, the inputs and the directory are the ones that were prepared. The
-- answer is the capability, the path of the executable and the directory.
unfoldable pub check_plan : Host → RunPayload → Result RunError (Capability × String × String)
check_plan h payload = do
  capability ← h.resolve_capability payload.capability_id
  execution ← stale (current_execution capability payload)
  executable ← stale (h.resolve_executable payload.executable_ref)
  reject (executable.1 != payload.executable_identity) plan_stale
  inputs ← stale (h.snapshot_patterns capability.manifest.inputs)
  reject (not (same_hashes inputs payload.input_hashes)) plan_stale
  cwd ← stale (h.resolve_cwd execution.cwd)
  reject (cwd.1 != payload.cwd) plan_stale
  ok (capability, executable.0, cwd.0)
