-- ===== src/Runner/Reuse.antt =====
-- The reuse of a run in internal/runner/cache.go: prepareCache, makeCacheKey, verifyCacheOutputs,
-- executeCacheHit and recordReusedArtifacts. What these ask of other parts is Reuser: HMAC-SHA256, the
-- qualifications of the record service, the preflight checks, and the files that are copied.
pub mod Prepare
pub mod Apply
use text.Mathlib.Text.{starts_with}
use Prim.Native.String.{◌++◌ as join}
use repo_plane.Base.{
  ℕ, String, Bool, true, false, not, ◌&&◌, ◌||◌, Option, none, some, List, [], ◌∷◌, ◌++◌, all, any,
  find, filter, map, ltb, ◌==◌, ◌!=◌, String_eq, ℕ_eq, if◌then◌else◌, length, trim_prefix, Result,
  ok, err,
}
use repo_plane.Base.Int.{pos}
use repo_plane.Catalog.{Capability, Manifest, Cache, Execution, PreflightCheck}
use repo_plane.Store.{Record, StoreError, not_found, conflict, failed}
use repo_plane.Store.Records.Write.{create_observation}
use repo_plane.Store.Cache.{CacheOutput, CacheEntry, get_cache_entry, mark_cache_hit, quarantine}
use repo_plane.Store.Archive.Order.{text_le, sort_by}
use repo_plane.Runner.{RunPayload, CacheDecision, PreflightResult, ArtifactPayload}
use repo_plane.Runner.Files.{Opened, hash_file}
use repo_plane.Runner.Host.{Host}
use repo_plane.Runner.Machine.{
  RunError, platform, plan_stale, store, Machine, Act, ◌>>=◌, ◌>>◌, pure, raise, reject,
  from_option, stored, cached, attempt, ignored, now,
}
use repo_plane.Runner.Receipt.{update_run}
use repo_plane.Runner.Artifacts.{record_id, artifact_record}
use repo_plane.Runner.Plan.{stale}
use repo_plane.Runner.Execute.{ExecuteResponse, from_result}

pub record Reuser : Type 0 where
  -- the host has not refused the reuse of runs
  pub approved : Bool
  pub key_bytes : ℕ
  -- HMAC-SHA256 in hexadecimal, of values each behind its length
  pub mac : List String → String
  pub decimal : ℕ → String
  -- validateIsolatedRoot
  pub isolated : Manifest → Bool
  pub has_qualifications : Bool
  -- ResolveCacheQualifications: the references, and whether they are current
  pub qualify : String → String → List String → Option (List String × Bool)
  -- an absolute path, or one that leaves the workspace
  pub is_outside : String → Bool
  pub blob : String → Opened
  pub digest : List ℕ → String
  pub artifact_byte_limit : ℕ
  -- runPreflightCheckAt
  pub run_check : PreflightCheck → String → PreflightResult
  -- the outputs are copied, or the isolated root is replaced by them
  pub materializes : Manifest → List CacheOutput → Bool

abbrev pub executable_id : String
executable_id = "runner.executable"

-- The last check of a name, as a Go map keeps it.
unfoldable pub by_id : String → List PreflightResult → Option PreflightResult
by_id id [] = none
by_id id (c ∷ cs) =
    let later = by_id id cs in
    elim later [ none ↦ (if c.id == id then some c else none) | some x ↦ some x ]

abbrev pub identity_of : Option PreflightResult → String
identity_of none = ""
identity_of (some c) = c.identity

abbrev passed_identity : Option PreflightResult → String
passed_identity none = ""
passed_identity (some c) = if c.status == "passed" then c.identity else ""

-- `m[key] = value`
abbrev pub assign : String → String → List (String × String) → List (String × String)
assign key value m = (key, value) ∷ filter (λ p. not (p.0 == key)) m

-- The identities of the checks of the key, and whether all of them were there.
unfoldable pub key_identities :
    List PreflightResult → List String → List (String × String) → Bool × List (String × String)
key_identities checks [] found = (true, found)
key_identities checks (id ∷ ids) found =
    let identity = passed_identity (by_id id checks) in
    let rest = key_identities checks ids (assign id identity found) in
    if identity == "" then (false, found) else rest

abbrev by_name : String × String → String × String → Bool
by_name a b = text_le a.0 b.0

-- The values of a map behind their keys, in the order of the keys.
pairs_of : List (String × String) → List String
pairs_of [] = []
pairs_of ((key, value) ∷ rest) = key ∷ value ∷ pairs_of rest

abbrev pub policy_of : String → String
policy_of policy = if policy == "" then "disabled" else policy

abbrev pub start_decision : String → String → CacheDecision
start_decision policy mode = record {
  policy = policy;
  mode = mode;
  status = "rejected";
  eligible = false;
  reason = "policy_disabled";
  key = "";
  source_run_ref = "";
  qualification_refs = [];
}

-- The two fields that most decisions set.
abbrev pub decide : String → String → CacheDecision → CacheDecision
decide status reason d = record d { status = status; reason = reason }

abbrev pub because : String → CacheDecision → CacheDecision
because reason d = record d { reason = reason }

-- A request's part that the key is made of.
pub record Request : Type 0 where
  pub configuration : String
  pub cache_mode : String
  pub argv : List String
  pub inputs : List (String × String)
  pub checks : List PreflightResult

unfoldable pub equal_lists : List String → List String → Bool
equal_lists [] [] = true
equal_lists (a ∷ left) (b ∷ right) = a == b && equal_lists left right
equal_lists _ _ = false

module _ (r : Reuser) (h : Host) where
  key_values :
      Capability
      → Cache
      → String
      → List String
      → List (String × String)
      → List (String × String)
      → List String
  unfolding pairs_of
  key_values c cache configuration argv inputs checks =
      ("repoplane-cache-key.v1"
        ∷ r.decimal cache.contract_revision
        ∷ cache.output_contract
        ∷ c.manifest.id
        ∷ c.revision
        ∷ c.source_ref
        ∷ c.execution_fingerprint
        ∷ configuration
        ∷ [])
      ++ argv
      ++ pairs_of (sort_by by_name inputs)
      ++ pairs_of (sort_by by_name checks)

  unfoldable pub make_cache_key :
      Capability
      → Option Cache
      → String
      → List String
      → List (String × String)
      → List (String × String)
      → Option String
  unfolding key_values
  make_cache_key c none configuration argv inputs checks = none
  make_cache_key c (some cache) configuration argv inputs checks =
      if r.key_bytes != 32
      then none
      else some (join "hmac-sha256:" (r.mac (key_values c cache configuration argv inputs checks)))

  is_kept : CacheOutput → Bool
  is_kept o =
      elim (hash_file r.digest (r.blob (trim_prefix o.content_hash "sha256:"))
        r.artifact_byte_limit) [ err e ↦ false | ok identity ↦ identity == o.content_hash ]

  -- verifyCacheOutputs gives no error.
  unfoldable pub verify_cache_outputs : List CacheOutput → Bool
  unfolding is_kept
  verify_cache_outputs outputs =
      not (length outputs == 0 || ltb 256 (length outputs))
      && all (λ o. not (r.is_outside o.path) && starts_with o.content_hash "sha256:" && is_kept o)
          outputs
