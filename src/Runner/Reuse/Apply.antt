-- ===== src/Runner/Reuse/Apply.antt =====
-- executeCacheHit and recordReusedArtifacts of internal/runner/cache.go: a prepared hit is checked
-- again and its outputs are put back. The copies of files are a parameter.
use Prim.Native.String.{◌++◌ as join}
use repo_plane.Base.{
  ℕ, String, Bool, true, false, not, ◌&&◌, Option, none, some, List, [], ◌∷◌, ◌++◌, all, filter,
  ltb, ◌==◌, ◌!=◌, String_eq, ℕ_eq, if◌then◌else◌, Result, ok, err,
}
use repo_plane.Base.Int.{pos}
use repo_plane.Catalog.{Capability, PreflightCheck}
use repo_plane.Store.{Record}
use repo_plane.Store.Records.Write.{create_observation}
use repo_plane.Store.Cache.{CacheOutput, CacheEntry, get_cache_entry, mark_cache_hit, quarantine}
use repo_plane.Runner.{RunPayload}
use repo_plane.Runner.Host.{Host}
use repo_plane.Runner.Machine.{
  RunError, platform, plan_stale, Act, ◌>>=◌, ◌>>◌, pure, raise, reject, from_option, stored,
  cached, attempt, ignored, now,
}
use repo_plane.Runner.Receipt.{update_run}
use repo_plane.Runner.Artifacts.{record_id, artifact_record}
use repo_plane.Runner.Plan.{stale}
use repo_plane.Runner.Execute.{ExecuteResponse, from_result}
use repo_plane.Runner.Reuse.{
  Reuser, executable_id, equal_lists, make_cache_key, verify_cache_outputs,
}

-- The declarations of a name, of which a Go map keeps the last.
declared_check : String → List PreflightCheck → Option PreflightCheck
declared_check id [] = none
declared_check id (d ∷ ds) =
    let later = declared_check id ds in
    elim later [ none ↦ (if d.id == id then some d else none) | some x ↦ some x ]

abbrev materializing : RunPayload → ℕ → RunPayload
materializing payload at = record payload { state = "materializing"; started_at = some at }

abbrev failed_reuse : RunPayload → ℕ → RunPayload
failed_reuse payload at = record payload {
  state = "failed";
  finished_at = some at;
  termination_reason = "cache_materialization_failed";
  observation_partial = true;
  cache = record payload.cache { status = "rejected"; reason = "materialization_failed" };
}

abbrev reused : RunPayload → ℕ → List (String × String) → RunPayload
reused payload at after = record payload {
  state = "reused";
  started_at = some at;
  finished_at = some at;
  termination_reason = "cache_hit";
  exit_code = some (pos 0);
  streams_retained = false;
  outputs_after = after;
}

abbrev with_artifacts : RunPayload → List String × Bool → RunPayload
with_artifacts payload seen = record payload {
  artifact_refs = seen.0;
  observation_partial = seen.1;
  cache = record payload.cache { status = "reused"; reason = "verified_entry_materialized" };
}

module _ (r : Reuser) (h : Host) where
  -- Each check of the key has passed again with the identity of the plan.
  check_matches : RunPayload → List PreflightCheck → String → String × String → Bool
  unfolding declared_check
  check_matches payload declared cwd (id, expected) =
      let again = declared_check id declared in
      if id == executable_id then expected == payload.executable_identity else elim again [
        | none ↦ false
        | some d ↦
            (r.run_check d cwd).status == "passed" && (r.run_check d cwd).identity == expected
      ]

  abbrev rechecked : RunPayload → List (String × String)
  rechecked payload =
      (executable_id, payload.executable_identity)
      ∷ filter (λ p. not (p.0 == executable_id)) payload.cache_key_checks

  -- The entry is still the one of the plan.
  abbrev is_planned : RunPayload → ℕ → CacheEntry → Bool
  is_planned payload at e =
      ltb at e.expires_at
      && e.source_run_ref == payload.cache.source_run_ref
      && equal_lists e.qualification_refs payload.cache.qualification_refs

  abbrev qualified_refs : Option (List String × Bool) → Option (List String)
  qualified_refs (some (refs, true)) = some refs
  qualified_refs (some (refs, false)) = none
  qualified_refs none = none

  create_reused : String → CacheOutput → Act Record
  create_reused run o = do
    id ← record_id h "artifact_"
    at ← now h.clock
    stored (
        create_observation h.json
          (record (artifact_record h id run at (
            h.encode_artifact (record {
              run_ref = join "record:" run;
              path = o.path;
              content_hash = o.content_hash;
              size = o.size;
              storage = "stored";
              basis = "reused";
              writer_attribution = "cache";
            }))) { evidence_refs = join "record:" run ∷ o.artifact_ref ∷ [] }))

  abbrev recorded : List String × Bool → Result RunError Record → List String × Bool
  recorded seen (ok new) = (seen.0 ++ join "record:" new.id ∷ [], seen.1)
  recorded seen (err e) = (seen.0, true)

  record_each : String → List CacheOutput → List String × Bool → Act (List String × Bool)
  unfolding create_reused
  record_each run [] seen = pure seen
  record_each run (o ∷ os) seen =
      let again = record_each run os in
      attempt (create_reused run o) >>= λ new. again (recorded seen new)

  unfoldable pub record_reused_artifacts : String → List CacheOutput → Act (List String × Bool)
  unfolding record_each
  record_reused_artifacts run outputs = record_each run outputs ([], false)

  unverified : String → Act Unit
  unverified key = do
    at ← now h.clock
    ignored (
        cached
          (quarantine h.cache_faults h.project_id h.workspace_id key "artifact_unavailable" at))
    raise plan_stale

  fail_materialization : Record → RunPayload → Act ExecuteResponse
  fail_materialization new payload = do
    at ← now h.clock
    ignored (update_run h new (failed_reuse payload at) "unknown")
    raise plan_stale

  finish_reuse : Record → Record → RunPayload → String → CacheEntry → Act ExecuteResponse
  finish_reuse given new payload key e = do
    at ← now h.clock
    after ← from_option platform (h.snapshot_patterns payload.output_paths)
    seen ← record_reused_artifacts given.id e.outputs
    updated ← update_run h new (with_artifacts (reused payload at after) seen) "current"
    ignored (cached (mark_cache_hit h.cache_faults h.project_id h.workspace_id key at))
    pure (record { run_id = given.id; state = "reused" })

  materialize : Bool → Record → Record → RunPayload → String → CacheEntry → Act ExecuteResponse
  unfolding fail_materialization finish_reuse
  materialize true given new payload key e = finish_reuse given new payload key e
  materialize false given new payload key e = fail_materialization new payload

  verify_entry : Bool → String → Act Unit
  unfolding unverified
  verify_entry true key = pure tt
  verify_entry false key = unverified key

  cached_entry : String → Act CacheEntry
  cached_entry key m =
      elim (get_cache_entry h.cache_faults.select h.project_id h.workspace_id key m.entries) [
        | err e ↦ (err plan_stale, m)
        | ok e ↦ (ok e, m)
      ]

  unfoldable pub execute_cache_hit : Record → RunPayload → Capability → Act ExecuteResponse
  unfolding check_matches materialize verify_entry cached_entry
  execute_cache_hit given payload c = do
    execution ← from_option plan_stale c.manifest.execution
    cwd ← from_result (stale (h.resolve_cwd execution.cwd))
    reject (not (all (check_matches payload execution.preflight cwd.0) payload.cache_key_checks))
        plan_stale
    cache ← from_option plan_stale c.manifest.cache
    key ← from_option plan_stale (
        make_cache_key r h c (some cache) payload.configuration payload.argv payload.input_hashes
          (rechecked payload))
    reject (key != payload.cache.key) plan_stale
    refs ← from_option plan_stale (
        qualified_refs
          (r.qualify payload.capability_id payload.configuration cache.qualification_checks))
    reject (not (equal_lists refs payload.cache.qualification_refs)) plan_stale
    e ← cached_entry key
    reject (e.state != "active") plan_stale
    at ← now h.clock
    reject (not (is_planned payload at e)) plan_stale
    verify_entry (verify_cache_outputs r h e.outputs) key
    begun ← now h.clock
    new ← update_run h given (materializing payload begun) "current"
    materialize (r.materializes c.manifest e.outputs) given new (materializing payload begun) key e
