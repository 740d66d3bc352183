-- ===== src/Runner/Reuse/Prepare.antt =====
-- prepareCache of internal/runner/cache.go: whether a prepared run may reuse an earlier one.
pub mod Hits
pub mod Agrees
mod Examples
use text.Mathlib.Text.{starts_with}
use Prim.Native.String.{◌++◌ as join}
use repo_plane.Base.{
  ℕ, String, Bool, true, false, not, ◌&&◌, ◌||◌, Option, none, some, List, [], ◌∷◌, ◌++◌, all, any,
  find, filter, map, ltb, ◌==◌, ◌!=◌, String_eq, ℕ_eq, if◌then◌else◌, length, trim_prefix, Result,
  ok, err,
}
use repo_plane.Base.Int.{pos}
use repo_plane.Catalog.{Capability, Manifest, Cache, Execution, PreflightCheck}
use repo_plane.Store.{Record, StoreError, not_found, conflict, failed}
use repo_plane.Store.Records.Write.{create_observation}
use repo_plane.Store.Cache.{CacheOutput, CacheEntry, get_cache_entry, mark_cache_hit, quarantine}
use repo_plane.Store.Archive.Order.{text_le, sort_by}
use repo_plane.Runner.{RunPayload, CacheDecision, PreflightResult, ArtifactPayload}
use repo_plane.Runner.Files.{Opened, hash_file}
use repo_plane.Runner.Host.{Host}
use repo_plane.Runner.Machine.{
  RunError, platform, plan_stale, store, Machine, Act, ◌>>=◌, ◌>>◌, pure, raise, reject,
  from_option, stored, cached, attempt, ignored, now,
}
use repo_plane.Runner.Receipt.{update_run}
use repo_plane.Runner.Artifacts.{record_id, artifact_record}
use repo_plane.Runner.Plan.{stale}
use repo_plane.Runner.Execute.{ExecuteResponse, from_result}
use repo_plane.Runner.Reuse.{
  Reuser, Request, executable_id, by_id, identity_of, key_identities, policy_of, start_decision,
  decide, because, equal_lists, make_cache_key, verify_cache_outputs,
}

module _ (r : Reuser) (h : Host) where
  find_entry : String → Act (Result StoreError CacheEntry)
  find_entry key m =
      (ok (get_cache_entry h.cache_faults.select h.project_id h.workspace_id key m.entries), m)

  -- The entry is not of this declaration, or has expired.
  abbrev pub is_stale : Capability → String → ℕ → CacheEntry → Bool
  is_stale c configuration at e =
      not (ltb at e.expires_at)
      || e.capability_id != c.manifest.id
      || e.capability_revision != c.revision
      || e.configuration != configuration

  withdraw : String → Act Unit
  withdraw key = do
    at ← now h.clock
    ignored (
        cached
          (quarantine h.cache_faults h.project_id h.workspace_id key "artifact_unavailable" at))

  judge_active : Capability → String → CacheDecision → CacheEntry → ℕ → Act CacheDecision
  unfolding withdraw
  judge_active c configuration d e at =
      let gone = withdraw d.key >> pure (decide "quarantined" "artifact_unavailable" d) in
      if is_stale c configuration at e
      then pure (decide "miss" "entry_stale" d)
      else (if not (equal_lists e.qualification_refs d.qualification_refs)
          then pure (decide "miss" "qualification_changed" d)
          else (if not (verify_cache_outputs r h e.outputs)
              then gone
              else pure
                  (record (decide "hit" "verified_entry" d) { source_run_ref = e.source_run_ref })))

  -- Whether the entry is quarantined, and whether it is active.
  judge_state : Bool → Bool → Capability → String → CacheDecision → CacheEntry → Act CacheDecision
  unfolding judge_active
  judge_state true _ c configuration d e =
      pure (record (decide "quarantined" e.reason d) { source_run_ref = e.source_run_ref })
  judge_state false false c configuration d e = pure (decide "miss" "entry_stale" d)
  judge_state false true c configuration d e = now h.clock >>= judge_active c configuration d e

  judge : Capability → String → CacheDecision → Result StoreError CacheEntry → Act CacheDecision
  unfolding judge_state
  judge c configuration d (err not_found) = pure (decide "miss" "entry_not_found" d)
  judge c configuration d (err conflict) = raise (store conflict)
  judge c configuration d (err failed) = raise (store failed)
  judge c configuration d (ok e) =
      judge_state (e.state == "quarantined") (e.state == "active") c configuration d e

  qualify_decision :
      Capability → Request → CacheDecision → Option (List String × Bool) → Act CacheDecision
  unfolding judge find_entry
  qualify_decision c q d none = raise platform
  qualify_decision c q d (some (refs, false)) =
      pure (record (because "qualification_not_current" d) {
        eligible = false;
        qualification_refs = refs;
      })
  qualify_decision c q d (some (refs, true)) =
      let qualified = record d { qualification_refs = refs } in
      let looked = find_entry d.key >>= judge c q.configuration qualified in
      if q.cache_mode == "bypass"
      then pure (decide "bypassed" "request_bypass" qualified)
      else looked

  decide_with_key : Capability → Cache → Request → CacheDecision → String → Act CacheDecision
  unfolding qualify_decision
  decide_with_key c cache q d0 key =
      let d = record d0 { key = key; eligible = true } in
      let qualified =
        qualify_decision c q d
          (r.qualify c.manifest.id q.configuration cache.qualification_checks) in
      if d.policy == "verified"
      then (if not r.has_qualifications
          then pure (record (because "qualification_unavailable" d) { eligible = false })
          else qualified)
      else (if q.cache_mode == "bypass"
          then pure (decide "bypassed" "request_bypass" d)
          else pure (decide "miss" "observe_only" d))

  keyed : Capability → Cache → Request → CacheDecision → Option String → Act CacheDecision
  unfolding decide_with_key
  keyed c cache q d none = pure (because "key_unavailable" d)
  keyed c cache q d (some key) = decide_with_key c cache q d key

  identified :
      Capability
      → Cache
      → Request
      → CacheDecision
      → Bool × List (String × String)
      → Act (CacheDecision × List (String × String))
  unfolding keyed
  identified c cache q d (false, identities) =
      pure (because "key_identity_unavailable" d, identities)
  identified c cache q d (true, identities) =
      let key = make_cache_key r h c (some cache) q.configuration q.argv q.inputs identities in
      let decided = keyed c cache q d key >>= λ decision. pure (decision, identities) in
      if cache.restore_policy == "replace_isolated_root" && not (r.isolated c.manifest)
      then pure (because "isolated_root_unproven" d, identities)
      else decided

  prepare_declared :
      Capability
      → Option Cache
      → Request
      → CacheDecision
      → Act (CacheDecision × List (String × String))
  unfolding identified
  prepare_declared c none q d = pure (because "manifest_ineligible" d, [])
  prepare_declared c (some cache) q d =
      let identity = identity_of (by_id executable_id q.checks) in
      let found = key_identities q.checks cache.key_checks ((executable_id, identity) ∷ []) in
      if identity == ""
      then pure (because "executable_identity_unavailable" d, [])
      else identified c cache q d found

  unfoldable pub prepare_cache : Capability → Request → Act (CacheDecision × List (String × String))
  unfolding prepare_declared
  prepare_cache c q =
      let d = start_decision (policy_of c.manifest.cache_policy) q.cache_mode in
      if d.policy == "disabled"
      then pure (decide "disabled" "policy_disabled" d, [])
      else (if not r.approved
          then pure (because "runtime_cache_not_approved" d, [])
          else (if not h.has_cache || r.key_bytes != 32
              then pure (because "host_cache_disabled" d, [])
              else prepare_declared c c.manifest.cache q d))
