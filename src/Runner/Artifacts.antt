-- ===== src/Runner/Artifacts.antt =====
-- observeArtifacts of internal/runner/artifact.go, and cacheOutputs and publishCacheObservation of
-- internal/runner/cache.go: what a finished run leaves in the durable records and in the table of
-- reusable runs.
use text.Mathlib.Text.{starts_with}
use Prim.Native.String.{◌++◌ as join}
use repo_plane.Base.{
  ℕ, ◌+◌, ◌*◌, String, Bool, true, false, not, ◌&&◌, ◌||◌, Option, none, some, List, [], ◌∷◌, ◌++◌,
  any, ltb, ◌==◌, ◌!=◌, String_eq, ℕ_eq, if◌then◌else◌, lookup, trim_prefix, Result, ok, err,
}
use repo_plane.Base.Int.{pos}
use repo_plane.Store.{Record}
use repo_plane.Store.Records.Write.{get_record, create_observation}
use repo_plane.Store.Cache.{CacheOutput, CacheEntry, publish, by_path}
use repo_plane.Store.Archive.Order.{sort_by}
use repo_plane.Runner.{RunPayload, ArtifactPayload}
use repo_plane.Runner.Host.{Host}
use repo_plane.Runner.Machine.{
  RunError, platform, Act, ◌>>=◌, ◌>>◌, pure, reject, from_option, stored, cached, attempt, now,
}

-- What the loop of observeArtifacts carries.
pub record Observation : Type 0 where
  pub refs : List String
  pub partial : Bool
  pub captured : ℕ

abbrev or_empty : Option String → String
or_empty none = ""
or_empty (some s) = s

abbrev pub incomplete : Observation → Observation
incomplete o = record o { partial = true }

module _ (h : Host) where
  -- recordID
  unfoldable pub record_id : String → Act String
  record_id prefix m =
      let drawn = h.random m.draws in
      let m' = record m { draws = m.draws + 1 } in
      elim drawn [ none ↦ (err platform, m') | some hex ↦ (ok (join prefix hex), m') ]

  unfoldable pub unchanged_output : RunPayload → String → String → Bool
  unchanged_output payload path hash =
      starts_with path "pattern:"
      || hash == or_empty (lookup path payload.outputs_before)
        && (payload.cache.key == "" || not payload.cache.eligible)

  -- The storage state of an output, and what the loop carries on.
  unfoldable pub storage_of : RunPayload → String → String → ℕ → Observation → String × Observation
  storage_of payload path hash size o =
      if payload.artifact_mode == "capture"
      then (if ltb h.artifact_byte_limit size || ltb h.run_artifact_byte_limit (o.captured + size)
          then ("not_stored_limit", incomplete o)
          else (if not (h.captures path hash)
              then ("not_stored_error", incomplete o)
              else ("stored", record o { captured = o.captured + size })))
      else ("metadata_only", o)

  abbrev pub artifact_record : String → String → ℕ → String → Record
  artifact_record id run at payload = record {
    id = id;
    kind = "artifact";
    schema_version = "artifact-record.v1";
    project_id = h.project_id;
    workspace_id = h.workspace_id;
    revision = 1;
    source = "observed";
    writer_class = "server";
    validity = "current";
    created_at = at;
    updated_at = at;
    payload = payload;
    evidence_refs = join "record:" run ∷ [];
    supersedes = "";
  }

  unfoldable pub create_artifact : String → ArtifactPayload → Act Record
  create_artifact run artifact = do
    id ← record_id "artifact_"
    at ← now h.clock
    stored (create_observation h.json (artifact_record id run at (h.encode_artifact artifact)))

  abbrev added : Observation → Result RunError Record → Observation
  added o (ok r) = record o { refs = o.refs ++ join "record:" r.id ∷ [] }
  added o (err e) = incomplete o

  unfoldable pub observe_sized :
      String → RunPayload → String → String → Option ℕ → Observation → Act Observation
  observe_sized run payload path hash none o = pure (incomplete o)
  observe_sized run payload path hash (some size) o =
      let (storage, o') = storage_of payload path hash size o in
      do
        created ← attempt (
            create_artifact run (record {
              run_ref = join "record:" run;
              path = path;
              content_hash = hash;
              size = pos size;
              storage = storage;
              basis = "observed";
              writer_attribution = "unknown";
            }))
        pure (added o' created)

  unfoldable pub observe_each :
      String → RunPayload → List (String × String) → Observation → Act Observation
  unfolding observe_sized create_artifact
  observe_each run payload [] o = pure o
  observe_each run payload ((path, hash) ∷ rest) o =
      let again = observe_each run payload rest in
      if unchanged_output payload path hash
      then again o
      else (observe_sized run payload path hash (h.output_size path) o >>= again)

  -- The refs, the outputs after the run, and whether the observation is partial.
  unfoldable pub observe_after :
      String
      → RunPayload
      → Option (List (String × String))
      → Act (List String × List (String × String) × Bool)
  observe_after run payload none = pure ([], [], true)
  observe_after run payload (some after) = do
    o ← observe_each run payload after (record { refs = []; partial = false; captured = 0 })
    pure (o.refs, after, o.partial)

  unfoldable pub observe_artifacts :
      String → RunPayload → Act (List String × List (String × String) × Bool)
  unfolding observe_after
  observe_artifacts run payload =
      observe_after run payload (h.snapshot_patterns payload.output_paths)

  unfoldable pub cache_output : String → Act CacheOutput
  cache_output ref = do
    found ← stored (get_record h.project_id h.workspace_id (trim_prefix ref "record:"))
    reject (found.kind != "artifact") platform
    artifact ← from_option platform (h.decode_artifact found.payload)
    reject (artifact.storage != "stored") platform
    pure (record {
      path = artifact.path;
      content_hash = artifact.content_hash;
      size = artifact.size;
      artifact_ref = ref;
    })

  unfoldable pub cache_outputs_of : List String → Act (List CacheOutput)
  cache_outputs_of [] = pure []
  cache_outputs_of (ref ∷ refs) = do
    output ← cache_output ref
    rest ← cache_outputs_of refs
    pure (output ∷ rest)

  unfoldable pub cache_outputs : List String → Act (List CacheOutput)
  unfolding cache_outputs_of cache_output
  cache_outputs refs = do outputs ← cache_outputs_of refs; pure (sort_by by_path outputs)

  abbrev pub with_cache : RunPayload → String → String → RunPayload
  with_cache payload status reason = record payload {
    cache = record payload.cache { status = status; reason = reason };
  }

  -- 30 days, in nanoseconds.
  abbrev cache_entry_ttl : ℕ
  cache_entry_ttl = 30 * 24 * 60 * 60 * 1000000000

  abbrev pub cache_entry : String → RunPayload → List CacheOutput → ℕ → CacheEntry
  cache_entry run payload outputs at = record {
    key = payload.cache.key;
    project_id = h.project_id;
    workspace_id = h.workspace_id;
    capability_id = payload.capability_id;
    capability_revision = payload.capability_revision;
    configuration = payload.configuration;
    state = "active";
    reason = "";
    source_run_ref = join "record:" run;
    outputs = outputs;
    qualification_refs = payload.cache.qualification_refs;
    created_at = at;
    observed_at = at;
    last_used_at = at;
    expires_at = at + cache_entry_ttl;
    observation_count = 1;
    hit_count = 0;
  }

  unfoldable pub published : RunPayload → Result RunError CacheEntry → RunPayload
  published payload (err e) = with_cache payload "rejected" "publish_failed"
  published payload (ok entry) =
      if entry.state == "quarantined"
      then with_cache payload "quarantined" entry.reason
      else record payload {
        cache = record payload.cache {
          status = "observed";
          reason = "entry_recorded";
          source_run_ref = entry.source_run_ref;
        };
      }

  unfoldable pub publish_outputs :
      String → RunPayload → Result RunError (List CacheOutput) → Act RunPayload
  publish_outputs run payload (err e) = pure (with_cache payload "rejected" "outputs_not_captured")
  publish_outputs run payload (ok []) = pure (with_cache payload "rejected" "outputs_not_captured")
  publish_outputs run payload (ok (o ∷ os)) = do
    at ← now h.clock
    entry ← attempt (cached (publish h.cache_faults (cache_entry run payload (o ∷ os) at)))
    pure (published payload entry)

  abbrev pub publishes : RunPayload → Bool
  publishes payload =
      h.has_cache
      && payload.cache.key != ""
      && payload.cache.eligible
      && payload.state == "completed"
      && not payload.observation_partial

  unfoldable pub publish_cache_observation : String → RunPayload → Act RunPayload
  unfolding publish_outputs published
  publish_cache_observation run payload =
      let missing = any (λ o. starts_with o.0 "pattern:") payload.outputs_after in
      let go = attempt (cache_outputs payload.artifact_refs) >>= publish_outputs run payload in
      if not (publishes payload)
      then pure payload
      else (if missing then pure (with_cache payload "rejected" "declared_output_missing") else go)
