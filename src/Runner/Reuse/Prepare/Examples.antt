-- ===== src/Runner/Reuse/Prepare/Examples.antt =====
-- A verified entry of the small host is found again.
use repo_plane.Base.{◌≡◌, refl, ap, true, false, some, [], ◌∷◌, ok}
use repo_plane.Base.Int.{pos}
use repo_plane.Catalog.{Capability, Cache}
use repo_plane.Store.Cache.{
  CacheEntry, Faults, get_cache_entry, publish, bad_entry, written, sorted, same_cache_outputs,
}
use repo_plane.Store.Archive.Order.{sort_by}
use repo_plane.Runner.{CacheDecision, PreflightResult}
use repo_plane.Runner.Files.{OpenFile, opened, hash_file}
use repo_plane.Runner.Host.{Host}
use repo_plane.Runner.Machine.{Machine}
use repo_plane.Runner.Examples.{host, machine, capability, manifest}
use repo_plane.Runner.Reuse.{
  Reuser, Request, by_id, key_identities, equal_lists, make_cache_key, verify_cache_outputs,
}
use repo_plane.Runner.Reuse.Prepare.{prepare_cache}
use repo_plane.Runner.Reuse.Prepare.Hits.{Reuses}
use repo_plane.Runner.Reuse.Prepare.Agrees.{prepare_cache-Agrees}
use repo_plane.Store.Cache.Laws.{run}

abbrev blob : OpenFile
blob = record {
  content = 1 ∷ [];
  regular = true;
  stat_fails = false;
  seek_fails = false;
  read_fails = false;
  cancelled = false;
}

abbrev reuser : Reuser
reuser = record {
  approved = true;
  key_bytes = 32;
  mac = λ values. "0123456789abcdef0123456789abcdef0123456789abcdef0123456789abcdef";
  decimal = λ n. "1";
  isolated = λ m. true;
  has_qualifications = true;
  qualify = λ id configuration checks. some ("record:v" ∷ [], true);
  is_outside = λ path. false;
  blob = λ name. opened blob;
  digest = λ bytes. "h";
  artifact_byte_limit = 10;
  run_check = λ d cwd. record {
    id = d.id;
    kind = d.kind;
    requirement = "";
    status = "passed";
    summary = "";
    identity = "i";
  };
  materializes = λ m outputs. true;
}

abbrev cache : Cache
cache = record {
  contract_revision = 1;
  output_contract = "files";
  key_checks = [];
  qualification_checks = "build" ∷ [];
  restore_policy = "create_only";
  isolated_root = "";
  assumptions = record {
    inputs_complete = true;
    outputs_complete = true;
    external_state = "none";
    nondeterminism = "none";
    side_effects = "none";
  };
}

abbrev verified : Capability
verified = record capability {
  manifest = record manifest { cache_policy = "verified"; cache = some cache };
}

abbrev executable : PreflightResult
executable = record {
  id = "runner.executable";
  kind = "executable";
  requirement = "";
  status = "passed";
  summary = "";
  identity = "sha256:m";
}

abbrev request : Request
request = record {
  configuration = "default";
  cache_mode = "auto";
  argv = [];
  inputs = [];
  checks = executable ∷ [];
}

abbrev kept : CacheEntry
kept = record {
  key = "hmac-sha256:0123456789abcdef0123456789abcdef0123456789abcdef0123456789abcdef";
  project_id = "p";
  workspace_id = "w";
  capability_id = "build";
  capability_revision = "1";
  configuration = "default";
  state = "active";
  reason = "";
  source_run_ref = "record:run_1";
  outputs =
      record { path = "out/a"; content_hash = "sha256:h"; size = pos 1; artifact_ref = "record:a" }
      ∷ [];
  qualification_refs = "record:v" ∷ [];
  created_at = 5;
  observed_at = 5;
  last_used_at = 5;
  expires_at = 500;
  observation_count = 1;
  hit_count = 0;
}

abbrev caching : Host
caching = record host { has_cache = true }

abbrev with_entry : Machine
with_entry = record machine { entries = kept ∷ [] }

abbrev found : CacheDecision
found = record {
  policy = "verified";
  mode = "auto";
  status = "hit";
  eligible = true;
  reason = "verified_entry";
  key = "hmac-sha256:0123456789abcdef0123456789abcdef0123456789abcdef0123456789abcdef";
  source_run_ref = "record:run_1";
  qualification_refs = "record:v" ∷ [];
}

finds :
    (prepare_cache reuser caching verified request with_entry).0
    ≡ ok (found, ("runner.executable", "sha256:m") ∷ [])
unfolding prepare_cache by_id key_identities make_cache_key sort_by get_cache_entry equal_lists
    verify_cache_outputs hash_file
finds = refl

abbrev healthy : Faults
healthy = record { begin = false; select = false; write = false; commit = false }

publishes_kept : publish healthy kept [] ≡ (ok kept, kept ∷ [])
unfolding publish bad_entry written sort_by
publishes_kept = refl

no_operations : with_entry.entries ≡ run [] (publish healthy kept []).1
unfolding run
no_operations = rw publishes_kept refl

prepare_cache-Agrees_example :
    (reuse : Reuses reuser caching verified request found with_entry) × (same_cache_outputs
        reuse.hit.entry.outputs
        (sorted kept).outputs
      ≡ true)
prepare_cache-Agrees_example =
    prepare_cache-Agrees reuser caching verified request healthy kept []
      (ap (λ x. x.0) publishes_kept) [] with_entry no_operations finds refl refl refl refl
