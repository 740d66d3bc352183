-- ===== src/Store/Cache/Examples.antt =====
-- A run is observed twice with different outputs on a database without faults.
use repo_plane.Base.{String, ◌≡◌, refl, true, false, some, List, [], ◌∷◌, ok, find, ◌&&◌, any}
use repo_plane.Base.Int.{pos}
use repo_plane.Store.Archive.Order.{sort_by}
use repo_plane.Store.Cache.{
  CacheOutput, CacheEntry, Faults, is_entry, same_entry, sorted, publish, bad_entry, written,
  same_cache_outputs, observed, list_protected_cache_hashes, is_protecting,
}
use repo_plane.Store.Cache.Laws.{Operation, publishes, marks, run}
use repo_plane.Store.Cache.Agreement.{published-agrees, agrees}
use repo_plane.Store.Cache.Protected.{list_protected-exact, is_text, has_hash}

abbrev healthy : Faults
healthy = record { begin = false; select = false; write = false; commit = false }

abbrev output : CacheOutput
output = record {
  path = "out/a";
  content_hash = "sha256:1";
  size = pos 4;
  artifact_ref = "record:a";
}

abbrev key : String
key = "hmac-sha256:0123456789abcdef0123456789abcdef0123456789abcdef0123456789abcdef"

abbrev pub entry : CacheEntry
entry = record {
  key = key;
  project_id = "p";
  workspace_id = "w";
  capability_id = "build";
  capability_revision = "1";
  configuration = "default";
  state = "active";
  reason = "";
  source_run_ref = "record:run_1";
  outputs = output ∷ [];
  qualification_refs = [];
  created_at = 5;
  observed_at = 5;
  last_used_at = 5;
  expires_at = 50;
  observation_count = 1;
  hit_count = 0;
}

abbrev other : CacheEntry
other = record entry { outputs = record output { content_hash = "sha256:2" } ∷ []; observed_at = 7 }

publishes_entry : (publish healthy entry []).0 ≡ ok entry
unfolding publish bad_entry written sort_by
publishes_entry = refl

mismatch :
    (publish healthy other (entry ∷ [])).0
    ≡ ok (record entry {
      state = "quarantined";
      reason = "output_mismatch";
      observed_at = 7;
      observation_count = 2;
    })
unfolding publish bad_entry written sort_by observed same_cache_outputs
mismatch = refl

abbrev operations : List Operation
operations = marks healthy "p" "w" key 6 ∷ publishes healthy other ∷ []

published-agrees_example :
    (last : CacheEntry) × (find
        (same_entry (sorted entry))
        (run operations (publish healthy entry []).1)
      ≡ some last)
    × (agrees last (sorted entry) ≡ true)
published-agrees_example = published-agrees healthy entry [] publishes_entry operations

here : find (is_entry "p" "w" key) (entry ∷ []) ≡ some entry
here = refl

lists : list_protected_cache_hashes false "p" "w" 10 100 (entry ∷ []) ≡ ok ("sha256:1" ∷ [], true)
unfolding list_protected_cache_hashes sort_by
lists = refl

list_protected-exact_example :
    any (is_text "sha256:1") ("sha256:1" ∷ [])
    ≡ any (λ e. is_protecting "p" "w" 10 e && has_hash "sha256:1" e) (entry ∷ [])
list_protected-exact_example = list_protected-exact "p" "w" 10 100 (entry ∷ []) lists "sha256:1"
