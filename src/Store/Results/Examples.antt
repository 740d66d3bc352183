-- ===== src/Store/Results/Examples.antt =====
-- A set of two items is stored and its first page is read.
use repo_plane.Base.{String, ◌≡◌, refl, Bool, true, false, some, [], ◌∷◌, ok, arith}
use repo_plane.Store.Results.{
  ResultItem, ResultSet, Faults, bad_result_set, create_result_set, read_result_page, pruned,
  expired_batch,
}
use repo_plane.Store.Archive.Order.{sort_by}
use repo_plane.Store.Results.Pages.{created-read, next_of, page_with}

abbrev healthy : Faults
healthy = record { begin = false; prune = false; insert = false; commit = false }

abbrev any_json : String → Bool
any_json text = true

abbrev first : ResultItem
first = record { ordinal = 0; item_ref = "file:a"; item_hash = "h0"; payload = "{}" }

abbrev second : ResultItem
second = record { ordinal = 1; item_ref = "file:b"; item_hash = "h1"; payload = "{}" }

abbrev set : ResultSet
set = record {
  id = "set-1";
  workspace_id = "w";
  query_hash = "q";
  generation_id = "g";
  created_at = 5;
  expires_at = 9;
  metadata = "{}";
  items = first ∷ second ∷ [];
}

-- It has expired when `set` is stored, and is pruned.
abbrev expired : ResultSet
expired = record set { id = "set-0"; created_at = 1; expires_at = 3 }

stores_set : create_result_set any_json healthy set (expired ∷ []) ≡ (ok tt, set ∷ [])
unfolding create_result_set bad_result_set pruned expired_batch sort_by
stores_set = refl

created-read_example :
    read_result_page false "set-1" 0 1 (create_result_set any_json healthy set (expired ∷ [])).1
    ≡ ok (page_with set (first ∷ []) (some 1))
unfolding create_result_set bad_result_set pruned expired_batch sort_by next_of
created-read_example = created-read any_json healthy set (expired ∷ []) 0 1 refl (omega arith)
