-- ===== src/RecordService/Page/Examples.antt =====
-- Three results of which two fit: the first page names the ordinal that follows.
use repo_plane.Base.{
  String, ◌≡◌, refl, Bool, true, false, none, some, List, [], ◌∷◌, ok, arith, ◌==◌, String_eq,
  if◌then◌else◌, length,
}
use repo_plane.Contracts.{Response}
use repo_plane.Cursor.{Wire, encode, sign}
use repo_plane.Store.Results.{
  Faults, bad_result_set, create_result_set, read_result_page, pruned, expired_batch,
}
use repo_plane.Store.Archive.Order.{sort_by}
use repo_plane.RecordService.Page.{
  Format, response, tried, next_cursor, chosen, fit, read_page, decode_items, items_from, set_of,
  persist,
}
use repo_plane.RecordService.Page.Longest.{Longest, first_shown, persist-Longest}

abbrev wire : Wire
wire = record {
  marshal = λ p. some (1 ∷ []);
  unmarshal = λ bs. none;
  to_base64 = λ bs. "x";
  of_base64 = λ s. none;
  split = λ s. [];
  mac = λ key bs. [];
  mac_equal = λ a b. true;
}

-- The size of a response is the number of its items.
abbrev format : Format String
format = record {
  wire = wire;
  key = [];
  workspace_id = "w";
  ref_of = λ x. x;
  encode_item = λ x. x;
  decode_item = λ x. some x;
  encode_metadata = λ b. if b then "true" else "false";
  decode_metadata = λ s. some (s == "true");
  hash = λ x. x;
  size = λ r. length r.items;
}

abbrev healthy : Faults
healthy = record { begin = false; prune = false; insert = false; commit = false }

abbrev three : List String
three = "a" ∷ "b" ∷ "c" ∷ []

abbrev shown_two : Response String
shown_two = response format (first_shown format "record_results_7" 5 true three 3) 2 (some "x.x")

stores_two :
    (persist format (λ s. true) healthy false (some "7") "q" 5 true three 3 2 []).0 ≡ ok shown_two
unfolding persist set_of items_from create_result_set bad_result_set pruned expired_batch sort_by
    read_page read_result_page decode_items fit chosen tried next_cursor encode sign
stores_two = refl

metadata_again : (b : Bool) → format.decode_metadata (format.encode_metadata b) ≡ some b
metadata_again true = refl
metadata_again false = refl

metadata_there : (b : Bool) → (format.encode_metadata b == "") ≡ false
metadata_there true = refl
metadata_there false = refl

persist-Longest_example :
    Longest format 2 (first_shown format "record_results_7" 5 true three 3) 3 shown_two
persist-Longest_example =
    persist-Longest format (λ x. refl) metadata_again metadata_there (λ s. true) healthy "7" "q" 5
      true three 3 2 [] (omega arith) stores_two
