-- ===== src/Store/Records/Query/Examples.antt =====
-- The memos of a workspace are listed and searched on a database without faults.
use repo_plane.Base.{
  ◌≡◌, refl, Bool, true, ◌&&◌, ◌==◌, String_eq, List, [], ◌∷◌, ok, map, count, length,
}
use repo_plane.Store.{Record}
use repo_plane.Store.Tx.{Db, statement}
use repo_plane.Store.Archive.Order.{sort_by}
use repo_plane.Store.Records.Examples.{json, memo}
use repo_plane.Store.Records.Query.{
  TextSearch, RecordQuery, RecordPage, selected, ordered, page_of, query_records,
}
use repo_plane.Store.Records.Query.Laws.{query_records_lem}

abbrev plain : TextSearch
plain = record {
  normal_term = λ t. t;
  lower = λ t. t;
  contains = λ t u. t == u;
  payload_texts = λ t. t ∷ [];
}

abbrev memos : RecordQuery
memos = record {
  project_id = "p";
  workspace_id = "w";
  kind = "memo";
  validity = "current";
  source = "";
  updated_after = 0;
  updated_before = 0;
  topic_key = "";
  scope = "";
  configuration = "";
  supersedes = "";
  terms = "{}" ∷ [];
  match_all = true;
  limit = 10;
}

abbrev newer : Record
newer = record memo { id = "m2"; updated_at = 9 }

abbrev retired : Record
retired = record memo { id = "m3"; validity = "superseded" }

abbrev table : List Record
table = memo ∷ retired ∷ newer ∷ []

abbrev db : Db
db = record { tables = record { records = table; revisions = []; imports = [] }; faults = [] }

abbrev answer : RecordPage
answer = record { records = newer ∷ memo ∷ []; matched = 2; complete = true }

lists : (query_records json plain memos db).0 ≡ ok answer
unfolding query_records page_of selected ordered sort_by statement
lists = refl

query_records_lem_example :
    ((p : Record → Bool)
      → count p answer.records
        ≡ count (λ r. selected json plain memos (map plain.normal_term memos.terms) r && p r) table)
    × (answer.matched ≡ length answer.records)
    × ((query_records json plain memos db).1.tables ≡ db.tables)
query_records_lem_example = query_records_lem json plain memos db lists refl
