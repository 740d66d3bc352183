-- ===== src/Store/Records/Query.antt =====
-- QueryRecords of internal/store/sqlite/records.go. The functions of strings and of SQLite on texts
-- are a parameter; each of the two statements may fail,
-- and no other call writes between them.
pub mod Laws
mod Examples
use Prim.Native.String.{◌++◌ as join}
use repo_plane.Base.{
  ℕ, ◌+◌, ◌*◌, String, len, Bool, true, false, not, ◌&&◌, ◌||◌, Option, none, some, List, [], ◌∷◌,
  ltb, leb, ◌==◌, ◌!=◌, String_eq, ℕ_eq, if◌then◌else◌, length, filter, take, any, all, map,
}
use repo_plane.Store.{conflict, failed, Record}
use repo_plane.Store.Tx.{Tx, ◌>>=◌, ◌>>◌, pure, reject, gets, statement}
use repo_plane.Store.Archive.Order.{text_le, sort_by}
use repo_plane.Store.Records.Rows.{Json, is_owned}

-- strings.ToLower of strings.TrimSpace, SQLite's lower, `instr(text, term) > 0`, and the text values of
-- a payload.
pub record TextSearch : Type 0 where
  pub normal_term : String → String
  pub lower : String → String
  pub contains : String → String → Bool
  pub payload_texts : String → List String

-- A time that is 0 is no bound.
pub record RecordQuery : Type 0 where
  pub project_id : String
  pub workspace_id : String
  pub kind : String
  pub validity : String
  pub source : String
  pub updated_after : ℕ
  pub updated_before : ℕ
  pub topic_key : String
  pub scope : String
  pub configuration : String
  pub supersedes : String
  pub terms : List String
  pub match_all : Bool
  pub limit : ℕ

pub record RecordPage : Type 0 where
  pub records : List Record
  pub matched : ℕ
  pub complete : Bool

-- An empty filter takes every value.
abbrev given : String → String → Bool
given wanted value = wanted == "" || value == wanted

abbrev given_value : String → Option String → Bool
given_value wanted none = wanted == ""
given_value wanted (some value) = wanted == "" || value == wanted

abbrev bad_term : String → Bool
bad_term term = term == "" || ltb 128 (len term)

abbrev one_if : Bool → ℕ → ℕ
one_if b n = if b then n else 0

module _ (j : Json) (s : TextSearch) where
  abbrev metadata : Record → String
  metadata r =
      s.lower
        (join r.id (join " " (join r.kind (join " " (join r.schema_version (join " " r.source))))))

  abbrev payload_match : Record → String → Bool
  payload_match r term = any (λ v. s.contains (s.lower v) term) (s.payload_texts r.payload)

  abbrev pub term_match : Record → String → Bool
  term_match r term = s.contains (metadata r) term || payload_match r term

  abbrev pub terms_match : RecordQuery → List String → Record → Bool
  terms_match q [] r = true
  terms_match q (t ∷ ts) r =
      if q.match_all then all (term_match r) (t ∷ ts) else any (term_match r) (t ∷ ts)

  -- The WHERE clause.
  unfoldable pub selected : RecordQuery → List String → Record → Bool
  selected q terms r =
      is_owned q.project_id q.workspace_id r
      && given q.kind r.kind
      && given q.validity r.validity
      && given q.source r.source
      && given q.supersedes r.supersedes
      && leb q.updated_after r.updated_at
      && (q.updated_before == 0 || ltb r.updated_at q.updated_before)
      && given_value q.topic_key (j.topic_key r.payload)
      && given_value q.scope (j.scope r.payload)
      && given_value q.configuration (j.configuration r.payload)
      && terms_match q terms r

  coverage : List String → Record → ℕ
  coverage [] r = 0
  coverage (t ∷ ts) r = one_if (term_match r t) 1 + coverage ts r

  term_score : Record → String → ℕ
  term_score r term =
      if s.contains (s.lower r.id) term
      then 8
      else (if s.contains (metadata r) term then 4 else one_if (payload_match r term) 1)

  score : List String → Record → ℕ
  unfolding term_score
  score [] r = 0
  score (t ∷ ts) r = term_score r t + score ts r

  abbrev newest : Record → Record → Bool
  newest a b = ltb b.updated_at a.updated_at || a.updated_at == b.updated_at && text_le a.id b.id

  abbrev current_rank : Record → ℕ
  current_rank r = one_if (r.validity == "current") 1

  abbrev descending : ℕ → ℕ → Bool → Bool
  descending m n rest = ltb n m || m == n && rest

  -- The ORDER BY clause.
  unfoldable pub ordered : List String → Record → Record → Bool
  unfolding coverage score
  ordered [] a b = newest a b
  ordered (t ∷ ts) a b = descending (current_rank a) (current_rank b) (
      descending (coverage (t ∷ ts) a) (coverage (t ∷ ts) b)
        (descending (score (t ∷ ts) a) (score (t ∷ ts) b) (newest a b)))

  abbrev bad_query : RecordQuery → Bool
  bad_query q =
      q.project_id == ""
      || q.workspace_id == ""
      || q.limit == 0
      || ltb 10000 q.limit
      || ltb 16 (length q.terms)
      || any bad_term (map s.normal_term q.terms)

  unfoldable pub page_of : RecordQuery → List String → List Record → RecordPage
  unfolding ordered
  page_of q terms found = record {
    records = take q.limit (sort_by (ordered terms) found);
    matched = length found;
    complete = leb (length found) q.limit;
  }

  unfoldable pub query_records : RecordQuery → Tx RecordPage
  query_records q =
      let terms = map s.normal_term q.terms in
      do
        reject (bad_query q) conflict
        statement failed
        found ← gets (λ t. filter (selected q terms) t.records)
        statement failed
        pure (page_of q terms found)
