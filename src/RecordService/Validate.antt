-- ===== src/RecordService/Validate.antt =====
-- The checks of a write in internal/records/service.go: the requests of write_memo and
-- write_checkpoint without their JSON presence, and what validateMemo, validateCheckpoint and their
-- helpers refuse.
use Prim.Native.String.{◌++◌ as join}
use repo_plane.Base.{
  ℕ, ◌+◌, ◌*◌, String, len, Bool, true, false, not, ◌&&◌, ◌||◌, Option, none, some, List, [], ◌∷◌,
  ◌++◌, ltb, ◌==◌, ◌!=◌, String_eq, ℕ_eq, if◌then◌else◌, length, any, Result, ok, err, reject, ◌>>◌,
}
use repo_plane.RecordService.{Strings}

-- A ValidationError by the field it names, or the entry of a list; any other error of a request.
pub data Problem : Type 0 where
  field : String → Problem
  entry : String → ℕ → Problem
  other limit_exceeded : Problem

pub record HostFact : Type 0 where
  pub alias : String
  pub role : String
  pub os : String
  pub tier : String
  pub services : List String
  pub paths : List String
  pub confirmed_at : String

pub record MemoRequest : Type 0 where
  pub mode : String
  pub id : String
  pub expected_revision : ℕ
  pub supersedes : String
  pub memo_kind : String
  pub scope : String
  pub configuration : String
  pub topic_key : String
  pub title : String
  pub summary : String
  pub temporal_kind : String
  pub as_of : String
  pub content : String
  pub host : Option HostFact
  pub invalidation_condition : String
  pub source : String
  pub evidence_refs : List String
  pub response_view : String

pub record CheckpointRequest : Type 0 where
  pub mode : String
  pub id : String
  pub expected_revision : ℕ
  pub goal : String
  pub baseline_commit : String
  pub dirty : Option Bool
  pub run_refs : List String
  pub remaining_checks : List String
  pub next_action : String
  pub change_summary : String
  pub background_refs : List String
  pub risks : List String
  pub evidence_refs : List String
  pub response_view : String

abbrev pub Check : Type 0
Check = Result Problem Unit

abbrev pub is_one_of : String → List String → Bool
is_one_of s names = any (λ n. s == n) names

abbrev is_given : {A : Type 0} → Option A → Bool
is_given none = false
is_given (some a) = true

unfoldable pub validate_response_view : String → Check
validate_response_view view = reject (not (is_one_of view ("" ∷ "full" ∷ "receipt" ∷ []))) other

unfoldable pub validate_refs : String → ℕ → List String → Check
validate_refs name n [] = ok tt
validate_refs name n (ref ∷ refs) = do
  reject (ltb 1024 (len ref)) (entry (join name " references") n)
  validate_refs name (n + 1) refs

unfoldable pub validate_text_and_refs : String → String → List String → Check
unfolding validate_refs
validate_text_and_refs name text refs = do
  reject (ltb (32 * 1024) (len text)) (field (join name " text"))
  reject (ltb 128 (length refs)) (field (join name " references"))
  validate_refs name 0 refs

module _ (s : Strings) where
  -- A name of a field that is empty, too long or padded, or stands twice.
  validate_names : List String → List String → Check
  validate_names seen [] = ok tt
  validate_names seen (name ∷ names) = do
    reject (name == "" || ltb 128 (len name) || s.trim_space name != name) other
    reject (any (λ k. k == name) seen) other
    validate_names (name ∷ seen) names

  unfoldable pub validate_payload_fields : List String → Check
  unfolding validate_names
  validate_payload_fields names = do
    reject (ltb 32 (length names)) limit_exceeded
    validate_names [] names

  validate_values : String → ℕ → List String → List String → Check
  validate_values name n seen [] = ok tt
  validate_values name n seen (value ∷ values) = do
    reject (s.trim_space value != value || value == "") (entry name n)
    reject (ltb 1024 (s.rune_count value)) (entry name n)
    reject (any (λ k. k == s.to_lower value) seen) (field name)
    validate_values name (n + 1) (s.to_lower value ∷ seen) values

  unfoldable pub validate_host_string_list : String → List String → Check
  unfolding validate_values
  validate_host_string_list name values = do
    reject (ltb 64 (length values)) (field name)
    validate_values name 0 [] values

  abbrev pub is_time : String → Bool
  is_time text = is_given (s.parse_time text)

  abbrev pub is_blank : String → Bool
  is_blank text = s.trim_space text == ""

  unfoldable pub validate_host_fact : Option HostFact → String → Check
  validate_host_fact none invalidation = err (field "host")
  validate_host_fact (some h) invalidation = do
    reject (not (s.matches_alias h.alias)) (field "host.alias")
    reject (is_blank h.role) (field "host.role")
    reject (is_blank h.os) (field "host.os")
    reject (is_blank invalidation) (field "invalidation_condition")
    reject (s.trim_space h.role != h.role || s.trim_space h.os != h.os) (field "host.role/host.os")
    reject (not (is_one_of h.tier ("production" ∷ "test" ∷ "staging" ∷ "development" ∷ [])))
        (field "host.tier")
    reject (not (is_time h.confirmed_at)) (field "host.confirmed_at")
    reject (ltb 128 (s.rune_count h.role)) (field "host.role")
    reject (ltb 128 (s.rune_count h.os)) (field "host.os")
    validate_host_string_list "host.services" h.services
    validate_host_string_list "host.paths" h.paths

  abbrev pub is_write_mode : String → Bool
  is_write_mode mode = is_one_of mode ("create" ∷ "update" ∷ "supersede" ∷ [])

  abbrev pub memo_text : MemoRequest → String
  memo_text r = join r.memo_kind (
      join r.scope (
        join r.configuration
          (join r.title (join r.summary (join r.content r.invalidation_condition)))))

  -- The fields that depend on the kind of the memo.
  validate_host_memo : MemoRequest → Check
  validate_host_memo r = do
    reject (r.topic_key != "") (field "topic_key")
    reject (r.title != "" || r.summary != "" || r.temporal_kind != "" || r.as_of != "")
        (field "title/summary/temporal_kind/as_of")
    validate_host_fact r.host r.invalidation_condition

  validate_plain_memo : MemoRequest → Check
  validate_plain_memo r = do
    reject (is_blank r.content) (field "content")
    reject (is_given r.host) other

  validate_kind : MemoRequest → Check
  unfolding validate_host_memo validate_plain_memo
  validate_kind r = do
    reject
        (not (
          is_one_of r.memo_kind
            ("decision" ∷ "failed_attempt" ∷ "resolved_failure" ∷ "limitation" ∷ "host_fact" ∷ [])))
        (field "memo_kind")
    if r.memo_kind == "host_fact" then validate_host_memo r else validate_plain_memo r

  validate_topic : MemoRequest → Check
  validate_topic r = do
    reject (r.topic_key != "" && is_blank r.scope) (field "scope")
    reject (r.topic_key != "" && not (s.matches_topic r.topic_key)) (field "topic_key")

  unfoldable pub validate_memo : MemoRequest → Check
  unfolding validate_kind validate_topic
  validate_memo r = do
    validate_response_view r.response_view
    reject (not (is_write_mode r.mode)) other
    if r.mode == "supersede" then ok tt else validate_kind r
    validate_topic r
    reject
        (r.supersedes != ""
          && (r.mode != "create" || r.expected_revision == 0 || ltb 128 (len r.supersedes)))
        other
    reject (ltb 160 (s.rune_count r.title)) (field "title")
    reject (ltb 240 (s.rune_count r.summary)) (field "summary")
    reject
        (not (is_one_of r.temporal_kind ("" ∷ "historical_observation" ∷ "current_guidance" ∷ [])))
        (field "temporal_kind")
    reject (r.temporal_kind == "" && r.as_of != "" || r.temporal_kind != "" && r.as_of == "")
        (field "temporal_kind/as_of")
    reject (r.as_of != "" && not (is_time r.as_of)) (field "as_of")
    reject (not (is_one_of r.source ("user_asserted" ∷ "llm_proposed" ∷ []))) other
    reject (r.mode != "create" && (r.id == "" || r.expected_revision == 0)) other
    validate_text_and_refs "memo" (memo_text r) r.evidence_refs

  unfoldable pub validate_checkpoint : CheckpointRequest → Check
  validate_checkpoint r = do
    validate_response_view r.response_view
    reject (not (is_write_mode r.mode)) other
    reject (r.mode == "create" && is_blank r.goal) other
    reject (r.mode != "create" && (r.id == "" || r.expected_revision == 0)) other
    validate_text_and_refs "checkpoint"
        (join r.goal (join r.baseline_commit (join r.next_action r.change_summary)))
        (((r.run_refs ++ r.remaining_checks) ++ r.background_refs) ++ r.risks ++ r.evidence_refs)
