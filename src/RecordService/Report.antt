-- ===== src/RecordService/Report.antt =====
-- Verification reports of internal/records/service.go: parseReport after encoding/json, the outcome of a
-- report against its checklist, and the validity of a verification for a workspace.
pub mod Passed
use repo_plane.Base.{
  ℕ, ◌+◌, ◌-◌, ◌%◌, ◌^◌, String, len, Bool, true, false, not, ◌&&◌, ◌||◌, Option, none, some, List,
  [], ◌∷◌, ltb, ◌==◌, ◌!=◌, String_eq, ℕ_eq, if◌then◌else◌, length, count, any, lookup, map, Result,
  ok, err, reject, ◌>>◌,
}
use repo_plane.Base.Int.{ℤ, pos, negsuc, exceeds, is_negative, same_int}
use repo_plane.RecordService.{Strings}

pub record Check : Type 0 where
  pub id : String
  pub status : String

pub record CheckReport : Type 0 where
  pub schema_version : String
  pub operation : String
  pub status : String
  pub started_at : ℕ
  pub finished_at : ℕ
  pub git_commit : String
  pub dirty : Option Bool
  pub checks : List Check
  pub counts : List (String × ℤ)
  pub truncated : Bool

pub data ReportError : Type 0 where
  malformed invalid : ReportError

abbrev pub has_status : String → Check → Bool
has_status status c = c.status == status

-- `actual[status]` after the loop.
abbrev pub actual : String → CheckReport → ℕ
actual status r = count (has_status status) r.checks

-- A value of a Go map, 0 for a missing key.
abbrev pub counted : String → CheckReport → ℤ
counted status r = elim (lookup status r.counts) [ none ↦ pos 0 | some n ↦ n ]

abbrev one_of : String → List String → Bool
one_of s names = any (λ n. s == n) names

abbrev pub bad_check : Check → Bool
bad_check c =
    c.id == "" || ltb 256 (len c.id) || not (one_of c.status ("passed" ∷ "failed" ∷ "unknown" ∷ []))

abbrev pub miscounted : CheckReport → String → Bool
miscounted r status =
    not (same_int (counted status r) (pos (actual status r))) || is_negative (counted status r)

abbrev pub statuses : List String
statuses = "passed" ∷ "failed" ∷ "unknown" ∷ []

abbrev pub bad_header : CheckReport → Bool
bad_header r =
    r.schema_version != "check-report.v1"
    || ltb 256 (length r.checks)
    || not (one_of r.status ("passed" ∷ "failed" ∷ "partial" ∷ []))

abbrev pub bad_operation : CheckReport → Bool
bad_operation r = not (one_of r.operation ("verify" ∷ "preflight" ∷ "public-release-check" ∷ []))

abbrev pub bad_times : CheckReport → Bool
bad_times r = r.started_at == 0 || r.finished_at == 0 || ltb r.finished_at r.started_at

abbrev pub bad_pass : CheckReport → Bool
bad_pass r =
    r.status == "passed"
    && (length r.checks == 0 || actual "failed" r != 0 || actual "unknown" r != 0 || r.truncated)

abbrev pub attached :
    CheckReport
    → Result ReportError (List (String × String))
    → Result ReportError (CheckReport × List (String × String))
attached r (err e) = err e
attached r (ok summary) = ok (r, summary)

module _ (s : Strings) where
  abbrev pub bad_commit : CheckReport → Bool
  bad_commit r = r.git_commit != "" && not (s.matches_commit r.git_commit)

  unfoldable pub accept_report : CheckReport → Result ReportError (List (String × String))
  accept_report r = do
    reject (bad_header r) invalid
    reject (bad_operation r) invalid
    reject (bad_times r) invalid
    reject (bad_commit r) invalid
    reject (any bad_check r.checks) invalid
    reject (length r.counts != 3) invalid
    reject (any (miscounted r) statuses) invalid
    reject (bad_pass r) invalid
    reject (r.status == "failed" && actual "failed" r == 0) invalid
    reject (r.status == "partial" && actual "unknown" r == 0 && not r.truncated) invalid
    ok (map (λ c. (c.id, c.status)) r.checks)

  -- `decoded` is what json.Unmarshal gives for the bytes of the report.
  unfoldable pub parse_report :
      Option CheckReport → Result ReportError (CheckReport × List (String × String))
  parse_report none = err malformed
  parse_report (some r) = attached r (accept_report r)

pub record VerificationChecklist : Type 0 where
  pub schema_version : String
  pub id : String
  pub revision : ℕ
  pub paths : List String
  pub required : Bool
  pub capability : String
  pub configurations : List String
  pub report_required : Bool
  pub minimum_executed_checks : ℕ

-- uint64 of an int.
abbrev pub to_bits : ℤ → ℕ
to_bits (pos n) = n % 2 ^ 64
to_bits (negsuc n) = (2 ^ 64 - 1 - n) % 2 ^ 64

-- `uint64(report.Counts["passed"] + report.Counts["failed"])`
abbrev pub executed : CheckReport → ℕ
executed r = (to_bits (counted "passed" r) + to_bits (counted "failed" r)) % 2 ^ 64

unfoldable pub verification_outcome : CheckReport → VerificationChecklist → String
verification_outcome r c =
    if r.truncated || exceeds (counted "unknown" r) 0
    then "unknown"
    else (if exceeds (counted "failed" r) 0 || r.status == "failed"
        then "failed"
        else (if ltb (executed r) c.minimum_executed_checks
              || c.report_required && length r.checks == 0
            then "not_run"
            else (if r.status == "passed" then "passed" else "unknown")))

pub record SubjectObservation : Type 0 where
  pub commit : String
  pub dirty : Bool
  pub observed : Bool

-- The validity of a report when it is imported.
unfoldable pub import_validity : CheckReport → SubjectObservation → String
import_validity r current = elim r.dirty [
  | none ↦ "unknown"
  | some dirty ↦
      if current.observed && r.git_commit != ""
      then (if current.commit == r.git_commit && not current.dirty && not dirty
          then (if r.truncated then "unknown" else "current")
          else (if current.commit != r.git_commit || not dirty && current.dirty
              then "stale"
              else "unknown"))
      else "unknown"
]

-- The fields of the payload of a verification that its validity depends on.
pub record VerificationPayload : Type 0 where
  pub has_subject : Bool
  pub git_commit : String
  pub dirty : Option Bool
  pub truncated : Bool

unfoldable pub validity_from_payload : VerificationPayload → SubjectObservation → String
validity_from_payload p current = elim p.dirty [
  | none ↦ "unknown"
  | some dirty ↦
      if not p.has_subject || p.git_commit == "" || not current.observed
      then "unknown"
      else (if p.git_commit == current.commit && not dirty && not current.dirty
          then (if p.truncated then "unknown" else "current")
          else (if p.git_commit != current.commit || not dirty && current.dirty
              then "stale"
              else "unknown"))
]
