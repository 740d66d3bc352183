-- ===== src/RecordService/Examples.antt =====
-- A report of two passed checks against a checklist that asks for two.
use repo_plane.Base.{◌≡◌, refl, true, false, none, some, [], ◌∷◌, ◌≤◌, all, length, lookup}
use repo_plane.Base.Int.{pos}
use repo_plane.RecordService.{Strings}
use repo_plane.RecordService.Report.{
  CheckReport, VerificationChecklist, accept_report, parse_report, verification_outcome, has_status,
}
use repo_plane.RecordService.Report.Passed.{outcome-passed}

abbrev plain : Strings
plain = record {
  trim_space = λ s. s;
  to_lower = λ s. s;
  fields = λ s. s ∷ [];
  rune_count = λ s. 0;
  matches_commit = λ s. true;
  matches_topic = λ s. true;
  matches_alias = λ s. true;
  parse_time = λ s. none;
}

abbrev two_passed : CheckReport
two_passed = record {
  schema_version = "check-report.v1";
  operation = "verify";
  status = "passed";
  started_at = 3;
  finished_at = 5;
  git_commit = "";
  dirty = some false;
  checks =
      record { id = "build"; status = "passed" } ∷ record { id = "test"; status = "passed" } ∷ [];
  counts = ("passed", pos 2) ∷ ("failed", pos 0) ∷ ("unknown", pos 0) ∷ [];
  truncated = false;
}

abbrev asks_two : VerificationChecklist
asks_two = record {
  schema_version = "verification-checklist.v1";
  id = "c";
  revision = 1;
  paths = [];
  required = true;
  capability = "verify";
  configurations = [];
  report_required = true;
  minimum_executed_checks = 2;
}

outcome-passed_example :
    (two_passed.truncated ≡ false)
    × (all (has_status "passed") two_passed.checks ≡ true)
    × (asks_two.minimum_executed_checks ≤ length two_passed.checks)
    × (1 ≤ length two_passed.checks)
unfolding parse_report accept_report verification_outcome lookup
outcome-passed_example =
    outcome-passed plain two_passed asks_two
      {summary = ("build", "passed") ∷ ("test", "passed") ∷ []} refl refl
