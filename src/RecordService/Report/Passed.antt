-- ===== src/RecordService/Report/Passed.antt =====
-- When a report of internal/records/service.go counts as passed, and a verification as current.
use repo_plane.Base.{
  ◌+◌, ◌≤◌, String, ◌≡◌, refl, Bool, true, false, ◌&&◌, some, List, [], ◌∷◌, arith, ltb, ◌==◌, ◌!=◌,
  String_eq, ℕ_eq, length, count, all, any, Result, ok, err, reject-ok, eq_iff, ap, subst, sym,
}
use repo_plane.Base.Int.{ℤ, pos, negsuc, exceeds, same_int}
use repo_plane.RecordService.{Strings}
use repo_plane.RecordService.Report.{
  Check, CheckReport, VerificationChecklist, actual, counted, executed, accept_report, parse_report,
  to_bits, ReportError, invalid, verification_outcome, has_status, bad_check, bad_header,
  bad_operation, bad_times, bad_commit, miscounted, statuses, bad_pass, attached,
}

pub same_int_iff : (m n : ℤ) → same_int m n ≡ true → m ≡ n
same_int_iff (pos m) (pos n) h = ap pos (ground (arith, h))
same_int_iff (pos m) (negsuc n) h = absurd (ground (arith, h))
same_int_iff (negsuc m) (pos n) h = absurd (ground (arith, h))
same_int_iff (negsuc m) (negsuc n) h = ap negsuc (ground (arith, h))

-- What an accepted report satisfies, as far as it counts.
record IsCounted (r : CheckReport) : Type 0 where
  passed : same_int (counted "passed" r) (pos (actual "passed" r)) ≡ true
  failed : same_int (counted "failed" r) (pos (actual "failed" r)) ≡ true
  unknown : same_int (counted "unknown" r) (pos (actual "unknown" r)) ≡ true
  small : length r.checks ≤ 256
  known : any bad_check r.checks ≡ false
  shown : (r.status == "passed" && length r.checks == 0) ≡ false

accept-IsCounted :
    (s : Strings) (r : CheckReport) {summary : List (String × String)}
    → accept_report s r ≡ ok summary
    → IsCounted r
unfolding accept_report
accept-IsCounted s r h =
    let (header, h1) = reject-ok (bad_header r) invalid _ h in
    let (operation, h2) = reject-ok (bad_operation r) invalid _ h1 in
    let (times, h3) = reject-ok (bad_times r) invalid _ h2 in
    let (commit, h4) = reject-ok (bad_commit s r) invalid _ h3 in
    let (known, h5) = reject-ok (any bad_check r.checks) invalid _ h4 in
    let (three, h6) = reject-ok (length r.counts != 3) invalid _ h5 in
    let (counts, h7) = reject-ok (any (miscounted r) statuses) invalid _ h6 in
    let (shown, h8) = reject-ok (bad_pass r) invalid _ h7 in
    record {
      passed = ground (arith, counts);
      failed = ground (arith, counts);
      unknown = ground (arith, counts);
      small = ground (arith, header);
      known = known;
      shown = ground (arith, shown);
    }

other_text : (a b s : String) → (a == b) ≡ false → (s == a) ≡ true → (s == b) ≡ false
other_text a b s differs h = subst (λ x. (x == b) ≡ false) (sym ((eq_iff s a).0 h)) differs

-- The three counts divide the checks.
count-known :
    (cs : List Check)
    → any bad_check cs ≡ false
    → length cs
      ≡ count (has_status "passed") cs
        + count (has_status "failed") cs
        + count (has_status "unknown") cs
count-known [] h = omega arith
count-known (c ∷ cs) h = ground (
  arith,
  h,
  count-known cs,
  other_text "passed" "failed" c.status refl,
  other_text "passed" "unknown" c.status refl,
  other_text "failed" "unknown" c.status refl,
)

count-le : (p : Check → Bool) (cs : List Check) → count p cs ≤ length cs
count-le p [] = omega arith
count-le p (c ∷ cs) = ground (arith, count-le p cs)

all_of_count : (p : Check → Bool) (cs : List Check) → count p cs ≡ length cs → all p cs ≡ true
all_of_count p [] h = refl
all_of_count p (c ∷ cs) h = ground (arith, h, all_of_count p cs, count-le p cs)

differs : (a b : String) → (a == b) ≡ false → ¬ (a ≡ b)
differs a b h e = ground (arith, h, (eq_iff a b).1 e)

decoded-IsCounted :
    (s : Strings) (r : CheckReport) (out : Result ReportError (List (String × String)))
    {summary : List (String × String)}
    → accept_report s r ≡ out
    → attached r out ≡ ok (r, summary)
    → IsCounted r
decoded-IsCounted s r (err e) q h = absurd (ground (arith, h))
decoded-IsCounted s r (ok x) q h = accept-IsCounted s r q

accepted-IsCounted :
    (s : Strings) (r : CheckReport) {summary : List (String × String)}
    → parse_report s (some r) ≡ ok (r, summary)
    → IsCounted r
unfolding parse_report
accepted-IsCounted s r h = decoded-IsCounted s r (accept_report s r) refl h

-- The tests that the outcome `passed` has gone through.
outcome-tests :
    (r : CheckReport) (c : VerificationChecklist)
    → verification_outcome r c ≡ "passed"
    → (r.truncated ≡ false)
      × (exceeds (counted "unknown" r) 0 ≡ false)
      × (exceeds (counted "failed" r) 0 ≡ false)
      × (ltb (executed r) c.minimum_executed_checks ≡ false)
      × ((r.status == "passed") ≡ true)
unfolding verification_outcome
outcome-tests r c out = ground (
  arith,
  out,
  differs "unknown" "passed" refl,
  differs "failed" "passed" refl,
  differs "not_run" "passed" refl,
)

-- What the outcome `passed` says of a report that was accepted: it is not truncated, every check has
-- passed, and the checks are at least one and at least as many as the checklist asks for.
pub outcome-passed :
    (s : Strings) (r : CheckReport) (c : VerificationChecklist) {summary : List (String × String)}
    → parse_report s (some r) ≡ ok (r, summary)
    → verification_outcome r c ≡ "passed"
    → (r.truncated ≡ false)
      × (all (has_status "passed") r.checks ≡ true)
      × (c.minimum_executed_checks ≤ length r.checks)
      × (1 ≤ length r.checks)
outcome-passed s r c {summary} h out =
    let (whole, none_unknown, none_failed, enough, status) = outcome-tests r c out in
    let counts = accepted-IsCounted s r h in
    let unknown = same_int_iff (counted "unknown" r) (pos (actual "unknown" r)) counts.unknown in
    let failed = same_int_iff (counted "failed" r) (pos (actual "failed" r)) counts.failed in
    let passed = same_int_iff (counted "passed" r) (pos (actual "passed" r)) counts.passed in
    let no_unknown : actual "unknown" r ≡ 0 = ground (arith, rw unknown at none_unknown) in
    let no_failed : actual "failed" r ≡ 0 = ground (arith, rw failed at none_failed) in
    let full : actual "passed" r ≡ length r.checks =
      omega (arith, count-known r.checks counts.known, no_unknown, no_failed) in
    (
      whole,
      all_of_count (has_status "passed") r.checks full,
      ground (arith, enough, counts.small, full, ap to_bits passed, ap to_bits failed, no_failed),
      ground (arith, counts.shown, status),
    )
