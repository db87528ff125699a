-- ===== src/Report.antt =====
-- conformance/report.go: the counts of a report.
pub mod Counts
use aoa_conformance.Prelude.{ℕ, ◌+◌, ◌<◌, Bool, List, [], ◌∷◌, if◌then◌else◌, ltb, String}
use aoa_conformance.Model.{Entry, Status, pass, fail, skip, error, SkipKind}
use aoa_conformance.Evidence.{is_unsupported}
use aoa_conformance.Capability.{Capability}
use aoa_conformance.Compat.{ModelVerdict}

abbrev pub report_schema_version : String
report_schema_version = "2"

pub record Report : Type 0 where
  pub schema_version : String
  pub target : String
  pub entries : List Entry
  pub capabilities : List Capability
  pub model_verdicts : List ModelVerdict

pub record Summary : Type 0 where
  pub passed : ℕ
  pub failed : ℕ
  pub skipped : ℕ
  pub errored : ℕ
  pub unsupported : ℕ
  pub untested : ℕ

abbrev pub zero_summary : Summary
zero_summary = record {
  passed = 0;
  failed = 0;
  skipped = 0;
  errored = 0;
  unsupported = 0;
  untested = 0;
}

count_result : Status → SkipKind → Summary → Summary
count_result pass k s = record s { passed = s.passed + 1 }
count_result fail k s = record s { failed = s.failed + 1 }
count_result skip k s =
    if is_unsupported k
    then record s { skipped = s.skipped + 1; unsupported = s.unsupported + 1 }
    else record s { skipped = s.skipped + 1; untested = s.untested + 1 }
count_result error k s = record s { errored = s.errored + 1 }

summarize_from : Summary → List Entry → Summary
summarize_from s [] = s
summarize_from s (e ∷ es) = summarize_from (count_result e.result.status e.result.skip_kind s) es

-- `Report.Summarize`
unfoldable pub summarize : Report → Summary
unfolding count_result summarize_from
summarize r = summarize_from zero_summary r.entries

-- `Summary.HasFailures`
unfoldable pub has_failures : Summary → Bool
has_failures s = ltb 0 s.failed
