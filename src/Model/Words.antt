-- ===== src/Model/Words.antt =====
-- The words that a report prints for the constants of conformance/check.go.
use aoa_conformance.Prelude.{String}
use aoa_conformance.Model.{Severity, must, should, may, Status, pass, fail, skip, error}
use aoa_conformance.Model.{SkipKind, unset, unsupported, untested}

abbrev pub severity_word : Severity → String
severity_word must = "MUST"
severity_word should = "SHOULD"
severity_word may = "MAY"

abbrev pub status_word : Status → String
status_word pass = "pass"
status_word fail = "fail"
status_word skip = "skip"
status_word error = "error"

abbrev pub skip_word : SkipKind → String
skip_word unset = ""
skip_word unsupported = "unsupported"
skip_word untested = "untested"
