-- ===== src/Tests/Matrix.antt =====
-- Runs of the support matrix and of the counts on a small report.
use mathlib.Core.List.Perm
use mathlib.Core.List.{Perm}
use aoa_conformance.Prelude.{◌≡◌, refl, false, true, none, [], ◌∷◌}
use aoa_conformance.Prelude.Lists.{any}
use aoa_conformance.Model.{must, pass, unset}
use aoa_conformance.Capability.{CapabilitySpec, capability_specs, matches, cap_reason, resolve}
use aoa_conformance.Capability.Rows.{reference_state, resolve-state}
use aoa_conformance.Report.{Report, zero_summary, summarize, has_failures}
use aoa_conformance.Report.Counts.{Counts, summarize-Counts}
use aoa_conformance.Tests.{entry, small_report, passed_s256, failed_plain}

abbrev pkce_row : CapabilitySpec
pkce_row = record { key = "pkce-s256"; title = "PKCE S256"; prefixes = "pkce." ∷ [] }

resolve-state_example :
    (resolve pkce_row small_report).state ≡ reference_state pkce_row small_report
resolve-state_example = resolve-state pkce_row small_report

reversed : Perm (passed_s256 ∷ failed_plain ∷ []) (failed_plain ∷ passed_s256 ∷ [])
reversed = Perm.swap _ _ _

unmatched_smoke :
    any
      (λ spec. matches spec (entry "smoke.token" "OAuth 2.1" must pass unset).check.id)
      capability_specs
    ≡ false
unfolding matches
unmatched_smoke = refl

cap_reason-none : cap_reason none "no check found it" ≡ "no check found it"
unfolding cap_reason
cap_reason-none = refl

abbrev report : Report
report = record {
  schema_version = "2";
  target = "https://mcp.example/mcp";
  entries = small_report;
  capabilities = [];
  model_verdicts = [];
}

summarize-Counts_example : Counts zero_summary report.entries (summarize report)
summarize-Counts_example = summarize-Counts report

has_failures_one : has_failures (record zero_summary { failed = 1 }) ≡ true
unfolding has_failures
has_failures_one = refl
