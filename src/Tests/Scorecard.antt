-- ===== src/Tests/Scorecard.antt =====
-- Runs of the scorecard and of the client authentication.
use aoa_conformance.Prelude.{◌≡◌, refl, Bool, [], ◌∷◌}
use aoa_conformance.Model.{Entry}
use aoa_conformance.Evidence.{is_pass}
use aoa_conformance.Report.{Report}
use aoa_conformance.Compat.{aligned}
use aoa_conformance.Http.ClientAuth.{apply_client_auth, auth_client_secret_basic}
use aoa_conformance.Http.ClientAuth.Secret.{IsSent, apply_client_auth-IsSent}
use aoa_conformance.Http.Form.{form_string, values_of}
use aoa_conformance.Markdown.{sections}
use aoa_conformance.Markdown.Counting.{times}
use aoa_conformance.Markdown.Rows.{rows_of, rows_of-sections}
use aoa_conformance.Markdown.Text.{write, verdict_summary}
use aoa_conformance.Tests.{small_report, agent}

abbrev is_pass_entry : Entry → Bool
is_pass_entry e = is_pass e.result.status

rows_of-sections_example :
    times is_pass_entry (rows_of (sections small_report)) ≡ times is_pass_entry small_report
rows_of-sections_example = rows_of-sections is_pass_entry small_report

apply_client_auth-IsSent_example :
    IsSent
      (λ s. s)
      []
      auth_client_secret_basic
      "client-1"
      "secret"
      (apply_client_auth (λ s. s) [] auth_client_secret_basic "client-1" "secret")
unfolding values_of
apply_client_auth-IsSent_example =
    apply_client_auth-IsSent (λ s. s) [] auth_client_secret_basic "client-1" "secret" refl

verdict_summary_aligned :
    verdict_summary (record {
      surface = agent;
      verdict = aligned;
      data_date = "2026-01-01";
      reasons = [];
      caveats = [];
    })
    ≡ ""
unfolding verdict_summary
verdict_summary_aligned = refl

form_string_last :
    form_string (("grant_type", "a") ∷ ("grant_type", "b") ∷ []) []
    ≡ (record { name = "grant_type"; values = "b" ∷ [] } ∷ [])
unfolding form_string
form_string_last = refl

abbrev blank_report : Report
blank_report = record {
  schema_version = "2";
  target = "t";
  entries = [];
  capabilities = [];
  model_verdicts = [];
}

write_blank :
    write blank_report
    ≡ "# MCP Auth Conformance: t\n\n✅ 0 passed · ❌ 0 failed · ➖ 0 not supported · ⚪ 0 not tested · 🟠 0 errored\n\nLegend: ✅ pass · ❌ fail · ➖ not supported (the server does not offer it) · ⚪ not tested (no credential or flag supplied) · 🟠 error\n\n"
unfolding write
write_blank = refl
