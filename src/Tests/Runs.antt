-- ===== src/Tests/Runs.antt =====
-- Runs of the command line's functions.
use aoa_conformance.Prelude.{◌≡◌, refl, true, false, ◌&&◌, not, [], ◌∷◌, if◌then◌else◌}
use aoa_conformance.Prelude.Lists.{any}
use aoa_conformance.Report.{Report}
use aoa_conformance.Cli.{
  Options, finish, parse_profiles, split_csv, split_scopes, resolve_options_from,
}
use aoa_conformance.Cli.Exit.{is_fatal, finish-fatal}
use aoa_conformance.Cli.Usage.{IsSelection, parse_profiles-IsSelection}
use aoa_conformance.Tests.{small_report}

abbrev report : Report
report = record {
  schema_version = "2";
  target = "https://mcp.example/mcp";
  entries = small_report;
  capabilities = [];
  model_verdicts = [];
}

finish-fatal_example :
    finish true true report ≡ (if true && not (any (is_fatal true) report.entries) then 0 else 1)
finish-fatal_example = finish-fatal true true report

parse_profiles-IsSelection_example : IsSelection (parse_profiles "core, 2026-07")
parse_profiles-IsSelection_example = parse_profiles-IsSelection "core, 2026-07"

abbrev options : Options
options = record {
  target = "https://mcp.example/mcp";
  issuer = "";
  client_id = "";
  client_secret = "";
  scope = "mcp:read mcp:write";
  profile = "";
  strict = false;
  token_auth_method = "";
  registration_token = "";
  client_name = "";
  model = " , ";
}

split_csv_blank : split_csv " , " ≡ []
unfolding split_csv
split_csv_blank = refl

resolve_options_scopes : (resolve_options_from options).scopes ≡ ("mcp:read" ∷ "mcp:write" ∷ [])
unfolding resolve_options_from split_scopes
resolve_options_scopes = refl
