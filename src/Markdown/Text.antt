-- ===== src/Markdown/Text.antt =====
-- The text of the scorecard.
use Prim.Native.String
use aoa_conformance.Prelude.{ℕ, zero, suc, ◌-◌, String, List, [], ◌∷◌, map, ◌==◌, if◌then◌else◌}
use aoa_conformance.Prelude.Decimal.{itoa}
use aoa_conformance.Prelude.Text.{◌&◌, join}
use aoa_conformance.Model.{
  Profile, profile_core, profile_extended, profile_2026_07, Entry, Status, SkipKind, pass, fail,
  skip, error, unsupported, non_nil,
}
use aoa_conformance.Model.Words.{severity_word}
use aoa_conformance.Evidence.{outcome_word}
use aoa_conformance.Profiles.{req_name}
use aoa_conformance.Compat.{
  Verdict, aligned, not_aligned, inconclusive, n_a, ModelVerdict, RequirementOutcome,
}
use aoa_conformance.Capability.{CapabilityState, supported, not_supported, not_tested, Capability}
use aoa_conformance.Report.{Report, Summary, summarize}
use aoa_conformance.Markdown.{Table, Section, sections}

-- `statusIcon`
abbrev pub status_icon : Status → String
status_icon pass = "✅"
status_icon fail = "❌"
status_icon skip = "⚪"
status_icon error = "🟠"

-- `resultIcon`
abbrev pub result_icon : Status → SkipKind → String
result_icon skip unsupported = "➖"
result_icon s k = status_icon s

-- `titleOf`, with the table `profileTitle`.
abbrev pub title_of : Profile → String
title_of p =
    if p == profile_core
    then "MCP Core"
    else if p == profile_extended
    then "MCP Agent-Auth Extended"
    else if p == profile_2026_07
    then "MCP 2026-07-28"
    else p

abbrev pub state_word : CapabilityState → String
state_word supported = "supported"
state_word not_supported = "not supported"
state_word not_tested = "not tested"

-- `capabilityIcon`
abbrev pub capability_icon : CapabilityState → String
capability_icon supported = "✅"
capability_icon not_supported = "➖"
capability_icon not_tested = "⚪"

abbrev pub verdict_word : Verdict → String
verdict_word aligned = "aligned"
verdict_word not_aligned = "not-aligned"
verdict_word inconclusive = "inconclusive"
verdict_word n_a = "n/a"

concat_texts : List String → String
concat_texts [] = ""
concat_texts (t ∷ ts) = t & concat_texts ts

capability_row : Capability → String
capability_row c =
    "| "
    & capability_icon c.state
    & " | "
    & c.title
    & " | "
    & state_word c.state
    & " | "
    & c.reason
    & " |\n"

-- `writeCapabilities`
pub write_capabilities : List Capability → String
unfolding concat_texts capability_row
write_capabilities caps =
    "## Capability summary\n\n| | Capability | Status | Why |\n|---|---|---|---|\n"
    & concat_texts (map capability_row caps)
    & "\n"

entry_row : Entry → String
entry_row e =
    "| "
    & result_icon e.result.status e.result.skip_kind
    & " | `"
    & e.check.id
    & "` | "
    & severity_word e.check.severity
    & " | "
    & e.check.section
    & " | "
    & e.result.message
    & " |\n"

table_text : Table → String
unfolding concat_texts entry_row
table_text t =
    "### "
    & t.rfc
    & "\n\n| | Check | Severity | Section | Notes |\n|---|---|---|---|---|\n"
    & concat_texts (map entry_row t.rows)
    & "\n"

section_text : Section → String
unfolding concat_texts table_text
section_text s = "## " & title_of s.profile & "\n\n" & concat_texts (map table_text s.tables)

-- `caveatWhy`
abbrev pub caveat_why : RequirementOutcome → String
caveat_why c = if c.advisory then "met with a SHOULD/MAY shortfall" else "unmet — optional"

abbrev in_parentheses : List String → String
in_parentheses [] = ""
in_parentheses cav = "(" & join "; " cav & ")"

reasons_text : List RequirementOutcome → String
unfolding req_name
reasons_text rs =
    join "; "
      (map (λ (r : RequirementOutcome). req_name r.requirement & " " & outcome_word r.status) rs)

-- The switch of `verdictSummary`.
summary_of : Verdict → ModelVerdict → String
unfolding reasons_text
summary_of n_a v = "out of OAuth scope"
summary_of aligned v =
    if non_nil v.surface.requires
    then in_parentheses
        (map (λ (c : RequirementOutcome). req_name c.requirement & " " & caveat_why c) v.caveats)
    else "bearer-only"
summary_of _ v = reasons_text v.reasons

-- `verdictSummary`
unfoldable pub verdict_summary : ModelVerdict → String
unfolding summary_of
verdict_summary v = summary_of v.verdict v

spaces : ℕ → String
spaces zero = ""
spaces (suc n) = " " & spaces n

-- The verbs %-18s and %-14s.
pad : ℕ → String → String
unfolding spaces
pad width s = s & spaces (width - String.count s)

verdict_line : ModelVerdict → String
unfolding pad verdict_summary
verdict_line v =
    "  "
    & pad 18 v.surface.name
    & " "
    & pad 14 (verdict_word v.verdict)
    & " "
    & verdict_summary v
    & "\n"

-- `writeModelCompat`, which is called on a list that is not empty.
pub write_model_compat : List ModelVerdict → String
unfolding concat_texts verdict_line
write_model_compat [] = ""
write_model_compat (v ∷ vs) =
    "## Agent compatibility (data as of "
    & v.data_date
    & ")\n\n"
    & concat_texts (map verdict_line (v ∷ vs))
    & "\n"

head_line : String → Summary → String
unfolding itoa
head_line target s =
    "# MCP Auth Conformance: "
    & target
    & "\n\n"
    & "✅ "
    & itoa s.passed
    & " passed · ❌ "
    & itoa s.failed
    & " failed · ➖ "
    & itoa s.unsupported
    & " not supported · ⚪ "
    & itoa s.untested
    & " not tested · 🟠 "
    & itoa s.errored
    & " errored\n\n"
    & "Legend: ✅ pass · ❌ fail · ➖ not supported (the server does not offer it) · ⚪ not tested (no credential or flag supplied) · 🟠 error\n\n"

-- `Write`: the whole text.
unfoldable pub write : Report → String
unfolding head_line write_capabilities section_text write_model_compat summarize sections
write r =
    head_line r.target (summarize r)
    & (if non_nil r.capabilities then write_capabilities r.capabilities else "")
    & concat_texts (map section_text (sections r.entries))
    & write_model_compat r.model_verdicts
