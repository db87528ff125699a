-- ===== src/Evidence.antt =====
-- conformance/model_verdict.go, `weighEntries`: what a set of report entries adds up to. The
-- pointers that the Go loop keeps are options, filled by the first entry of each kind.
pub mod Weights
pub mod Order
pub mod Decider
use aoa_conformance.Prelude.{
  String, Bool, true, false, Option, none, some, List, [], ◌∷◌, ◌&&◌, is_some, map, if◌then◌else◌,
}
use aoa_conformance.Prelude.Text.{◌&◌, join}
use aoa_conformance.Model.{Entry, Severity, must, pass, fail, skip, error}
use aoa_conformance.Model.{SkipKind, unsupported, untested}
use aoa_conformance.Model.{Status as CheckStatus}
use aoa_conformance.Model.Words.{status_word, skip_word}

-- The three words that an evidence or a requirement resolves to.
pub data Outcome : Type 0 where
  met unmet indeterminate : Outcome

abbrev pub outcome_word : Outcome → String
outcome_word met = "met"
outcome_word unmet = "unmet"
outcome_word indeterminate = "indeterminate"

pub record LabelEvidence : Type 0 where
  pub status : Outcome
  pub advisory : Bool
  pub detail : String
  pub decided_by : Option Entry

abbrev pub is_pass : CheckStatus → Bool
is_pass pass = true
is_pass _ = false

abbrev pub is_skip : CheckStatus → Bool
is_skip skip = true
is_skip _ = false

abbrev pub is_unsupported : SkipKind → Bool
is_unsupported unsupported = true
is_unsupported _ = false

abbrev pub is_must : Severity → Bool
is_must must = true
is_must _ = false

-- The local `broken`: failed, errored, or gated off by an absent capability.
abbrev pub is_broken_result : CheckStatus → SkipKind → Bool
is_broken_result fail k = true
is_broken_result error k = true
is_broken_result skip k = is_unsupported k
is_broken_result pass k = false

abbrev pub is_broken : Entry → Bool
is_broken e = is_broken_result e.result.status e.result.skip_kind

abbrev outcome_words : SkipKind → CheckStatus → String
outcome_words unsupported skip = "skip" & ":" & skip_word unsupported
outcome_words untested skip = "skip" & ":" & skip_word untested
outcome_words k s = status_word s

-- `entryOutcomeWord`
unfoldable pub entry_outcome_word : Entry → String
entry_outcome_word e = outcome_words e.result.skip_kind e.result.status

-- The four pointers of the loop.
pub record Pointers : Type 0 where
  pub must_broken : Option Entry
  pub advisory_broken : Option Entry
  pub first_pass : Option Entry
  pub first_untested : Option Entry

abbrev pub nothing_seen : Pointers
nothing_seen = record {
  must_broken = none;
  advisory_broken = none;
  first_pass = none;
  first_untested = none;
}

-- `if p == nil { p = e }`
abbrev pub keep_first : Option Entry → Entry → Option Entry
keep_first none e = some e
keep_first (some old) e = some old

-- One round of the loop: its switch, in the order of the cases.
pub observe : Entry → Pointers → Pointers
observe e p =
    if is_pass e.result.status
    then record p { first_pass = keep_first p.first_pass e }
    else if is_broken e && is_must e.check.severity
    then record p { must_broken = keep_first p.must_broken e }
    else if is_broken e
    then record p { advisory_broken = keep_first p.advisory_broken e }
    else if is_skip e.result.status
    then record p { first_untested = keep_first p.first_untested e }
    else p

pub observe_all : List Entry → Pointers → Pointers
observe_all [] p = p
observe_all (e ∷ es) p = observe_all es (observe e p)

-- The switch after the loop: on `mustBroken`, `firstPass`, `advisoryBroken`, `firstUntested`.
decide : Option Entry → Option Entry → Option Entry → Option Entry → String → LabelEvidence
decide (some e) _ _ _ detail = record {
  status = unmet;
  advisory = false;
  detail = detail;
  decided_by = some e;
}
decide none (some e) advisory _ detail = record {
  status = met;
  advisory = is_some advisory;
  detail = detail;
  decided_by = some e;
}
decide none none (some e) _ detail = record {
  status = unmet;
  advisory = false;
  detail = detail;
  decided_by = some e;
}
decide none none none (some e) detail = record {
  status = indeterminate;
  advisory = false;
  detail = detail;
  decided_by = some e;
}
decide none none none none detail = record {
  status = indeterminate;
  advisory = false;
  detail = "not run";
  decided_by = none;
}

pub conclude : Pointers → String → LabelEvidence
unfolding decide
conclude p detail = decide p.must_broken p.first_pass p.advisory_broken p.first_untested detail

abbrev pub entry_detail : Entry → String
entry_detail e = e.check.id & "=" & entry_outcome_word e

pub weigh_entries : List Entry → LabelEvidence
weigh_entries es = conclude (observe_all es nothing_seen) (join ", " (map entry_detail es))
