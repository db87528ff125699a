-- ===== src/Compat.antt =====
-- conformance/model_verdict.go: the verdict per client surface. `outcomes` below are the values
-- that the Go loops append to their slices, in the same order.
pub mod Reference
pub mod Answers
use aoa_conformance.Prelude.{
  String, Bool, true, false, none, some, List, [], ◌∷◌, ◌++◌, map, ◌==◌, ◌&&◌, ◌||◌, not, is_empty,
  if◌then◌else◌,
}
use aoa_conformance.Prelude.Lists.{select}
use aoa_conformance.Prelude.Text.{◌&◌, join}
use aoa_conformance.Model.{Entry, non_nil}
use aoa_conformance.Profiles.{ModelRequirement, ModelSurface, resolve_label}
use aoa_conformance.Evidence.{
  Outcome, met, unmet, indeterminate, outcome_word, LabelEvidence, weigh_entries,
}

pub record RequirementOutcome : Type 0 where
  pub requirement : ModelRequirement
  pub status : Outcome
  pub advisory : Bool
  pub detail : String

pub data Verdict : Type 0 where
  aligned not_aligned inconclusive n_a : Verdict

pub record ModelVerdict : Type 0 where
  pub surface : ModelSurface
  pub verdict : Verdict
  pub data_date : String
  pub reasons : List RequirementOutcome
  pub caveats : List RequirementOutcome

abbrev pub is_met : Outcome → Bool
is_met met = true
is_met _ = false

abbrev pub is_unmet : Outcome → Bool
is_unmet unmet = true
is_unmet _ = false

abbrev pub is_indeterminate : Outcome → Bool
is_indeterminate indeterminate = true
is_indeterminate _ = false

-- `labelOutcome`
pub label_outcome : List Entry → String → LabelEvidence
label_outcome entries slug = elim (resolve_label slug) [
  | none ↦ record {
    status = indeterminate;
    advisory = false;
    detail = slug & ": unknown slug";
    decided_by = none;
  }
  | some label ↦ weigh_entries (select (λ (e : Entry). e.check.rfc == label) entries)
]

-- The variables of the loop over `req.AnyOf`.
pub record AnyOf : Type 0 where
  pub any_met : Bool
  pub all_unmet : Bool
  pub advisory : Bool
  pub details : List String

-- The body of that loop.
abbrev tally_slug : LabelEvidence → String → AnyOf → AnyOf
tally_slug e slug a = record {
  any_met = a.any_met || is_met e.status;
  all_unmet = a.all_unmet && is_unmet e.status;
  advisory = a.advisory || (is_met e.status && e.advisory);
  details = a.details ++ (slug & ":" & outcome_word e.status) ∷ [];
}

tally_any_of : List Entry → List String → AnyOf → AnyOf
tally_any_of entries [] a = a
tally_any_of entries (slug ∷ slugs) a =
    tally_any_of entries slugs (tally_slug (label_outcome entries slug) slug a)

abbrev no_slugs : AnyOf
no_slugs = record { any_met = false; all_unmet = true; advisory = false; details = [] }

abbrev pub is_optional : ModelRequirement → Bool
is_optional r = r.criticality == "optional"

-- `optional && status == "indeterminate"` counts as met.
abbrev pub relax : Bool → Outcome → Outcome
relax true indeterminate = met
relax b o = o

abbrev any_of_status : AnyOf → Outcome
any_of_status a = if a.any_met then met else if a.all_unmet then unmet else indeterminate

-- The outcome of an any-of group.
group_outcome : AnyOf → ModelRequirement → RequirementOutcome
group_outcome a r =
    let status = relax (is_optional r) (any_of_status a) in
    record {
      requirement = r;
      status = status;
      advisory = is_met status && a.advisory;
      detail = join ", " a.details;
    }

-- The outcome of a single slug.
slug_outcome : LabelEvidence → ModelRequirement → RequirementOutcome
slug_outcome e r = record {
  requirement = r;
  status = relax (is_optional r) e.status;
  advisory = e.advisory;
  detail = e.detail;
}

pub requirement_outcome : List Entry → ModelRequirement → RequirementOutcome
unfolding tally_any_of group_outcome slug_outcome
requirement_outcome entries r =
    if not (is_empty r.id)
    then slug_outcome (label_outcome entries r.id) r
    else group_outcome (tally_any_of entries r.any_of no_slugs) r

-- The three slices that the loop over `s.Requires` fills.
pub record Slices : Type 0 where
  pub mand_unmet : List RequirementOutcome
  pub mand_indet : List RequirementOutcome
  pub caveats : List RequirementOutcome

file_outcome : RequirementOutcome → Slices → Slices
file_outcome o s =
    if is_met o.status && o.advisory
    then record s { caveats = s.caveats ++ o ∷ [] }
    else if is_optional o.requirement
    then (if is_unmet o.status then record s { caveats = s.caveats ++ o ∷ [] } else s)
    else if is_unmet o.status
    then record s { mand_unmet = s.mand_unmet ++ o ∷ [] }
    else if is_indeterminate o.status
    then record s { mand_indet = s.mand_indet ++ o ∷ [] }
    else s

file_all : List Entry → List ModelRequirement → Slices → Slices
file_all entries [] s = s
file_all entries (r ∷ rs) s = file_all entries rs (file_outcome (requirement_outcome entries r) s)

abbrev no_slices : Slices
no_slices = record { mand_unmet = []; mand_indet = []; caveats = [] }

abbrev verdict_of :
    ModelSurface → String → Verdict → List RequirementOutcome → Slices → ModelVerdict
verdict_of s date verdict reasons slices = record {
  surface = s;
  verdict = verdict;
  data_date = date;
  reasons = reasons;
  caveats = slices.caveats;
}

-- The switch after the loop over `s.Requires`.
conclude_surface : ModelSurface → String → Slices → ModelVerdict
conclude_surface s date slices =
    if non_nil slices.mand_unmet
    then verdict_of s date not_aligned slices.mand_unmet slices
    else if non_nil slices.mand_indet
    then verdict_of s date inconclusive slices.mand_indet slices
    else verdict_of s date aligned [] slices

-- The cases of the switch for a surface that can be scored, on its requirements.
score_surface : List Entry → String → ModelSurface → List ModelRequirement → ModelVerdict
unfolding file_outcome file_all conclude_surface
score_surface entries date s [] = verdict_of s date aligned [] no_slices
score_surface entries date s rs = conclude_surface s date (file_all entries rs no_slices)

-- The body of the loop over the surfaces.
pub evaluate_surface : List Entry → String → ModelSurface → ModelVerdict
unfolding score_surface
evaluate_surface entries date s =
    if s.unscorable
    then verdict_of s date n_a [] no_slices
    else score_surface entries date s s.requires

-- `EvaluateModels`
unfoldable pub evaluate_models : List Entry → String → List ModelSurface → List ModelVerdict
evaluate_models entries date surfaces = map (evaluate_surface entries date) surfaces
