-- ===== src/Compat/Reference.antt =====
-- A verdict read off the outcomes of a surface's requirements by filters, not by the Go loops.
use aoa_conformance.Prelude.{
  String, ◌≡◌, refl, ap, sym, ◌∙◌, Bool, false, not, List, [], ◌∷◌, ◌++◌, ◌&&◌, ◌||◌, arith, map,
  if◌then◌else◌,
}
use aoa_conformance.Prelude.Lists.{select_none, any, select}
use aoa_conformance.Model.{Entry, non_nil}
use mathlib.Core.List.{append-nil, append_assoc}
use aoa_conformance.Profiles.{ModelRequirement, ModelSurface}
use aoa_conformance.Compat.{score_surface, n_a, verdict_of, no_slices, conclude_surface}
use aoa_conformance.Compat.{
  RequirementOutcome, Slices, Verdict, aligned, not_aligned, inconclusive, ModelVerdict, is_met,
  is_unmet, is_indeterminate, is_optional, requirement_outcome, file_outcome, file_all,
  evaluate_surface,
}

abbrev pub blocks : RequirementOutcome → Bool
blocks o = is_unmet o.status && not (is_optional o.requirement)

abbrev pub stalls : RequirementOutcome → Bool
stalls o = is_indeterminate o.status && not (is_optional o.requirement)

abbrev pub cautions : RequirementOutcome → Bool
cautions o = (is_met o.status && o.advisory) || (is_unmet o.status && is_optional o.requirement)

abbrev pub outcomes : List Entry → List ModelRequirement → List RequirementOutcome
outcomes entries rs = map (requirement_outcome entries) rs

module _ (o : RequirementOutcome) (os : List RequirementOutcome) (s : Slices) where
  file_outcome-unmet :
      (file_outcome o s).mand_unmet ++ select blocks os ≡ s.mand_unmet ++ select blocks (o ∷ os)
  unfolding file_outcome
  file_outcome-unmet = ground (arith, append_assoc s.mand_unmet (o ∷ []) (select blocks os))

  file_outcome-indet :
      (file_outcome o s).mand_indet ++ select stalls os ≡ s.mand_indet ++ select stalls (o ∷ os)
  unfolding file_outcome
  file_outcome-indet = ground (arith, append_assoc s.mand_indet (o ∷ []) (select stalls os))

  file_outcome-caveats :
      (file_outcome o s).caveats ++ select cautions os ≡ s.caveats ++ select cautions (o ∷ os)
  unfolding file_outcome
  file_outcome-caveats = ground (arith, append_assoc s.caveats (o ∷ []) (select cautions os))

module _ (entries : List Entry) where
  file_all-unmet :
      (rs : List ModelRequirement) (s : Slices)
      → (file_all entries rs s).mand_unmet ≡ s.mand_unmet ++ select blocks (outcomes entries rs)
  unfolding file_all
  file_all-unmet [] s = sym (append-nil s.mand_unmet)
  file_all-unmet (r ∷ rs) s =
      let o = requirement_outcome entries r in
      file_all-unmet rs (file_outcome o s) ∙ file_outcome-unmet o (outcomes entries rs) s

  file_all-indet :
      (rs : List ModelRequirement) (s : Slices)
      → (file_all entries rs s).mand_indet ≡ s.mand_indet ++ select stalls (outcomes entries rs)
  unfolding file_all
  file_all-indet [] s = sym (append-nil s.mand_indet)
  file_all-indet (r ∷ rs) s =
      let o = requirement_outcome entries r in
      file_all-indet rs (file_outcome o s) ∙ file_outcome-indet o (outcomes entries rs) s

  file_all-caveats :
      (rs : List ModelRequirement) (s : Slices)
      → (file_all entries rs s).caveats ≡ s.caveats ++ select cautions (outcomes entries rs)
  unfolding file_all
  file_all-caveats [] s = sym (append-nil s.caveats)
  file_all-caveats (r ∷ rs) s =
      let o = requirement_outcome entries r in
      file_all-caveats rs (file_outcome o s) ∙ file_outcome-caveats o (outcomes entries rs) s

-- What the loop leaves in its three slices.
abbrev filtered : List RequirementOutcome → Slices
filtered os = record {
  mand_unmet = select blocks os;
  mand_indet = select stalls os;
  caveats = select cautions os;
}

file_all-filtered :
    (entries : List Entry) (rs : List ModelRequirement)
    → file_all entries rs no_slices ≡ filtered (outcomes entries rs)
file_all-filtered entries rs = λ i. record {
  mand_unmet = file_all-unmet entries rs no_slices i;
  mand_indet = file_all-indet entries rs no_slices i;
  caveats = file_all-caveats entries rs no_slices i;
}

non_nil-select {ℓ} : {A : Type ℓ} (p : A → Bool) (xs : List A) → non_nil (select p xs) ≡ any p xs
non_nil-select p [] = refl
non_nil-select p (x ∷ xs) = ground (arith, non_nil-select p xs)

unfoldable pub reference_verdict : List RequirementOutcome → Verdict
reference_verdict os =
    if any blocks os then not_aligned else if any stalls os then inconclusive else aligned

-- A verdict that agrees with the filters.
abbrev pub AgreesWith : List RequirementOutcome → ModelVerdict → Type 0
AgreesWith os v =
    (v.verdict ≡ reference_verdict os)
    × (v.reasons ≡ (if any blocks os then select blocks os else select stalls os))
    × (v.caveats ≡ select cautions os)

conclude_surface-AgreesWith :
    (s : ModelSurface) (date : String) (os : List RequirementOutcome)
    → AgreesWith os (conclude_surface s date (filtered os))
unfolding conclude_surface reference_verdict
conclude_surface-AgreesWith s date os =
    ground (arith, non_nil-select blocks os, non_nil-select stalls os, select_none stalls os)

score_surface-AgreesWith :
    (entries : List Entry) (date : String) (s : ModelSurface) (rs : List ModelRequirement)
    → AgreesWith (outcomes entries rs) (score_surface entries date s rs)
unfolding score_surface reference_verdict
score_surface-AgreesWith entries date s [] = (refl, refl, refl)
score_surface-AgreesWith entries date s (r ∷ rs) =
    rw file_all-filtered (conclude_surface-AgreesWith s date (outcomes entries (r ∷ rs)))

evaluate_surface-scored :
    (entries : List Entry) (date : String) (s : ModelSurface)
    → s.unscorable ≡ false
    → evaluate_surface entries date s ≡ score_surface entries date s s.requires
unfolding evaluate_surface
evaluate_surface-scored entries date s h =
    ap
      (λ b.
        if b then verdict_of s date n_a [] no_slices else score_surface entries date s s.requires)
      h

-- Of a surface that can be scored: the verdict is not-aligned if some mandatory requirement is
-- unmet, else inconclusive if some mandatory one is indeterminate, else aligned; the reasons are
-- the unmet mandatory requirements, or else the indeterminate ones; the caveats are those met with
-- an advisory and those unmet but optional; all in the order of the requirements.
pub evaluate_surface-reference :
    (entries : List Entry) (date : String) (s : ModelSurface)
    → s.unscorable ≡ false
    → AgreesWith (outcomes entries s.requires) (evaluate_surface entries date s)
evaluate_surface-reference entries date s h =
    rw evaluate_surface-scored (score_surface-AgreesWith entries date s s.requires)

pub evaluate_surface-surface :
    (entries : List Entry) (date : String) (s : ModelSurface)
    → (evaluate_surface entries date s).surface ≡ s
unfolding evaluate_surface score_surface conclude_surface
evaluate_surface-surface entries date s = ground arith
