-- ===== src/Compat/Answers.antt =====
-- When a requirement is met or unmet, and what a run without credentials can conclude.
use aoa_conformance.Prelude.{
  String, ◌≡◌, ◌≢◌, refl, Bool, true, false, List, [], ◌∷◌, ◌&&◌, ◌||◌, arith, is_empty,
  if◌then◌else◌, inl, inr, Option-cases, ◌==◌,
}
use aoa_conformance.Prelude.Lists.{any, all, select, All}
use aoa_conformance.Model.{Entry, non_nil}
use aoa_conformance.Profiles.{ModelRequirement, ModelSurface, resolve_label}
use aoa_conformance.Profiles.Loading.{IsValidRequirement}
use aoa_conformance.Evidence.{met, unmet, indeterminate}
use aoa_conformance.Evidence.Weights.{
  passes, breaks_must, breaks_advisory, unanswered, weigh_entries-reference, reference_status,
}
use aoa_conformance.Compat.{
  tally_slug, no_slugs, AnyOf, not_aligned, is_met, is_unmet, is_optional, label_outcome,
  requirement_outcome, tally_any_of, evaluate_surface,
}
use aoa_conformance.Compat.Reference.{
  outcomes, blocks, reference_verdict, evaluate_surface-reference,
}

module _ (entries : List Entry) where
  abbrev slug_met : String → Bool
  slug_met slug = is_met (label_outcome entries slug).status

  abbrev slug_unmet : String → Bool
  slug_unmet slug = is_unmet (label_outcome entries slug).status

  tally-any_met :
      (slugs : List String) (a : AnyOf)
      → (tally_any_of entries slugs a).any_met ≡ (a.any_met || any slug_met slugs)
  unfolding tally_any_of
  tally-any_met [] a = ground arith
  tally-any_met (slug ∷ slugs) a =
      ground (arith, tally-any_met slugs (tally_slug (label_outcome entries slug) slug a))

  tally-all_unmet :
      (slugs : List String) (a : AnyOf)
      → (tally_any_of entries slugs a).all_unmet ≡ (a.all_unmet && all slug_unmet slugs)
  unfolding tally_any_of
  tally-all_unmet [] a = ground arith
  tally-all_unmet (slug ∷ slugs) a =
      ground (arith, tally-all_unmet slugs (tally_slug (label_outcome entries slug) slug a))

  -- The status of a mandatory any-of group: met if one of its slugs is, unmet if all are unmet.
  any_of-status :
      (r : ModelRequirement)
      → is_empty r.id ≡ true
      → is_optional r ≡ false
      → (requirement_outcome entries r).status ≡ (
          if any slug_met r.any_of
          then met
          else if all slug_unmet r.any_of
          then unmet
          else indeterminate)
  unfolding requirement_outcome
  any_of-status r group mandatory =
      ground (arith, tally-any_met r.any_of no_slugs, tally-all_unmet r.any_of no_slugs)

  module _ (no_answers : all (λ e. passes e || unanswered e) entries ≡ true) where
    no_breaks :
        (p : Entry → Bool) (es : List Entry)
        → all (λ e. passes e || unanswered e) es ≡ true
        → (any breaks_must (select p es) ≡ false) × (any breaks_advisory (select p es) ≡ false)
    no_breaks p [] h = (refl, refl)
    no_breaks p (e ∷ es) h = ground (arith, no_breaks p es)

    label_outcome-ne-unmet : (slug : String) → slug_unmet slug ≡ false
    unfolding label_outcome reference_status
    label_outcome-ne-unmet slug = elim (Option-cases (resolve_label slug)) [
      | inl unknown ↦ ground arith
      | inr (label, found) ↦
          let q = λ (e : Entry). e.check.rfc == label in
          ground (
            arith,
            found,
            weigh_entries-reference (select q entries),
            no_breaks q entries no_answers,
          )
    ]

    all_unmet-non_nil : (slugs : List String) → non_nil slugs ≡ true → all slug_unmet slugs ≡ false
    all_unmet-non_nil [] h = cc
    all_unmet-non_nil (slug ∷ slugs) h = ground (arith, label_outcome-ne-unmet slug)

    requirement_outcome-ne-unmet :
        (known : List String) (r : ModelRequirement)
        → IsValidRequirement known r
        → is_unmet (requirement_outcome entries r).status ≡ false
    unfolding requirement_outcome
    requirement_outcome-ne-unmet known r v = ground (
      arith,
      v.one_of,
      label_outcome-ne-unmet r.id,
      all_unmet-non_nil r.any_of,
      tally-all_unmet r.any_of no_slugs,
    )

    no_blocks :
        (known : List String) (rs : List ModelRequirement)
        → All (IsValidRequirement known) rs
        → any blocks (outcomes entries rs) ≡ false
    no_blocks known [] v = refl
    no_blocks known (r ∷ rs) (here, later) =
        ground (arith, requirement_outcome-ne-unmet known r here, no_blocks known rs later)

    -- If every entry of a report is a pass or an untested skip, no surface with valid requirements
    -- is called not-aligned: a run is never held against a server for want of a credential.
    pub not_aligned-needs-evidence :
        (known : List String) (date : String) (s : ModelSurface)
        → s.unscorable ≡ false
        → All (IsValidRequirement known) s.requires
        → (evaluate_surface entries date s).verdict ≢ not_aligned
    unfolding reference_verdict
    not_aligned-needs-evidence known date s scored valid h =
        let (verdict, _, _) = evaluate_surface-reference entries date s scored in
        ground (arith, verdict, h, no_blocks known s.requires valid)
