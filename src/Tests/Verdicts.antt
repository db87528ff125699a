-- ===== src/Tests/Verdicts.antt =====
-- Runs of the weighing, of the corpus and of the verdicts on a small report.
use mathlib.Core.List.Perm
use mathlib.Core.List.{Perm, Memᴰ}
use aoa_conformance.Prelude.{◌≡◌, ◌≢◌, ◌⊎◌, ◌↔◌, refl, true, false, [], ◌∷◌}
use aoa_conformance.Prelude.Result.{Result, ok}
use aoa_conformance.Model.{
  effective_scopes, advertises_token_exchange, advertises_dpop, advertises_s256,
}
use aoa_conformance.Evidence.{met, weigh_entries, entry_outcome_word}
use aoa_conformance.Evidence.Weights.{
  reference_status, reference_advisory, reference_decider, weigh_entries-reference,
}
use aoa_conformance.Evidence.Order.{weigh_entries-perm}
use aoa_conformance.Evidence.Decider.{Supports, decided_by-Supports}
use aoa_conformance.Profiles.{
  Profiles, ProfileError, load_profiles, is_all, select_surfaces, resolve_label, known_labels,
  req_name,
}
use aoa_conformance.Profiles.Loading.{IsValidCorpus, load_profiles_iff, IsValidRequirement}
use aoa_conformance.Profiles.Selection.{Found, Unknown, select_surfaces_complete}
use aoa_conformance.Compat.{evaluate_surface, not_aligned}
use aoa_conformance.Compat.Reference.{AgreesWith, outcomes, evaluate_surface-reference}
use aoa_conformance.Compat.Answers.{not_aligned-needs-evidence}
use aoa_conformance.Discover.{nothing_resolved}
use aoa_conformance.Tests.{
  small_report, passed_s256, failed_plain, untested_flow, absent_dpop, corpus, known, agent,
  requires_pkce,
}

weigh_entries-reference_example :
    ((weigh_entries small_report).status ≡ reference_status small_report)
    × ((weigh_entries small_report).advisory ≡ reference_advisory small_report)
    × ((weigh_entries small_report).decided_by ≡ reference_decider small_report)
weigh_entries-reference_example = weigh_entries-reference small_report

reference_status_small : reference_status small_report ≡ met
unfolding reference_status
reference_status_small = refl

swapped : Perm (passed_s256 ∷ failed_plain ∷ []) (failed_plain ∷ passed_s256 ∷ [])
swapped = Perm.swap _ _ _

weigh_entries-perm_example :
    ((weigh_entries (passed_s256 ∷ failed_plain ∷ [])).status
      ≡ (weigh_entries (failed_plain ∷ passed_s256 ∷ [])).status)
    × ((weigh_entries (passed_s256 ∷ failed_plain ∷ [])).advisory
        ≡ (weigh_entries (failed_plain ∷ passed_s256 ∷ [])).advisory)
weigh_entries-perm_example =
    weigh_entries-perm (passed_s256 ∷ failed_plain ∷ []) (failed_plain ∷ passed_s256 ∷ []) swapped

decided_by-Supports_example :
    Memᴰ passed_s256 small_report × Supports (weigh_entries small_report).status passed_s256
unfolding reference_decider
decided_by-Supports_example =
    decided_by-Supports small_report passed_s256 ((weigh_entries-reference small_report).2)

abbrev parsed : Result ProfileError Profiles
parsed = ok corpus

load_profiles_iff_example :
    (load_profiles parsed known ≡ ok corpus) ↔ ((parsed ≡ ok corpus) × IsValidCorpus known corpus)
load_profiles_iff_example = load_profiles_iff parsed known corpus

select_surfaces_complete_example :
    ((is_all ("agent" ∷ []) ≡ true) × (select_surfaces corpus ("agent" ∷ []) ≡ ok corpus.surfaces))
    ⊎ ((is_all ("agent" ∷ []) ≡ false)
        × (Found corpus ("agent" ∷ []) ⊎ Unknown corpus ("agent" ∷ [])))
select_surfaces_complete_example = select_surfaces_complete corpus ("agent" ∷ [])

evaluate_surface-reference_example :
    AgreesWith
      (outcomes small_report agent.requires)
      (evaluate_surface small_report "2026-01-01" agent)
evaluate_surface-reference_example = evaluate_surface-reference small_report "2026-01-01" agent refl

valid_pkce : IsValidRequirement known requires_pkce
unfolding resolve_label
valid_pkce = record {
  one_of = refl;
  resolved = (("RFC 7636 (PKCE)", refl, refl), tt);
  criticality_known = refl;
  rank_known = refl;
}

not_aligned-needs-evidence_example :
    (evaluate_surface (untested_flow ∷ passed_s256 ∷ []) "2026-01-01" agent).verdict ≢ not_aligned
not_aligned-needs-evidence_example =
    not_aligned-needs-evidence (untested_flow ∷ passed_s256 ∷ []) refl known "2026-01-01" agent refl
      (valid_pkce, tt)

entry_outcome_word_absent : entry_outcome_word absent_dpop ≡ "skip:unsupported"
unfolding entry_outcome_word
entry_outcome_word_absent = refl

known_labels_small : known_labels (passed_s256.check ∷ []) ≡ ("RFC 7636 (PKCE)" ∷ [])
unfolding known_labels
known_labels_small = refl

req_name_id : req_name requires_pkce ≡ "rfc-7636"
unfolding req_name
req_name_id = refl

effective_scopes_fallback : effective_scopes [] ("mcp:read" ∷ []) ≡ ("mcp:read" ∷ [])
unfolding effective_scopes
effective_scopes_fallback = refl

advertises_nothing :
    (advertises_token_exchange nothing_resolved ≡ false)
    × (advertises_dpop nothing_resolved ≡ false)
    × (advertises_s256 nothing_resolved ≡ false)
unfolding advertises_token_exchange advertises_dpop advertises_s256
advertises_nothing = (refl, refl, refl)
