-- ===== src/Evidence/Decider.antt =====
-- The entry that a verdict hangs on.
use mathlib.Core.List.{Memᴰ}
use aoa_conformance.Prelude.{
  ◌≡◌, refl, ◌||◌, ◌↔◌, true, none, some, List, [], ◌∷◌, arith, Option-cases, inl, inr, ◌∙◌, sym,
}
use aoa_conformance.Prelude.Lists.{first, first-Mem}
use aoa_conformance.Model.{Entry}
use aoa_conformance.Evidence.{weigh_entries, Outcome, met, unmet, indeterminate, is_broken}
use aoa_conformance.Evidence.Weights.{
  passes, breaks_must, breaks_advisory, unanswered, reference_status, reference_decider,
  weigh_entries-reference, is_some-first,
}

-- Why an entry may decide for an outcome.
abbrev pub Supports : Outcome → Entry → Type 0
Supports met e = passes e ≡ true
Supports unmet e = is_broken e ≡ true
Supports indeterminate e = unanswered e ≡ true

module _ (es : List Entry) {e : Entry} where
  Supports-at :
      {o : Outcome}
      → reference_status es ≡ o
      → Memᴰ e es × Supports o e
      → Memᴰ e es × Supports (reference_status es) e
  Supports-at s h = rw s h

  -- By the kind of the entry that decides.
  Supports-reference : reference_decider es ≡ some e → Memᴰ e es × Supports (reference_status es) e
  unfolding reference_decider reference_status
  Supports-reference h =
      let must = is_some-first breaks_must es in
      let pass = is_some-first passes es in
      let advisory = is_some-first breaks_advisory es in
      elim (Option-cases (first breaks_must es)) [
        | inr (x, found) ↦
            let (m, hit) = first-Mem breaks_must es {x = e} (ground arith) in
            Supports-at {o = unmet} (ground arith) (m, ground arith)
        | inl no_must ↦ elim (Option-cases (first passes es)) [
          | inr (x, found) ↦
              let (m, hit) = first-Mem passes es {x = e} (ground arith) in
              Supports-at {o = met} (ground arith) (m, hit)
          | inl no_pass ↦ elim (Option-cases (first breaks_advisory es)) [
            | inr (x, found) ↦
                let (m, hit) = first-Mem breaks_advisory es {x = e} (ground arith) in
                Supports-at {o = unmet} (ground arith) (m, ground arith)
            | inl no_advisory ↦
                let (m, hit) = first-Mem unanswered es {x = e} (ground arith) in
                Supports-at {o = indeterminate} (ground arith) (m, hit)
          ]
        ]
      ]

-- The deciding entry is one of the report's, and is of the kind that its outcome rests on: a pass
-- for met, a failure, an error or an absent capability for unmet, an untested skip for
-- indeterminate.
pub decided_by-Supports :
    (es : List Entry) (e : Entry)
    → (weigh_entries es).decided_by ≡ some e
    → Memᴰ e es × Supports (weigh_entries es).status e
decided_by-Supports es e h =
    let (status, _, decider) = weigh_entries-reference es in
    rw status (Supports-reference es (sym decider ∙ h))

some_kind : (e : Entry) → (breaks_must e || passes e || breaks_advisory e || unanswered e) ≡ true
some_kind e = ground arith

-- No entry decides exactly when no entry matched.
decided_by-none_iff : (es : List Entry) → ((weigh_entries es).decided_by ≡ none) ↔ (es ≡ [])
unfolding reference_decider
decided_by-none_iff [] = (λ _. refl, λ _. (weigh_entries-reference []).2)
decided_by-none_iff (e ∷ es) =
    (ground (arith, weigh_entries-reference (e ∷ es), some_kind e), λ h. cc)
