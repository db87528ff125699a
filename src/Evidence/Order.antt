-- ===== src/Evidence/Order.antt =====
-- What the verdict does not depend on: the order of the entries, and skips that are no answer.
use mathlib.Core.List.{Perm}
use aoa_conformance.Prelude.{◌≡◌, true, false, List, ◌∷◌, ◌++◌, arith}
use aoa_conformance.Prelude.Lists.{any-append, any-perm}
use aoa_conformance.Model.{Entry}
use aoa_conformance.Evidence.{weigh_entries}
use aoa_conformance.Evidence.Weights.{
  passes, breaks_must, breaks_advisory, unanswered, reference_status, reference_advisory,
  weigh_entries-reference,
}

-- Reordering the report changes neither the status nor the advisory mark.
pub weigh_entries-perm :
    (xs ys : List Entry)
    → Perm xs ys
    → ((weigh_entries xs).status ≡ (weigh_entries ys).status)
      × ((weigh_entries xs).advisory ≡ (weigh_entries ys).advisory)
unfolding reference_status reference_advisory
weigh_entries-perm xs ys h = ground (
  arith,
  weigh_entries-reference xs,
  weigh_entries-reference ys,
  any-perm breaks_must h,
  any-perm breaks_advisory h,
  any-perm passes h,
)

module _ (e : Entry) (silent : unanswered e ≡ true) where
  unanswered-is-no-hit : (passes e ≡ false) × (breaks_must e ≡ false) × (breaks_advisory e ≡ false)
  unanswered-is-no-hit = ground arith

  -- A check that was skipped for want of a credential, wherever it stands in the report, changes
  -- neither the status nor the advisory mark.
  weigh_entries-untested :
      (xs ys : List Entry)
      → ((weigh_entries (xs ++ e ∷ ys)).status ≡ (weigh_entries (xs ++ ys)).status)
        × ((weigh_entries (xs ++ e ∷ ys)).advisory ≡ (weigh_entries (xs ++ ys)).advisory)
  unfolding reference_status reference_advisory
  weigh_entries-untested xs ys = ground (
    arith,
    unanswered-is-no-hit,
    weigh_entries-reference (xs ++ e ∷ ys),
    weigh_entries-reference (xs ++ ys),
    any-append breaks_must xs (e ∷ ys),
    any-append breaks_advisory xs (e ∷ ys),
    any-append passes xs (e ∷ ys),
    any-append breaks_must xs ys,
    any-append breaks_advisory xs ys,
    any-append passes xs ys,
  )
