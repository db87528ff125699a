-- ===== src/Capability/Rows.antt =====
-- What the rows of the support matrix say, and what they do not depend on.
use mathlib.Core.List.{Perm}
use aoa_conformance.Prelude.{
  ◌≡◌, refl, ap, Bool, false, ◌&&◌, List, [], ◌∷◌, ◌++◌, map, arith, if◌then◌else◌,
}
use aoa_conformance.Prelude.Lists.{any, any-perm, any-select, select-miss}
use aoa_conformance.Model.{Entry}
use aoa_conformance.Evidence.{Outcome, met, unmet, indeterminate, weigh_entries, LabelEvidence}
use aoa_conformance.Evidence.Weights.{
  passes, breaks_must, breaks_advisory, reference_status, weigh_entries-reference,
}
use aoa_conformance.Capability.{
  CapabilityState, supported, not_supported, not_tested, CapabilitySpec, capability_specs, matches,
  matched, row_for, resolve, capabilities,
}

-- Does the row's capability have an entry of this kind?
abbrev pub row_has : (Entry → Bool) → CapabilitySpec → List Entry → Bool
row_has p spec entries = any (λ (e : Entry). matches spec e.check.id && p e) entries

unfoldable pub reference_state : CapabilitySpec → List Entry → CapabilityState
reference_state spec entries =
    if row_has breaks_must spec entries
    then not_supported
    else if row_has passes spec entries
    then supported
    else if row_has breaks_advisory spec entries
    then not_supported
    else not_tested

state-row_for :
    (spec : CapabilitySpec) (ev : LabelEvidence) (o : Outcome)
    → (row_for spec ev o).state
      ≡ elim o [ met ↦ supported | unmet ↦ not_supported | indeterminate ↦ not_tested ]
unfolding row_for
state-row_for spec ev met = refl
state-row_for spec ev _ = refl

-- A row is read off four scans of the whole report: not supported if a MUST check of the row broke,
-- else supported if one passed, else not supported if another broke, else not tested.
pub resolve-state :
    (spec : CapabilitySpec) (entries : List Entry)
    → (resolve spec entries).state ≡ reference_state spec entries
unfolding resolve reference_state reference_status
resolve-state spec entries =
    let q = λ (e : Entry). matches spec e.check.id in
    let ev = weigh_entries (matched spec entries) in
    ground (
      arith,
      state-row_for spec ev ev.status,
      weigh_entries-reference (matched spec entries),
      any-select breaks_must q entries,
      any-select passes q entries,
      any-select breaks_advisory q entries,
    )

-- The order of the report does not change what a row says about the server.
resolve-perm :
    (spec : CapabilitySpec) (xs ys : List Entry)
    → Perm xs ys
    → (resolve spec xs).state ≡ (resolve spec ys).state
unfolding reference_state
resolve-perm spec xs ys h = ground (
  arith,
  resolve-state spec xs,
  resolve-state spec ys,
  any-perm (λ (e : Entry). matches spec e.check.id && breaks_must e) h,
  any-perm (λ (e : Entry). matches spec e.check.id && passes e) h,
  any-perm (λ (e : Entry). matches spec e.check.id && breaks_advisory e) h,
)

key-row_for :
    (spec : CapabilitySpec) (ev : LabelEvidence) (o : Outcome) → (row_for spec ev o).key ≡ spec.key
unfolding row_for
key-row_for spec ev met = refl
key-row_for spec ev _ = refl

module _ (e : Entry) (xs ys : List Entry) where
  rows_unmatched :
      (specs : List CapabilitySpec)
      → any (λ spec. matches spec e.check.id) specs ≡ false
      → map (λ s. resolve s (xs ++ e ∷ ys)) specs ≡ map (λ s. resolve s (xs ++ ys)) specs
  unfolding resolve
  rows_unmatched [] h = refl
  rows_unmatched (s ∷ specs) h =
      let rest = rows_unmatched specs (ground arith) in
      let here =
        ap (λ es. let ev = weigh_entries es in row_for s ev ev.status)
          (select-miss (λ (x : Entry). matches s x.check.id) xs ys {x = e} (ground arith)) in
      λ i. here i ∷ rest i

  -- An entry whose check no row of the list names changes nothing in the matrix, reasons included.
  capabilities-unmatched :
      any (λ spec. matches spec e.check.id) capability_specs ≡ false
      → capabilities (xs ++ e ∷ ys) ≡ capabilities (xs ++ ys)
  unfolding capabilities
  capabilities-unmatched h = rows_unmatched capability_specs h
