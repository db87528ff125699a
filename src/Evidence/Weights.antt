-- ===== src/Evidence/Weights.antt =====
-- What the loop of `weighEntries` leaves in its four pointers: the first entry of each kind.
use aoa_conformance.Prelude.{
  ◌≡◌, refl, Bool, false, not, Option, none, some, List, [], ◌∷◌, ◌&&◌, arith, ◌∙◌, if◌then◌else◌,
  is_some,
}
use aoa_conformance.Prelude.Lists.{any, first}
use aoa_conformance.Model.{Entry, Status, skip, SkipKind}
use aoa_conformance.Evidence.{
  Outcome, met, unmet, indeterminate, weigh_entries, conclude, Pointers, nothing_seen, observe,
  observe_all, is_pass, is_must, is_unsupported, is_broken,
}

abbrev pub passes : Entry → Bool
passes e = is_pass e.result.status

abbrev pub breaks_must : Entry → Bool
breaks_must e = is_broken e && is_must e.check.severity

abbrev pub breaks_advisory : Entry → Bool
breaks_advisory e = is_broken e && not (is_must e.check.severity)

abbrev unanswered_result : Status → SkipKind → Bool
unanswered_result skip k = not (is_unsupported k)
unanswered_result _ k = false

-- A skip that is no answer about the target.
abbrev pub unanswered : Entry → Bool
unanswered e = unanswered_result e.result.status e.result.skip_kind

abbrev pub or_else : Option Entry → Option Entry → Option Entry
or_else none o = o
or_else (some e) o = some e

-- One round of the loop, pointer by pointer.
module _ (e : Entry) (es : List Entry) (p : Pointers) where
  observe-must_broken :
      or_else (observe e p).must_broken (first breaks_must es)
      ≡ or_else p.must_broken (first breaks_must (e ∷ es))
  unfolding observe
  observe-must_broken = ground arith

  observe-advisory_broken :
      or_else (observe e p).advisory_broken (first breaks_advisory es)
      ≡ or_else p.advisory_broken (first breaks_advisory (e ∷ es))
  unfolding observe
  observe-advisory_broken = ground arith

  observe-first_pass :
      or_else (observe e p).first_pass (first passes es)
      ≡ or_else p.first_pass (first passes (e ∷ es))
  unfolding observe
  observe-first_pass = ground arith

  observe-first_untested :
      or_else (observe e p).first_untested (first unanswered es)
      ≡ or_else p.first_untested (first unanswered (e ∷ es))
  unfolding observe
  observe-first_untested = ground arith

-- The loop from any pointers.
must_broken-observe_all :
    (es : List Entry) (p : Pointers)
    → (observe_all es p).must_broken ≡ or_else p.must_broken (first breaks_must es)
unfolding observe_all
must_broken-observe_all [] p = ground arith
must_broken-observe_all (e ∷ es) p =
    must_broken-observe_all es (observe e p) ∙ observe-must_broken e es p

advisory_broken-observe_all :
    (es : List Entry) (p : Pointers)
    → (observe_all es p).advisory_broken ≡ or_else p.advisory_broken (first breaks_advisory es)
unfolding observe_all
advisory_broken-observe_all [] p = ground arith
advisory_broken-observe_all (e ∷ es) p =
    advisory_broken-observe_all es (observe e p) ∙ observe-advisory_broken e es p

first_pass-observe_all :
    (es : List Entry) (p : Pointers)
    → (observe_all es p).first_pass ≡ or_else p.first_pass (first passes es)
unfolding observe_all
first_pass-observe_all [] p = ground arith
first_pass-observe_all (e ∷ es) p =
    first_pass-observe_all es (observe e p) ∙ observe-first_pass e es p

first_untested-observe_all :
    (es : List Entry) (p : Pointers)
    → (observe_all es p).first_untested ≡ or_else p.first_untested (first unanswered es)
unfolding observe_all
first_untested-observe_all [] p = ground arith
first_untested-observe_all (e ∷ es) p =
    first_untested-observe_all es (observe e p) ∙ observe-first_untested e es p

-- The four questions that the verdict is read from.
unfoldable pub reference_status : List Entry → Outcome
reference_status es =
    if any breaks_must es
    then unmet
    else if any passes es
    then met
    else if any breaks_advisory es
    then unmet
    else indeterminate

unfoldable pub reference_advisory : List Entry → Bool
reference_advisory es = not (any breaks_must es) && any passes es && any breaks_advisory es

unfoldable pub reference_decider : List Entry → Option Entry
reference_decider es =
    or_else (first breaks_must es)
      (or_else (first passes es) (or_else (first breaks_advisory es) (first unanswered es)))

pub is_some-first {ℓ} : {A : Type ℓ} (p : A → Bool) (xs : List A) → is_some (first p xs) ≡ any p xs
is_some-first p [] = refl
is_some-first p (x ∷ xs) = ground (arith, is_some-first p xs)

module _ (es : List Entry) where
  final_pointers : observe_all es nothing_seen ≡ record {
    must_broken = first breaks_must es;
    advisory_broken = first breaks_advisory es;
    first_pass = first passes es;
    first_untested = first unanswered es;
  }
  final_pointers = λ i. record {
    must_broken = must_broken-observe_all es nothing_seen i;
    advisory_broken = advisory_broken-observe_all es nothing_seen i;
    first_pass = first_pass-observe_all es nothing_seen i;
    first_untested = first_untested-observe_all es nothing_seen i;
  }

  -- The loop and its final switch agree with four independent scans of the entries: the status,
  -- the advisory mark, and the entry that decided.
  pub weigh_entries-reference :
      ((weigh_entries es).status ≡ reference_status es)
      × ((weigh_entries es).advisory ≡ reference_advisory es)
      × ((weigh_entries es).decided_by ≡ reference_decider es)
  unfolding weigh_entries conclude reference_status reference_advisory reference_decider
  weigh_entries-reference = rw final_pointers (
      ground (
        arith,
        is_some-first breaks_must es,
        is_some-first breaks_advisory es,
        is_some-first passes es,
      ))
