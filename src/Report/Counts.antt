-- ===== src/Report/Counts.antt =====
-- The counts of a report add up, and count what they say.
use aoa_conformance.Prelude.{
  ℕ, ◌+◌, ◌≡◌, Bool, true, false, List, [], ◌∷◌, arith, ◌∙◌, if◌then◌else◌, not,
}
use aoa_conformance.Prelude.Lists.{length, select}
use aoa_conformance.Model.{Entry, pass, fail, skip, error}
use aoa_conformance.Evidence.{is_unsupported}
use aoa_conformance.Report.{Report, Summary, zero_summary, count_result, summarize_from, summarize}

abbrev pub failed : Entry → Bool
failed e = elim e.result.status [ fail ↦ true | _ ↦ false ]

abbrev pub passed : Entry → Bool
passed e = elim e.result.status [ pass ↦ true | _ ↦ false ]

abbrev pub errored : Entry → Bool
errored e = elim e.result.status [ error ↦ true | _ ↦ false ]

abbrev pub skipped : Entry → Bool
skipped e = elim e.result.status [ skip ↦ true | _ ↦ false ]

abbrev pub skipped_as : Bool → Entry → Bool
skipped_as absent e = elim e.result.status [
  | skip ↦ if is_unsupported e.result.skip_kind then absent else not absent
  | _ ↦ false
]

abbrev one_if : Bool → ℕ
one_if true = 1
one_if false = 0

abbrev pub count_by : (Entry → Bool) → List Entry → ℕ
count_by p es = length (select p es)

-- One count after the loop is its start and the matching entries.
module _ (e : Entry) (es : List Entry) (s : Summary) where
  count-passed :
      (count_result e.result.status e.result.skip_kind s).passed + count_by passed es
      ≡ s.passed + count_by passed (e ∷ es)
  unfolding count_result
  count-passed = ground arith

  count-failed :
      (count_result e.result.status e.result.skip_kind s).failed + count_by failed es
      ≡ s.failed + count_by failed (e ∷ es)
  unfolding count_result
  count-failed = ground arith

  count-errored :
      (count_result e.result.status e.result.skip_kind s).errored + count_by errored es
      ≡ s.errored + count_by errored (e ∷ es)
  unfolding count_result
  count-errored = ground arith

  count-skipped :
      (count_result e.result.status e.result.skip_kind s).skipped + count_by skipped es
      ≡ s.skipped + count_by skipped (e ∷ es)
  unfolding count_result
  count-skipped = ground arith

  count-unsupported :
      (count_result e.result.status e.result.skip_kind s).unsupported
        + count_by (skipped_as true) es
      ≡ s.unsupported + count_by (skipped_as true) (e ∷ es)
  unfolding count_result
  count-unsupported = ground arith

  count-untested :
      (count_result e.result.status e.result.skip_kind s).untested + count_by (skipped_as false) es
      ≡ s.untested + count_by (skipped_as false) (e ∷ es)
  unfolding count_result
  count-untested = ground arith

-- Each count of a summary, started from `s`, is that many entries more.
pub record Counts (s : Summary) (es : List Entry) (r : Summary) : Type 0 where
  pub of_passed : r.passed ≡ s.passed + count_by passed es
  pub of_failed : r.failed ≡ s.failed + count_by failed es
  pub of_skipped : r.skipped ≡ s.skipped + count_by skipped es
  pub of_errored : r.errored ≡ s.errored + count_by errored es
  pub of_unsupported : r.unsupported ≡ s.unsupported + count_by (skipped_as true) es
  pub of_untested : r.untested ≡ s.untested + count_by (skipped_as false) es

summarize_from-Counts : (s : Summary) (es : List Entry) → Counts s es (summarize_from s es)
unfolding summarize_from
summarize_from-Counts s [] = omega arith
summarize_from-Counts s (e ∷ es) =
    let c = summarize_from-Counts (count_result e.result.status e.result.skip_kind s) es in
    record {
      of_passed = c.of_passed ∙ count-passed e es s;
      of_failed = c.of_failed ∙ count-failed e es s;
      of_skipped = c.of_skipped ∙ count-skipped e es s;
      of_errored = c.of_errored ∙ count-errored e es s;
      of_unsupported = c.of_unsupported ∙ count-unsupported e es s;
      of_untested = c.of_untested ∙ count-untested e es s;
    }

-- A summary counts, for each status and each kind of skip, the entries of the report that have it.
pub summarize-Counts : (r : Report) → Counts zero_summary r.entries (summarize r)
unfolding summarize
summarize-Counts r = summarize_from-Counts zero_summary r.entries

abbrev Balanced : Summary → ℕ → Type 0
Balanced s n =
    (s.passed + s.failed + s.skipped + s.errored ≡ n) × (s.unsupported + s.untested ≡ s.skipped)

count_result-Balanced :
    (e : Entry) (s : Summary) (n : ℕ)
    → Balanced s n
    → Balanced (count_result e.result.status e.result.skip_kind s) (n + 1)
unfolding count_result
count_result-Balanced e s n b = ground arith

summarize_from-Balanced :
    (s : Summary) (es : List Entry) (n : ℕ)
    → Balanced s n
    → Balanced (summarize_from s es) (n + length es)
unfolding summarize_from
summarize_from-Balanced s [] n b = omega arith
summarize_from-Balanced s (e ∷ es) n b = omega (
  arith,
  summarize_from-Balanced (count_result e.result.status e.result.skip_kind s) es (n + 1)
      (count_result-Balanced e s n b),
)

-- No entry is lost: the four statuses add up to the entries of the report, and the two kinds of
-- skip add up to the skips.
summarize_total :
    (r : Report)
    → ((summarize r).passed + (summarize r).failed + (summarize r).skipped + (summarize r).errored
        ≡ length r.entries)
      × ((summarize r).unsupported + (summarize r).untested ≡ (summarize r).skipped)
unfolding summarize
summarize_total r = omega (arith, summarize_from-Balanced zero_summary r.entries 0 (omega arith))
