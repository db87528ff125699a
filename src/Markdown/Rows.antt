-- ===== src/Markdown/Rows.antt =====
-- Every entry of a report has its row in the scorecard.
use aoa_conformance.Prelude.{
  String, ◌≡◌, refl, ap, ◌∙◌, Bool, true, false, not, inl, inr, List, [], ◌∷◌, ◌++◌, map, ◌==◌,
  arith, if◌then◌else◌, eq_iff, Bool-cases,
}
use aoa_conformance.Prelude.Lists.{All, select}
use aoa_conformance.Prelude.Sort.{sort_strings, sort_strings-perm}
use aoa_conformance.Model.{Entry, Profile, contains, non_nil}
use aoa_conformance.Markdown.{
  Table, Section, dedup, distinct_rfcs, profile_order, profiles_in_report, filter_by_profile,
  tables_from, sections_from, sections,
}
use aoa_conformance.Markdown.Counting.{
  times, times-append, times-perm, occurrences, occurrences-dedup, grouped, times-grouped,
}

-- The entries of the rows, from the top of the scorecard to its end.
abbrev pub table_rows : List Table → List Entry
table_rows [] = []
table_rows (t ∷ ts) = t.rows ++ table_rows ts

abbrev pub rows_of : List Section → List Entry
rows_of [] = []
rows_of (s ∷ ss) = table_rows s.tables ++ rows_of ss

module _ {A : Type 0} (key : A → String) where
  All-weaken :
      (k : String) (ks : List String) (xs : List A)
      → All (λ x. contains ks (key x) ≡ true) xs
      → All (λ x. contains (k ∷ ks) (key x) ≡ true) xs
  All-weaken k ks [] h = tt
  All-weaken k ks (x ∷ xs) (here, later) = (ground (arith, here), All-weaken k ks xs later)

  All-contains : (xs : List A) → All (λ x. contains (map key xs) (key x) ≡ true) xs
  All-contains [] = tt
  All-contains (x ∷ xs) =
      (ground (arith, eq_iff (key x) (key x)), All-weaken (key x) (map key xs) xs (All-contains xs))

  -- A list of keys that has each key of some elements once.
  All-once :
      (ks present : List String)
      → ((k : String) → occurrences k ks ≡ (if contains present k then 1 else 0))
      → (xs : List A) → All (λ x. contains present (key x) ≡ true) xs
      → All (λ x. occurrences (key x) ks ≡ 1) xs
  All-once ks present counts [] h = tt
  All-once ks present counts (x ∷ xs) (here, later) =
      (ground (arith, counts (key x), here), All-once ks present counts xs later)

abbrev rfc_of : Entry → String
rfc_of e = e.check.rfc

abbrev profile_of : Entry → String
profile_of e = e.check.profile

occurrences-distinct_rfcs :
    (es : List Entry) (k : String)
    → occurrences k (distinct_rfcs es) ≡ (if contains (map rfc_of es) k then 1 else 0)
unfolding distinct_rfcs
occurrences-distinct_rfcs es k =
    times-perm (λ x. x == k) (sort_strings-perm (dedup [] (map rfc_of es)))
    ∙ occurrences-dedup k [] (map rfc_of es)

occurrences-select :
    (q : String → Bool) (k : String) (ks : List String)
    → occurrences k (select q ks) ≡ (if q k then occurrences k ks else 0)
occurrences-select q k [] = ground arith
occurrences-select q k (x ∷ ks) = elim (Bool-cases (x == k)) [
  | inl same ↦
      let agree : q x ≡ q k = ap q ((eq_iff x k).0 same) in
      ground (arith, agree, occurrences-select q k ks)
  | inr other ↦ ground (arith, occurrences-select q k ks)
]

occurrences-profile_order :
    (k : String) → occurrences k profile_order ≡ (if contains profile_order k then 1 else 0)
unfolding dedup
occurrences-profile_order k = occurrences-dedup k [] profile_order

occurrences-profiles_in_report :
    (es : List Entry) (k : String)
    → occurrences k (profiles_in_report es) ≡ (if contains (map profile_of es) k then 1 else 0)
unfolding profiles_in_report
occurrences-profiles_in_report es k =
    let present = map profile_of es in
    let others = select (λ p. not (contains profile_order p)) (dedup [] present) in
    ground (
      arith,
      times-append (λ x. x == k) (select (λ p. contains present p) profile_order)
          (sort_strings others),
      times-perm (λ x. x == k) (sort_strings-perm others),
      occurrences-select (λ p. contains present p) k profile_order,
      occurrences-select (λ p. not (contains profile_order p)) k (dedup [] present),
      occurrences-profile_order k,
      occurrences-dedup k [] present,
    )

module _ (p : Entry → Bool) where
  table_rows-tables_from :
      (es : List Entry) (rfcs : List String)
      → table_rows (tables_from es rfcs) ≡ grouped rfc_of p rfcs es
  unfolding tables_from
  table_rows-tables_from es [] = refl
  table_rows-tables_from es (rfc ∷ rfcs) =
      ap (λ l. select (λ (e : Entry). e.check.rfc == rfc) es ++ l) (table_rows-tables_from es rfcs)

  times-table_rows :
      (es : List Entry) → times p (table_rows (tables_from es (distinct_rfcs es))) ≡ times p es
  times-table_rows es =
      ap (times p) (table_rows-tables_from es (distinct_rfcs es))
      ∙ times-grouped rfc_of p (distinct_rfcs es) es (
          All-once rfc_of (distinct_rfcs es) (map rfc_of es) (occurrences-distinct_rfcs es) es
            (All-contains rfc_of es))

  times-nil : (es : List Entry) → non_nil es ≡ false → times p es ≡ 0
  times-nil [] h = refl
  times-nil (e ∷ es) h = cc

  times-sections_from :
      (es : List Entry) (ps : List Profile)
      → times p (rows_of (sections_from es ps)) ≡ times p (grouped profile_of p ps es)
  unfolding sections_from
  times-sections_from es [] = refl
  times-sections_from es (q ∷ ps) =
      let here = filter_by_profile es q in
      let rest = sections_from es ps in
      let rows = table_rows (tables_from here (distinct_rfcs here)) in
      ground (
        arith,
        times-sections_from es ps,
        times-table_rows here,
        times-nil here,
        times-append p rows (rows_of rest),
        times-append p here (grouped profile_of p ps es),
      )

  -- The scorecard has a row for each entry of the report, as often as the report has it, whatever
  -- its profile and its label: of every kind of entry, the rows and the report have the same number.
  pub rows_of-sections : (es : List Entry) → times p (rows_of (sections es)) ≡ times p es
  unfolding sections
  rows_of-sections es =
      times-sections_from es (profiles_in_report es)
      ∙ times-grouped profile_of p (profiles_in_report es) es (
          All-once profile_of (profiles_in_report es) (map profile_of es)
            (occurrences-profiles_in_report es) es (All-contains profile_of es))
