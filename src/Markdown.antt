-- ===== src/Markdown.antt =====
-- conformance/report_markdown.go: the scorecard as a text. A write to the terminal is the text that
-- it appends; the iteration over the set of remaining profiles is sorted by the code itself.
pub mod Text
pub mod Counting
pub mod Rows
use aoa_conformance.Prelude.{
  String, Bool, true, false, not, List, [], ◌∷◌, ◌++◌, map, ◌==◌, if◌then◌else◌,
}
use aoa_conformance.Prelude.Lists.{select}
use aoa_conformance.Prelude.Sort.{sort_strings}
use aoa_conformance.Model.{
  Profile, profile_core, profile_extended, profile_2026_07, Entry, contains, non_nil,
}

-- The keys in the order of their first occurrence, less those already seen.
pub dedup : List String → List String → List String
dedup seen [] = []
dedup seen (k ∷ ks) = if contains seen k then dedup seen ks else k ∷ dedup (k ∷ seen) ks

-- `distinctRFCs`
pub distinct_rfcs : List Entry → List String
unfolding dedup
distinct_rfcs entries = sort_strings (dedup [] (map (λ (e : Entry). e.check.rfc) entries))

-- `profileOrder`
abbrev pub profile_order : List Profile
profile_order = profile_core ∷ profile_extended ∷ profile_2026_07 ∷ []

-- `profilesInReport`
pub profiles_in_report : List Entry → List Profile
unfolding dedup sort_strings
profiles_in_report entries =
    let present = map (λ (e : Entry). e.check.profile) entries in
    select (λ p. contains present p) profile_order
    ++ sort_strings (select (λ p. not (contains profile_order p)) (dedup [] present))

-- `filterByProfile`
abbrev pub filter_by_profile : List Entry → Profile → List Entry
filter_by_profile entries p = select (λ (e : Entry). e.check.profile == p) entries

-- The rows under one heading.
pub record Table : Type 0 where
  pub rfc : String
  pub rows : List Entry

pub record Section : Type 0 where
  pub profile : Profile
  pub tables : List Table

tables_from : List Entry → List String → List Table
tables_from entries [] = []
tables_from entries (rfc ∷ rfcs) =
    record { rfc = rfc; rows = select (λ (e : Entry). e.check.rfc == rfc) entries }
    ∷ tables_from entries rfcs

sections_from : List Entry → List Profile → List Section
unfolding tables_from
sections_from entries [] = []
sections_from entries (p ∷ ps) =
    let here = filter_by_profile entries p in
    let rest = sections_from entries ps in
    if non_nil here
    then record { profile = p; tables = tables_from here (distinct_rfcs here) } ∷ rest
    else rest

-- The two loops of `Write` over the entries.
pub sections : List Entry → List Section
unfolding sections_from profiles_in_report
sections entries = sections_from entries (profiles_in_report entries)
