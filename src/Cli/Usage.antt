-- ===== src/Cli/Usage.antt =====
-- What the values of the flags select.
use aoa_conformance.Prelude.{
  String, ◌∙◌, ◌≡◌, refl, ap, Bool, true, false, ◌⊎◌, inl, inr, Option, none, some, List, [], ◌∷◌,
  ◌==◌, ◌||◌, arith, is_empty, map, if◌then◌else◌,
}
use aoa_conformance.Prelude.Lists.{All, All-append}
use aoa_conformance.Prelude.Result.{Result, ok, err, ◌>>=◌}
use aoa_conformance.Prelude.Scan.{split_commas, trim_space}
use aoa_conformance.Model.{Profile, profile_core, profile_extended, profile_2026_07, Entry, non_nil}
use aoa_conformance.Profiles.{ModelSurface, Profiles, ProfileError}
use aoa_conformance.Profiles.Selection.{select_surfaces-all}
use aoa_conformance.Compat.{ModelVerdict, evaluate_models}
use aoa_conformance.Compat.Reference.{evaluate_surface-surface}
use aoa_conformance.Report.{Report}
use aoa_conformance.Cli.{
  consumed, no_profiles, asked_surfaces, Options, UsageError, profile_of, parse_tokens,
  parse_profiles, split_csv, attach, attach_model_verdicts,
}

abbrev pub is_known : Profile → Bool
is_known p = p == profile_core || p == profile_extended || p == profile_2026_07

-- What a --profile value gives: an error, or known profiles, at least one.
abbrev pub IsSelection : Result UsageError (List Profile) → Type 0
IsSelection x =
    ((e : UsageError) × (x ≡ err e))
    ⊎ ((ps : List Profile) × (x ≡ ok ps) × (non_nil ps ≡ true) × All (λ p. is_known p ≡ true) ps)

abbrev AllKnown : Result UsageError (List Profile) → Type 0
AllKnown (err e) = Unit
AllKnown (ok ps) = All (λ p. is_known p ≡ true) ps

abbrev OptionKnown : Option (List Profile) → Type 0
OptionKnown none = Unit
OptionKnown (some ps) = All (λ p. is_known p ≡ true) ps

OptionKnown-if :
    (b : Bool) (x y : Option (List Profile))
    → OptionKnown x
    → OptionKnown y
    → OptionKnown (if b then x else y)
OptionKnown-if true x y hx hy = hx
OptionKnown-if false x y hx hy = hy

profile_of-OptionKnown : (tok : String) → OptionKnown (profile_of tok)
profile_of-OptionKnown tok =
    OptionKnown-if (tok == "core") _ _ (refl, tt)
      (OptionKnown-if (tok == "extended") _ _ (refl, tt)
        (OptionKnown-if (tok == "2026-07") _ _ (refl, tt)
          (OptionKnown-if (is_empty tok) (some []) none tt tt)))

consumed-AllKnown :
    (o : Option (List Profile)) (tok : String) (rest : Result UsageError (List Profile))
    → OptionKnown o
    → AllKnown rest
    → AllKnown (consumed o tok rest)
unfolding consumed
consumed-AllKnown none tok rest ho hr = tt
consumed-AllKnown (some ps) tok (err e) ho hr = tt
consumed-AllKnown (some ps) tok (ok out) ho hr = All-append _ ps out (ho, hr)

parse_tokens-AllKnown : (toks : List String) → AllKnown (parse_tokens toks)
unfolding parse_tokens
parse_tokens-AllKnown [] = tt
parse_tokens-AllKnown (tok ∷ toks) =
    consumed-AllKnown (profile_of (trim_space tok)) tok (parse_tokens toks)
      (profile_of-OptionKnown (trim_space tok)) (parse_tokens-AllKnown toks)

IsSelection-if :
    (b : Bool) (x y : Result UsageError (List Profile))
    → IsSelection x
    → IsSelection y
    → IsSelection (if b then x else y)
IsSelection-if true x y hx hy = hx
IsSelection-if false x y hx hy = hy

abbrev nonempty_or : String → Result UsageError (List Profile) → Result UsageError (List Profile)
nonempty_or s x = x >>= λ out. if non_nil out then ok out else err (no_profiles s)

nonempty_or-IsSelection :
    (s : String) (x : Result UsageError (List Profile)) → AllKnown x → IsSelection (nonempty_or s x)
nonempty_or-IsSelection s (err e) h = inl (e, refl)
nonempty_or-IsSelection s (ok []) h = inl (no_profiles s, refl)
nonempty_or-IsSelection s (ok (p ∷ ps)) h = inr (p ∷ ps, refl, refl, h)

-- A value of --profile is refused, or selects at least one profile, all of them known ones; so a
-- misspelled profile never filters the registry down to nothing.
pub parse_profiles-IsSelection : (s : String) → IsSelection (parse_profiles s)
unfolding parse_profiles
parse_profiles-IsSelection s =
    IsSelection-if (is_empty (trim_space s)) _ _ (inr (_, refl, refl, (refl, (refl, (refl, tt))))) (
      nonempty_or-IsSelection s (parse_tokens (split_commas s))
        (parse_tokens-AllKnown (split_commas s)))

surfaces-evaluate_models :
    (entries : List Entry) (date : String) (ss : List ModelSurface)
    → map (λ (v : ModelVerdict). v.surface) (evaluate_models entries date ss) ≡ ss
unfolding evaluate_models
surfaces-evaluate_models entries date [] = refl
surfaces-evaluate_models entries date (s ∷ ss) =
    λ i. evaluate_surface-surface entries date s i ∷ surfaces-evaluate_models entries date ss i

-- A report with one verdict for each of the surfaces, read off the report that was scored.
record IsScored (rep : Report) (ss : List ModelSurface) (scored : Report) : Type 0 where
  same_entries : scored.entries ≡ rep.entries
  same_matrix : scored.capabilities ≡ rep.capabilities
  one_for_each : map (λ (v : ModelVerdict). v.surface) scored.model_verdicts ≡ ss

abbrev Attaches : Options → Profiles → Report → Type 0
Attaches o p rep =
    (scored : Report) × (attach_model_verdicts o (ok p) rep ≡ ok scored)
    × IsScored rep p.surfaces scored

-- Against a server, and with no --model, every surface of the corpus gets one verdict, in the
-- order of the corpus; the entries and the matrix stay as they are.
attach_model_verdicts-all :
    (o : Options) (p : Profiles) (rep : Report)
    → is_empty o.target ≡ false
    → non_nil (split_csv o.model) ≡ false
    → Attaches o p rep
unfolding attach_model_verdicts attach
attach_model_verdicts-all o p rep targeted unnarrowed =
    let asked : asked_surfaces o ≡ some ("all" ∷ []) = ground arith in
    (
      record rep { model_verdicts = evaluate_models rep.entries p.data_date p.surfaces },
      ap (attach rep (ok p)) asked
          ∙ ap
              (λ (chosen : Result ProfileError (List ModelSurface)). chosen >>= λ sel.
                ok (record rep { model_verdicts = evaluate_models rep.entries p.data_date sel }))
              (select_surfaces-all p),
      record {
        same_entries = refl;
        same_matrix = refl;
        one_for_each = surfaces-evaluate_models rep.entries p.data_date p.surfaces;
      },
    )
