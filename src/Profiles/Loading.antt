-- ===== src/Profiles/Loading.antt =====
-- `LoadProfiles` accepts exactly the corpora whose surfaces and requirements are well formed.
use mathlib.Core.Path.{subst}
use aoa_conformance.Prelude.{
  sym, ap, ◌≡◌, refl, ◌↔◌, String, ℕ, suc, true, false, not, inl, inr, some, List, [], ◌∷◌, map,
  eq_iff, arith, is_empty, Option-cases,
}
use aoa_conformance.Prelude.Lists.{All}
use aoa_conformance.Prelude.Result.{Result, ok, err}
use aoa_conformance.Model.{contains, non_nil}
use aoa_conformance.Profiles.{
  ModelRequirement, ModelSurface, Profiles, ProfileError, resolve_label, slugs_of,
  has_valid_criticality, has_valid_rank, same_bool, validate_slugs, validate_requirement,
  validate_requirements, validate_surfaces, load_profiles,
}

abbrev pub names : List ModelSurface → List String
names ss = map (λ (s : ModelSurface). s.name) ss

abbrev pub NoRepeat : List String → Type 0
NoRepeat [] = Unit
NoRepeat (n ∷ ns) = (contains ns n ≡ false) × NoRepeat ns

-- No name is among those already seen.
abbrev AllFresh : List String → List String → Type 0
AllFresh seen ns = All (λ n. contains seen n ≡ false) ns

AllFresh-cons_iff :
    (n : String) (seen ns : List String)
    → AllFresh (n ∷ seen) ns ↔ ((contains ns n ≡ false) × AllFresh seen ns)
AllFresh-cons_iff n seen [] = (λ _. (refl, tt), λ _. tt)
AllFresh-cons_iff n seen (m ∷ ns) =
    let (to, from) = AllFresh-cons_iff n seen ns in
    (
      λ h.
          let (here, there) = to h.1 in
          (ground (arith, here, h.0, eq_iff n m, eq_iff m n), (ground (arith, h.0), there)),
      λ h. (
        ground (arith, h.0, h.1.0, eq_iff n m, eq_iff m n),
        from (ground (arith, h.0, eq_iff n m, eq_iff m n), h.1.1),
      ),
    )

module _ (known : List String) where
  -- A slug names a label that some registered check emits.
  abbrev pub Resolves : String → Type 0
  Resolves slug =
      (label : String) × (resolve_label slug ≡ some label) × (contains known label ≡ true)

  pub record IsValidRequirement (r : ModelRequirement) : Type 0 where
    pub one_of : same_bool (not (is_empty r.id)) (non_nil r.any_of) ≡ false
    pub resolved : All Resolves (slugs_of r)
    pub criticality_known : has_valid_criticality r ≡ true
    pub rank_known : has_valid_rank r ≡ true

  pub record IsValidSurface (s : ModelSurface) : Type 0 where
    pub named : is_empty s.name ≡ false
    pub requirements : All IsValidRequirement s.requires

  validate_slugs_iff :
      (slugs : List String) (surface : String)
      → (validate_slugs slugs surface known ≡ ok tt) ↔ All Resolves slugs
  unfolding validate_slugs
  validate_slugs_iff [] surface = (λ _. tt, λ _. refl)
  validate_slugs_iff (slug ∷ slugs) surface =
      let (to, from) = validate_slugs_iff slugs surface in
      elim (Option-cases (resolve_label slug)) [
        | inl missing ↦ (λ h. ground arith, λ h. ground (arith, h.0.1))
        | inr (label, found) ↦ (
          λ h. ((label, found, ground arith), to (ground arith)),
          λ h. ground (arith, h.0.1, h.0.2, from h.1),
        )
      ]

  validate_requirement_iff :
      (r : ModelRequirement) (surface : String)
      → (validate_requirement r surface known ≡ ok tt) ↔ IsValidRequirement r
  unfolding validate_requirement
  validate_requirement_iff r surface =
      let (to, from) = validate_slugs_iff (slugs_of r) surface in
      (
        λ h. record {
          one_of = ground arith;
          resolved = to (ground arith);
          criticality_known = ground arith;
          rank_known = ground arith;
        },
        λ v. ground (arith, v.one_of, v.criticality_known, v.rank_known, from v.resolved),
      )

  validate_requirements_iff :
      (rs : List ModelRequirement) (surface : String)
      → (validate_requirements rs surface known ≡ ok tt) ↔ All IsValidRequirement rs
  unfolding validate_requirements
  validate_requirements_iff [] surface = (λ _. tt, λ _. refl)
  validate_requirements_iff (r ∷ rs) surface =
      let (to, from) = validate_requirement_iff r surface in
      let (to', from') = validate_requirements_iff rs surface in
      (λ h. (to (ground arith), to' (ground arith)), λ v. ground (arith, from v.0, from' v.1))

  pub record IsValidFrom (seen : List String) (ss : List ModelSurface) : Type 0 where
    pub surfaces : All IsValidSurface ss
    pub distinct : NoRepeat (names ss)
    pub fresh : AllFresh seen (names ss)

  validate_surfaces_iff :
      (ss : List ModelSurface) (i : ℕ) (seen : List String)
      → (validate_surfaces ss i seen known ≡ ok tt) ↔ IsValidFrom seen ss
  unfolding validate_surfaces
  validate_surfaces_iff [] i seen =
      (λ _. record { surfaces = tt; distinct = tt; fresh = tt }, λ _. refl)
  validate_surfaces_iff (s ∷ ss) i seen =
      let (to, from) = validate_requirements_iff s.requires s.name in
      let (to', from') = validate_surfaces_iff ss (suc i) (s.name ∷ seen) in
      let (split, join) = AllFresh-cons_iff s.name seen (names ss) in
      (
        λ h.
            let rest = to' (ground arith) in
            record {
              surfaces = (
                record { named = ground arith; requirements = to (ground arith) },
                rest.surfaces,
              );
              distinct = ((split rest.fresh).0, rest.distinct);
              fresh = (ground arith, (split rest.fresh).1);
            },
        λ v.
            let (here, later) = v.surfaces in
            ground (
              arith,
              here.named,
              v.fresh.0,
              from here.requirements,
              from' (record {
                surfaces = later;
                distinct = v.distinct.1;
                fresh = join (v.distinct.0, v.fresh.1);
              }),
            ),
      )

-- Every surface has a name, no name comes twice, and every requirement is well formed: one of id
-- and any_of, slugs that resolve to labels of registered checks, a known criticality and rank.
pub record IsValidCorpus (known : List String) (p : Profiles) : Type 0 where
  pub surfaces : All (IsValidSurface known) p.surfaces
  pub distinct : NoRepeat (names p.surfaces)

AllFresh-nil : (ns : List String) → AllFresh [] ns
AllFresh-nil [] = tt
AllFresh-nil (n ∷ ns) = (refl, AllFresh-nil ns)

-- Loading yields a corpus exactly when the parser yielded that corpus and it is valid; an invalid
-- corpus is never returned.
pub load_profiles_iff :
    (parsed : Result ProfileError Profiles) (known : List String) (p : Profiles)
    → (load_profiles parsed known ≡ ok p) ↔ ((parsed ≡ ok p) × IsValidCorpus known p)
unfolding load_profiles
load_profiles_iff (err e) known p = (λ h. cc, λ h. cc (h.0))
load_profiles_iff (ok q) known p =
    let (to, from) = validate_surfaces_iff known q.surfaces 0 [] in
    (
      λ h.
          let v = to (ground arith) in
          let same : q ≡ p = ground arith in
          (
            ap ok same,
            subst (IsValidCorpus known) same
                (record { surfaces = v.surfaces; distinct = v.distinct }),
          ),
      λ h.
          let same : q ≡ p = ground (arith, h.0) in
          let v = subst (IsValidCorpus known) (sym same) h.1 in
          ground (
            arith,
            same,
            from (record {
              surfaces = v.surfaces;
              distinct = v.distinct;
              fresh = AllFresh-nil (names q.surfaces);
            }),
          ),
    )
