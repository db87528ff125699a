-- ===== src/Profiles.antt =====
-- conformance/model_profiles.go: the client surfaces and their requirements, how a corpus is
-- validated, and how surfaces are selected by name. The YAML parser is a parameter; each
-- `fmt.Errorf` is a constructor of `ProfileError` with the values that it formats.
pub mod Loading
pub mod Selection
use aoa_conformance.Prelude.{
  ℕ, suc, String, Bool, true, false, Option, none, some, List, [], ◌∷◌, map, ◌==◌, ◌||◌, not,
  is_empty, if◌then◌else◌,
}
use aoa_conformance.Prelude.Lists.{select}
use aoa_conformance.Prelude.Result.{Result, ok, err, ◌>>=◌}
use aoa_conformance.Prelude.Text.{◌&◌, join}
use aoa_conformance.Model.{CheckMeta, contains, non_nil}

pub record ModelRequirement : Type 0 where
  pub id : String
  pub any_of : List String
  pub criticality : String
  pub rationale : String
  pub source : String
  pub source_rank : String

pub record ModelSurface : Type 0 where
  pub name : String
  pub vendor : String
  pub display : String
  pub note : String
  pub unscorable : Bool
  pub requires : List ModelRequirement

pub record Profiles : Type 0 where
  pub version : ℕ
  pub data_date : String
  pub surfaces : List ModelSurface

pub data ProfileError : Type 0 where
  parse_failed : String → ProfileError
  empty_name : ℕ → ProfileError
  duplicate_name : String → ProfileError
  not_exactly_one : String → ProfileError
  unknown_slug : String → String → ProfileError
  unregistered_label bad_criticality bad_rank : String → String → String → ProfileError
  unknown_surface : String → List String → ProfileError

-- `labelAlias`
abbrev pub label_alias : List (String × String)
label_alias =
    ("oauth-2.1", "OAuth 2.1")
    ∷ ("rfc-7636", "RFC 7636 (PKCE)")
    ∷ ("rfc-8414", "RFC 8414")
    ∷ ("rfc-8707", "RFC 8707")
    ∷ ("rfc-9728", "RFC 9728")
    ∷ ("cimd", "CIMD")
    ∷ ("sep-837", "SEP-837")
    ∷ []

abbrev alias_of : String → List (String × String) → Option String
alias_of slug [] = none
alias_of slug ((k, v) ∷ rest) = if k == slug then some v else alias_of slug rest

unfoldable pub resolve_label : String → Option String
resolve_label slug = alias_of slug label_alias

-- `KnownLabels`: the set as a list, possibly with repetitions.
unfoldable pub known_labels : List CheckMeta → List String
known_labels checks = select (λ l. not (is_empty l)) (map (λ (c : CheckMeta). c.rfc) checks)

-- `reqName`
unfoldable pub req_name : ModelRequirement → String
req_name r = if not (is_empty r.id) then r.id else "any_of[" & join "," r.any_of & "]"

abbrev pub Checked : Type 0
Checked = Result ProfileError (Unit {0})

-- The loop over the slugs of a requirement.
validate_slugs : List String → String → List String → Checked
validate_slugs [] surface known = ok tt
validate_slugs (slug ∷ slugs) surface known =
    let rest = validate_slugs slugs surface known in
    elim (resolve_label slug) [
      | none ↦ err (unknown_slug surface slug)
      | some label ↦
          if contains known label then rest else err (unregistered_label surface slug label)
    ]

abbrev pub slugs_of : ModelRequirement → List String
slugs_of r = if not (is_empty r.id) then r.id ∷ [] else r.any_of

abbrev pub has_valid_criticality : ModelRequirement → Bool
has_valid_criticality r = r.criticality == "mandatory" || r.criticality == "optional"

abbrev pub has_valid_rank : ModelRequirement → Bool
has_valid_rank r =
    r.source_rank == "primary" || r.source_rank == "secondary" || r.source_rank == "observed"

-- `hasID == hasAny`, for the two tests at the head of `validateRequirement`.
abbrev pub same_bool : Bool → Bool → Bool
same_bool true b = b
same_bool false b = not b

pub validate_requirement : ModelRequirement → String → List String → Checked
unfolding validate_slugs
validate_requirement r surface known =
    if same_bool (not (is_empty r.id)) (non_nil r.any_of)
    then err (not_exactly_one surface)
    else (validate_slugs (slugs_of r) surface known >>= λ _.
        if not (has_valid_criticality r)
        then err (bad_criticality surface (req_name r) r.criticality)
        else if not (has_valid_rank r)
        then err (bad_rank surface (req_name r) r.source_rank)
        else ok tt)

validate_requirements : List ModelRequirement → String → List String → Checked
validate_requirements [] surface known = ok tt
validate_requirements (r ∷ rs) surface known =
    validate_requirement r surface known >>= λ _. validate_requirements rs surface known

-- The loop over the surfaces: `i` is the index, `seen` the names so far.
validate_surfaces : List ModelSurface → ℕ → List String → List String → Checked
validate_surfaces [] i seen known = ok tt
validate_surfaces (s ∷ ss) i seen known =
    let rest = validate_surfaces ss (suc i) (s.name ∷ seen) known in
    if is_empty s.name
    then err (empty_name i)
    else if contains seen s.name
    then err (duplicate_name s.name)
    else (validate_requirements s.requires s.name known >>= λ _. rest)

-- `LoadProfiles`, with the result of the YAML parser for its data.
pub load_profiles : Result ProfileError Profiles → List String → Result ProfileError Profiles
unfolding validate_surfaces validate_requirements
load_profiles parsed known = parsed >>= λ p. validate_surfaces p.surfaces 0 [] known >>= λ _. ok p

-- `byName`: the last surface of a name counts, as in a map that is filled in order.
by_name : List ModelSurface → String → Option ModelSurface
by_name [] n = none
by_name (s ∷ ss) n = elim (by_name ss n) [
  | some t ↦ some t
  | none ↦ if s.name == n then some s else none
]

pick : List ModelSurface → List String → Result ProfileError (List ModelSurface)
pick ss [] = ok []
pick ss (n ∷ ns) = elim (by_name ss n) [
  | none ↦ err (unknown_surface n (map (λ (s : ModelSurface). s.name) ss))
  | some s ↦ pick ss ns >>= λ out. ok (s ∷ out)
]

abbrev pub is_all : List String → Bool
is_all (n ∷ []) = n == "all"
is_all _ = false

pub select_surfaces : Profiles → List String → Result ProfileError (List ModelSurface)
unfolding pick by_name
select_surfaces p names = if is_all names then ok p.surfaces else pick p.surfaces names
