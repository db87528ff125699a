-- ===== src/Cli.antt =====
-- cmd/aoa-conform/main.go: what the command line asks for, and the exit code. The reporters' writes,
-- the flags and the interactive authorization round are outside.
pub mod Exit
pub mod Usage
pub mod Cleanup
use aoa_conformance.Prelude.{
  ℕ, String, Bool, true, false, Option, none, some, List, [], ◌∷◌, ◌++◌, ◌==◌, ◌||◌, ◌&&◌, not,
  is_empty, is_some, if◌then◌else◌, map,
}
use aoa_conformance.Prelude.Lists.{select}
use aoa_conformance.Prelude.Result.{Result, ok, err, ◌>>=◌}
use aoa_conformance.Prelude.Scan.{fields, split_commas, trim_space}
use aoa_conformance.Model.{
  Profile, profile_core, profile_extended, profile_2026_07, Severity, must, should, may, Status,
  pass, fail, skip, error, Entry, Target, non_nil,
}
use aoa_conformance.Http.{Transport}
use aoa_conformance.Profiles.{Profiles, ProfileError, select_surfaces}
use aoa_conformance.Compat.{evaluate_models}
use aoa_conformance.Register.{delete_registration}
use aoa_conformance.Report.{Report}
use aoa_conformance.Resolve.{ResolveOptions}
use aoa_conformance.Runner.{Environment, Runner, run, discover_target, filter_profiles}
use aoa_conformance.Gate.{Check}

-- The fields of `options` that the code below reads.
pub record Options : Type 0 where
  pub target : String
  pub issuer : String
  pub client_id : String
  pub client_secret : String
  pub scope : String
  pub profile : String
  pub strict : Bool
  pub token_auth_method : String
  pub registration_token : String
  pub client_name : String
  pub model : String

-- `splitCSV`
unfoldable pub split_csv : String → List String
unfolding split_commas trim_space
split_csv s = select (λ f. not (is_empty f)) (map trim_space (split_commas s))

-- `splitScopes`
unfoldable pub split_scopes : String → List String
unfolding fields
split_scopes s = fields s

pub data UsageError : Type 0 where
  unknown_profile no_profiles : String → UsageError

-- The cases of the switch: a profile, nothing for an empty token, or no match.
abbrev pub profile_of : String → Option (List Profile)
profile_of tok =
    if tok == "core"
    then some (profile_core ∷ [])
    else if tok == "extended"
    then some (profile_extended ∷ [])
    else if tok == "2026-07"
    then some (profile_2026_07 ∷ [])
    else if is_empty tok
    then some []
    else none

consumed :
    Option (List Profile)
    → String
    → Result UsageError (List Profile)
    → Result UsageError (List Profile)
consumed none tok rest = err (unknown_profile tok)
consumed (some ps) tok rest = rest >>= λ out. ok (ps ++ out)

-- The loop over the tokens.
parse_tokens : List String → Result UsageError (List Profile)
unfolding consumed
parse_tokens [] = ok []
parse_tokens (tok ∷ toks) = consumed (profile_of (trim_space tok)) tok (parse_tokens toks)

abbrev every_profile : List Profile
every_profile = profile_core ∷ profile_extended ∷ profile_2026_07 ∷ []

-- `parseProfiles`
pub parse_profiles : String → Result UsageError (List Profile)
unfolding parse_tokens
parse_profiles s =
    if is_empty (trim_space s)
    then ok every_profile
    else (parse_tokens (split_commas s) >>= λ out.
        if non_nil out then ok out else err (no_profiles s))

abbrev pub same_severity : Severity → Severity → Bool
same_severity must must = true
same_severity should should = true
same_severity may may = true
same_severity _ _ = false

abbrev pub is_failure : Status → Bool
is_failure fail = true
is_failure error = true
is_failure _ = false

-- `hasFailure`
pub has_failure : Severity → List Entry → Bool
has_failure sev [] = false
has_failure sev (e ∷ es) =
    let rest = has_failure sev es in
    if not (same_severity e.check.severity sev)
    then rest
    else if is_failure e.result.status
    then true
    else rest

-- `finish`, on whether the report could be written.
pub finish : Bool → Bool → Report → ℕ
finish written strict rep =
    if not written
    then 1
    else if has_failure must rep.entries
    then 1
    else if strict && has_failure should rep.entries
    then 1
    else 0

-- The surfaces that are asked for; `none` leaves the section off.
abbrev pub asked_surfaces : Options → Option (List String)
asked_surfaces o =
    if non_nil (split_csv o.model)
    then some (split_csv o.model)
    else if is_empty o.target
    then none
    else some ("all" ∷ [])

attach : Report → Result ProfileError Profiles → Option (List String) → Result ProfileError Report
attach rep profiles none = ok rep
attach rep profiles (some names) = profiles >>= λ p. select_surfaces p names >>= λ sel.
    ok (record rep { model_verdicts = evaluate_models rep.entries p.data_date sel })

-- `attachModelVerdicts`, on the corpus that is loaded.
pub attach_model_verdicts :
    Options → Result ProfileError Profiles → Report → Result ProfileError Report
unfolding attach
attach_model_verdicts o profiles rep = attach rep profiles (asked_surfaces o)

-- `resolveOptionsFrom`
unfoldable pub resolve_options_from : Options → ResolveOptions
resolve_options_from o = record {
  client_id = o.client_id;
  client_secret = o.client_secret;
  token_auth_method = o.token_auth_method;
  registration_token = o.registration_token;
  client_name = o.client_name;
  scopes = split_scopes o.scope;
  redirect_uris = [];
}

-- `cleanupRegistration`; the error of a deletion is only printed.
pub cleanup_registration : {W : Type 0} → Transport W → Target → W → W
cleanup_registration send t w =
    if not t.plan.registered || is_empty t.plan.registration_client_uri
    then w
    else (delete_registration send t.plan.registration_client_uri t.plan.registration_access_token
        w).1

module _ {W : Type 0} (env : Environment W) where
  without_endpoints : Option String → Target → Option String
  without_endpoints (some e) t = some e
  without_endpoints none t =
      if is_empty t.discovered.authorization_endpoint || is_empty t.discovered.token_endpoint
      then some "discovery did not resolve authorization/token endpoints"
      else none

  -- `discoverForAuthCode`
  pub discover_for_auth_code : Target → W → Option String × Target × W
  unfolding without_endpoints
  discover_for_auth_code t w =
      let (failure, found, after) = discover_target env t w in
      (without_endpoints failure found, found, after)

  exit_code : Options → Result ProfileError Profiles → (Report → Bool) → Report → ℕ
  exit_code o corpus write rep = elim (attach_model_verdicts o corpus rep) [
    | err e ↦ 2
    | ok scored ↦ finish (write scored) o.strict scored
  ]

  -- `run` without --auth-code, from the target that the options give: the exit code and the
  -- network after the deferred cleanup. `write` says whether a report could be written.
  pub run_plain :
      Options → List (Check W) → Result ProfileError Profiles → (Report → Bool) → Target → W → ℕ × W
  unfolding exit_code
  run_plain o registry corpus write t w = elim (parse_profiles o.profile) [
    | err e ↦ (2, w)
    | ok profiles ↦
        let (rep, left, after) =
          run env
            (record {
              registry = filter_profiles profiles registry;
              skip_discovery = false;
              resolve_opts = some (resolve_options_from o);
            })
            t w in
        (exit_code o corpus write rep, cleanup_registration (env.send) left after)
  ]
