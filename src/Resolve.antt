-- ===== src/Resolve.antt =====
-- conformance/resolve.go: the client that a run uses. The only side effect is the registration.
-- net.ParseIP with IsLoopback is a parameter.
pub mod Methods
pub mod Cases
use aoa_conformance.Prelude.{
  String, Bool, true, false, Option, none, some, List, [], ◌∷◌, ◌==◌, ◌&&◌, ◌||◌, not, is_empty,
  if◌then◌else◌,
}
use aoa_conformance.Prelude.Lists.{select}
use aoa_conformance.Prelude.Result.{Result, ok, err}
use aoa_conformance.Prelude.Text.{join}
use aoa_conformance.Model.{AuthPlan, Discovered, contains, non_nil, effective_scopes}
use aoa_conformance.Http.{Transport}
use aoa_conformance.Http.ClientAuth.{
  auth_client_secret_post, auth_client_secret_basic, auth_none, implements_client_auth,
}
use aoa_conformance.Register.{
  RegisterInput, RegisterResult, RegisterFailure, failure_text, failure_evidence, Library, UrlParts,
  register,
}

abbrev pub default_redirect_uri : String
default_redirect_uri = "http://127.0.0.1:8765/callback"

-- `resolveTokenAuthMethod`
pub resolve_token_auth_method : String → List String → Bool → String
resolve_token_auth_method explicit advertised has_secret =
    if not (is_empty explicit)
    then explicit
    else if not has_secret && contains advertised auth_none
    then auth_none
    else if contains advertised auth_client_secret_post
    then auth_client_secret_post
    else if contains advertised auth_client_secret_basic
    then auth_client_secret_basic
    else auth_client_secret_post

abbrev pub wanted_grants : List String
wanted_grants = "authorization_code" ∷ "client_credentials" ∷ []

-- `registrationGrantTypes`
unfoldable pub registration_grant_types : List String → List String
registration_grant_types advertised =
    if non_nil advertised then select (λ g. contains advertised g) wanted_grants else wanted_grants

-- The body of the loop of `registrationApplicationType` for a parsed URI.
application_type_of : (String → Bool) → UrlParts → String
application_type_of is_loopback u =
    if not (u.scheme == "http") && not (u.scheme == "https")
    then "native"
    else if u.hostname == "localhost" || u.hostname == "::1"
    then "native"
    else if is_loopback u.hostname
    then "native"
    else "web"

-- `registrationApplicationType`: the first redirect URI that parses decides.
unfoldable pub registration_application_type :
    (String → Option UrlParts) → (String → Bool) → List String → String
unfolding application_type_of
registration_application_type parse_url is_loopback [] = "native"
registration_application_type parse_url is_loopback (raw ∷ rest) = elim (parse_url raw) [
  | none ↦ registration_application_type parse_url is_loopback rest
  | some u ↦ application_type_of is_loopback u
]

pub record ResolveOptions : Type 0 where
  pub client_id : String
  pub client_secret : String
  pub token_auth_method : String
  pub registration_token : String
  pub client_name : String
  pub scopes : List String
  pub redirect_uris : List String

-- `registeredAuthMethod`
pub registered_auth_method : String → RegisterResult → List String → String
registered_auth_method explicit res advertised =
    if not (is_empty explicit)
    then explicit
    else if implements_client_auth res.token_endpoint_auth_method
    then res.token_endpoint_auth_method
    else resolve_token_auth_method "" advertised (not (is_empty res.client_secret))

-- The plan before any registration.
pub selected_plan : Discovered → ResolveOptions → AuthPlan
selected_plan d opts = record {
  client_id = opts.client_id;
  client_secret = opts.client_secret;
  registered = false;
  token_auth_method =
      resolve_token_auth_method opts.token_auth_method d.token_endpoint_auth_methods_supported
        (not (is_empty opts.client_secret));
  use_par = d.require_pushed_authorization_requests;
  par_endpoint = d.pushed_authorization_request_endpoint;
  scopes = effective_scopes opts.scopes d.prm_scopes_supported;
  dpop_required = d.prm_dpop_bound_access_tokens_required;
  registration_access_token = "";
  registration_client_uri = "";
  registered_application_type = "";
  registration_evidence = "";
  registration_error = "";
}

-- The plan after a registration.
pub registered_plan :
    Discovered → ResolveOptions → AuthPlan → Result RegisterFailure RegisterResult → AuthPlan
registered_plan d opts plan (err e) = record plan {
  registration_error = failure_text e;
  registration_evidence = failure_evidence e;
}
registered_plan d opts plan (ok res) = record plan {
  client_id = res.client_id;
  client_secret = res.client_secret;
  token_auth_method =
      registered_auth_method opts.token_auth_method res d.token_endpoint_auth_methods_supported;
  registered = true;
  registration_access_token = res.registration_access_token;
  registration_client_uri = res.registration_client_uri;
  registered_application_type = res.application_type;
  registration_evidence = res.evidence;
}

-- The guard of the registration.
abbrev pub registers : Discovered → ResolveOptions → Bool
registers d opts = is_empty opts.client_id && not (is_empty d.registration_endpoint)

module _ (library : Library) (is_loopback : String → Bool) where
  pub registration_input : Discovered → ResolveOptions → AuthPlan → RegisterInput
  registration_input d opts plan =
      let redirects =
        if non_nil opts.redirect_uris then opts.redirect_uris else default_redirect_uri ∷ [] in
      record {
        registration_endpoint = d.registration_endpoint;
        redirect_uris = redirects;
        grant_types = registration_grant_types d.grant_types_supported;
        token_endpoint_auth_method = plan.token_auth_method;
        scope = join " " plan.scopes;
        application_type = registration_application_type (library.parse_url) is_loopback redirects;
        client_name = opts.client_name;
        initial_access_token = opts.registration_token;
      }

  -- `Resolve`, whose error is always nil.
  pub resolve : {W : Type 0} → Transport W → Discovered → ResolveOptions → W → AuthPlan × W
  resolve send d opts w =
      let plan = selected_plan d opts in
      let answer = register library send (registration_input d opts plan) w in
      if registers d opts then (registered_plan d opts plan answer.0, answer.1) else (plan, w)
