-- ===== src/Tests/Servers.antt =====
-- Runs of the fake authorization server and the fake resource server.
use aoa_conformance.Prelude.{
  String, ◌≡◌, refl, sym, ◌∙◌, inr, false, Option, none, some, List, [], ◌∷◌, ◌==◌, ◌&&◌, not, ◌↔◌,
  is_some, if◌then◌else◌,
}
use aoa_conformance.Prelude.Json.{
  Json, Members, empty, member, str, obj, lookup, null, bool, num, arr,
}
use aoa_conformance.Prelude.Lists.{any}
use aoa_conformance.Prelude.Result.{ok}
use aoa_conformance.Prelude.Text.{◌&◌}
use aoa_conformance.Http.Form.{FormField, Form, get_value}
use aoa_conformance.FakeAs.{Violations, Environment, Request, new_as, write_json}
use aoa_conformance.FakeAs.Proofs.{ProofLibrary, ParsedProof}
use aoa_conformance.FakeAs.Exchanges.{handle_exchange, same_sub}
use aoa_conformance.FakeAs.Server.{
  run_all, route, serve, dispatch, handle_introspect, prove_and_grant,
}
use aoa_conformance.FakeAs.Recall.{revokes}
use aoa_conformance.FakeAs.History.{Reflects, run_all-Reflects, handle_introspect-history}
use aoa_conformance.FakeAs.Serials.{token_in}
use aoa_conformance.Prelude.Lists.{Distinct}
use aoa_conformance.FakeAs.Serials.Run.{SignsJti, tokens_of, tokens_of-Distinct}
use aoa_conformance.FakeAs.Delegation.{IsExchanged}
use aoa_conformance.FakeAs.Delegation.Tokens.{handle_exchange-IsExchanged}
use aoa_conformance.FakeAs.Delegation.Grants.{IsGranted, handle_exchange-grants}
use aoa_conformance.FakeAs.Binding.{IsBound, IsAccepted, prove_and_grant-IsBound}
use aoa_conformance.FakeRs.{Rs, TokenLibrary, Presented, challenge_text, handle_mcp}
use aoa_conformance.FakeRs.Challenge.{challenge_text-prm_url, is_unquoted}
use aoa_conformance.FakeRs.Admission.{IsAdmitted, handle_mcp-serves_iff}
use aoa_conformance.Discover.{prm_url}

abbrev pub correct : Violations
correct = record {
  ignore_may_act = false;
  forge_act_chain = false;
  accept_plain_pkce = false;
  skip_dpop_nonce = false;
  accept_wrong_htu = false;
  malformed_discovery = false;
  no_token_exchange = false;
  no_dpop = false;
  bad_error_shape = false;
  ignore_resource_param = false;
  no_cnf_binding = false;
  accept_unknown_grant = false;
  reject_resource = false;
  error_on_multiple_resources = false;
  fail_impersonation = false;
  reject_delegation = false;
  omit_act = false;
  widen_scope = false;
  accept_bad_subject = false;
  reject_valid_dpop = false;
  no_introspection = false;
  introspect_inactive = false;
  no_revocation = false;
  dead_revocation = false;
  ignore_revoke = false;
  no_registration = false;
  reject_registration = false;
  registration_requires_iat = false;
  mangle_application_type = false;
  foreign_registration_uri = false;
  no_client_config_endpoint = false;
  require_par = false;
  no_par_endpoint = false;
  advertise_mtls = false;
  incoherent_mtls = false;
  emit_signed_metadata = false;
  bad_signed_metadata = false;
  public_clients_only = false;
  no_client_credentials = false;
  no_grant_types_advertised = false;
  iss_param_supported = false;
  advertise_cimd = false;
  reject_cimd_client = false;
}

-- A signature that shows the jti only.
abbrev pub signature_of : Option Json → Option String
signature_of none = none
signature_of (some null) = none
signature_of (some (bool b)) = none
signature_of (some (num n)) = none
signature_of (some (str s)) = some s
signature_of (some (arr es)) = none
signature_of (some (obj m)) = none

signature_of-text : (o : Option Json) (t : String) → signature_of o ≡ some t → o ≡ some (str t)
signature_of-text none t h = cc
signature_of-text (some null) t h = cc
signature_of-text (some (bool b)) t h = cc
signature_of-text (some (num n)) t h = cc
signature_of-text (some (str s)) t h = cc
signature_of-text (some (arr es)) t h = cc
signature_of-text (some (obj m)) t h = cc

abbrev pub named : String → Members
named sub = member "sub" (str sub) empty

abbrev pub delegated : Members
delegated =
    member "sub" (str "alice")
      (member "may_act" (obj (named "agent")) (member "act" (obj (named "gateway")) empty))

abbrev pub known_tokens : String → Option Members
known_tokens t =
    if t == "subject" then some delegated else if t == "actor" then some (named "agent") else none

abbrev pub sample_proofs : ProofLibrary
sample_proofs = record {
  parse = λ raw. ok (record { typ = some "dpop+jwt"; alg = some "ES256"; jwk = some "key" } ∷ []);
  verify_with = λ raw alg key. ok "claims";
  thumbprint = λ key. ok key;
  decode_claims =
      λ payload. ok (record { htm = "POST"; htu = "https://as.example/token"; nonce = "n" });
  encode_thumbprint = λ t. t;
  quote = λ t. t;
}

abbrev pub sample_as : Environment
sample_as = record {
  url = "https://as.example";
  sign = λ claims. signature_of (lookup "jti" claims);
  verify = known_tokens;
  sign_elsewhere = λ claims. none;
  public_jwks = "{}";
  proofs = sample_proofs;
  fetch_status = λ u. none;
  query_escape = λ s. s;
}

abbrev field : String → String → FormField
field k v = record { name = k; values = v ∷ [] }

abbrev pub posted : String → Form → Request
posted path form = record {
  method = "POST";
  path = path;
  authorization = "";
  dpop = "";
  has_basic_auth = false;
  query = [];
  form = form;
  json = empty;
}

abbrev exchange_request : Request
exchange_request = posted "/token" (
    field "grant_type" "urn:ietf:params:oauth:grant-type:token-exchange"
    ∷ field "subject_token" "subject"
    ∷ field "actor_token" "actor"
    ∷ field "scope" "mcp"
    ∷ [])

abbrev client_request : Request
client_request = posted "/token" (field "grant_type" "client_credentials" ∷ [])

abbrev revocation_request : Request
revocation_request = posted "/revoke" (field "token" "subject" ∷ [])

abbrev introspection_request : Request
introspection_request = posted "/introspect" (field "token" "subject" ∷ [])

abbrev history : List Request
history = client_request ∷ revocation_request ∷ exchange_request ∷ []

run_all-Reflects_example :
    Reflects sample_as correct history (run_all sample_as correct history new_as)
run_all-Reflects_example = run_all-Reflects sample_as correct history

handle_introspect-history_example :
    handle_introspect sample_as correct introspection_request
      (run_all sample_as correct history new_as)
    ≡ write_json [] 200 (
        member "active"
          (bool (
            is_some (known_tokens (get_value "token" introspection_request.form))
            && not (any (revokes correct (get_value "token" introspection_request.form)) history)
            && not false))
          empty)
handle_introspect-history_example =
    handle_introspect-history sample_as correct history introspection_request

sample_as-SignsJti : SignsJti sample_as
sample_as-SignsJti a b t h k =
    signature_of-text (lookup "jti" a) t h ∙ sym (signature_of-text (lookup "jti" b) t k)

tokens_of-Distinct_example : Distinct (tokens_of sample_as correct history new_as)
tokens_of-Distinct_example = tokens_of-Distinct sample_as correct history new_as sample_as-SignsJti

tokens_test : tokens_of sample_as correct history new_as ≡ ("tok-1" ∷ "tok-2" ∷ [])
unfolding tokens_of prove_and_grant token_in route serve dispatch
tokens_test = refl

handle_exchange-IsExchanged_example : IsExchanged sample_as exchange_request "tok-8"
unfolding handle_exchange token_in
handle_exchange-IsExchanged_example =
    handle_exchange-IsExchanged sample_as correct exchange_request none 7 "tok-8" refl refl refl
      refl refl

abbrev signing_as : Environment
signing_as = record sample_as { sign = λ claims. some "signed" }

handle_exchange-grants_example :
    IsGranted signing_as correct exchange_request none 7
      (handle_exchange signing_as correct exchange_request none 7).0
unfolding lookup get_value same_sub
handle_exchange-grants_example =
    handle_exchange-grants signing_as correct exchange_request none 7 delegated "alice" refl refl
      refl refl (λ claims. ("signed", refl)) refl refl (inr (named "agent", refl, refl))

abbrev proven_request : Request
proven_request = record exchange_request { dpop = "proof" }

prove_and_grant-IsBound_example :
    (p : ParsedProof) × IsAccepted sample_as "proof" p × IsBound sample_as p.jkt "tok-1"
unfolding prove_and_grant token_in
prove_and_grant-IsBound_example =
    prove_and_grant-IsBound sample_as correct proven_request 0 "tok-1" refl refl refl refl refl refl

abbrev sample_rs : Rs
sample_rs = record {
  url = "https://mcp.example";
  as_url = "https://as.example";
  violations = record {
    omit_challenge = false;
    omit_authorization_servers = false;
    accept_any_token = false;
    malformed_prm = false;
    unresolvable_auth_server = false;
    no_suffix_prm = false;
    non_canonical_resource = false;
  };
  scopes = "mcp" ∷ "read" ∷ [];
  bearer_methods = "header" ∷ [];
  require_bearer_method = "header";
  require_dpop = false;
  insufficient_scope = false;
}

challenge_text-prm_url_example :
    prm_url "https://mcp.example/mcp" (challenge_text sample_rs)
    ≡ "https://mcp.example" & "/.well-known/oauth-protected-resource"
unfolding is_unquoted
challenge_text-prm_url_example = challenge_text-prm_url sample_rs "https://mcp.example/mcp" refl

abbrev claims_reader : TokenLibrary
claims_reader = record {
  is_signed_by = λ token jwks. token == "tok-1";
  payload = λ token. member "iss" (str "https://as.example") empty;
}

abbrev presented : Presented
presented = record {
  path = "/mcp";
  authorization = "Bearer tok-1";
  dpop = "";
  posted_form = [];
  query = [];
}

handle_mcp-serves_iff_example :
    ((handle_mcp sample_rs claims_reader presented).code ≡ 200)
    ↔ IsAdmitted sample_rs claims_reader presented
handle_mcp-serves_iff_example = handle_mcp-serves_iff sample_rs claims_reader presented

served_test : (handle_mcp sample_rs claims_reader presented).code ≡ 200
unfolding handle_mcp
served_test = refl
