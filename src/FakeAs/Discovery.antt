-- ===== src/FakeAs/Discovery.antt =====
-- internal/fakeas/as.go: the metadata document (`handleDiscovery`) and the key set (`handleJWKS`).
use aoa_conformance.Prelude.{
  String, Bool, true, Option, none, some, List, [], ◌∷◌, ◌++◌, ◌||◌, ◌&&◌, not, if◌then◌else◌,
}
use aoa_conformance.Prelude.Json.{Json, Members, empty, member, str, bool, obj, strings, set_member}
use aoa_conformance.Prelude.Text.{◌&◌}
use aoa_conformance.Http.Exchange.{grant_token_exchange}
use aoa_conformance.FakeAs.{Violations, Environment, Answer, plain, write_json}

-- `if b { doc[k] = j }`
abbrev pub put_if : Bool → String → Json → Members → Members
put_if b k j doc = if b then set_member k j doc else doc

abbrev text_of : Option String → String
text_of none = ""
text_of (some s) = s

module _ (env : Environment) (v : Violations) where
  abbrev pub issuer_of : String
  issuer_of = if v.malformed_discovery then "https://wrong-issuer.example" else env.url

  abbrev pub grants : List String
  grants =
      ("authorization_code" ∷ [])
      ++ ((if v.no_client_credentials then [] else "client_credentials" ∷ [])
          ++ (if v.no_token_exchange then [] else grant_token_exchange ∷ []))

  abbrev pkce : List String
  pkce = if v.accept_plain_pkce then "plain" ∷ "S256" ∷ [] else "S256" ∷ []

  -- The members that every document has.
  unfoldable base_document : Members
  base_document = member "issuer" (str issuer_of) (
      member "token_endpoint" (str (env.url & "/token")) (
        member "authorization_endpoint" (str (env.url & "/authorize")) (
          member "jwks_uri" (str (env.url & "/jwks"))
            (member "code_challenge_methods_supported" (strings pkce) empty))))

  -- An error of the signature leaves the empty text.
  abbrev signed_metadata : String
  signed_metadata =
      let claims =
        member "issuer" (str issuer_of)
          (member "token_endpoint" (str (env.url & "/token")) empty) in
      text_of (if v.bad_signed_metadata then env.sign_elsewhere claims else env.sign claims)

  unfoldable with_methods : Members → Members
  unfolding set_member
  with_methods doc =
      put_if v.public_clients_only "token_endpoint_auth_methods_supported" (strings ("none" ∷ [])) (
        set_member "token_endpoint_auth_methods_supported"
          (strings ("client_secret_basic" ∷ "client_secret_post" ∷ []))
          (put_if (not v.no_registration) "registration_endpoint" (str (env.url & "/register")) (
            put_if (not v.no_dpop) "dpop_signing_alg_values_supported" (strings ("ES256" ∷ [])) (
              put_if (not v.no_grant_types_advertised) "grant_types_supported" (strings grants)
                doc))))

  unfoldable with_pushed_and_mtls : Members → Members
  unfolding set_member
  with_pushed_and_mtls doc =
      let mtls = v.advertise_mtls || v.incoherent_mtls in
      put_if (mtls && not v.incoherent_mtls) "mtls_endpoint_aliases"
        (obj (member "token_endpoint" (str (env.url & "/mtls/token")) empty))
        (put_if mtls "tls_client_certificate_bound_access_tokens" (bool true) (
          put_if (v.require_par && not v.no_par_endpoint) "pushed_authorization_request_endpoint"
            (str (env.url & "/par"))
            (put_if v.require_par "require_pushed_authorization_requests" (bool true) doc)))

  unfoldable with_endpoints : Members → Members
  unfolding set_member
  with_endpoints doc = put_if v.advertise_cimd "client_id_metadata_document_supported" (bool true) (
      put_if v.iss_param_supported "authorization_response_iss_parameter_supported" (bool true) (
        put_if (not v.no_revocation) "revocation_endpoint" (str (env.url & "/revoke")) (
          put_if (not v.no_introspection) "introspection_endpoint" (str (env.url & "/introspect")) (
            put_if (v.emit_signed_metadata || v.bad_signed_metadata) "signed_metadata"
              (str signed_metadata) doc))))

  -- `handleDiscovery`
  unfoldable pub handle_discovery : Answer
  unfolding base_document with_methods with_pushed_and_mtls with_endpoints
  handle_discovery =
      write_json [] 200 (with_endpoints (with_pushed_and_mtls (with_methods base_document)))

-- `handleJWKS`
unfoldable pub handle_jwks : Environment → Answer
handle_jwks env = record {
  code = 200;
  headers = ("Content-Type", "application/json") ∷ [];
  body = plain env.public_jwks;
}
