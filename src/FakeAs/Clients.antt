-- ===== src/FakeAs/Clients.antt =====
-- internal/fakeas/as.go: the clients of the server: pushed requests (`handlePAR`), registration and
-- its management address, and the authorization endpoint.
use aoa_conformance.Prelude.{
  String, ℕ, Bool, true, false, Option, none, some, [], ◌∷◌, ◌++◌, ◌||◌, ◌&&◌, not, ◌==◌, nat_eq,
  is_empty, is_some, if◌then◌else◌,
}
use aoa_conformance.Prelude.Json.{
  Json, Members, empty, member, str, num, set_member, lookup, delete_member,
}
use aoa_conformance.Prelude.Text.{◌&◌}
use aoa_conformance.Prelude.Scan.{after_prefix}
use aoa_conformance.Http.Form.{get_value}
use aoa_conformance.FakeAs.{
  Violations, Environment, State, Request, Answer, write_json, token_error, bare, no_body,
}
use aoa_conformance.FakeAs.Discovery.{put_if}

-- `handlePAR`
unfoldable pub handle_par : Request → State → Answer × State
handle_par r s = (
  write_json [] 201 (
      member "request_uri" (str "urn:ietf:params:oauth:request_uri:fake-123")
        (member "expires_in" (num 90) empty)),
  record s { last_par_form = r.form },
)

-- `req["application_type"].(string)`, where another type is not a text.
abbrev text_or_empty : Option Json → String
text_or_empty none = ""
text_or_empty (some (str s)) = s
text_or_empty (some _) = ""

abbrev pub strip : String → String → String
strip prefix path = elim (after_prefix prefix path) [ none ↦ path | some rest ↦ rest ]

module _ (env : Environment) (v : Violations) where
  -- The members of an issued client, in the order of the tests that set them.
  unfoldable pub issued_client : String → Members
  unfolding set_member delete_member
  issued_client application_type =
      let issued = member "client_id" (str "dcr-client") (
        member "client_secret" (str "dcr-secret") (
          member "registration_access_token" (str "rat-123") (
            member "registration_client_uri" (str (env.url & "/register/dcr-client"))
              (member "token_endpoint_auth_method" (str "client_secret_post") empty)))) in
      let declared =
        if v.public_clients_only
        then set_member "token_endpoint_auth_method" (str "none")
            (delete_member "client_secret" issued)
        else issued in
      let typed =
        put_if (not (is_empty application_type)) "application_type"
          (str (if v.mangle_application_type then "web" else application_type)) declared in
      let managed =
        put_if v.foreign_registration_uri "registration_client_uri"
          (str "https://evil.example/register/dcr-client") typed in
      if v.no_client_config_endpoint
      then delete_member "registration_access_token"
          (delete_member "registration_client_uri" managed)
      else managed

  -- `handleRegister`
  unfoldable pub handle_register : Request → State → Answer × State
  unfolding token_error issued_client lookup
  handle_register r s =
      if v.registration_requires_iat && is_empty r.authorization
      then (token_error v [] 401 "invalid_token" "initial access token required", s)
      else let seen = record s { last_registration = r.json } in
        if v.reject_registration
        then (token_error v [] 400 "invalid_client_metadata" "registration refused", seen)
        else (
          write_json [] 201 (issued_client (text_or_empty (lookup "application_type" r.json))),
          seen,
        )

  -- `redirectAuth`
  abbrev redirect_auth : String → String → String → Answer
  redirect_auth redirect kv state = record {
    code = 302;
    headers = ("Location", redirect & "?" & kv & "&state=" & env.query_escape state) ∷ [];
    body = no_body;
  }

  abbrev has_prefix : String → String → Bool
  has_prefix prefix s = is_some (after_prefix prefix s)

  abbrev fetched : Option ℕ → Bool
  fetched none = false
  fetched (some status) = nat_eq status 200

  -- Does the server take this client? A document is fetched only where documents are advertised.
  unfoldable pub accepts_client : String → Bool
  unfolding after_prefix
  accepts_client client_id =
      if has_prefix "http://" client_id || has_prefix "https://" client_id
      then v.advertise_cimd && fetched (env.fetch_status client_id) && not v.reject_cimd_client
      else true

  -- `handleAuthorize`
  unfoldable pub handle_authorize : Request → Answer
  unfolding accepts_client get_value
  handle_authorize r =
      redirect_auth (get_value "redirect_uri" r.query)
        (if accepts_client (get_value "client_id" r.query)
          then "code=fake-code"
          else "error=invalid_client")
        (get_value "state" r.query)

-- `handleClientConfig`
unfoldable pub handle_client_config : Request → State → Answer × State
unfolding after_prefix
handle_client_config r s =
    if not (r.method == "DELETE")
    then (bare 405, s)
    else if not (r.authorization == "Bearer rat-123")
    then (bare 401, s)
    else (
      bare 204,
      record s { deleted_clients = s.deleted_clients ++ (strip "/register/" r.path ∷ []) },
    )
