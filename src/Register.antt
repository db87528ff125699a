-- ===== src/Register.antt =====
-- probe/register.go: dynamic client registration and the deletion of a client. The JSON functions
-- and net/url are parameters; a request that cannot be built is an error of the transport.
pub mod Results
use aoa_conformance.Prelude.{
  String, Bool, true, false, Option, none, some, List, [], ◌∷◌, ◌++◌, ◌||◌, not, is_empty, nat_eq,
  if◌then◌else◌, ◌/◌, ℕ,
}
use aoa_conformance.Prelude.Decimal.{itoa}
use aoa_conformance.Prelude.Result.{Result, ok, err}
use aoa_conformance.Prelude.Scan.{trim_space}
use aoa_conformance.Prelude.Text.{◌&◌}
use aoa_conformance.Model.{non_nil}
use aoa_conformance.Http.{Headers, HttpReply, Response, Transport, perform}

pub record RegisterInput : Type 0 where
  pub registration_endpoint : String
  pub redirect_uris : List String
  pub grant_types : List String
  pub token_endpoint_auth_method : String
  pub scope : String
  pub application_type : String
  pub client_name : String
  pub initial_access_token : String

pub record RegisterResult : Type 0 where
  pub client_id : String
  pub client_secret : String
  pub registration_access_token : String
  pub registration_client_uri : String
  pub application_type : String
  pub token_endpoint_auth_method : String
  pub evidence : String

-- The error of a registration: one of the transport, or a `RegistrationError` with its evidence.
pub data RegisterFailure : Type 0 where
  unreached : String → RegisterFailure
  refused : String → String → RegisterFailure

-- `Error()`
abbrev pub failure_text : RegisterFailure → String
failure_text (unreached text) = text
failure_text (refused text evidence) = text

-- What errors.As finds.
abbrev pub failure_evidence : RegisterFailure → String
failure_evidence (unreached text) = ""
failure_evidence (refused text evidence) = evidence

-- A member of the request document.
pub data Member : Type 0 where
  texts : String → List String → Member
  text : String → String → Member

pub record UrlParts : Type 0 where
  pub scheme : String
  pub host : String
  pub hostname : String

-- net/url, and the JSON functions on the documents of a registration; the error of
-- json.Unmarshal is its text, and a missing or mistyped member of an error document reads "".
pub record Library : Type 0 where
  pub parse_url : String → Option UrlParts
  pub resolve_reference : String → String → String
  pub encode_members : List Member → String
  pub decode_client : String → Result String RegisterResult
  pub error_code : String → String
  pub error_description : String → String

abbrev member_texts : String → List String → List Member
member_texts name vs = if non_nil vs then texts name vs ∷ [] else []

abbrev member_text : String → String → List Member
member_text name v = if is_empty v then [] else text name v ∷ []

-- The map `body`.
unfoldable pub registration_members : RegisterInput → List Member
registration_members input =
    member_texts "redirect_uris" input.redirect_uris
    ++ member_texts "grant_types" input.grant_types
    ++ member_text "token_endpoint_auth_method" input.token_endpoint_auth_method
    ++ member_text "scope" input.scope
    ++ member_text "application_type" input.application_type
    ++ member_text "client_name" input.client_name

abbrev pub is_success : ℕ → Bool
is_success status = nat_eq (status / 100) 2

abbrev pub bearer : String → Headers
bearer token = if is_empty token then [] else ("Authorization", "Bearer " & token) ∷ []

module _ (library : Library) where
  -- `resolveAgainst`: a reference with a scheme or a host stays as it is.
  pub resolve_against : String → String → String
  resolve_against base ref = if is_empty ref then "" else elim (library.parse_url ref) [
    | none ↦ ref
    | some r ↦
        if not (is_empty r.scheme) || not (is_empty r.host)
        then ref
        else elim (library.parse_url base) [
          | none ↦ ref
          | some b ↦ library.resolve_reference base ref
        ]
  ]

  -- `registrationErrorDetail`
  pub registration_error_detail : String → String
  registration_error_detail body =
      let code = library.error_code body in
      let description = library.error_description body in
      if is_empty code
      then ""
      else if not (is_empty description)
      then " " & code & ": " & description
      else " " & code

  -- The tests on the decoded document.
  accept : String → Response → Result String RegisterResult → Result RegisterFailure RegisterResult
  accept endpoint r (err e) = err (refused ("registration response not JSON: " & e) r.evidence)
  accept endpoint r (ok out) =
      if is_empty out.client_id
      then err (refused "registration response has no client_id" r.evidence)
      else ok (record out {
        registration_client_uri = resolve_against endpoint out.registration_client_uri;
        evidence = r.evidence;
      })

  read_registration : String → Response → Result RegisterFailure RegisterResult
  unfolding accept
  read_registration endpoint r =
      if not (is_success r.status_code)
      then err (
          refused
            ("registration failed: HTTP " & itoa r.status_code & registration_error_detail r.body)
            r.evidence)
      else accept endpoint r (library.decode_client r.body)

  module _ {W : Type 0} (send : Transport W) where
    on_registration :
        String → Result String Response × W → Result RegisterFailure RegisterResult × W
    on_registration endpoint (err e, w) = (err (unreached e), w)
    on_registration endpoint (ok r, w) = (read_registration endpoint r, w)

    -- `Register`
    pub register : RegisterInput → W → Result RegisterFailure RegisterResult × W
    unfolding on_registration
    register input w =
        let body = library.encode_members (registration_members input) in
        on_registration input.registration_endpoint (
          perform send
            (record {
              method = "POST";
              url = input.registration_endpoint;
              headers =
                  ("Content-Type", "application/json")
                  ∷ ("Accept", "application/json")
                  ∷ bearer input.initial_access_token;
              body = body;
            })
            ("POST " & input.registration_endpoint & "\nbody: " & body) w)

module _ {W : Type 0} (send : Transport W) where
  on_deletion : Result String HttpReply × W → Option String × W
  on_deletion (err e, w) = (some e, w)
  on_deletion (ok r, w) = (
    if is_success r.status_code
        then none
        else some ("delete registration: HTTP " & itoa r.status_code),
    w,
  )

  -- `DeleteRegistration`; `none` is no error.
  unfoldable pub delete_registration : String → String → W → Option String × W
  unfolding on_deletion trim_space
  delete_registration uri token w =
      if is_empty (trim_space uri)
      then (none, w)
      else on_deletion
          (send (record { method = "DELETE"; url = uri; headers = bearer token; body = "" }) w)
