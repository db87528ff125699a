-- ===== src/Model.antt =====
-- conformance/check.go and conformance/report.go: the data that the whole run passes around.
-- The HTTP client and the context of a `Target` are the transport, a parameter of the code that
-- sends requests; a `[]byte` of evidence is a `String`.
pub mod Words
use aoa_conformance.Prelude.{
  ℕ, String, Bool, true, false, List, [], ◌∷◌, not, ◌==◌, is_empty, if◌then◌else◌,
}
use aoa_conformance.Prelude.Lists.{any, length}
use Prim.Native.Nat.{compare, Ordering}

-- Profiles stay texts, since the report also renders one that it has no title for.
abbrev pub Profile : Type 0
Profile = String

abbrev pub profile_core : Profile
profile_core = "mcp-core"

abbrev pub profile_extended : Profile
profile_extended = "mcp-agent-auth-extended"

abbrev pub profile_2026_07 : Profile
profile_2026_07 = "mcp-2026-07-28"

pub data Severity : Type 0 where
  must should may : Severity

pub data Status : Type 0 where
  pass fail skip error : Status

-- `unset` is the zero value of a result that is no skip.
pub data SkipKind : Type 0 where
  unset unsupported untested : SkipKind

pub record SkipReason : Type 0 where
  pub kind : SkipKind
  pub text : String

-- `Unsupported`
abbrev pub unsupported_for : String → SkipReason
unsupported_for text = record { kind = unsupported; text = text }

-- `Untested`
abbrev pub untested_for : String → SkipReason
untested_for text = record { kind = untested; text = text }

abbrev pub satisfied : SkipReason
satisfied = record { kind = unset; text = "" }

pub record CheckResult : Type 0 where
  pub status : Status
  pub skip_kind : SkipKind
  pub message : String
  pub evidence : String
  pub duration : ℕ

-- The fields of a check that a report serialises; the two functions are in `Gate.Check`.
pub record CheckMeta : Type 0 where
  pub id : String
  pub profile : Profile
  pub rfc : String
  pub section : String
  pub severity : Severity
  pub description : String

pub record Entry : Type 0 where
  pub check : CheckMeta
  pub result : CheckResult

pub record Creds : Type 0 where
  pub subject_token : String
  pub refresh_token : String
  pub scopes : List String
  pub auth_code_available : Bool
  pub present_enabled : Bool

abbrev pub has_subject : Creds → Bool
has_subject c = not (is_empty c.subject_token)

pub record AuthPlan : Type 0 where
  pub client_id : String
  pub client_secret : String
  pub registered : Bool
  pub token_auth_method : String
  pub use_par : Bool
  pub par_endpoint : String
  pub scopes : List String
  pub dpop_required : Bool
  pub registration_access_token : String
  pub registration_client_uri : String
  pub registered_application_type : String
  pub registration_evidence : String
  pub registration_error : String

abbrev pub has_client : AuthPlan → Bool
has_client p = not (is_empty p.client_id)

-- `len(xs) > 0`
abbrev pub non_nil {ℓ} : {A : Type ℓ} → List A → Bool
non_nil [] = false
non_nil (x ∷ xs) = true

-- `EffectiveScopes`
unfoldable pub effective_scopes : List String → List String → List String
effective_scopes explicit from_prm = if non_nil explicit then explicit else from_prm

pub record Discovered : Type 0 where
  pub issuer : String
  pub token_endpoint : String
  pub authorization_endpoint : String
  pub jwks_uri : String
  pub grant_types_supported : List String
  pub code_challenge_methods_supported : List String
  pub dpop_signing_alg_values_supported : List String
  pub prm_resource : String
  pub prm_authorization_servers : List String
  pub prm_scopes_supported : List String
  pub prm_bearer_methods_supported : List String
  pub prm_dpop_bound_access_tokens_required : Bool
  pub raw_as_metadata : String
  pub raw_prm : String
  pub mcp_era : String
  pub mcp_protocol_version : String
  pub mcp_supported_versions : List String
  pub registration_endpoint : String
  pub token_endpoint_auth_methods_supported : List String
  pub pushed_authorization_request_endpoint : String
  pub require_pushed_authorization_requests : Bool
  pub introspection_endpoint : String
  pub revocation_endpoint : String
  pub response_types_supported : List String
  pub authorization_response_iss_parameter_supported : Bool
  pub signed_metadata : String
  pub tls_client_certificate_bound_access_tokens : Bool
  pub mtls_endpoint_aliases : List (String × String)
  pub client_id_metadata_document_supported : Bool

-- The loops `for _, x := range xs { if x == want { return true } }`.
abbrev pub contains : List String → String → Bool
contains xs want = any (λ x. x == want) xs

unfoldable pub advertises_token_exchange : Discovered → Bool
advertises_token_exchange d =
    contains d.grant_types_supported "urn:ietf:params:oauth:grant-type:token-exchange"

unfoldable pub advertises_dpop : Discovered → Bool
advertises_dpop d = non_nil d.dpop_signing_alg_values_supported

unfoldable pub advertises_s256 : Discovered → Bool
advertises_s256 d = contains d.code_challenge_methods_supported "S256"

-- `t.Hints` as an association list; the first entry of a key counts, a missing key reads "".
abbrev pub Hints : Type 0
Hints = List (String × String)

abbrev pub hint : String → Hints → String
hint key [] = ""
hint key ((k, v) ∷ hs) = if k == key then v else hint key hs

abbrev pub set_hint : String → String → Hints → Hints
set_hint key v hs = (key, v) ∷ hs

pub record Target : Type 0 where
  pub mcp_url : String
  pub issuer : String
  pub hints : Hints
  pub discovered : Discovered
  pub creds : Creds
  pub plan : AuthPlan
