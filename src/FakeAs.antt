-- ===== src/FakeAs.antt =====
-- internal/fakeas/as.go: the authorization server that the program's own tests stand on. This file
-- has its violations, its state and what a handler reads and writes; the children have the handlers.
-- The network, the signatures and the parsing of a request are parameters: `Environment` is what
-- `probe.Signer`, `jws` and `net/http` give, and a request comes with its form, query and JSON body
-- parsed. A state is what the fields behind `mu` hold; the counter does not wrap.
pub mod Proofs
pub mod Discovery
pub mod Clients
pub mod Tokens
pub mod Exchanges
pub mod Server
pub mod History
pub mod Recall
pub mod Serials
pub mod Yields
pub mod Delegation
pub mod Binding
use aoa_conformance.Prelude.{String, ℕ, Bool, List, Option, [], ◌∷◌, if◌then◌else◌}
use aoa_conformance.Prelude.Json.{Members, empty, member, str}
use aoa_conformance.Prelude.Text.{◌&◌}
use aoa_conformance.Http.{Headers}
use aoa_conformance.Http.Form.{Form}
use Proofs.{ProofLibrary}

pub record Violations : Type 0 where
  pub ignore_may_act : Bool
  pub forge_act_chain : Bool
  pub accept_plain_pkce : Bool
  pub skip_dpop_nonce : Bool
  pub accept_wrong_htu : Bool
  pub malformed_discovery : Bool
  pub no_token_exchange : Bool
  pub no_dpop : Bool
  pub bad_error_shape : Bool
  pub ignore_resource_param : Bool
  pub no_cnf_binding : Bool
  pub accept_unknown_grant : Bool
  pub reject_resource : Bool
  pub error_on_multiple_resources : Bool
  pub fail_impersonation : Bool
  pub reject_delegation : Bool
  pub omit_act : Bool
  pub widen_scope : Bool
  pub accept_bad_subject : Bool
  pub reject_valid_dpop : Bool
  pub no_introspection : Bool
  pub introspect_inactive : Bool
  pub no_revocation : Bool
  pub dead_revocation : Bool
  pub ignore_revoke : Bool
  pub no_registration : Bool
  pub reject_registration : Bool
  pub registration_requires_iat : Bool
  pub mangle_application_type : Bool
  pub foreign_registration_uri : Bool
  pub no_client_config_endpoint : Bool
  pub require_par : Bool
  pub no_par_endpoint : Bool
  pub advertise_mtls : Bool
  pub incoherent_mtls : Bool
  pub emit_signed_metadata : Bool
  pub bad_signed_metadata : Bool
  pub public_clients_only : Bool
  pub no_client_credentials : Bool
  pub no_grant_types_advertised : Bool
  pub iss_param_supported : Bool
  pub advertise_cimd : Bool
  pub reject_cimd_client : Bool

-- The fields of `AS` behind its mutex; `revoked` lists the keys of the map.
pub record State : Type 0 where
  pub minted : ℕ
  pub last_form : Form
  pub last_client_auth : String
  pub last_par_form : Form
  pub last_registration : Members
  pub deleted_clients : List String
  pub revoked : List String

-- The state that `NewAS` leaves.
abbrev pub new_as : State
new_as = record {
  minted = 0;
  last_form = [];
  last_client_auth = "";
  last_par_form = [];
  last_registration = empty;
  deleted_clients = [];
  revoked = [];
}

-- `probe.Signer` and what the handlers call outside the repository.
pub record Environment : Type 0 where
  pub url : String
  pub sign : Members → Option String
  pub verify : String → Option Members
  pub sign_elsewhere : Members → Option String
  pub public_jwks : String
  pub proofs : ProofLibrary
  pub fetch_status : String → Option ℕ
  pub query_escape : String → String

-- A request as `net/http` hands it over: `form` is `r.Form`, `json` the body's object.
pub record Request : Type 0 where
  pub method : String
  pub path : String
  pub authorization : String
  pub dpop : String
  pub has_basic_auth : Bool
  pub query : Form
  pub form : Form
  pub json : Members

pub data Body : Type 0 where
  no_body : Body
  document : Members → Body
  plain : String → Body

pub record Answer : Type 0 where
  pub code : ℕ
  pub headers : Headers
  pub body : Body

-- `none` is a handler that panics: `net/http` then closes the connection.
abbrev pub Served : Type 0 → Type 0
Served S = Option Answer × S

abbrev pub bare : ℕ → Answer
bare code = record { code = code; headers = []; body = no_body }

-- `writeJSON`, with the headers that were set before.
abbrev pub write_json : Headers → ℕ → Members → Answer
write_json headers code doc = record {
  code = code;
  headers = ("Content-Type", "application/json") ∷ headers;
  body = document doc;
}

-- `tokenError`
unfoldable pub token_error : Violations → Headers → ℕ → String → String → Answer
token_error v headers code errc desc =
    if v.bad_error_shape
    then record { code = code; headers = headers; body = plain ("error: " & errc) }
    else write_json headers code
        (member "error" (str errc) (member "error_description" (str desc) empty))
