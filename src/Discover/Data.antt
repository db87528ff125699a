-- ===== src/Discover/Data.antt =====
-- The data of probe/discover.go: what goes in, what was found, and the two documents.
use aoa_conformance.Prelude.{String, Bool, false, Option, List, []}
use aoa_conformance.Model.{Discovered}

pub record DiscoverInput : Type 0 where
  pub mcp_url : String
  pub issuer : String

-- `probe.Discovered`
pub record Found : Type 0 where
  pub resolved : Discovered
  pub www_authenticate : String

-- The two results of `Discover`: the pointer and the error.
pub record Discovery : Type 0 where
  pub found : Option Found
  pub failure : Option String

-- The local struct of the protected resource metadata.
pub record PrmDoc : Type 0 where
  pub resource : String
  pub authorization_servers : List String
  pub scopes_supported : List String
  pub bearer_methods_supported : List String
  pub dpop_bound_access_tokens_required : Bool

-- `asMetadata`
pub record AsMetadata : Type 0 where
  pub issuer : String
  pub token_endpoint : String
  pub authorization_endpoint : String
  pub jwks_uri : String
  pub grant_types_supported : List String
  pub code_challenge_methods_supported : List String
  pub dpop_signing_alg_values_supported : List String
  pub registration_endpoint : String
  pub token_endpoint_auth_methods_supported : List String
  pub pushed_authorization_request_endpoint : String
  pub require_pushed_authorization_requests : Bool
  pub introspection_endpoint : String
  pub revocation_endpoint : String
  pub response_types_supported : List String
  pub authorization_response_iss_parameter_supported : Bool
  pub signed_metadata : String
  pub tls_client_certificate_bound_access_tokens : Bool
  pub mtls_endpoint_aliases : List (String × String)
  pub client_id_metadata_document_supported : Bool

-- json.Unmarshal into the two documents. The first ignores its error: what it leaves is the value.
pub record Decoder : Type 0 where
  pub decode_prm : String → PrmDoc
  pub decode_as : String → Option AsMetadata

abbrev pub nothing_resolved : Discovered
nothing_resolved = record {
  issuer = "";
  token_endpoint = "";
  authorization_endpoint = "";
  jwks_uri = "";
  grant_types_supported = [];
  code_challenge_methods_supported = [];
  dpop_signing_alg_values_supported = [];
  prm_resource = "";
  prm_authorization_servers = [];
  prm_scopes_supported = [];
  prm_bearer_methods_supported = [];
  prm_dpop_bound_access_tokens_required = false;
  raw_as_metadata = "";
  raw_prm = "";
  mcp_era = "";
  mcp_protocol_version = "";
  mcp_supported_versions = [];
  registration_endpoint = "";
  token_endpoint_auth_methods_supported = [];
  pushed_authorization_request_endpoint = "";
  require_pushed_authorization_requests = false;
  introspection_endpoint = "";
  revocation_endpoint = "";
  response_types_supported = [];
  authorization_response_iss_parameter_supported = false;
  signed_metadata = "";
  tls_client_certificate_bound_access_tokens = false;
  mtls_endpoint_aliases = [];
  client_id_metadata_document_supported = false;
}
