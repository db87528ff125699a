-- ===== src/Tests.antt =====
-- Concrete reports, targets and servers, on which the modules below run the model.
pub mod Verdicts
pub mod Matrix
pub mod Gates
pub mod Protocol
pub mod Clients
pub mod Runs
pub mod Servers
pub mod Checked
pub mod Scorecard
use aoa_conformance.Prelude.{ℕ, String, Bool, true, false, Option, none, some, List, [], ◌∷◌}
use aoa_conformance.Prelude.Int.{negsuc}
use aoa_conformance.Prelude.Result.{Result, ok, err}
use aoa_conformance.Model.{
  profile_core, Severity, must, should, Status, pass, fail, skip, SkipKind, unset, unsupported,
  untested, CheckMeta, Entry, Target, AuthPlan, Discovered,
}
use aoa_conformance.Profiles.{ModelRequirement, ModelSurface, Profiles}
use aoa_conformance.Http.{HttpRequest, HttpReply, Transport, recording}
use aoa_conformance.Mcp.{McpInput, Codec, JsonRpcError}
use aoa_conformance.Discover.{Decoder, PrmDoc, AsMetadata, nothing_resolved, call_of}
use aoa_conformance.Register.{Library, RegisterResult}
use aoa_conformance.Resolve.{ResolveOptions}

abbrev pub meta_of : String → String → Severity → CheckMeta
meta_of id rfc severity = record {
  id = id;
  profile = profile_core;
  rfc = rfc;
  section = "";
  severity = severity;
  description = "";
}

abbrev pub entry : String → String → Severity → Status → SkipKind → Entry
entry id rfc severity status kind = record {
  check = meta_of id rfc severity;
  result = record { status = status; skip_kind = kind; message = ""; evidence = ""; duration = 0 };
}

abbrev pub passed_s256 : Entry
passed_s256 = entry "pkce.s256" "RFC 7636 (PKCE)" must pass unset

abbrev pub failed_plain : Entry
failed_plain = entry "pkce.plain" "RFC 7636 (PKCE)" should fail unset

abbrev pub untested_flow : Entry
untested_flow = entry "pkce.flow" "RFC 7636 (PKCE)" must skip untested

abbrev pub absent_dpop : Entry
absent_dpop = entry "dpop.advertised" "RFC 9449" should skip unsupported

abbrev pub small_report : List Entry
small_report = passed_s256 ∷ failed_plain ∷ untested_flow ∷ absent_dpop ∷ []

abbrev pub requires_pkce : ModelRequirement
requires_pkce = record {
  id = "rfc-7636";
  any_of = [];
  criticality = "mandatory";
  rationale = "";
  source = "";
  source_rank = "primary";
}

abbrev pub requires_registration : ModelRequirement
requires_registration = record {
  id = "";
  any_of = "cimd" ∷ "rfc-7636" ∷ [];
  criticality = "mandatory";
  rationale = "";
  source = "";
  source_rank = "observed";
}

abbrev pub agent : ModelSurface
agent = record {
  name = "agent";
  vendor = "";
  display = "Agent";
  note = "";
  unscorable = false;
  requires = requires_pkce ∷ [];
}

abbrev pub corpus : Profiles
corpus = record { version = 1; data_date = "2026-01-01"; surfaces = agent ∷ [] }

abbrev pub known : List String
known = "RFC 7636 (PKCE)" ∷ "CIMD" ∷ []

abbrev pub no_plan : AuthPlan
no_plan = record {
  client_id = "";
  client_secret = "";
  registered = false;
  token_auth_method = "";
  use_par = false;
  par_endpoint = "";
  scopes = [];
  dpop_required = false;
  registration_access_token = "";
  registration_client_uri = "";
  registered_application_type = "";
  registration_evidence = "";
  registration_error = "";
}

abbrev pub server_target : Target
server_target = record {
  mcp_url = "https://mcp.example/mcp";
  issuer = "";
  hints = [];
  discovered = nothing_resolved;
  creds = record {
    subject_token = "";
    refresh_token = "";
    scopes = [];
    auth_code_available = false;
    present_enabled = false;
  };
  plan = no_plan;
}

abbrev pub Log : Type 0
Log = List HttpRequest

-- A server that answers every request in the same way.
abbrev pub answers : ℕ → String → Transport Log
answers status body =
    recording (λ log req. ok (record { status_code = status; headers = []; body = body }))

abbrev pub plain_server : Log → HttpRequest → Result String HttpReply
plain_server log req = ok (record { status_code = 200; headers = []; body = "{}" })

-- A codec that recognises one error document.
abbrev pub sample_codec : Codec
sample_codec = record {
  encode_modern = λ method version params. method;
  encode_initialize = "initialize";
  decode_rpc = λ body. some (
      some (record {
        code = negsuc 32021;
        message = "unsupported";
        supported = "2026-07-28" ∷ "2027-01-01" ∷ [];
        requested = "";
      }));
}

abbrev pub sample_call : McpInput
sample_call = call_of "https://mcp.example/mcp"

abbrev pub sample_metadata : AsMetadata
sample_metadata = record {
  issuer = "https://as.example";
  token_endpoint = "https://as.example/token";
  authorization_endpoint = "https://as.example/authorize";
  jwks_uri = "";
  grant_types_supported = [];
  code_challenge_methods_supported = "S256" ∷ [];
  dpop_signing_alg_values_supported = [];
  registration_endpoint = "https://as.example/register";
  token_endpoint_auth_methods_supported = "none" ∷ [];
  pushed_authorization_request_endpoint = "";
  require_pushed_authorization_requests = false;
  introspection_endpoint = "";
  revocation_endpoint = "";
  response_types_supported = [];
  authorization_response_iss_parameter_supported = false;
  signed_metadata = "";
  tls_client_certificate_bound_access_tokens = false;
  mtls_endpoint_aliases = [];
  client_id_metadata_document_supported = false;
}

abbrev pub sample_decoder : Decoder
sample_decoder = record {
  decode_prm = λ body. record {
    resource = "https://mcp.example/mcp";
    authorization_servers = "https://as.example" ∷ [];
    scopes_supported = [];
    bearer_methods_supported = [];
    dpop_bound_access_tokens_required = false;
  };
  decode_as = λ body. some sample_metadata;
}

abbrev pub issued_client : RegisterResult
issued_client = record {
  client_id = "client-1";
  client_secret = "";
  registration_access_token = "rat";
  registration_client_uri = "https://as.example/register/client-1";
  application_type = "native";
  token_endpoint_auth_method = "private_key_jwt";
  evidence = "";
}

abbrev pub sample_library : Library
sample_library = record {
  parse_url =
      λ raw. some (record { scheme = "https"; host = "as.example"; hostname = "as.example" });
  resolve_reference = λ base ref. ref;
  encode_members = λ members. "{}";
  decode_client = λ body. ok issued_client;
  error_code = λ body. "";
  error_description = λ body. "";
}

abbrev pub options_for : String → ResolveOptions
options_for client_id = record {
  client_id = client_id;
  client_secret = "";
  token_auth_method = "";
  registration_token = "";
  client_name = "";
  scopes = [];
  redirect_uris = [];
}

abbrev pub advertised : Discovered
advertised = record nothing_resolved { registration_endpoint = "https://as.example/register" }
