-- ===== src/Discover.antt =====
-- probe/discover.go: from a server or an issuer to the authorization server's metadata. The JSON
-- decoders are parameters; a `Discovered` of the package `probe` has the fields of `Discovered`
-- and the challenge, so that the copy in `conformance.Discover` is the field `resolved`.

pub mod Data
pub mod Results
pub mod Requests
pub use Data.{DiscoverInput, Found, Discovery, PrmDoc, AsMetadata, Decoder, nothing_resolved}
use aoa_conformance.Prelude.{
  String, Bool, false, Option, none, some, List, [], ◌∷◌, not, is_empty, nat_eq, if◌then◌else◌,
}
use aoa_conformance.Prelude.Result.{Result, ok, err}
use aoa_conformance.Prelude.Scan.{after_prefix, cut, trim_slashes}
use aoa_conformance.Prelude.Text.{◌&◌}
use aoa_conformance.Model.{Discovered}
use aoa_conformance.Http.{Response, Transport, get, get_header}
use aoa_conformance.Mcp.{McpInput, McpResult, Codec, era_word, mcp_request}

-- The group of the regular expression at a place: at least one character up to the next quote.
abbrev pub quoted : Option (String × String) → Option String
quoted none = none
quoted (some (before, after)) = if is_empty before then none else some before

abbrev pub group_after : Option String → Option String
group_after none = none
group_after (some rest) = quoted (cut "\"" rest)

abbrev pub or_later : Option String → String → String
or_later (some url) later = url
or_later none later = later

-- `prmURLFromChallenge`: the leftmost match.
unfoldable pub prm_url_from_challenge : String → String
unfolding after_prefix cut
prm_url_from_challenge String.[] = ""
prm_url_from_challenge (String.◌∷◌ c h) =
    let later = prm_url_from_challenge h in
    or_later (group_after (after_prefix "resource_metadata=\"" (String.◌∷◌ c h))) later

-- `originOf`
unfoldable pub origin_of : String → String
unfolding cut
origin_of raw = elim (cut "://" raw) [
  | none ↦ raw
  | some (scheme, rest) ↦ elim (cut "/" rest) [
    | none ↦ raw
    | some (host, path) ↦ scheme & "://" & host
  ]
]

abbrev pub well_known_suffixes : List String
well_known_suffixes =
    "/.well-known/oauth-authorization-server" ∷ "/.well-known/openid-configuration" ∷ []

-- The fields that the metadata of the authorization server fills.
abbrev pub fill : AsMetadata → String → Discovered → Discovered
fill meta raw d = record d {
  raw_as_metadata = raw;
  token_endpoint = meta.token_endpoint;
  authorization_endpoint = meta.authorization_endpoint;
  jwks_uri = meta.jwks_uri;
  grant_types_supported = meta.grant_types_supported;
  code_challenge_methods_supported = meta.code_challenge_methods_supported;
  dpop_signing_alg_values_supported = meta.dpop_signing_alg_values_supported;
  registration_endpoint = meta.registration_endpoint;
  token_endpoint_auth_methods_supported = meta.token_endpoint_auth_methods_supported;
  pushed_authorization_request_endpoint = meta.pushed_authorization_request_endpoint;
  require_pushed_authorization_requests = meta.require_pushed_authorization_requests;
  introspection_endpoint = meta.introspection_endpoint;
  revocation_endpoint = meta.revocation_endpoint;
  response_types_supported = meta.response_types_supported;
  authorization_response_iss_parameter_supported =
      meta.authorization_response_iss_parameter_supported;
  signed_metadata = meta.signed_metadata;
  tls_client_certificate_bound_access_tokens = meta.tls_client_certificate_bound_access_tokens;
  mtls_endpoint_aliases = meta.mtls_endpoint_aliases;
  client_id_metadata_document_supported = meta.client_id_metadata_document_supported;
}

abbrev pub fill_prm : PrmDoc → String → Discovered → Discovered
fill_prm doc raw d = record d {
  raw_prm = raw;
  prm_resource = doc.resource;
  prm_authorization_servers = doc.authorization_servers;
  prm_scopes_supported = doc.scopes_supported;
  prm_bearer_methods_supported = doc.bearer_methods_supported;
  prm_dpop_bound_access_tokens_required = doc.dpop_bound_access_tokens_required;
}

-- What the MCP call revealed.
abbrev pub from_call : McpResult → Found
from_call res = record {
  resolved = record nothing_resolved {
    mcp_era = era_word res.era;
    mcp_protocol_version = res.version;
    mcp_supported_versions = res.supported_versions;
  };
  www_authenticate = get_header "Www-Authenticate" res.response.headers;
}

abbrev pub failed_without : String → Discovery
failed_without text = record { found = none; failure = some text }

abbrev pub failed_with : Found → String → Discovery
failed_with d text = record { found = some d; failure = some text }

abbrev pub call_of : String → McpInput
call_of url = record {
  endpoint = url;
  method = "";
  name = "";
  params = "";
  protocol_version = "";
  token = "";
  auth_scheme = "";
  extra_headers = [];
}

-- The challenge's pointer, or the well-known path on the origin of the server.
unfoldable pub prm_url : String → String → String
unfolding prm_url_from_challenge origin_of trim_slashes
prm_url mcp_url challenge =
    let pointer = prm_url_from_challenge challenge in
    if is_empty pointer
    then trim_slashes (origin_of mcp_url) & "/.well-known/oauth-protected-resource"
    else pointer

module _ {W : Type 0} (send : Transport W) (codec : Codec) (decoder : Decoder) where
  abbrev usable : String → Option AsMetadata → Option (AsMetadata × String)
  usable body none = none
  usable body (some m) = if is_empty m.token_endpoint then none else some (m, body)

  as_answer : Result String Response → Option (AsMetadata × String)
  as_answer (err e) = none
  as_answer (ok r) =
      if nat_eq r.status_code 200 then usable r.body (decoder.decode_as r.body) else none

  abbrev or_next :
      Option (AsMetadata × String)
      → W
      → Result String (AsMetadata × String) × W
      → Result String (AsMetadata × String) × W
  or_next (some found) w later = (ok found, w)
  or_next none w later = later

  -- The loop of `fetchASMetadata`.
  fetch_from : String → List String → W → Result String (AsMetadata × String) × W
  unfolding as_answer
  fetch_from issuer [] w = (err "no usable AS metadata at well-known endpoints", w)
  fetch_from issuer (suffix ∷ suffixes) w =
      let reply = get send (trim_slashes issuer & suffix) w in
      or_next (as_answer reply.0) reply.1 (fetch_from issuer suffixes reply.1)

  unfoldable pub fetch_as_metadata : String → W → Result String (AsMetadata × String) × W
  unfolding fetch_from
  fetch_as_metadata issuer w = fetch_from issuer well_known_suffixes w

  with_metadata : Found → Result String (AsMetadata × String) × W → Discovery × W
  with_metadata d (err e, w) = (failed_with d e, w)
  with_metadata d (ok (meta, raw), w) = (
    record { found = some (record d { resolved = fill meta raw d.resolved }); failure = none },
    w,
  )

  -- Step 3, and the test before it.
  from_issuer : Found → String → W → Discovery × W
  unfolding with_metadata
  from_issuer d issuer w =
      if is_empty issuer
      then (failed_without "no issuer to discover", w)
      else let named = record d { resolved = record (d.resolved) { issuer = issuer } } in
        with_metadata named (fetch_as_metadata issuer w)

  from_servers : Found → List String → W → Discovery × W
  from_servers d [] w = (failed_with d "PRM has no authorization_servers", w)
  from_servers d (issuer ∷ others) w = from_issuer d issuer w

  -- Step 2, after the PRM was fetched.
  on_prm : Found → Result String Response × W → Discovery × W
  unfolding from_servers
  on_prm d (err e, w) = (failed_without e, w)
  on_prm d (ok prm, w) =
      let doc = decoder.decode_prm prm.body in
      from_servers (record d { resolved = fill_prm doc prm.body d.resolved })
        doc.authorization_servers w

  -- Step 1, after the MCP call.
  on_call : String → Result String McpResult × W → Discovery × W
  unfolding on_prm
  on_call mcp_url (err e, w) = (failed_without e, w)
  on_call mcp_url (ok res, w) =
      let d = from_call res in on_prm d (get send (prm_url mcp_url d.www_authenticate) w)

  -- `probe.Discover`
  pub discover : DiscoverInput → W → Discovery × W
  unfolding on_call from_issuer
  discover input w =
      if not (is_empty input.mcp_url)
      then on_call input.mcp_url (mcp_request send codec (call_of input.mcp_url) w)
      else from_issuer (record { resolved = nothing_resolved; www_authenticate = "" }) input.issuer
          w
