-- ===== src/Mcp.antt =====
-- probe/mcp.go: one MCP call, with the retry on the server's own versions and the fallback to the
-- legacy handshake. The functions of encoding/json are parameters: `Codec`.
pub mod Laws
pub mod Versions
pub mod Requests
use aoa_conformance.Prelude.{
  ℕ, String, Bool, Option, none, some, List, [], ◌∷◌, ◌++◌, ◌==◌, ◌&&◌, ◌||◌, not, is_empty, ltb,
  nat_eq, if◌then◌else◌,
}
use aoa_conformance.Prelude.Lists.{select}
use aoa_conformance.Prelude.Int.{ℤ, negsuc, leℤ, eqℤ}
use aoa_conformance.Prelude.Result.{Result, ok, err}
use aoa_conformance.Prelude.Sort.{str_le, sort_strings}
use aoa_conformance.Prelude.Text.{◌&◌}
use aoa_conformance.Http.{Headers, Response, Transport, Call, perform}

abbrev pub version_modern : String
version_modern = "2026-07-28"

abbrev pub version_legacy : String
version_legacy = "2025-06-18"

-- `EraUnknown`, `EraModern`, `EraLegacy`
pub data Era : Type 0 where
  unknown modern legacy : Era

abbrev pub era_word : Era → String
era_word unknown = ""
era_word modern = "modern"
era_word legacy = "legacy"

pub record McpInput : Type 0 where
  pub endpoint : String
  pub method : String
  pub name : String
  pub params : String
  pub protocol_version : String
  pub token : String
  pub auth_scheme : String
  pub extra_headers : Headers

pub record McpResult : Type 0 where
  pub response : Response
  pub era : Era
  pub version : String
  pub supported_versions : List String

-- -32020, -32099, -32022, -32601
abbrev pub err_reserved_high : ℤ
err_reserved_high = negsuc 32019

abbrev pub err_reserved_low : ℤ
err_reserved_low = negsuc 32098

abbrev pub err_unsupported_protocol_version : ℤ
err_unsupported_protocol_version = negsuc 32021

abbrev pub err_method_not_found : ℤ
err_method_not_found = negsuc 32600

pub record JsonRpcError : Type 0 where
  pub code : ℤ
  pub message : String
  pub supported : List String
  pub requested : String

-- json.Marshal of the two documents that are sent, and json.Unmarshal of an answer into `jsonrpc`
-- and `error`: `none` on a failure, `some none` if there is no error member.
pub record Codec : Type 0 where
  pub encode_modern : String → String → String → String
  pub encode_initialize : String
  pub decode_rpc : String → Option (Option JsonRpcError)

-- `isEraAmbiguous`: 400, 404 and 405.
abbrev pub is_era_ambiguous : ℕ → Bool
is_era_ambiguous status = nat_eq status 400 || nat_eq status 404 || nat_eq status 405

abbrev pub is_spec_code : ℤ → Bool
is_spec_code code =
    (leℤ code err_reserved_high && leℤ err_reserved_low code) || eqℤ code err_method_not_found

recognised : Option (Option JsonRpcError) → Option JsonRpcError
recognised (some (some e)) = if is_spec_code e.code then some e else none
recognised _ = none

-- `modernError`
unfoldable pub modern_error : Codec → String → Option JsonRpcError
unfolding recognised
modern_error codec body = recognised (codec.decode_rpc body)

last_of : List String → String
last_of [] = ""
last_of (x ∷ []) = x
last_of (x ∷ y ∷ ys) = last_of (y ∷ ys)

-- `highestModernVersion`
pub highest_modern_version : List String → String
unfolding last_of
highest_modern_version supported =
    last_of (sort_strings (select (λ v. str_le version_modern v) supported))

abbrev or_default : String → String → String
or_default s default = if is_empty s then default else s

abbrev auth_header : McpInput → Headers
auth_header input =
    if is_empty input.token
    then []
    else ("Authorization", or_default input.auth_scheme "Bearer" & " " & input.token) ∷ []

abbrev name_header : McpInput → Headers
name_header input = if is_empty input.name then [] else ("Mcp-Name", input.name) ∷ []

module _ {W : Type 0} (send : Transport W) (codec : Codec) where
  -- `postJSONRPC`
  post_jsonrpc : McpInput → Headers → String → String → Call W Response
  post_jsonrpc input h body label =
      perform send
        (record {
          method = "POST";
          url = input.endpoint;
          headers =
              ("Content-Type", "application/json")
              ∷ ("Accept", "application/json, text/event-stream")
              ∷ (h ++ (auth_header input ++ input.extra_headers));
          body = body;
        })
        ("POST " & input.endpoint & "\n" & label & "\nbody: " & body)

  -- `postModern`
  pub post_modern : McpInput → String → Call W Response
  unfolding post_jsonrpc
  post_modern input version =
      let method = or_default input.method "tools/list" in
      post_jsonrpc input
        (("Mcp-Protocol-Version", version) ∷ ("Mcp-Method", method) ∷ name_header input)
        (codec.encode_modern method version input.params)
        ("MCP " & method & " (protocol " & version & ")")

  -- `postLegacyInitialize`
  pub post_legacy : McpInput → Call W Response
  unfolding post_jsonrpc
  post_legacy input =
      post_jsonrpc input [] codec.encode_initialize
        ("MCP initialize (legacy fallback, protocol " & version_legacy & ")")

  abbrev answer : Response → Era → String → List String → McpResult
  answer r era version supported = record {
    response = r;
    era = era;
    version = version;
    supported_versions = supported;
  }

  -- The fallback: what the legacy handshake gives, or the modern evidence if it fails.
  fall_back : Response → String → Result String Response × W → Result String McpResult × W
  fall_back first version (err e, w) = (ok (answer first unknown version []), w)
  fall_back first version (ok r, w) =
      (ok (answer r (if ltb r.status_code 300 then legacy else unknown) version_legacy []), w)

  -- The second attempt, on a version of the server's own.
  retried :
      Response
      → String
      → String
      → List String
      → Result String Response × W
      → Result String McpResult × W
  retried first version retry supported (err e, w) = (ok (answer first modern version supported), w)
  retried first version retry supported (ok r, w) = (ok (answer r modern retry supported), w)

  on_modern_error : McpInput → String → Response → JsonRpcError → W → Result String McpResult × W
  unfolding retried
  on_modern_error input version first e w =
      let retry = highest_modern_version e.supported in
      let again = retried first version retry e.supported (post_modern input retry w) in
      if not (eqℤ e.code err_unsupported_protocol_version)
      then (ok (answer first modern version []), w)
      else if is_empty retry || retry == version
      then (ok (answer first modern version e.supported), w)
      else again

  on_response : McpInput → String → Response → W → Result String McpResult × W
  unfolding on_modern_error fall_back
  on_response input version first w =
      let fallen = fall_back first version (post_legacy input w) in
      if not (is_era_ambiguous first.status_code)
      then (ok (answer first (if ltb first.status_code 300 then modern else unknown) version []), w)
      else elim (modern_error codec first.body) [
        | none ↦ fallen
        | some e ↦ on_modern_error input version first e w
      ]

  on_first : McpInput → String → Result String Response × W → Result String McpResult × W
  on_first input version (err e, w) = (err e, w)
  on_first input version (ok r, w) = on_response input version r w

  -- `MCPRequest`
  unfoldable pub mcp_request : McpInput → Call W McpResult
  unfolding on_first on_response
  mcp_request input w =
      let version = or_default input.protocol_version version_modern in
      on_first input version (post_modern input version w)
