-- ===== src/Tests/Protocol.antt =====
-- Runs of the MCP call, of the discovery and of the form of a token exchange.
use aoa_conformance.Prelude.Int.{negsuc}
use aoa_conformance.Prelude.{some, String, ◌≡◌, ◌≤◌, ◌+◌, ◌⊎◌, refl, false, List, [], ◌∷◌}
use aoa_conformance.Prelude.Lists.{any, length}
use aoa_conformance.Prelude.Result.{ok, err}
use aoa_conformance.Http.{recording}
use aoa_conformance.Http.Exchange.{exchange_form}
use aoa_conformance.Http.Form.{get_value, set_value, add_value, values_of}
use aoa_conformance.Mcp.{
  modern_error, McpResult, version_modern, highest_modern_version, mcp_request,
}
use aoa_conformance.Mcp.Laws.{Obtained, EraHolds, mcp_request-Obtained}
use aoa_conformance.Mcp.Requests.{mcp_request-requests}
use aoa_conformance.Mcp.Versions.{IsHighest, highest_modern_version-IsHighest}
use aoa_conformance.Prelude.Sort.{str_le}
use aoa_conformance.Discover.{DiscoverInput, discover, prm_url, prm_url_from_challenge}
use aoa_conformance.Discover.Results.{IsSound, discover-IsSound}
use aoa_conformance.Discover.Requests.{discover-requests}
use aoa_conformance.Tests.{Log, answers, plain_server, sample_codec, sample_call, sample_decoder}

mcp_request-Obtained_example :
    ((e : String) × ((mcp_request (answers 400 "{}") sample_codec sample_call []).0 ≡ err e))
    ⊎ ((res : McpResult) × ((mcp_request (answers 400 "{}") sample_codec sample_call []).0 ≡ ok res)
        × Obtained (answers 400 "{}") sample_codec sample_call res
        × EraHolds (answers 400 "{}") sample_codec sample_call res)
mcp_request-Obtained_example = mcp_request-Obtained (answers 400 "{}") sample_codec sample_call []

abbrev no_requests : Log
no_requests = []

mcp_request-requests_example :
    (length no_requests + 1
      ≤ length (mcp_request (recording plain_server) sample_codec sample_call no_requests).1)
    × (length (mcp_request (recording plain_server) sample_codec sample_call no_requests).1
        ≤ length no_requests + 2)
mcp_request-requests_example =
    mcp_request-requests plain_server sample_codec sample_call no_requests

abbrev versions : List String
versions = "2025-06-18" ∷ "2027-01-01" ∷ "2026-07-28" ∷ []

highest_modern_version-IsHighest_example :
    ((any (λ v. str_le version_modern v) versions ≡ false) × (highest_modern_version versions ≡ ""))
    ⊎ IsHighest (highest_modern_version versions) versions
highest_modern_version-IsHighest_example = highest_modern_version-IsHighest versions

abbrev from_server : DiscoverInput
from_server = record { mcp_url = "https://mcp.example/mcp"; issuer = "" }

discover-IsSound_example :
    IsSound
      (answers 200 "{}")
      sample_codec
      sample_decoder
      (discover (answers 200 "{}") sample_codec sample_decoder from_server []).0
discover-IsSound_example =
    discover-IsSound (answers 200 "{}") sample_codec sample_decoder from_server []

discover-requests_example :
    length (discover (recording plain_server) sample_codec sample_decoder from_server no_requests).1
    ≤ length no_requests + 5
discover-requests_example =
    discover-requests plain_server sample_codec sample_decoder from_server no_requests

prm_url_pointer :
    prm_url_from_challenge
      "Bearer realm=\"x\", resource_metadata=\"https://rs.example/prm\", a=\"b\""
    ≡ "https://rs.example/prm"
unfolding prm_url_from_challenge
prm_url_pointer = refl

prm_url_fallback :
    prm_url "https://mcp.example/mcp" "Bearer"
    ≡ "https://mcp.example/.well-known/oauth-protected-resource"
unfolding prm_url
prm_url_fallback = refl

exchange_form_example :
    values_of "audience" (
      exchange_form (record {
        subject_token = "t";
        subject_token_type = "access_token";
        actor_token = "";
        actor_token_type = "";
        audience = "a" ∷ "b" ∷ [];
        resource = [];
        scope = [];
        requested_token_type = "";
      }))
    ≡ ("a" ∷ "b" ∷ [])
unfolding exchange_form values_of
exchange_form_example = refl

get_value_first : get_value "k" (add_value "k" "2" (set_value "k" "1" [])) ≡ "1"
unfolding get_value set_value add_value
get_value_first = refl

modern_error-sample_codec :
    modern_error sample_codec "{}"
    ≡ some (record {
      code = negsuc 32021;
      message = "unsupported";
      supported = "2026-07-28" ∷ "2027-01-01" ∷ [];
      requested = "";
    })
unfolding modern_error
modern_error-sample_codec = refl
