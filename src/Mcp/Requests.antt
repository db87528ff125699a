-- ===== src/Mcp/Requests.antt =====
-- How many requests an MCP call sends.
use aoa_conformance.Prelude.{Option-cases, inl, inr, ◌+◌, ◌≤◌, String, ◌≡◌, List, arith}
use aoa_conformance.Prelude.Lists.{length}
use aoa_conformance.Prelude.Result.{Result, ok, err}
use aoa_conformance.Http.{HttpRequest, HttpReply, Response, recording, length-perform}
use aoa_conformance.Mcp.{
  McpInput, JsonRpcError, Codec, modern_error, post_jsonrpc, post_modern, post_legacy, fall_back,
  retried, on_modern_error, on_response, on_first, mcp_request, highest_modern_version, or_default,
  version_modern,
}

module _ (server : List HttpRequest → HttpRequest → Result String HttpReply) (codec : Codec)
    (input : McpInput) where
  abbrev net : HttpRequest → List HttpRequest → Result String HttpReply × List HttpRequest
  net = recording server

  length-post_modern :
      (version : String) (log : List HttpRequest)
      → length (post_modern net codec input version log).1 ≡ length log + 1
  unfolding post_modern post_jsonrpc
  length-post_modern version log = length-perform server _ _ log

  length-post_legacy :
      (log : List HttpRequest) → length (post_legacy net codec input log).1 ≡ length log + 1
  unfolding post_legacy post_jsonrpc
  length-post_legacy log = length-perform server _ _ log

  log-fall_back :
      (first : Response) (version : String) (r : Result String Response × List HttpRequest)
      → (fall_back net codec first version r).1 ≡ r.1
  unfolding fall_back
  log-fall_back first version r = ground arith

  log-retried :
      (first : Response) (version retry : String) (vs : List String)
      (r : Result String Response × List HttpRequest)
      → (retried net codec first version retry vs r).1 ≡ r.1
  unfolding retried
  log-retried first version retry vs r = ground arith

  length-on_modern_error :
      (version : String) (first : Response) (e : JsonRpcError) (log : List HttpRequest)
      → (length log ≤ length (on_modern_error net codec input version first e log).1)
        × (length (on_modern_error net codec input version first e log).1 ≤ length log + 1)
  unfolding on_modern_error
  length-on_modern_error version first e log =
      let retry = highest_modern_version e.supported in
      ground (
        arith,
        log-retried first version retry e.supported (post_modern net codec input retry log),
        length-post_modern retry log,
      )

  length-on_response :
      (version : String) (first : Response) (log : List HttpRequest)
      → (length log ≤ length (on_response net codec input version first log).1)
        × (length (on_response net codec input version first log).1 ≤ length log + 1)
  unfolding on_response
  length-on_response version first log = elim (Option-cases (modern_error codec first.body)) [
    | inl none_known ↦ ground (
      arith,
      log-fall_back first version (post_legacy net codec input log),
      length-post_legacy log,
    )
    | inr (e, known) ↦ ground (arith, length-on_modern_error version first e log)
  ]

  length-on_first :
      (version : String) (r : Result String Response × List HttpRequest)
      → (length r.1 ≤ length (on_first net codec input version r).1)
        × (length (on_first net codec input version r).1 ≤ length r.1 + 1)
  unfolding on_first
  length-on_first version (err e, log) = omega arith
  length-on_first version (ok r, log) = length-on_response version r log

  -- Whatever the server answers, a call sends one request or two, never a third.
  pub mcp_request-requests :
      (log : List HttpRequest)
      → (length log + 1 ≤ length (mcp_request net codec input log).1)
        × (length (mcp_request net codec input log).1 ≤ length log + 2)
  unfolding mcp_request
  mcp_request-requests log =
      let version = or_default input.protocol_version version_modern in
      let sent = length-post_modern version log in
      let rest = length-on_first version (post_modern net codec input version log) in
      (omega (arith, sent, rest.0), omega (arith, sent, rest.1))
