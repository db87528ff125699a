-- ===== src/Discover/Requests.antt =====
-- How many requests a discovery sends.
use aoa_conformance.Prelude.{
  String, ◌≡◌, refl, ap, Bool, true, false, Option, none, some, List, [], ◌∷◌, arith, ◌+◌, ◌≤◌,
  is_empty, ℕ, if◌then◌else◌,
}
use aoa_conformance.Prelude.Lists.{length}
use aoa_conformance.Prelude.Result.{Result, ok, err}
use aoa_conformance.Prelude.Scan.{trim_slashes}
use aoa_conformance.Prelude.Text.{◌&◌}
use aoa_conformance.Http.{
  HttpRequest, HttpReply, Response, Transport, recording, get, length-perform,
}
use aoa_conformance.Mcp.{McpResult, Codec, mcp_request}
use aoa_conformance.Mcp.Requests.{mcp_request-requests}
use aoa_conformance.Discover.{
  AsMetadata, Decoder, DiscoverInput, Discovery, Found, fetch_from, fetch_as_metadata, as_answer,
  from_issuer, from_servers, on_prm, on_call, discover, with_metadata, call_of, well_known_suffixes,
  from_call, or_next, fill_prm, prm_url, nothing_resolved,
}

module _ (server : List HttpRequest → HttpRequest → Result String HttpReply) (codec : Codec)
    (decoder : Decoder) where
  abbrev wire : Transport (List HttpRequest)
  wire = recording server

  length-get : (u : String) (log : List HttpRequest) → length (get wire u log).1 ≡ length log + 1
  unfolding get
  length-get u log = length-perform server _ _ log

  -- At most `n` requests more.
  abbrev Within : ℕ → List HttpRequest → List HttpRequest → Type 0
  Within n before after = length after ≤ length before + n

  length-or_next :
      (o : Option (AsMetadata × String)) (log : List HttpRequest)
      (later : Result String (AsMetadata × String) × List HttpRequest) (n : ℕ)
      → Within n log later.1
      → Within n log (or_next wire codec decoder o log later).1
  length-or_next none log later n h = h
  length-or_next (some found) log later n h = omega arith

  length-fetch_from :
      (issuer : String) (suffixes : List String) (log : List HttpRequest)
      → Within (length suffixes) log (fetch_from wire codec decoder issuer suffixes log).1
  unfolding fetch_from
  length-fetch_from issuer [] log = omega arith
  length-fetch_from issuer (suffix ∷ suffixes) log =
      let url = trim_slashes issuer & suffix in
      let after = (get wire url log).1 in
      omega (
        arith,
        length-get url log,
        length-or_next (as_answer wire codec decoder (get wire url log).0) after
            (fetch_from wire codec decoder issuer suffixes after) (length suffixes)
            (length-fetch_from issuer suffixes after),
      )

  log-with_metadata :
      (d : Found) (r : Result String (AsMetadata × String) × List HttpRequest)
      → (with_metadata wire codec decoder d r).1 ≡ r.1
  unfolding with_metadata
  log-with_metadata d (err e, log) = refl
  log-with_metadata d (ok found, log) = refl

  Within-if :
      (n : ℕ) (log : List HttpRequest) (b : Bool) (x y : Discovery × List HttpRequest)
      → Within n log x.1
      → Within n log y.1
      → Within n log (if b then x else y).1
  Within-if n log true x y hx hy = hx
  Within-if n log false x y hx hy = hy

  length-from_issuer :
      (d : Found) (issuer : String) (log : List HttpRequest)
      → Within 2 log (from_issuer wire codec decoder d issuer log).1
  unfolding from_issuer fetch_as_metadata
  length-from_issuer d issuer log =
      let named = record d { resolved = record (d.resolved) { issuer = issuer } } in
      Within-if 2 log (is_empty issuer) _ _ (omega arith) (
        omega (
          arith,
          ap length (log-with_metadata named (fetch_as_metadata wire codec decoder issuer log)),
          length-fetch_from issuer well_known_suffixes log,
        ))

  length-from_servers :
      (d : Found) (servers : List String) (log : List HttpRequest)
      → Within 2 log (from_servers wire codec decoder d servers log).1
  unfolding from_servers
  length-from_servers d [] log = omega arith
  length-from_servers d (issuer ∷ others) log = length-from_issuer d issuer log

  length-on_prm :
      (d : Found) (r : Result String Response × List HttpRequest)
      → Within 2 r.1 (on_prm wire codec decoder d r).1
  unfolding on_prm
  length-on_prm d (err e, log) = omega arith
  length-on_prm d (ok prm, log) =
      length-from_servers
        (record d { resolved = fill_prm (decoder.decode_prm prm.body) prm.body d.resolved })
        (decoder.decode_prm prm.body).authorization_servers log

  length-on_call :
      (mcp_url : String) (r : Result String McpResult × List HttpRequest)
      → Within 3 r.1 (on_call wire codec decoder mcp_url r).1
  unfolding on_call
  length-on_call mcp_url (err e, log) = omega arith
  length-on_call mcp_url (ok res, log) =
      let url = prm_url mcp_url (from_call res).www_authenticate in
      omega (arith, length-get url log, length-on_prm (from_call res) (get wire url log))

  -- Whatever the servers answer, a discovery sends at most five requests, and at most two when it
  -- starts from an issuer.
  pub discover-requests :
      (input : DiscoverInput) (log : List HttpRequest)
      → Within
          (if is_empty input.mcp_url then 2 else 5)
          log
          (discover wire codec decoder input log).1
  unfolding discover
  discover-requests input log =
      let first = mcp_request wire codec (call_of input.mcp_url) log in
      ground (
        arith,
        length-from_issuer (record { resolved = nothing_resolved; www_authenticate = "" })
            input.issuer log,
        mcp_request-requests server codec (call_of input.mcp_url) log,
        length-on_call input.mcp_url first,
      )
