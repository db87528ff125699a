-- ===== src/Checks/Documents.antt =====
-- conformance/checks_cimd.go and ProbeCIMDAuthorize of probe/cimd.go: the checks of client documents. The
-- listener that serves a document is outside, and so are NewPKCE and the client that follows no redirect.
use aoa_conformance.Prelude.{
  String, Bool, none, some, List, [], ◌∷◌, ◌||◌, not, is_empty, is_some, false, if◌then◌else◌,
}
use aoa_conformance.Prelude.Decimal.{itoa}
use aoa_conformance.Prelude.Scan.{cut}
use aoa_conformance.Prelude.Result.{Result, ok, err}
use aoa_conformance.Prelude.Text.{◌&◌}
use aoa_conformance.Model.{profile_2026_07, may, should, CheckResult, Target, hint}
use aoa_conformance.Http.{HttpReply, Transport, Call, get_header}
use aoa_conformance.Http.Form.{Form, form_string}
use aoa_conformance.Gate.{Check, needs, cimd_advertised, authorization_endpoint}
use aoa_conformance.Checks.{
  Kit, passed, failed, errored, left_untested, left_unsupported, described, reads,
}

-- The listener of `HostClientDoc`, the client of the probe (it follows no redirect and reads at most 64 KB
-- of a body) and the challenge of `NewPKCE`.
pub record Hosting (W : Type 0) (D : Type 0) : Type 0 where
  pub host : String → Call W D
  pub url_of : D → String
  pub is_fetched : D → W → Bool
  pub close : D → W → W
  pub send_direct : Transport W
  pub challenge : W → String × W

-- `CIMDResult`, without the status, which nothing reads.
pub record CimdResult : Type 0 where
  pub rejected : Bool
  pub evidence : String

abbrev redirect_uri : String
redirect_uri = "http://127.0.0.1:1/callback"

-- The query of the authorization request.
unfoldable pub authorize_query : String → String → String → Form
unfolding form_string
authorize_query document state challenge =
    form_string
      (("client_id", document)
        ∷ ("response_type", "code")
        ∷ ("redirect_uri", redirect_uri)
        ∷ ("scope", "openid")
        ∷ ("state", state)
        ∷ ("code_challenge", challenge)
        ∷ ("code_challenge_method", "S256")
        ∷ [])
      []

abbrev has_part : String → String → Bool
has_part part s = is_some (cut part s)

abbrev read_authorize : String → HttpReply → CimdResult
read_authorize full reply =
    let loc = get_header "Location" reply.headers in
    let hay = reply.body & " " & loc in
    record {
      rejected = has_part "invalid_client" hay || has_part "unauthorized_client" hay;
      evidence =
          "GET "
          & full
          & "\nHTTP "
          & itoa reply.status_code
          & "\nLocation: "
          & loc
          & "\nbody: "
          & reply.body;
    }

abbrev on_reply : {W : Type 0} → String → Result String HttpReply × W → Result String CimdResult × W
on_reply full (err e, w) = (err e, w)
on_reply full (ok reply, w) = (ok (read_authorize full reply), w)

module _ {W : Type 0} {D : Type 0} (kit : Kit W) (hosting : Hosting W D) where
  -- The request to an address, after the random texts.
  abbrev send_authorize : String → String → String → String × W → Result String CimdResult × W
  send_authorize endpoint document challenge (state, w) =
      let full = endpoint & "?" & kit.encode (authorize_query document state challenge) in
      on_reply full
        (hosting.send_direct (record { method = "GET"; url = full; headers = []; body = "" }) w)

  -- `ProbeCIMDAuthorize`
  unfoldable pub probe_cimd_authorize : String → String → Call W CimdResult
  unfolding authorize_query itoa cut
  probe_cimd_authorize endpoint document w =
      let (challenge, w') = hosting.challenge w in
      send_authorize endpoint document challenge (kit.random w')

  abbrev judge_authorize : Bool → Result String CimdResult → CheckResult
  judge_authorize unfetched (err e) = errored ("authorize probe failed: " & e) ""
  judge_authorize unfetched (ok res) =
      if not res.rejected
      then passed "AS accepted a URL client_id (CIMD)" res.evidence
      else if unfetched
      then left_untested
          "AS did not fetch the loopback client document (unreachable); pass --cimd-client-url to test this AS"
          res.evidence
      else failed "AS advertised CIMD but rejected the URL client_id with invalid_client"
          res.evidence

  -- A document that the caller hosts.
  abbrev judge_remote : Result String CimdResult × W → CheckResult × W
  judge_remote (answer, w) = (judge_authorize false answer, w)

  -- A document of our own, which is closed at the end.
  abbrev judge_hosted : D → Result String CimdResult × W → CheckResult × W
  judge_hosted d (answer, w) =
      (judge_authorize (not (hosting.is_fetched d w)) answer, hosting.close d w)

  abbrev probe_hosted : Target → Result String D × W → CheckResult × W
  probe_hosted t (err e, w) = (errored ("could not host client-metadata document: " & e) "", w)
  probe_hosted t (ok d, w) =
      judge_hosted d (probe_cimd_authorize t.discovered.authorization_endpoint (hosting.url_of d) w)

  -- `runCIMDBehavioral`
  unfoldable pub run_cimd_behavioral : Target → W → CheckResult × W
  unfolding probe_cimd_authorize
  run_cimd_behavioral t w =
      let document = hint "cimd_client_url" t.hints in
      let hosted = probe_hosted t (hosting.host redirect_uri w) in
      let remote =
        judge_remote (probe_cimd_authorize t.discovered.authorization_endpoint document w) in
      if is_empty document then hosted else remote

  abbrev judge_advertised : Target → CheckResult
  judge_advertised t =
      if t.discovered.client_id_metadata_document_supported
      then passed "client_id_metadata_document_supported: true" ""
      else left_unsupported "AS does not advertise client_id_metadata_document_supported" ""

  -- `registerCIMD`
  unfoldable pub register_cimd : List (Check W)
  unfolding run_cimd_behavioral
  register_cimd =
      described "cimd.advertise.supported" profile_2026_07 "CIMD" "advertise" may
        "AS advertises client_id_metadata_document_supported" none (reads judge_advertised)
      ∷ described "cimd.register.url_client_id" profile_2026_07 "CIMD" "behavior" should
          "AS fetches a URL (CIMD) client_id document and accepts the client"
          (some (needs (cimd_advertised ∷ authorization_endpoint ∷ []))) run_cimd_behavioral
      ∷ []
