-- ===== src/Checks/Audience.antt =====
-- conformance/checks_rfc8707.go: the resource of a token request and the audience of the token.
use aoa_conformance.Prelude.{
  String, Bool, true, false, Option, some, List, [], ◌∷◌, ◌||◌, not, ◌==◌, nat_eq, leb,
  if◌then◌else◌,
}
use aoa_conformance.Prelude.Json.{
  Json, Elements, Members, str, arr, end, item, empty, member, lookup, is_nil, or_null,
}
use aoa_conformance.Prelude.Result.{Result, ok, err}
use aoa_conformance.Prelude.Text.{◌&◌}
use aoa_conformance.Model.{Severity, profile_core, should, may, CheckResult, Target}
use aoa_conformance.Http.{Response, Headers, post_form}
use aoa_conformance.Http.ClientAuth.{apply_client_auth}
use aoa_conformance.Http.Form.{Form, form_string, add_value}
use aoa_conformance.Gate.{
  Check, needs, token_endpoint, client_credentials_grant, plan_client, mcp_target, auth_code_flow,
}
use aoa_conformance.Checks.{
  Kit, passed, failed, errored, left_untested, described, reads, text_at, client_auth_of, post,
}
use aoa_conformance.Checks.Resource.{normalize_resource}

abbrev probe_resource : String
probe_resource = "https://tool.example"

-- The elements that are texts with the test.
abbrev any_text : (String → Bool) → Elements → Bool
any_text p end = false
any_text p (item (str s) es) = p s || any_text p es
any_text p (item _ es) = any_text p es

-- The switch on the type of `aud`, for a test on its texts.
abbrev pub aud_has : (String → Bool) → Option Json → Bool
aud_has p (some (str s)) = p s
aud_has p (some (arr es)) = any_text p es
aud_has p _ = false

-- `audMatches`
abbrev pub aud_matches : Option Json → String → Bool
aud_matches aud want = aud_has (λ s. s == want) aud

abbrev is_nonempty : Members → Bool
is_nonempty empty = false
is_nonempty (member k j m) = true

abbrev pub unsupported_note : String
unsupported_note =
    "AS does not support client_credentials (unsupported_grant_type); pass --client-id at an AS offering it"

add_resources : List String → Form × Headers → Form × Headers
unfolding add_value
add_resources [] sent = sent
add_resources (r ∷ rs) (form, extra) = add_resources rs (add_value "resource" r form, extra)

module _ {W : Type 0} (kit : Kit W) where
  -- `audMatchesResource`
  unfoldable pub aud_matches_resource : Option Json → String → Bool
  unfolding normalize_resource
  aud_matches_resource aud resource =
      aud_has (λ s. normalize_resource kit s == normalize_resource kit resource) aud

  -- `grantRejected`
  unfoldable pub grant_rejected : Response → Bool
  unfolding lookup
  grant_rejected r = text_at (lookup "error" (kit.json r.body)) == "unsupported_grant_type"

  -- `ccForm`
  unfoldable pub request_with : List String → Target → W → Result String Response × W
  unfolding form_string apply_client_auth add_resources post_form
  request_with resources t w =
      post kit t.discovered.token_endpoint
        (add_resources resources
          (client_auth_of kit t (form_string (("grant_type", "client_credentials") ∷ []) [])))
        w

  unfoldable pub judge_accepted : Result String Response → CheckResult
  unfolding grant_rejected
  judge_accepted (err e) = errored e ""
  judge_accepted (ok r) =
      if nat_eq r.status_code 200
      then passed "resource parameter accepted" r.evidence
      else if text_at (lookup "error" (kit.json r.body)) == "invalid_target"
      then failed "legitimate resource rejected with invalid_target" r.evidence
      else if grant_rejected r
      then left_untested unsupported_note r.evidence
      else failed "resource request rejected" r.evidence

  abbrev pub issued_aud : Response → Option Json
  issued_aud r = lookup "aud" (kit.payload (text_at (lookup "access_token" (kit.json r.body))))

  unfoldable pub judge_audience : Result String Response → CheckResult
  unfolding grant_rejected
  judge_audience (err e) = errored e ""
  judge_audience (ok r) =
      if grant_rejected r
      then left_untested unsupported_note r.evidence
      else if not (nat_eq r.status_code 200)
      then failed "resource request rejected" r.evidence
      else if aud_matches (issued_aud r) probe_resource
      then passed "aud reflects requested resource" r.evidence
      else failed "aud absent or does not reflect resource" r.evidence

  unfoldable pub judge_several : Result String Response → CheckResult
  unfolding grant_rejected
  judge_several (err e) = errored e ""
  judge_several (ok r) =
      if leb 500 r.status_code
      then failed "server error on repeated resource" r.evidence
      else if grant_rejected r
      then left_untested unsupported_note r.evidence
      else passed "multiple resources handled" r.evidence

  abbrev judged_by :
      (Result String Response → CheckResult) → List String → Target → W → CheckResult × W
  judged_by judge resources t w =
      (judge (request_with resources t w).0, (request_with resources t w).1)

  unfoldable pub judge_round : Target → CheckResult
  unfolding aud_matches_resource lookup
  judge_round t =
      let claims = kit.payload t.creds.subject_token in
      let aud = lookup "aud" claims in
      if not (is_nonempty claims)
      then left_untested
          ("the audience cannot be read from an opaque access token; ask the operator whether the resource server validates aud against "
            & t.mcp_url)
          ""
      else if aud_matches_resource aud t.mcp_url
      then passed ("aud binds the token to " & t.mcp_url) ""
      else if is_nil aud
      then failed
          ("the authorization round sent resource=" & t.mcp_url
            & " and the issued token carries no aud, so nothing stops it being replayed at another resource")
          ""
      else failed
          ("the authorization round sent resource="
            & t.mcp_url
            & " and the issued token's aud is "
            & kit.show (or_null aud))
          ""

  abbrev rfc8707 : String → String → Severity → (Target → W → CheckResult × W) → Check W
  rfc8707 id description severity run =
      described id profile_core "RFC 8707" "§2" severity description
        (some (needs (token_endpoint ∷ client_credentials_grant ∷ plan_client ∷ []))) run

  -- `registerRFC8707`
  unfoldable pub register_rfc8707 : List (Check W)
  unfolding judge_accepted judge_audience judge_several judge_round request_with
  register_rfc8707 =
      rfc8707 "rfc8707.token.accepts_resource" "token request carrying a resource is accepted"
        should (judged_by judge_accepted (probe_resource ∷ []))
      ∷ rfc8707 "rfc8707.token.reflects_audience"
          "issued token's aud reflects the requested resource" should
          (judged_by judge_audience (probe_resource ∷ []))
      ∷ rfc8707 "rfc8707.token.multiple_resources"
          "multiple resource parameters are handled without error" may
          (judged_by judge_several (probe_resource ∷ "https://other.example" ∷ []))
      ∷ described "rfc8707.authcode.aud_reflects_resource" profile_core "RFC 8707" "§2" should
          "the token from the interactive round is audience-bound to this MCP server"
          (some (needs (mcp_target ∷ auth_code_flow ∷ []))) (reads judge_round)
      ∷ []
