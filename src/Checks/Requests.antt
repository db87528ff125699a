-- ===== src/Checks/Requests.antt =====
-- conformance/checks_oauth21.go, checks_rfc7662.go, checks_rfc7009.go and checks_sep2351.go: the checks
-- that send a request and read the answer.
use aoa_conformance.Prelude.{
  String, ℕ, Bool, true, false, Option, none, some, List, [], ◌∷◌, ◌||◌, not, is_empty, nat_eq,
  if◌then◌else◌,
}
use aoa_conformance.Prelude.Decimal.{itoa}
use aoa_conformance.Prelude.Json.{Json, str, bool, lookup, is_nil}
use aoa_conformance.Prelude.Result.{Result, ok, err}
use aoa_conformance.Prelude.Scan.{trim_slashes}
use aoa_conformance.Prelude.Text.{◌&◌}
use aoa_conformance.Model.{
  profile_core, profile_extended, profile_2026_07, must, may, CheckResult, Target,
}
use aoa_conformance.Http.{Response, get, post_form}
use aoa_conformance.Http.ClientAuth.{apply_client_auth}
use aoa_conformance.Http.Form.{form_string}
use aoa_conformance.Gate.{
  Check, needs, token_endpoint, introspection_endpoint, revocation_endpoint,
  introspection_for_revocation, token_source, mcp_target,
}
use aoa_conformance.Runner.{obtain_token}
use aoa_conformance.Checks.{
  Kit, UrlView, passed, failed, errored, left_untested, left_unsupported, described, client_auth_of,
  post, token_for,
}
use aoa_conformance.Checks.Metadata.{response_type_code}

abbrev is_text : Option Json → Bool
is_text (some (str s)) = true
is_text _ = false

-- `active, _ := resp.JSON()["active"].(bool)`
abbrev pub is_true : Option Json → Bool
is_true (some (bool b)) = b
is_true _ = false

-- The statuses that mean that nothing is deployed at the address.
abbrev is_unrouted : ℕ → Bool
is_unrouted code = nat_eq code 404 || nat_eq code 405 || nat_eq code 501

module _ {W : Type 0} (kit : Kit W) where
  -- A token request of the given grant type without a client.
  abbrev bare_grant : String → Target → W → Result String Response × W
  bare_grant grant_type t w =
      post kit t.discovered.token_endpoint (form_string (("grant_type", grant_type) ∷ []) [], []) w

  abbrev judge_reached : Result String Response → CheckResult
  judge_reached (err e) = failed ("token endpoint unreachable: " & e) ""
  judge_reached (ok r) = passed "token endpoint reachable" r.evidence

  abbrev judge_unknown_grant : Result String Response → CheckResult
  judge_unknown_grant (err e) = errored e ""
  judge_unknown_grant (ok r) =
      if nat_eq r.status_code 200
      then failed "unknown grant_type accepted" r.evidence
      else if is_nil (lookup "error" (kit.json r.body))
      then failed "rejected but no error field" r.evidence
      else passed "unknown grant_type rejected with error" r.evidence

  abbrev judge_error_shape : Result String Response → CheckResult
  judge_error_shape (err e) = errored e ""
  judge_error_shape (ok r) =
      if not (is_text (lookup "error" (kit.json r.body)))
      then failed "error response is not JSON with an error field" r.evidence
      else passed "RFC 6749 §5.2 error shape" r.evidence

  abbrev pub judged :
      (Result String Response → CheckResult) → Result String Response × W → CheckResult × W
  judged judge (answer, w) = (judge answer, w)

  abbrev oauth21 : String → String → String → (Target → W → CheckResult × W) → Check W
  oauth21 id section description run =
      described id profile_core "OAuth 2.1" section must description
        (some (needs (token_endpoint ∷ []))) run

  -- The check oauth21.token.rejects_unknown_grant.
  unfoldable pub try_unknown_grant : Target → W → CheckResult × W
  unfolding form_string post_form lookup
  try_unknown_grant t w = judged judge_unknown_grant (bare_grant "bogus" t w)

  -- `registerOAuth21`
  unfoldable pub register_oauth21 : List (Check W)
  unfolding form_string post_form lookup try_unknown_grant
  register_oauth21 =
      oauth21 "oauth21.token.reachable" "RFC 6749 §3.2" "token endpoint returns an HTTP response"
        (λ t w. judged judge_reached (bare_grant "client_credentials" t w))
      ∷ oauth21 "oauth21.token.rejects_unknown_grant" "RFC 6749 §5.2"
          "unknown grant_type is rejected with 400 + error" try_unknown_grant
      ∷ oauth21 "oauth21.token.error_shape_rfc6749" "RFC 6749 §5.2"
          "error response is JSON with an error field"
          (λ t w. judged judge_error_shape (bare_grant "bogus" t w))
      ∷ response_type_code
      ∷ []

  -- `introspect`
  unfoldable pub introspect : Target → String → W → Result String Response × W
  unfolding form_string apply_client_auth post_form
  introspect t token w =
      post kit t.discovered.introspection_endpoint
        (client_auth_of kit t (form_string (("token", token) ∷ []) [])) w

  abbrev pub judge_active : Result String Response → CheckResult
  judge_active (err e) = errored e ""
  judge_active (ok r) =
      if is_true (lookup "active" (kit.json r.body))
      then passed "token introspects as active" r.evidence
      else failed "issued token reported inactive" r.evidence

  -- What the two checks do with the token that they obtain.
  abbrev pub with_token :
      String
      → (String → W → CheckResult × W)
      → (String × String × Option String) × W
      → CheckResult × W
  with_token missing use_token ((token, evidence, some e), w) =
      (errored ("obtain token: " & e) evidence, w)
  with_token missing use_token ((token, evidence, none), w) =
      if is_empty token then (left_untested missing evidence, w) else use_token token w

  -- The check rfc7662.introspect.active.
  unfoldable pub check_introspection : Target → W → CheckResult × W
  unfolding obtain_token introspect lookup
  check_introspection t w =
      with_token "the AS issued no token to introspect; pass --subject-token"
        (λ token w'. judged judge_active (introspect t token w')) (token_for kit t w)

  -- `registerRFC7662`
  unfoldable pub register_rfc7662 : List (Check W)
  unfolding check_introspection
  register_rfc7662 =
      described "rfc7662.introspect.active" profile_extended "RFC 7662" "§2" may
        "an issued token introspects as active:true"
        (some (needs (introspection_endpoint ∷ token_source ∷ []))) check_introspection
      ∷ []

  -- A revocation request for a token.
  unfoldable pub revoke_token : Target → String → W → Result String Response × W
  unfolding form_string apply_client_auth post_form
  revoke_token t token w =
      post kit t.discovered.revocation_endpoint
        (client_auth_of kit t (form_string (("token", token) ∷ []) [])) w

  abbrev judge_deployed : String → Result String Response → CheckResult
  judge_deployed endpoint (err e) =
      errored ("revocation request to " & endpoint & " failed: " & e) ""
  judge_deployed endpoint (ok r) =
      if is_unrouted r.status_code
      then left_unsupported
          ("revocation_endpoint "
            & endpoint
            & " is advertised but answers HTTP "
            & itoa r.status_code
            & ", so no revocation endpoint is deployed there")
          r.evidence
      else passed ("revocation_endpoint " & endpoint & " answered HTTP " & itoa r.status_code)
          r.evidence

  -- The check rfc7009.advertise.revocation_endpoint.
  unfoldable pub check_deployment : Target → W → CheckResult × W
  unfolding revoke_token itoa
  check_deployment t w =
      let (random, w') = kit.random w in
      judged (judge_deployed t.discovered.revocation_endpoint)
        (revoke_token t ("aoaconform." & random) w')

  abbrev pub judge_inactive : Result String Response → CheckResult
  judge_inactive (err e) = errored e ""
  judge_inactive (ok r) =
      if is_true (lookup "active" (kit.json r.body))
      then failed "token still active after revocation" r.evidence
      else passed "token inactive after revocation" r.evidence

  abbrev pub after_revocation : Target → String → Result String Response × W → CheckResult × W
  after_revocation t token (err e, w) = (errored ("revoke request failed: " & e) "", w)
  after_revocation t token (ok r, w) = judged judge_inactive (introspect t token w)

  -- The check rfc7009.revoke.honored.
  unfoldable pub check_revocation : Target → W → CheckResult × W
  unfolding obtain_token introspect revoke_token lookup
  check_revocation t w =
      with_token "the AS issued no token to revoke; pass --subject-token"
        (λ token w'. after_revocation t token (revoke_token t token w')) (token_for kit t w)

  -- `registerRFC7009`
  unfoldable pub register_rfc7009 : List (Check W)
  unfolding check_deployment check_revocation
  register_rfc7009 =
      described "rfc7009.advertise.revocation_endpoint" profile_extended "RFC 7009" "§2" may
        "the advertised revocation_endpoint is deployed and answers a revocation request"
        (some (needs (revocation_endpoint ∷ []))) check_deployment
      ∷ described "rfc7009.revoke.honored" profile_extended "RFC 7009" "§2" may
          "a revoked token becomes inactive (confirmed via introspection)"
          (some (needs (revocation_endpoint ∷ introspection_for_revocation ∷ token_source ∷ [])))
          check_revocation
      ∷ []

  -- `suffixPRMURL`
  abbrev suffix_prm_url : UrlView → String
  suffix_prm_url u =
      u.scheme & "://" & u.host & "/.well-known/oauth-protected-resource" & trim_slashes u.path

  abbrev judge_document : String → Response → Option String → CheckResult
  judge_document url r (some e) = failed ("suffix-path PRM is not valid JSON: " & e) r.body
  judge_document url r none = passed ("PRM resolves at suffix path " & url) r.body

  abbrev judge_suffix : String → Result String Response → CheckResult
  judge_suffix url (err e) = errored ("fetch " & url & ": " & e) ""
  judge_suffix url (ok r) =
      if not (nat_eq r.status_code 200)
      then failed ("PRM not reachable at suffix path " & url & " (HTTP " & itoa r.status_code & ")")
          r.evidence
      else judge_document url r (kit.json_error r.body)

  abbrev fetch_suffix : Result String UrlView → W → CheckResult × W
  fetch_suffix (err e) w = (errored ("cannot parse target URL: " & e) "", w)
  fetch_suffix (ok u) w =
      judged (judge_suffix (suffix_prm_url u)) (get (kit.environment.send) (suffix_prm_url u) w)

  -- `registerSEP2351`
  unfoldable pub register_sep2351 : List (Check W)
  unfolding get itoa trim_slashes
  register_sep2351 =
      described "sep2351.discovery.suffix_path" profile_2026_07 "SEP-2351" "well-known suffix" must
        "RFC 9728 PRM is reachable at the suffix-inserted well-known path for the resource"
        (some (needs (mcp_target ∷ []))) (λ t w. fetch_suffix (kit.view_url t.mcp_url) w)
      ∷ []
