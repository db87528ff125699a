-- ===== src/Checks/Present.antt =====
-- probe/present.go (the header method, the only one that the checks use), conformance/checks_smoke.go and
-- the last row of conformance/checks_mcpserver.go: the checks that present a token.
use aoa_conformance.Prelude.{
  String, ℕ, Option, none, some, List, [], ◌∷◌, ◌++◌, ◌+◌, not, is_empty, nat_eq, leb,
  if◌then◌else◌,
}
use aoa_conformance.Prelude.Decimal.{itoa}
use aoa_conformance.Prelude.Json.{Members, str, num, empty, member}
use aoa_conformance.Prelude.Result.{Result, ok, err}
use aoa_conformance.Prelude.Text.{◌&◌}
use aoa_conformance.Model.{profile_core, must, should, CheckResult, Target, untested_for}
use aoa_conformance.Http.{Response, Call, get_header}
use aoa_conformance.Mcp.{McpInput, McpResult, mcp_request}
use aoa_conformance.Gate.{Check, Gate, needs, unless, mcp_target, token_source}
use aoa_conformance.Runner.{obtain_token}
use aoa_conformance.Checks.{Kit, passed, failed, errored, left_untested, described, token_for}
use aoa_conformance.Checks.Dpop.{continue}
use aoa_conformance.Checks.Proofs.{Prover, proof, proof_for}
use aoa_conformance.Checks.Requests.{judged}
use aoa_conformance.Checks.Resource.{judge_rejection}
use aoa_conformance.Checks.Resource.Rows.{bearer_call, mcp_server_rows}

-- `Signer` of probe/jose.go, which signs with jwx.
pub record Signing (W : Type 0) (S : Type 0) : Type 0 where
  pub new_signer : Call W S
  pub sign_jwt : S → Members → Call W String
  pub now : W → ℕ

-- `PresentInput` with the header method.
pub record PresentInput (K : Type 0) : Type 0 where
  pub resource_url : String
  pub token : String
  pub dpop : Option K
  pub dpop_nonce : String

abbrev dpop_call : {K : Type 0} → PresentInput K → String → McpInput
dpop_call input text = record (bearer_call input.resource_url input.token) {
  auth_scheme = "DPoP";
  extra_headers = ("Dpop", text) ∷ [];
}

abbrev present_gate : Gate
present_gate t =
    unless t.creds.present_enabled
      (untested_for "needs --present to complete the agent loop against the resource server")

abbrev foreign_issuer : String
foreign_issuer = "https://issuer.aoa-conform.invalid"

abbrev foreign_audience : String
foreign_audience = "https://resource.aoa-conform.invalid"

-- The claims of the forged token, at a time in seconds.
abbrev foreign_claims : ℕ → Members
foreign_claims now = member "iss" (str foreign_issuer) (
    member "aud" (str foreign_audience) (
      member "sub" (str "aoa-conform-probe")
        (member "iat" (num now) (member "exp" (num (now + 300)) empty))))

abbrev prefixed : {W A : Type 0} → String → Result String A × W → Result String A × W
prefixed prefix (ok a, w) = (ok a, w)
prefixed prefix (err e, w) = (err (prefix & e), w)

abbrev response_of : {W : Type 0} → Result String McpResult × W → Result String Response × W
response_of (ok res, w) = (ok res.response, w)
response_of (err e, w) = (err e, w)

module _ {W : Type 0} {K : Type 0} (kit : Kit W) (prover : Prover W K) where
  abbrev mcp_call : McpInput → Call W Response
  mcp_call input w =
      response_of (mcp_request (kit.environment.send) (kit.environment.codec) input w)

  -- `dpopProof` for a POST
  unfoldable pub dpop_proof : PresentInput K → K → Call W String
  unfolding proof
  dpop_proof input key w = prefixed "mint resource DPoP proof: " (
      proof kit prover key
        (record (proof_for input.resource_url) {
          ath = prover.s256 input.token;
          nonce = input.dpop_nonce;
        })
        w)

  -- `presentViaMCP`
  unfoldable pub present_via_mcp : PresentInput K → Call W Response
  unfolding mcp_request dpop_proof
  present_via_mcp input w = elim (input.dpop) [
    | none ↦ mcp_call (bearer_call input.resource_url input.token) w
    | some key ↦ continue (λ text. mcp_call (dpop_call input text)) (dpop_proof input key w)
  ]

  abbrev retried_under : PresentInput K → Response → Call W Response
  retried_under input r w =
      let nonce = get_header "Dpop-Nonce" r.headers in
      let again = present_via_mcp (record input { dpop_nonce = nonce }) w in
      if not (nat_eq r.status_code 401)
      then (ok r, w)
      else if is_empty nonce
      then (ok r, w)
      else again

  abbrev on_first_answer : PresentInput K → Response → Call W Response
  on_first_answer input r w = elim (input.dpop) [
    | none ↦ (ok r, w)
    | some key ↦ retried_under input r w
  ]

  -- `presentWithRetry`
  unfoldable pub present_with_retry : Target → String → Option K → Call W Response
  unfolding present_via_mcp
  present_with_retry t token key w =
      let input : PresentInput K = record {
        resource_url = t.mcp_url;
        token = token;
        dpop = key;
        dpop_nonce = "";
      } in
      continue (on_first_answer input) (present_via_mcp input w)

  abbrev judge_accepted_token : Result String Response → CheckResult
  judge_accepted_token (err e) = errored ("presenting token failed: " & e) ""
  judge_accepted_token (ok r) =
      if nat_eq r.status_code 401
      then failed "resource server rejected the token (401)" r.evidence
      else if nat_eq r.status_code 403
      then failed "token authenticated but lacks required scope (403)" r.evidence
      else if leb 400 r.status_code
      then failed ("resource server returned HTTP " & itoa r.status_code) r.evidence
      else passed "token accepted on an MCP tools/list call" r.evidence

  abbrev present_under : Target → String → Result String K × W → CheckResult × W
  present_under t token (err e, w) = (errored ("dpop key: " & e) "", w)
  present_under t token (ok key, w) =
      judged kit judge_accepted_token (present_with_retry t token (some key) w)

  abbrev present_obtained : Target → (String × String × Option String) × W → CheckResult × W
  present_obtained t ((token, evidence, some e), w) = (errored ("token request failed: " & e) "", w)
  present_obtained t ((token, evidence, none), w) =
      let bound = present_under t token (prover.new_key w) in
      let plain = judged kit judge_accepted_token (present_with_retry t token none w) in
      if is_empty token
      then (left_untested "the AS issued no token to present; pass --subject-token" evidence, w)
      else if t.plan.dpop_required
      then bound
      else plain

  -- `registerSmoke`
  unfoldable pub register_smoke : List (Check W)
  unfolding present_with_retry obtain_token itoa
  register_smoke =
      described "smoke.present.token_accepted" profile_core "MCP loop" "" should
        "a token obtained from the AS is accepted on a real MCP tools/list call"
        (some (needs (mcp_target ∷ present_gate ∷ token_source ∷ [])))
        (λ t w. present_obtained t (token_for kit t w))
      ∷ []

  module _ {S : Type 0} (signing : Signing W S) where
    abbrev judge_forged : Result String Response → CheckResult
    judge_forged (err e) = errored e ""
    judge_forged (ok r) =
        judge_rejection r
          ("a forged token claiming iss " & foreign_issuer & " and aud " & foreign_audience)

    abbrev present_forged : Target → String → Call W Response
    present_forged t token w =
        prefixed "presenting a foreign token failed: " (mcp_call (bearer_call t.mcp_url token) w)

    abbrev sign_forged : S → Call W String
    sign_forged signer w =
        prefixed "sign foreign token: " (signing.sign_jwt signer (foreign_claims (signing.now w)) w)

    -- The check mcp.token.foreign_audience_rejected.
    unfoldable pub check_forged : Target → W → CheckResult × W
    unfolding mcp_request judge_rejection
    check_forged t w = judged kit judge_forged (
        continue (present_forged t)
          (continue sign_forged (prefixed "mint probe key: " (signing.new_signer w))))

    -- `registerMCPServer`
    unfoldable pub register_mcp_server : List (Check W)
    unfolding check_forged mcp_server_rows
    register_mcp_server =
        mcp_server_rows kit
        ++ described "mcp.token.foreign_audience_rejected" profile_core "MCP Authorization" "§2.3"
            must "a forged token claiming an iss/aud it was never issued for is rejected with 401"
            (some (needs (mcp_target ∷ []))) check_forged
          ∷ []
