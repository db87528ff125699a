-- ===== src/Checks/Resource/Rows.antt =====
-- conformance/checks_rfc9728.go and conformance/checks_mcpserver.go: the rows of the registry.
use aoa_conformance.Prelude.{
  String, Bool, Option, none, some, List, [], ◌∷◌, ◌++◌, not, is_empty, if◌then◌else◌,
}
use aoa_conformance.Prelude.Lists.{any}
use aoa_conformance.Prelude.Result.{Result, ok, err}
use aoa_conformance.Prelude.Scan.{fields}
use aoa_conformance.Prelude.Text.{◌&◌, join}
use aoa_conformance.Model.{
  Severity, profile_core, must, should, CheckResult, Target, hint, contains, non_nil,
}
use aoa_conformance.Mcp.{McpInput, McpResult, mcp_request}
use aoa_conformance.Gate.{Check, Precondition, needs, mcp_target}
use aoa_conformance.Checks.{Kit, passed, failed, errored, described, reads}
use aoa_conformance.Checks.Resource.{
  challenge_observed, prm_fetched, servers_listed, scopes_advertised, judge_pointer, judge_servers,
  judge_resolvable, judge_rejection, challenge_param, canonical_resource_problem,
}

-- The call of `presentViaMCP` without a proof.
abbrev pub bearer_call : String → String → McpInput
bearer_call url token = record {
  endpoint = url;
  method = "";
  name = "";
  params = "";
  protocol_version = "";
  token = token;
  auth_scheme = "Bearer";
  extra_headers = [];
}

abbrev joined_where : List String → String
joined_where places = join " and " places

module _ {W : Type 0} (kit : Kit W) where
  abbrev judge_json : Option String → String → CheckResult
  judge_json (some e) raw = failed ("PRM is not valid JSON: " & e) raw
  judge_json none raw = passed "PRM fetched" raw

  abbrev judge_prm : Target → CheckResult
  judge_prm t =
      if is_empty t.discovered.raw_prm
      then failed "PRM document not fetched" ""
      else judge_json (kit.json_error t.discovered.raw_prm) t.discovered.raw_prm

  unfoldable judge_scope : Target → CheckResult
  judge_scope t =
      let challenge = hint "www_authenticate" t.hints in
      let scope = challenge_param kit challenge "scope" in
      if is_empty scope
      then failed
          ("challenge carries no scope parameter, so a client cannot tell what to request: "
            & challenge)
          challenge
      else passed ("challenge advertises scope: " & scope) challenge

  -- Where offline_access is asked for.
  unfoldable pub offline_places : Target → List String
  unfolding challenge_param fields
  offline_places t =
      (if contains (fields (challenge_param kit (hint "www_authenticate" t.hints) "scope"))
          "offline_access"
        then "the WWW-Authenticate challenge" ∷ []
        else [])
      ++ (if contains t.discovered.prm_scopes_supported "offline_access"
          then "PRM scopes_supported" ∷ []
          else [])

  unfoldable pub judge_offline : Target → CheckResult
  unfolding offline_places join
  judge_offline t =
      if non_nil (offline_places t)
      then failed
          ("offline_access is advertised in "
            & joined_where (offline_places t)
            & "; a resource server should not ask agents to hold long-lived grants")
          t.discovered.raw_prm
      else passed "offline_access is not advertised" t.discovered.raw_prm

  unfoldable judge_canonical : Target → CheckResult
  judge_canonical t =
      let problem = canonical_resource_problem kit t.discovered.prm_resource t.mcp_url in
      if not (is_empty problem)
      then failed problem t.discovered.raw_prm
      else passed ("PRM resource is the canonical server URI: " & t.discovered.prm_resource)
          t.discovered.raw_prm

  abbrev offers : String → List String → Bool
  offers method methods = any (λ (m : String). kit.equal_fold m method) methods

  unfoldable pub judge_query : Target → CheckResult
  unfolding join
  judge_query t =
      let methods = t.discovered.prm_bearer_methods_supported in
      if offers "query" methods
      then failed
          "PRM bearer_methods_supported offers \"query\"; access tokens must never travel in the URI"
          t.discovered.raw_prm
      else if not (non_nil methods)
      then passed "PRM advertises no bearer_methods_supported, so query is not offered"
          t.discovered.raw_prm
      else passed ("bearer methods offered: " & join ", " methods) t.discovered.raw_prm

  unfoldable pub judge_header : Target → CheckResult
  unfolding join
  judge_header t =
      let methods = t.discovered.prm_bearer_methods_supported in
      if not (non_nil methods)
      then passed
          "PRM advertises no bearer_methods_supported, so the RFC 6750 §2.1 default — the Authorization header — stands"
          t.discovered.raw_prm
      else if offers "header" methods
      then passed ("bearer methods offered include header: " & join ", " methods)
          t.discovered.raw_prm
      else failed
          ("PRM advertises bearer_methods_supported "
            & join ", " methods
            & " and omits \"header\"; MCP clients send the token in the Authorization header, so a client that honours this list will be rejected — add \"header\" to the advertised methods")
          t.discovered.raw_prm

  abbrev on_presented : Result String McpResult → CheckResult
  on_presented (err e) = errored ("presenting an invalid token failed: " & e) ""
  on_presented (ok res) = judge_rejection res.response "an unissued token"

  -- The check mcp.token.invalid_rejected.
  unfoldable pub present_unissued : Target → W → CheckResult × W
  unfolding mcp_request judge_rejection
  present_unissued t w =
      let (random, w') = kit.random w in
      let answer =
        mcp_request (kit.environment.send) (kit.environment.codec)
          (bearer_call t.mcp_url ("aoaconform." & random)) w' in
      (on_presented answer.0, answer.1)

  abbrev rfc9728 : String → String → String → Option Precondition → (Target → CheckResult) → Check W
  rfc9728 id section description pre judge =
      described id profile_core "RFC 9728" section must description pre (reads judge)

  -- `registerRFC9728`
  unfoldable pub register_rfc9728 : List (Check W)
  unfolding join
  register_rfc9728 =
      rfc9728 "rfc9728.challenge.resource_metadata" "§5.1"
        "401 WWW-Authenticate carries a resource_metadata parameter"
        (some (needs (mcp_target ∷ []))) judge_pointer
      ∷ rfc9728 "rfc9728.prm.fetchable" "§3"
          "Protected Resource Metadata is reachable and valid JSON" (some (needs (mcp_target ∷ [])))
          judge_prm
      ∷ rfc9728 "rfc9728.prm.authorization_servers_present" "§3.1"
          "PRM lists at least one authorization_servers entry" (some (needs (mcp_target ∷ [])))
          judge_servers
      ∷ rfc9728 "rfc9728.prm.as_resolvable" "§3.1"
          "the advertised authorization server resolves to usable metadata"
          (some (needs (mcp_target ∷ servers_listed ∷ []))) judge_resolvable
      ∷ []

  abbrev authorization :
      String
      → String
      → Severity
      → String
      → Option Precondition
      → (Target → W → CheckResult × W)
      → Check W
  authorization id section severity description pre run =
      described id profile_core "MCP Authorization" section severity description pre run

  -- The rows of `registerMCPServer` but for the last.
  unfoldable pub mcp_server_rows : List (Check W)
  unfolding judge_scope judge_offline judge_canonical judge_query judge_header present_unissued
  mcp_server_rows =
      authorization "mcp.challenge.scope_present" "§2.4" should
        "the 401 WWW-Authenticate challenge names the scopes the client should request"
        (some (needs (mcp_target ∷ challenge_observed ∷ []))) (reads judge_scope)
      ∷ authorization "mcp.challenge.no_offline_access" "§2.4" should
          "neither the challenge nor PRM scopes_supported offers offline_access"
          (some (needs (mcp_target ∷ scopes_advertised ∷ []))) (reads judge_offline)
      ∷ authorization "mcp.prm.resource_canonical" "§2.2" must
          "PRM resource is the canonical URI of this MCP server"
          (some (needs (mcp_target ∷ prm_fetched ∷ []))) (reads judge_canonical)
      ∷ authorization "mcp.token.query_not_advertised" "§2.3" must
          "the resource does not offer the URI query string as a bearer method"
          (some (needs (mcp_target ∷ prm_fetched ∷ []))) (reads judge_query)
      ∷ authorization "mcp.token.header_method_advertised" "§2.3" must
          "the resource offers the Authorization header, the only bearer method MCP clients use"
          (some (needs (mcp_target ∷ prm_fetched ∷ []))) (reads judge_header)
      ∷ authorization "mcp.token.invalid_rejected" "§2.3" must
          "a syntactically valid but unissued bearer token is rejected with 401"
          (some (needs (mcp_target ∷ []))) present_unissued
      ∷ []
