-- ===== src/Checks/Resource.antt =====
-- conformance/checks_rfc9728.go and conformance/checks_mcpserver.go: the resource server's challenge, its
-- metadata document, and its answer to a token that it never issued. The check with a forged token is
-- in Checks/Present.
pub mod Rows
use Prim.Native.String
use Prim.Native.Char.{Char, code}
use aoa_conformance.Prelude.{
  String, ℕ, Bool, true, false, Option, none, some, List, [], ◌∷◌, ◌++◌, ◌||◌, ◌&&◌, not, ◌==◌,
  is_empty, is_some, nat_eq, leb, ltb, if◌then◌else◌,
}
use aoa_conformance.Prelude.Decimal.{itoa}
use aoa_conformance.Prelude.Lists.{any, first}
use aoa_conformance.Prelude.Result.{Result, ok, err}
use aoa_conformance.Prelude.Scan.{cut, fields, trim_slashes, is_code}
use aoa_conformance.Prelude.Text.{◌&◌, join}
use aoa_conformance.Model.{
  Severity, profile_core, must, should, CheckResult, Target, hint, contains, non_nil,
  unsupported_for,
}
use aoa_conformance.Http.{Response}
use aoa_conformance.Mcp.{McpInput, McpResult, mcp_request}
use aoa_conformance.Gate.{Check, Gate, Precondition, needs, unless, mcp_target}
use aoa_conformance.Checks.{Kit, UrlView, passed, failed, errored, described, reads}

abbrev is_between : ℕ → ℕ → Char → Bool
is_between low high c = leb low (code c) && leb (code c) high

-- `[A-Za-z_-]`
abbrev is_name_char : Char → Bool
is_name_char c = is_between 65 90 c || is_between 97 122 c || is_code 95 c || is_code 45 c

-- Where the scan for `name="value"` stands.
pub data Scanning : Type 0 where
  in_name : String → Scanning
  after_equals : String → Scanning
  in_value : String → String → Scanning

abbrev one_char : Char → String
one_char c = String.◌∷◌ c ""

abbrev next : Scanning → Char → Scanning
next (in_name run) c =
    if is_name_char c
    then in_name (run & one_char c)
    else if is_code 61 c && not (is_empty run)
    then after_equals run
    else in_name ""
next (after_equals run) c =
    if is_code 34 c
    then in_value run ""
    else if is_name_char c
    then in_name (one_char c)
    else in_name ""
next (in_value run read) c = if is_code 34 c then in_name "" else in_value run (read & one_char c)

abbrev closed : Scanning → Char → List (String × String)
closed (in_value run read) c = if is_code 34 c then (run, read) ∷ [] else []
closed _ c = []

-- The matches of `challengeParamRE`, from the left, none inside another.
unfoldable pub auth_params : String → Scanning → List (String × String)
auth_params String.[] s = []
auth_params (String.◌∷◌ c rest) s = closed s c ++ auth_params rest (next s c)

abbrev value_or_empty : Option (String × String) → String
value_or_empty none = ""
value_or_empty (some (name, value)) = value

abbrev pub challenge_observed : Gate
challenge_observed t =
    unless (not (is_empty (hint "www_authenticate" t.hints)))
      (unsupported_for "the resource server issued no WWW-Authenticate challenge")

abbrev pub prm_fetched : Gate
prm_fetched t =
    unless (not (is_empty t.discovered.raw_prm))
      (unsupported_for "no protected resource metadata document was fetched")

abbrev pub servers_listed : Gate
servers_listed t =
    unless (non_nil t.discovered.prm_authorization_servers)
      (unsupported_for "PRM lists no authorization_servers")

abbrev pub scopes_advertised : Gate
scopes_advertised t =
    unless (not (is_empty (hint "www_authenticate" t.hints) && is_empty t.discovered.raw_prm))
      (unsupported_for "the resource server advertises no scopes, in a challenge or in PRM")

abbrev pub judge_pointer : Target → CheckResult
judge_pointer t =
    let challenge = hint "www_authenticate" t.hints in
    if is_empty challenge
    then failed "no WWW-Authenticate challenge recorded" ""
    else if not (is_some (cut "resource_metadata" challenge))
    then failed ("challenge has no resource_metadata param: " & challenge) ""
    else passed "resource_metadata advertised in challenge" ""

abbrev pub judge_servers : Target → CheckResult
judge_servers t =
    if not (non_nil t.discovered.prm_authorization_servers)
    then failed "PRM has no authorization_servers" t.discovered.raw_prm
    else passed (join ", " t.discovered.prm_authorization_servers) t.discovered.raw_prm

abbrev pub judge_resolvable : Target → CheckResult
judge_resolvable t =
    if is_empty t.discovered.token_endpoint
    then failed "advertised AS has no resolvable token_endpoint" t.discovered.raw_as_metadata
    else passed ("AS resolved: " & t.discovered.token_endpoint) t.discovered.raw_as_metadata

-- `judgeRejection`
unfoldable pub judge_rejection : Response → String → CheckResult
unfolding itoa
judge_rejection r what =
    if nat_eq r.status_code 401
    then passed ("rejected " & what & " with 401") r.evidence
    else if nat_eq r.status_code 403
    then failed ("accepted " & what & " as authenticated and answered 403 (scope), not 401")
        r.evidence
    else if ltb r.status_code 300
    then failed ("served the call with " & what & " (HTTP " & itoa r.status_code & ")") r.evidence
    else failed
        ("answered HTTP " & itoa r.status_code & " to " & what & "; the specification requires 401")
        r.evidence

module _ {W : Type 0} (kit : Kit W) where
  -- `challengeParam`
  unfoldable pub challenge_param : String → String → String
  unfolding auth_params
  challenge_param challenge name = value_or_empty (
      first (λ (p : String × String). kit.equal_fold p.0 name) (auth_params challenge (in_name "")))

  -- `normalizeResource`
  abbrev normal_view : String → Result String UrlView → String
  normal_view raw (err e) = raw
  normal_view raw (ok u) = kit.rebuild raw (record u {
    scheme = kit.to_lower u.scheme;
    host = kit.to_lower u.host;
    path = trim_slashes u.path;
  })

  unfoldable pub normalize_resource : String → String
  unfolding trim_slashes
  normalize_resource raw = normal_view raw (kit.view_url raw)

  abbrev problem_in : String → String → Result String UrlView → String
  problem_in resource mcp_url (err e) = "PRM resource is not a URI: " & resource
  problem_in resource mcp_url (ok u) =
      if not (is_empty u.fragment) || is_some (cut "#" resource)
      then "PRM resource carries a fragment, which a resource identifier must not have: " & resource
      else if not (u.scheme == kit.to_lower u.scheme) || not (u.host == kit.to_lower u.host)
      then "PRM resource is not lowercase in scheme/host: " & resource
      else if not (normalize_resource resource == normalize_resource mcp_url)
      then "PRM resource "
        & kit.quote resource
        & " is not the canonical URI of the server under test ("
        & mcp_url
        & ")"
      else ""

  -- `canonicalResourceProblem`
  unfoldable pub canonical_resource_problem : String → String → String
  unfolding normalize_resource cut
  canonical_resource_problem resource mcp_url =
      if is_empty resource
      then "PRM omits the required resource field, so a client cannot confirm which resource the metadata describes"
      else problem_in resource mcp_url (kit.view_url resource)
