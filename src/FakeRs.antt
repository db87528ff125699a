-- ===== src/FakeRs.antt =====
-- internal/fakeas/rs.go: the resource server of the program's tests. Its state is its settings; what
-- it asks `probe` about a token (`VerifyJWTWithJWKS`, `DecodeJWTPayload`) is a parameter, and a
-- request comes with its body's form and its query parsed.
pub mod Challenge
pub mod Admission
pub mod Presenting
use aoa_conformance.Prelude.{
  String, ℕ, Bool, true, false, Option, none, some, List, [], ◌∷◌, ◌&&◌, ◌||◌, not, ◌==◌, is_empty,
  is_some, if◌then◌else◌,
}
use aoa_conformance.Prelude.Json.{
  Json, Members, empty, member, str, bool, strings, set_member, lookup,
}
use aoa_conformance.Prelude.Scan.{after_prefix, cut}
use aoa_conformance.Prelude.Text.{◌&◌, join}
use aoa_conformance.Http.{Headers}
use aoa_conformance.Http.Form.{Form, get_value}
use aoa_conformance.FakeAs.{Answer, plain, bare, write_json, no_body}
use aoa_conformance.FakeAs.Discovery.{put_if}

-- `RSViolations`
pub record RsViolations : Type 0 where
  pub omit_challenge : Bool
  pub omit_authorization_servers : Bool
  pub accept_any_token : Bool
  pub malformed_prm : Bool
  pub unresolvable_auth_server : Bool
  pub no_suffix_prm : Bool
  pub non_canonical_resource : Bool

-- `RS`, with the address of its server.
pub record Rs : Type 0 where
  pub url : String
  pub as_url : String
  pub violations : RsViolations
  pub scopes : List String
  pub bearer_methods : List String
  pub require_bearer_method : String
  pub require_dpop : Bool
  pub insufficient_scope : Bool

-- The functions of `probe` on tokens: a check against the keys at an address, and the claims.
pub record TokenLibrary : Type 0 where
  pub is_signed_by : String → String → Bool
  pub payload : String → Members

-- A request to the resource.
pub record Presented : Type 0 where
  pub path : String
  pub authorization : String
  pub dpop : String
  pub posted_form : Form
  pub query : Form

abbrev pub is_listed : List String → Bool
is_listed [] = false
is_listed (_ ∷ _) = true

abbrev pub text_or_empty : Option Json → String
text_or_empty (some (str s)) = s
text_or_empty _ = ""

-- The credentials after the scheme, or the whole header without a space.
abbrev after_space : Option (String × String) → String → String
after_space none header = header
after_space (some (before, after)) header = after

abbrev pub present_or_none : String → Option String
present_or_none token = if is_empty token then none else some token

abbrev pub or_else : Option String → Option String → Option String
or_else (some token) later = some token
or_else none later = later

unfoldable pub header_token : Presented → String
unfolding cut
header_token r = after_space (cut " " r.authorization) r.authorization

module _ (rs : Rs) where
  -- `handlePRM`
  unfoldable pub handle_prm : Answer
  unfolding set_member
  handle_prm =
      let resource = rs.url & "/mcp" in
      let canonical =
        if rs.violations.non_canonical_resource then resource & "#mcp" else resource in
      let issuer =
        if rs.violations.unresolvable_auth_server then "http://127.0.0.1:1" else rs.as_url in
      if rs.violations.malformed_prm
      then record {
        code = 200;
        headers = ("Content-Type", "application/json") ∷ [];
        body = plain "not json";
      }
      else write_json [] 200 (
          put_if rs.require_dpop "dpop_bound_access_tokens_required" (bool true) (
            put_if (is_listed rs.bearer_methods) "bearer_methods_supported"
              (strings rs.bearer_methods)
              (put_if (is_listed rs.scopes) "scopes_supported" (strings rs.scopes) (
                put_if (not rs.violations.omit_authorization_servers) "authorization_servers"
                  (strings (issuer ∷ [])) (member "resource" (str canonical) empty)))))

  -- `serves`
  unfoldable pub serves : Bool
  serves =
      not (is_empty rs.require_bearer_method)
      || is_listed rs.bearer_methods
      || rs.require_dpop
      || rs.insufficient_scope

  -- `extractToken`
  unfoldable pub extract_token : Presented → Option String
  unfolding header_token get_value
  extract_token r =
      let body = get_value "access_token" r.posted_form in
      let query = get_value "access_token" r.query in
      if rs.require_bearer_method == "header"
      then present_or_none (header_token r)
      else if rs.require_bearer_method == "body"
      then present_or_none body
      else if rs.require_bearer_method == "query"
      then present_or_none query
      else or_else (present_or_none (header_token r))
          (or_else (present_or_none body) (present_or_none query))

  -- The value of the challenge's header.
  unfoldable pub challenge_text : String
  unfolding join
  challenge_text =
      "Bearer "
      & "resource_metadata=\""
      & (rs.url & "/.well-known/oauth-protected-resource")
      & "\""
      & (if is_listed rs.scopes then ", scope=\"" & join " " rs.scopes & "\"" else "")

  -- `challenge`
  unfoldable pub challenge : ℕ → Answer
  unfolding challenge_text
  challenge code = record {
    code = code;
    headers =
        if rs.violations.omit_challenge then [] else ("Www-Authenticate", challenge_text) ∷ [];
    body = no_body;
  }

  module _ (library : TokenLibrary) where
    -- `issuedByOurAS`
    unfoldable pub issued_by_our_as : String → Bool
    unfolding lookup
    issued_by_our_as token =
        library.is_signed_by token (rs.as_url & "/jwks")
        && text_or_empty (lookup "iss" (library.payload token)) == rs.as_url

    abbrev pub lacks_proof : Presented → Bool
    lacks_proof r =
        rs.require_dpop && (is_empty r.dpop || not (is_some (after_prefix "DPoP " r.authorization)))

    -- The tests of `handleMCP` on a token that was presented.
    unfoldable pub on_token : Option String → Presented → Answer
    unfolding challenge serves issued_by_our_as after_prefix
    on_token none r = challenge 401
    on_token (some token) r =
        if not rs.violations.accept_any_token && not (serves && issued_by_our_as token)
        then challenge 401
        else if lacks_proof r
        then challenge 401
        else if rs.insufficient_scope
        then record {
          code = 403;
          headers = ("Www-Authenticate", "Bearer error=\"insufficient_scope\"") ∷ [];
          body = no_body;
        }
        else write_json [] 200 (member "ok" (bool true) empty)

    -- `handleMCP`
    unfoldable pub handle_mcp : Presented → Answer
    unfolding extract_token on_token
    handle_mcp r = on_token (extract_token r) r

    -- The paths of `NewRS`.
    unfoldable pub serve_resource : Presented → Answer
    unfolding handle_prm handle_mcp
    serve_resource r =
        if r.path == "/.well-known/oauth-protected-resource"
        then handle_prm
        else if r.path == "/.well-known/oauth-protected-resource/mcp"
            && not rs.violations.no_suffix_prm
        then handle_prm
        else if r.path == "/mcp"
        then handle_mcp r
        else bare 404
