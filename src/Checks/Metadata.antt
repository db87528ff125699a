-- ===== src/Checks/Metadata.antt =====
-- conformance/checks_pkce.go, checks_rfc8414.go, checks_rfc8705.go and the last check of
-- checks_oauth21.go: what the metadata of the authorization server says.

use Prim.Native.Char.{Char}
use aoa_conformance.Prelude.{
  String, Bool, true, false, Option, none, some, List, [], ◌∷◌, ◌||◌, not, ◌==◌, is_empty, is_some,
  if◌then◌else◌,
}
use aoa_conformance.Prelude.Result.{Result, ok, err}
use aoa_conformance.Prelude.Scan.{cut, trim_slashes, is_code}
use aoa_conformance.Prelude.Text.{◌&◌, join}
use aoa_conformance.Model.{
  profile_core, profile_extended, Severity, must, should, may, CheckResult, Target, contains,
  non_nil, advertises_s256, unsupported_for,
}
use aoa_conformance.Gate.{Check, Gate, needs, unless, resolved_issuer, auth_code_flow}
use aoa_conformance.Checks.{Kit, UrlView, passed, failed, left_untested, described, reads}

-- `sameIssuer`
abbrev pub same_issuer : String → String → Bool
same_issuer a b = trim_slashes a == trim_slashes b

abbrev extend_front : Char → Option String → Option String
extend_front c (some front) = some (String.◌∷◌ c front)
extend_front c none = if is_code 58 c then some "" else none

-- `host[:strings.LastIndex(host, ":")]`, where there is a colon.
unfoldable pub before_last_colon : String → Option String
before_last_colon String.[] = none
before_last_colon (String.◌∷◌ c s) = extend_front c (before_last_colon s)

abbrev without_port : Bool → Option String → String → String
without_port true front host = host
without_port false none host = host
without_port false (some front) host = front

-- `isLocalhost`
unfoldable pub is_localhost : String → Bool
unfolding before_last_colon cut
is_localhost host =
    let h = without_port (is_some (cut "]" host)) (before_last_colon host) host in
    h == "127.0.0.1" || h == "localhost" || h == "[::1]" || h == "::1"

abbrev judge_s256 : Target → CheckResult
judge_s256 t =
    let methods = join ", " t.discovered.code_challenge_methods_supported in
    if advertises_s256 t.discovered
    then passed ("S256 advertised: " & methods) ""
    else failed ("S256 not advertised; methods: " & methods) ""

-- `registerPKCE`
unfoldable pub register_pkce : {W : Type 0} → List (Check W)
unfolding join advertises_s256
register_pkce =
    described "pkce.advertise.s256" profile_core "RFC 7636 (PKCE)" "§4.2" must
      "S256 code_challenge_method is advertised" (some (needs (resolved_issuer ∷ [])))
      (reads judge_s256)
    ∷ described "pkce.enforce.reject_plain" profile_core "RFC 7636 (PKCE)" "§4.4.1" must
        "a deliberate plain PKCE downgrade is rejected"
        (some (needs (resolved_issuer ∷ auth_code_flow ∷ [])))
        (reads λ t.
          left_untested
            "cannot yet probe a live plain-PKCE downgrade: it needs a dedicated authorization code that --auth-code's shared exchange doesn't provide"
            "")
    ∷ []

abbrev judge_reachable : Target → CheckResult
judge_reachable t =
    if is_empty t.discovered.raw_as_metadata
    then failed "no AS metadata document fetched" ""
    else passed "metadata fetched" t.discovered.raw_as_metadata

abbrev judge_token_endpoint : Target → CheckResult
judge_token_endpoint t =
    if is_empty t.discovered.token_endpoint
    then failed "token_endpoint missing" ""
    else passed t.discovered.token_endpoint ""

abbrev judge_jwks_uri : Target → CheckResult
judge_jwks_uri t =
    if is_empty t.discovered.jwks_uri
    then failed "jwks_uri missing" ""
    else passed t.discovered.jwks_uri ""

abbrev judge_grant_types : Target → CheckResult
judge_grant_types t =
    if not (non_nil t.discovered.grant_types_supported)
    then failed "grant_types_supported missing" ""
    else passed (join ", " t.discovered.grant_types_supported) ""

abbrev signed_metadata_present : Gate
signed_metadata_present t =
    unless (not (is_empty t.discovered.signed_metadata))
      (unsupported_for "AS metadata carries no signed_metadata JWT")

abbrev jwks_uri_present : Gate
jwks_uri_present t =
    unless (not (is_empty t.discovered.jwks_uri))
      (unsupported_for "AS metadata advertises no jwks_uri to verify signed_metadata against")

module _ {W : Type 0} (kit : Kit W) where
  unfoldable pub judge_issuer : Target → CheckResult
  unfolding trim_slashes
  judge_issuer t =
      let got = kit.issuer_in t.discovered.raw_as_metadata in
      if is_empty got
      then failed "metadata has no issuer field" ""
      else if not (same_issuer got t.discovered.issuer)
      then failed ("issuer " & kit.quote got & " != requested " & kit.quote t.discovered.issuer) ""
      else passed "issuer matches" ""

  abbrev judge_view : Result String UrlView → CheckResult
  judge_view (err e) = failed "token_endpoint not a URL" ""
  judge_view (ok u) =
      if u.scheme == "https" || is_localhost u.host
      then passed (u.scheme & "://" & u.host) ""
      else failed ("token_endpoint is not https: " & u.scheme) ""

  unfoldable pub judge_https : Target → CheckResult
  unfolding is_localhost
  judge_https t = judge_view (kit.view_url t.discovered.token_endpoint)

  abbrev judged_signature : Option String → CheckResult
  judged_signature (some e) = failed ("signed_metadata invalid: " & e) ""
  judged_signature none = passed "signed_metadata signature valid" ""

  abbrev rfc8414 : String → String → String → Severity → (Target → CheckResult) → Check W
  rfc8414 id section description severity judge =
      described id profile_core "RFC 8414" section severity description
        (some (needs (resolved_issuer ∷ []))) (reads judge)

  -- `registerRFC8414`
  unfoldable pub register_rfc8414 : List (Check W)
  unfolding judge_issuer judge_https join
  register_rfc8414 =
      rfc8414 "rfc8414.metadata.reachable" "§3" "AS metadata document is reachable" must
        judge_reachable
      ∷ rfc8414 "rfc8414.metadata.issuer_match" "§3.3"
          "issuer in metadata equals the requested issuer" must judge_issuer
      ∷ rfc8414 "rfc8414.metadata.token_endpoint_present" "§2" "token_endpoint is present" must
          judge_token_endpoint
      ∷ rfc8414 "rfc8414.metadata.token_endpoint_https" "§2"
          "token_endpoint uses https (localhost exempt)" must judge_https
      ∷ rfc8414 "rfc8414.metadata.jwks_uri_present" "§2" "jwks_uri is present" should judge_jwks_uri
      ∷ rfc8414 "rfc8414.metadata.grant_types_advertised" "§2" "grant_types_supported is advertised"
          should judge_grant_types
      ∷ described "rfc8414.metadata.signed_metadata_valid" profile_core "RFC 8414" "§2.1" should
          "signed_metadata JWT verifies against the issuer JWKS"
          (some (needs (signed_metadata_present ∷ jwks_uri_present ∷ [])))
          (λ t w.
            let checked = kit.verify_jwt t.discovered.signed_metadata t.discovered.jwks_uri w in
            (judged_signature checked.0, checked.1))
      ∷ []

abbrev judge_mtls : Target → CheckResult
judge_mtls t =
    if not (non_nil t.discovered.mtls_endpoint_aliases)
    then failed "tls_client_certificate_bound_access_tokens set but mtls_endpoint_aliases absent" ""
    else passed "mTLS binding advertised with endpoint aliases" ""

-- `registerRFC8705`
unfoldable pub register_rfc8705 : {W : Type 0} → List (Check W)
register_rfc8705 =
    described "rfc8705.advertise.mtls_bound" profile_extended "RFC 8705" "§3.3" may
      "mTLS-bound access tokens are advertised coherently (flag + endpoint aliases)"
      (some (
        needs (
          (λ t.
            unless t.discovered.tls_client_certificate_bound_access_tokens
              (unsupported_for "AS does not advertise tls_client_certificate_bound_access_tokens"))
          ∷ [])))
      (reads judge_mtls)
    ∷ []

abbrev pub judge_response_types : Target → CheckResult
judge_response_types t =
    if contains t.discovered.response_types_supported "code"
    then passed "code response type advertised" ""
    else failed "response_types_supported does not include code" ""

-- The last check of `registerOAuth21`.
abbrev pub response_type_code : {W : Type 0} → Check W
response_type_code =
    described "oauth21.authorize.response_type_code" profile_core "OAuth 2.1" "RFC 8414 §2" should
      "response_types_supported includes \"code\""
      (some (
        needs (
          (λ t.
            unless (non_nil t.discovered.response_types_supported)
              (unsupported_for "AS metadata advertises no response_types_supported"))
          ∷ [])))
      (reads judge_response_types)
