-- ===== src/Checks/Rounds.antt =====
-- conformance/checks_rfc9207.go, checks_sep2468.go, checks_sep2350.go, checks_sep2352.go and
-- checks_sep837.go: what earlier rounds of the run have left in the target.
use aoa_conformance.Prelude.{
  String, Bool, some, List, [], ◌∷◌, ◌||◌, ◌&&◌, not, ◌==◌, is_empty, if◌then◌else◌,
}
use aoa_conformance.Prelude.Result.{Result, ok, err}
use aoa_conformance.Prelude.Scan.{fields, trim_slashes}
use aoa_conformance.Prelude.Text.{◌&◌}
use aoa_conformance.Model.{
  profile_core, profile_2026_07, must, should, CheckResult, Target, hint, contains, untested_for,
}
use aoa_conformance.Gate.{
  Check, Gate, needs, unless, as_metadata, auth_code_flow, iss_parameter_advertised,
  registration_endpoint, registered_client,
}
use aoa_conformance.Checks.{Kit, UrlView, passed, failed, described, reads}
use aoa_conformance.Checks.Metadata.{same_issuer}

-- The callback's iss against the issuer.
unfoldable pub judge_iss : Target → CheckResult
unfolding trim_slashes
judge_iss t =
    let iss = hint "authorize_iss" t.hints in
    if is_empty iss
    then failed "authorization response carried no iss parameter" ""
    else if not (same_issuer iss t.discovered.issuer)
    then failed ("callback iss " & iss & " != issuer " & t.discovered.issuer) ""
    else passed "iss present and matches issuer" ""

-- `registerRFC9207`
unfoldable pub register_rfc9207 : {W : Type 0} → List (Check W)
unfolding judge_iss
register_rfc9207 =
    described "rfc9207.authorize.iss_present" profile_core "RFC 9207" "§2" must
      "authorization response carries iss matching the issuer when advertised"
      (some (needs (iss_parameter_advertised ∷ auth_code_flow ∷ []))) (reads judge_iss)
    ∷ []

abbrev judge_iss_advertised : Target → CheckResult
judge_iss_advertised t =
    if not t.discovered.authorization_response_iss_parameter_supported
    then failed
        "authorization_response_iss_parameter_supported absent or false; a future revision raises this to MUST"
        t.discovered.raw_as_metadata
    else passed "authorization_response_iss_parameter_supported advertised"
        t.discovered.raw_as_metadata

-- `registerSEP2468`
unfoldable pub register_sep2468 : {W : Type 0} → List (Check W)
unfolding judge_iss
register_sep2468 =
    described "sep2468.advertise.iss_parameter" profile_2026_07 "SEP-2468" "advertise" should
      "AS metadata sets authorization_response_iss_parameter_supported"
      (some (needs (as_metadata ∷ []))) (reads judge_iss_advertised)
    ∷ described "sep2468.authorize.iss_present" profile_2026_07 "SEP-2468" "authorize" should
        "authorization response carries iss matching the issuer (RFC 9207)"
        (some (needs (auth_code_flow ∷ []))) (reads judge_iss)
    ∷ []

abbrev stepup_ran : Gate
stepup_ran t =
    unless
      (not (
        is_empty (hint "stepup_second_scope" t.hints)
        || is_empty (hint "stepup_scope_a" t.hints)
        || is_empty (hint "stepup_scope_b" t.hints)))
      (untested_for
        "needs --stepup (two interactive authorization rounds over two distinct scopes)")

unfoldable pub judge_stepup : Target → CheckResult
unfolding fields
judge_stepup t =
    let second = hint "stepup_second_scope" t.hints in
    let a = hint "stepup_scope_a" t.hints in
    let b = hint "stepup_scope_b" t.hints in
    if contains (fields second) a && contains (fields second) b
    then passed ("step-up token accumulated scope: " & second) ""
    else failed
        ("step-up token dropped a previously granted scope (want " & a & " and " & b & ", got "
          & second & ")")
        ""

-- `registerSEP2350`
unfoldable pub register_sep2350 : {W : Type 0} → List (Check W)
unfolding judge_stepup
register_sep2350 =
    described "sep2350.stepup.scope_accumulation" profile_2026_07 "SEP-2350" "step-up scope" should
      "a step-up authorization accumulates the previously granted scope"
      (some (needs (stepup_ran ∷ []))) (reads judge_stepup)
    ∷ []

module _ {W : Type 0} (kit : Kit W) where
  abbrev origin_in : Result String UrlView → String
  origin_in (err e) = ""
  origin_in (ok u) = if is_empty u.host then "" else u.scheme & "://" & u.host

  -- `originOfURL`
  unfoldable pub origin_of_url : String → String
  origin_of_url raw = origin_in (kit.view_url raw)

  -- `sameOrigin`
  unfoldable pub same_origin : String → String → Bool
  same_origin a b =
      let origin = origin_of_url a in not (is_empty origin) && origin == origin_of_url b

  unfoldable pub judge_binding : Target → CheckResult
  unfolding same_origin origin_of_url
  judge_binding t =
      let uri = t.plan.registration_client_uri in
      let evidence = t.plan.registration_evidence in
      if is_empty uri
      then if not (is_empty t.plan.registration_access_token)
        then failed
            "registration returned a registration_access_token with no registration_client_uri, so nothing records which issuer the credential belongs to"
            evidence
        else passed
            "registration handed back no client-configuration credential, so there is none that could be replayed at another issuer"
            evidence
      else if not (same_origin uri t.discovered.issuer)
      then failed
          ("registration_client_uri origin "
            & origin_of_url uri
            & " != issuer origin "
            & origin_of_url t.discovered.issuer)
          evidence
      else passed "registered credential bound to the issuer origin" evidence

  -- `registerSEP2352`
  unfoldable pub register_sep2352 : List (Check W)
  unfolding judge_binding
  register_sep2352 =
      described "sep2352.register.issuer_binding" profile_2026_07 "SEP-2352" "DCR coherence" must
        "the DCR-issued registration_client_uri is bound to the AS issuer origin (no cross-issuer reuse)"
        (some (needs (registration_endpoint ∷ registered_client ∷ []))) (reads judge_binding)
      ∷ []

unfoldable pub judge_application_type : Target → CheckResult
judge_application_type t =
    let registered = t.plan.registered_application_type in
    let evidence = t.plan.registration_evidence in
    if registered == "native"
    then passed "application_type native accepted and echoed" evidence
    else if is_empty registered
    then passed "registration accepted application_type without rejecting it (not echoed)" evidence
    else failed ("declared application_type native but server registered as " & registered) evidence

-- `registerSEP837`
unfoldable pub register_sep837 : {W : Type 0} → List (Check W)
unfolding judge_application_type
register_sep837 =
    described "sep837.register.application_type" profile_2026_07 "SEP-837" "DCR" must
      "DCR accepts and echoes the OIDC application_type the tool declares (native)"
      (some (needs (registration_endpoint ∷ registered_client ∷ []))) (reads judge_application_type)
    ∷ []
