-- ===== src/Checks/Exchange.antt =====
-- conformance/checks_rfc8693.go: the checks of a token exchange. `extra` is nil in every call of
-- doExchange, so a request is its input.
pub mod Verdicts
use aoa_conformance.Prelude.{
  String, Bool, true, false, Option, none, some, List, [], ◌∷◌, ◌&&◌, ◌||◌, not, is_empty, is_some,
  ◌==◌, nat_eq, if◌then◌else◌,
}
use aoa_conformance.Prelude.Decimal.{itoa}
use aoa_conformance.Prelude.Json.{Json, Members, obj, lookup, is_nil, or_null}
use aoa_conformance.Prelude.Result.{Result, ok, err}
use aoa_conformance.Prelude.Text.{◌&◌}
use aoa_conformance.Model.{
  Severity, profile_extended, must, should, may, CheckResult, Target, hint, unsupported_for,
  untested_for, advertises_token_exchange,
}
use aoa_conformance.Http.{Response, post_form}
use aoa_conformance.Http.ClientAuth.{apply_client_auth}
use aoa_conformance.Http.Exchange.{ExchangeInput, exchange_form}
use aoa_conformance.Gate.{Check, Gate, Precondition, needs, unless, subject_token}
use aoa_conformance.Checks.{
  Kit, passed, failed, errored, described, reads, text_at, client_auth_of, post,
}
use aoa_conformance.Checks.Requests.{judged}

unfoldable pub exchange_advertised : Gate
unfolding advertises_token_exchange
exchange_advertised t = unless (advertises_token_exchange t.discovered) (
    unsupported_for
      "AS does not advertise the urn:ietf:params:oauth:grant-type:token-exchange grant")

abbrev actor_of : Target → String
actor_of t = hint "actor_token" t.hints

abbrev actor_held : Gate
actor_held t =
    unless (not (is_empty (actor_of t)))
      (untested_for "no actor token available for a delegation exchange")

-- `ExchangeInput{SubjectToken: subject, SubjectTokenType: "access_token"}`
abbrev impersonation : String → ExchangeInput
impersonation subject = record {
  subject_token = subject;
  subject_token_type = "access_token";
  actor_token = "";
  actor_token_type = "";
  audience = [];
  resource = [];
  scope = [];
  requested_token_type = "";
}

abbrev pub delegation : Target → ExchangeInput
delegation t = record (impersonation t.creds.subject_token) {
  actor_token = actor_of t;
  actor_token_type = "access_token";
}

-- `act, _ := claims["act"].(map[string]any)`, with the test that `act["act"]` is there.
abbrev is_nested : Option Json → Bool
is_nested (some (obj act)) = is_some (lookup "act" act)
is_nested _ = false

abbrev is_object : Option Json → Bool
is_object (some (obj act)) = true
is_object _ = false

abbrev exchange_row :
    {W : Type 0}
    → String
    → String
    → String
    → Severity
    → List Gate
    → (Target → W → CheckResult × W)
    → Check W
exchange_row id section description severity gates run =
    described id profile_extended "RFC 8693" section severity description (some (needs gates)) run

module _ {W : Type 0} (kit : Kit W) where
  -- `doExchange`
  unfoldable pub do_exchange : ExchangeInput → Target → W → Result String Response × W
  unfolding exchange_form apply_client_auth post_form
  do_exchange input t w =
      post kit t.discovered.token_endpoint (client_auth_of kit t (exchange_form input)) w

  abbrev exchanged :
      (Result String Response → CheckResult)
      → (Target → ExchangeInput)
      → Target
      → W
      → CheckResult × W
  exchanged judge input t w = judged kit judge (do_exchange (input t) t w)

  abbrev pub error_in : Response → Option Json
  error_in r = lookup "error" (kit.json r.body)

  abbrev judge_impersonation : Result String Response → CheckResult
  judge_impersonation (err e) = errored e ""
  judge_impersonation (ok r) =
      if nat_eq r.status_code 200 && not (is_nil (lookup "access_token" (kit.json r.body)))
      then passed "impersonation token issued" r.evidence
      else failed "no token issued for impersonation" r.evidence

  abbrev pub judge_delegation : Result String Response → CheckResult
  judge_delegation (err e) = errored e ""
  judge_delegation (ok r) =
      if nat_eq r.status_code 200
      then passed "delegation token issued" r.evidence
      else failed "delegation rejected" r.evidence

  -- The claims that `exchangeAndDecode` returns for an answer.
  abbrev pub issued_claims : Response → Members
  issued_claims r = kit.payload (text_at (lookup "access_token" (kit.json r.body)))

  abbrev pub judge_act : Result String Response → CheckResult
  judge_act (err e) = errored e ""
  judge_act (ok r) =
      if is_some (lookup "act" (issued_claims r))
      then passed "act present" r.evidence
      else failed "delegation token has no act" r.evidence

  abbrev pub judge_nesting : Result String Response → CheckResult
  judge_nesting (err e) = errored e ""
  judge_nesting (ok r) =
      if not (is_object (lookup "act" (issued_claims r)))
      then failed "no act to inspect" r.evidence
      else if not (is_nested (lookup "act" (issued_claims r)))
      then failed "subject's prior act was not nested (forged chain)" r.evidence
      else passed "act chain correctly nested" r.evidence

  abbrev pub judge_may_act : Result String Response → CheckResult
  judge_may_act (err e) = errored e ""
  judge_may_act (ok r) =
      if nat_eq r.status_code 200
      then failed "unauthorized actor accepted; may_act not enforced" r.evidence
      else if text_at (error_in r) == "invalid_grant"
      then passed "unauthorized actor rejected with invalid_grant" r.evidence
      else failed
          ("actor rejected but not via invalid_grant (HTTP "
            & itoa r.status_code
            & ", error="
            & kit.show (or_null (error_in r))
            & "); cannot confirm may_act enforcement")
          r.evidence

  abbrev judge_downscope : Result String Response → CheckResult
  judge_downscope (err e) = errored e ""
  judge_downscope (ok r) =
      let scope = text_at (lookup "scope" (kit.json r.body)) in
      if not (nat_eq r.status_code 200)
      then failed "downscoped exchange rejected" r.evidence
      else if not (is_empty scope) && not (scope == "read")
      then failed ("scope widened beyond request: " & scope) r.evidence
      else passed "scope honored" r.evidence

  abbrev judge_bad_subject : Result String Response → CheckResult
  judge_bad_subject (err e) = errored e ""
  judge_bad_subject (ok r) =
      if nat_eq r.status_code 200
      then failed "garbage subject_token accepted" r.evidence
      else passed "bad subject_token rejected" r.evidence

  abbrev judge_unknown_audience : Result String Response → CheckResult
  judge_unknown_audience (err e) = errored e ""
  judge_unknown_audience (ok r) =
      if not (nat_eq r.status_code 200) && text_at (error_in r) == "invalid_target"
      then passed "unknown audience → invalid_target" r.evidence
      else passed "audience validation optional (MAY); no failure" r.evidence

  -- The checks rfc8693.delegation.issues_token, act_present, act_nesting and may_act_enforced.
  unfoldable pub check_delegation : Target → W → CheckResult × W
  unfolding do_exchange
  check_delegation = exchanged judge_delegation delegation

  unfoldable pub check_act : Target → W → CheckResult × W
  unfolding do_exchange lookup
  check_act = exchanged judge_act delegation

  unfoldable pub check_nesting : Target → W → CheckResult × W
  unfolding do_exchange lookup
  check_nesting = exchanged judge_nesting delegation

  unfoldable pub check_may_act : Target → W → CheckResult × W
  unfolding do_exchange lookup itoa
  check_may_act = exchanged judge_may_act delegation

  -- `registerRFC8693`
  unfoldable pub register_rfc8693 : List (Check W)
  unfolding do_exchange lookup check_delegation check_act check_nesting check_may_act
  register_rfc8693 =
      let needs_exchange = exchange_advertised ∷ subject_token ∷ [] in
      let needs_delegation = exchange_advertised ∷ subject_token ∷ actor_held ∷ [] in
      exchange_row "rfc8693.grant.advertised" "§2.1" "token-exchange grant advertised" may
        needs_exchange (reads (λ t. passed "token-exchange advertised" ""))
      ∷ exchange_row "rfc8693.impersonation.issues_token" "§2.1"
          "impersonation (no actor) issues a token" must needs_exchange
          (exchanged judge_impersonation (λ t. impersonation t.creds.subject_token))
      ∷ exchange_row "rfc8693.delegation.issues_token" "§2.1"
          "delegation (with actor_token) issues a token" must needs_delegation check_delegation
      ∷ exchange_row "rfc8693.delegation.act_present" "§4.1"
          "issued delegation token carries an act claim" must needs_delegation check_act
      ∷ exchange_row "rfc8693.delegation.act_nesting" "§4.1"
          "existing subject act is nested under the new actor" must needs_delegation check_nesting
      ∷ exchange_row "rfc8693.delegation.may_act_enforced" "§4.4"
          "may_act is enforced; unauthorized actor is rejected" must needs_delegation check_may_act
      ∷ exchange_row "rfc8693.downscope.scope_honored" "§2.1"
          "requested narrower scope is honored, not widened" should needs_exchange
          (exchanged judge_downscope
            (λ t. record (impersonation t.creds.subject_token) { scope = "read" ∷ [] }))
      ∷ exchange_row "rfc8693.error.invalid_grant_on_bad_subject" "§2.2.2"
          "bad subject_token yields invalid_grant" must needs_exchange
          (exchanged judge_bad_subject (λ t. impersonation "not-a-token"))
      ∷ exchange_row "rfc8693.error.invalid_target_on_unknown_audience" "§2.2.2"
          "unknown audience yields invalid_target" may needs_exchange
          (exchanged judge_unknown_audience (λ t. record (impersonation t.creds.subject_token) {
            audience = "https://definitely-not-registered.example" ∷ [];
          }))
      ∷ []
