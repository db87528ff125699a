-- ===== src/Gate.antt =====
-- conformance/check.go (`needs`, `Check.Evaluate`) and conformance/gates.go. A gate reads the
-- target; it sends nothing.
pub mod Laws
use aoa_conformance.Prelude.{
  String, Bool, true, false, Option, none, some, List, [], ◌∷◌, ◌&&◌, not, is_empty, if◌then◌else◌,
}
use aoa_conformance.Prelude.Text.{◌&◌}
use aoa_conformance.Model.{
  Target, SkipReason, SkipKind, unsupported_for, untested_for, satisfied, CheckMeta, CheckResult,
  skip, has_client, has_subject, contains,
}

abbrev pub Gate : Type 0
Gate = Target → SkipReason

abbrev pub Precondition : Type 0
Precondition = Target → Bool × SkipReason

-- The test `r.Text != ""`: the gate is unmet.
abbrev pub is_unmet_reason : SkipReason → Bool
is_unmet_reason r = not (is_empty r.text)

pub needs : List Gate → Precondition
needs [] t = (true, satisfied)
needs (g ∷ gs) t = if is_unmet_reason (g t) then (false, g t) else needs gs t

-- A gate that reports `why` unless a condition holds.
abbrev pub unless : Bool → SkipReason → SkipReason
unless true why = satisfied
unless false why = why

abbrev pub mcp_target : Gate
mcp_target t =
    unless (not (is_empty t.mcp_url))
      (untested_for "no MCP server under test; run with --target <mcp-url>")

abbrev pub resolved_issuer : Gate
resolved_issuer t =
    unless (not (is_empty t.discovered.issuer))
      (unsupported_for "no authorization server issuer resolved during discovery")

abbrev pub as_metadata : Gate
as_metadata t =
    unless (not (is_empty t.discovered.raw_as_metadata))
      (unsupported_for "no authorization server metadata document was fetched")

abbrev pub token_endpoint : Gate
token_endpoint t =
    unless (not (is_empty t.discovered.token_endpoint))
      (unsupported_for "AS metadata advertises no token_endpoint")

abbrev pub authorization_endpoint : Gate
authorization_endpoint t =
    unless (not (is_empty t.discovered.authorization_endpoint))
      (unsupported_for "AS metadata advertises no authorization_endpoint")

abbrev pub registration_endpoint : Gate
registration_endpoint t =
    unless (not (is_empty t.discovered.registration_endpoint))
      (unsupported_for "AS metadata advertises no registration_endpoint")

abbrev pub introspection_endpoint : Gate
introspection_endpoint t =
    unless (not (is_empty t.discovered.introspection_endpoint))
      (unsupported_for "AS metadata advertises no introspection_endpoint")

abbrev pub revocation_endpoint : Gate
revocation_endpoint t =
    unless (not (is_empty t.discovered.revocation_endpoint))
      (unsupported_for "AS metadata advertises no revocation_endpoint")

abbrev pub introspection_for_revocation : Gate
introspection_for_revocation t = unless (not (is_empty t.discovered.introspection_endpoint)) (
    untested_for
      "revocation was not verified: the AS advertises no introspection_endpoint to confirm the token went inactive")

abbrev pub plan_client : Gate
plan_client t = unless (has_client t.plan) (
    if not (is_empty t.plan.registration_error)
    then untested_for (
        "no usable client: dynamic registration failed (" & t.plan.registration_error
        & "); pass --client-id")
    else untested_for
        "no usable client; pass --client-id (with --client-secret for a confidential client) or point at an AS that allows dynamic registration")

-- An AS that advertises no grant types at all is tried.
abbrev pub offers_client_credentials : List String → Bool
offers_client_credentials [] = true
offers_client_credentials gs = contains gs "client_credentials"

abbrev pub client_credentials_grant : Gate
client_credentials_grant t = unless (offers_client_credentials t.discovered.grant_types_supported) (
    untested_for
      "this check mints its own token and the AS does not advertise the client_credentials grant")

abbrev is_unset : SkipKind → Bool
is_unset SkipKind.unset = true
is_unset _ = false

-- `clientCredentialsGrant(t) == satisfied`
abbrev pub is_satisfied : SkipReason → Bool
is_satisfied r = is_unset r.kind && is_empty r.text

abbrev pub token_source : Gate
token_source t =
    if has_subject t.creds
    then satisfied
    else if has_client t.plan && is_satisfied (client_credentials_grant t)
    then satisfied
    else untested_for
        "no token source; pass --subject-token, run with --auth-code, or supply --client-id at an AS offering client_credentials"

abbrev pub registered_client : Gate
registered_client t =
    unless t.plan.registered
      (untested_for "no dynamic client registration was performed in this run")

abbrev pub subject_token : Gate
subject_token t =
    unless (has_subject t.creds) (untested_for "needs --subject-token (a user token to exchange)")

abbrev pub auth_code_flow : Gate
auth_code_flow t =
    unless t.creds.auth_code_available
      (untested_for "needs --auth-code (an interactive authorization-code round)")

abbrev pub iss_parameter_advertised : Gate
iss_parameter_advertised t =
    unless t.discovered.authorization_response_iss_parameter_supported
      (unsupported_for "AS does not advertise authorization_response_iss_parameter_supported")

abbrev pub cimd_advertised : Gate
cimd_advertised t =
    unless t.discovered.client_id_metadata_document_supported
      (unsupported_for "AS does not advertise client_id_metadata_document_supported")

-- What a `Run` function does: it returns a result, or it panics with a value.
pub data Ran : Type 0 where
  returned : CheckResult → Ran
  panicked : String → Ran

-- A check over the states `W` of the network that it talks to.
pub record Check (W : Type 0) : Type 0 where
  pub meta : CheckMeta
  pub precondition : Option Precondition
  pub run : Target → W → Ran × W

abbrev pub skipped : SkipReason → CheckResult
skipped why = record {
  status = skip;
  skip_kind = why.kind;
  message = why.text;
  evidence = "";
  duration = 0;
}

module _ {W : Type 0} where
  gated : Check W → Bool × SkipReason → Target → W → Ran × W
  gated c (true, why) t w = c.run t w
  gated c (false, why) t w = (returned (skipped why), w)

  -- `Check.Evaluate`
  pub evaluate : Check W → Target → W → Ran × W
  unfolding gated
  evaluate c t w = elim c.precondition [ none ↦ c.run t w | some pre ↦ gated c (pre t) t w ]
