-- ===== src/Runner.antt =====
-- conformance/runner.go, conformance/registry.go and conformance/tokens.go. The text of a panic,
-- the clock and the network are parameters; a check leaves the target as it is.
pub mod Entries
use aoa_conformance.Prelude.{
  ℕ, String, Bool, true, false, Option, none, some, List, [], ◌∷◌, ◌++◌, not, is_empty, nat_eq,
  if◌then◌else◌,
}
use aoa_conformance.Prelude.Lists.{select}
use aoa_conformance.Prelude.Result.{Result, ok, err}
use aoa_conformance.Prelude.Text.{◌&◌, join}
use aoa_conformance.Model.{
  Profile, profile_core, must, should, error, unset, CheckMeta, CheckResult, Entry, Target,
  Discovered, AuthPlan, contains, non_nil, has_subject, set_hint,
}
use aoa_conformance.Http.{Headers, Response, Transport, post_form}
use aoa_conformance.Http.ClientAuth.{apply_client_auth}
use aoa_conformance.Http.Form.{Form, form_string, set_value}
use aoa_conformance.Mcp.{Codec}
use aoa_conformance.Discover.{Decoder, Discovery, Found, discover}
use aoa_conformance.Register.{Library}
use aoa_conformance.Resolve.{ResolveOptions, resolve}
use aoa_conformance.Gate.{Check, Ran, returned, panicked, evaluate}
use aoa_conformance.Capability.{capabilities}
use aoa_conformance.Report.{Report, report_schema_version}

module _ {W : Type 0} where
  -- `Registry.Add`
  abbrev pub add : List (Check W) → List (Check W) → List (Check W)
  add registry cs = registry ++ cs

  -- `FilterProfiles`
  unfoldable pub filter_profiles : List Profile → List (Check W) → List (Check W)
  filter_profiles profiles registry =
      if non_nil profiles
      then select (λ (c : Check W). contains profiles c.meta.profile) registry
      else registry

abbrev discovery_check : CheckMeta
discovery_check = record {
  id = "discovery";
  profile = profile_core;
  rfc = "RFC 8414";
  section = "";
  severity = must;
  description = "resolve endpoints";
}

abbrev registration_check : CheckMeta
registration_check = record {
  id = "registration";
  profile = profile_core;
  rfc = "RFC 7591";
  section = "§3.2";
  severity = should;
  description = "an advertised registration_endpoint issues a client";
}

abbrev error_result : String → String → CheckResult
error_result message evidence = record {
  status = error;
  skip_kind = unset;
  message = message;
  evidence = evidence;
  duration = 0;
}

-- The synthetic entry of a failed discovery.
abbrev pub discovery_entries : Option String → List Entry
discovery_entries none = []
discovery_entries (some e) =
    record { check = discovery_check; result = error_result ("discovery failed: " & e) "" } ∷ []

-- The synthetic entry of a failed registration.
abbrev pub registration_entries : AuthPlan → List Entry
registration_entries plan =
    if is_empty plan.registration_error
    then []
    else record {
      check = registration_check;
      result =
          error_result ("dynamic client registration failed: " & plan.registration_error)
            plan.registration_evidence;
    }
      ∷ []

-- What the deferred function makes of an evaluation.
abbrev pub recovered : Ran → CheckResult
recovered (returned r) = r
recovered (panicked text) = error_result ("check panicked: " & text) ""

-- The assignment of `conformance.Discover` when a discovery gave something.
abbrev pub with_found : Target → Option Found → Target
with_found t none = t
with_found t (some d) = record t {
  discovered = d.resolved;
  hints = set_hint "www_authenticate" d.www_authenticate t.hints;
}

-- `time.Since(start)`, read off the states before and after.
module _ {W : Type 0} (elapsed : W → W → ℕ) where
  -- `evaluateSafely`
  pub evaluate_safely : Check W → Target → W → CheckResult × W
  evaluate_safely c t w =
      let ran = evaluate c t w in (record (recovered ran.0) { duration = elapsed w ran.1 }, ran.1)

  -- The loop over the checks.
  pub run_checks : List (Check W) → Target → W → List Entry × W
  run_checks [] t w = ([], w)
  run_checks (c ∷ cs) t w =
      let first = evaluate_safely c t w in
      let rest = run_checks cs t first.1 in
      (record { check = c.meta; result = first.0 } ∷ rest.0, rest.1)

-- What the run takes from other packages.
pub record Environment (W : Type 0) : Type 0 where
  pub send : Transport W
  pub codec : Codec
  pub decoder : Decoder
  pub library : Library
  pub is_loopback : String → Bool
  pub elapsed : W → W → ℕ

pub record Runner (W : Type 0) : Type 0 where
  pub registry : List (Check W)
  pub skip_discovery : Bool
  pub resolve_opts : Option ResolveOptions

module _ {W : Type 0} (env : Environment W) where
  -- `conformance.Discover`
  pub discover_target : Target → W → Option String × Target × W
  discover_target t w =
      let d =
        discover (env.send) (env.codec) (env.decoder)
          (record { mcp_url = t.mcp_url; issuer = t.issuer }) w in
      (d.0.failure, with_found t d.0.found, d.1)

  discovered_unless : Bool → Target → W → Option String × Target × W
  unfolding discover_target
  discovered_unless true t w = (none, t, w)
  discovered_unless false t w = discover_target t w

  planned : Option ResolveOptions → Target → W → Target × W
  planned none t w = (t, w)
  planned (some opts) t w =
      let plan = resolve (env.library) (env.is_loopback) (env.send) t.discovered opts w in
      (record t { plan = plan.0 }, plan.1)

  -- `Runner.Run`, with the target and the network that it leaves.
  pub run : Runner W → Target → W → Report × Target × W
  unfolding discovered_unless planned
  run r t w =
      let (failure, found, w₁) = discovered_unless r.skip_discovery t w in
      let (ready, w₂) = planned r.resolve_opts found w₁ in
      let checked = run_checks (env.elapsed) r.registry ready w₂ in
      let entries = discovery_entries failure ++ (registration_entries ready.plan ++ checked.0) in
      (
        record {
          schema_version = report_schema_version;
          target = if is_empty t.issuer then t.mcp_url else t.issuer;
          entries = entries;
          capabilities = capabilities entries;
          model_verdicts = [];
        },
        ready,
        checked.1,
      )

  -- `obtainToken`: the token, its evidence and a transport error.
  abbrev pub token_of : (String → String) → Result String Response → String × String × Option String
  token_of access_token (err e) = ("", "", some e)
  token_of access_token (ok r) =
      if not (nat_eq r.status_code 200)
      then ("", r.evidence, none)
      else (access_token r.body, r.evidence, none)

  abbrev with_scopes : List String → Form → Form
  with_scopes scopes form =
      if non_nil scopes then set_value "scope" (join " " scopes) form else form

  -- `encode` is `Values.Encode`, `base64` the standard encoding, `access_token` the text member of
  -- that name in a JSON document, or "".
  unfoldable pub obtain_token :
      (Form → String)
      → (String → String)
      → (String → String)
      → Target
      → W
      → (String × String × Option String) × W
  unfolding post_form
  obtain_token encode base64 access_token t w =
      let (form, extra) =
        apply_client_auth base64 (form_string (("grant_type", "client_credentials") ∷ []) [])
          t.plan.token_auth_method t.plan.client_id t.plan.client_secret in
      let answer =
        post_form (env.send) t.discovered.token_endpoint (encode (with_scopes t.plan.scopes form))
          extra w in
      if has_subject t.creds
      then ((t.creds.subject_token, "", none), w)
      else (token_of access_token answer.0, answer.1)
