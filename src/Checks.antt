-- ===== src/Checks.antt =====
-- conformance/checks_*.go: what the checks share. A check is built from its row of the registry and a
-- function on the target; none of those modelled here panics. `Kit` is what they call outside the
-- repository: encoding/json, net/url (`rebuild` is the address of a text with other parts and no query), the
-- Unicode functions of strings, randomness and the signatures.
pub mod Metadata
pub mod Rounds
pub mod Resource
pub mod Requests
pub mod Audience
pub mod Refresh
pub mod Detection
pub mod Exchange
pub mod Proofs
pub mod Dpop
pub mod Present
pub mod Documents
pub mod Registry
use aoa_conformance.Prelude.{
  String, ℕ, Bool, true, false, Option, none, some, List, [], ◌∷◌, is_empty, not,
}
use aoa_conformance.Prelude.Json.{Json, Members, str, lookup}
use aoa_conformance.Prelude.Result.{Result}
use aoa_conformance.Model.{
  Profile, Severity, Status, SkipKind, pass, fail, skip, error, unset, untested, unsupported,
  CheckResult, Target,
}
use aoa_conformance.Http.{Headers, Response, post_form}
use aoa_conformance.Http.ClientAuth.{apply_client_auth}
use aoa_conformance.Http.Form.{Form}
use aoa_conformance.Gate.{Precondition, Check, returned}
use aoa_conformance.Runner.{Environment, obtain_token}

-- The parts of an address that the checks read.
pub record UrlView : Type 0 where
  pub scheme : String
  pub host : String
  pub path : String
  pub fragment : String

pub record Kit (W : Type 0) : Type 0 where
  pub environment : Environment W
  pub encode : Form → String
  pub base64 : String → String
  pub json : String → Members
  pub json_error : String → Option String
  pub view_url : String → Result String UrlView
  pub rebuild : String → UrlView → String
  pub issuer_in : String → String
  pub to_lower : String → String
  pub equal_fold : String → String → Bool
  pub quote : String → String
  pub show : Json → String
  pub random : W → String × W
  pub verify_jwt : String → String → W → Option String × W
  pub payload : String → Members

abbrev outcome : Status → SkipKind → String → String → CheckResult
outcome status kind message evidence = record {
  status = status;
  skip_kind = kind;
  message = message;
  evidence = evidence;
  duration = 0;
}

-- The literals `Result{Status: …}` of the checks, with their message and evidence.
abbrev pub passed : String → String → CheckResult
passed = outcome pass unset

abbrev pub failed : String → String → CheckResult
failed = outcome fail unset

abbrev pub errored : String → String → CheckResult
errored = outcome error unset

abbrev pub left_untested : String → String → CheckResult
left_untested = outcome skip untested

abbrev pub left_unsupported : String → String → CheckResult
left_unsupported = outcome skip unsupported

-- A row of the registry without its functions.
abbrev pub described :
    {W : Type 0}
    → String
    → Profile
    → String
    → String
    → Severity
    → String
    → Option Precondition
    → (Target → W → CheckResult × W)
    → Check W
described id profile rfc section severity description pre run = record {
  meta = record {
    id = id;
    profile = profile;
    rfc = rfc;
    section = section;
    severity = severity;
    description = description;
  };
  precondition = pre;
  run = λ t w. (returned (run t w).0, (run t w).1);
}

-- A check that reads the target only.
abbrev pub reads : {W : Type 0} → (Target → CheckResult) → Target → W → CheckResult × W
reads judge t w = (judge t, w)

abbrev pub text_at : Option Json → String
text_at (some (str s)) = s
text_at _ = ""

-- `t.clientAuth`
abbrev pub client_auth_of : {W : Type 0} → Kit W → Target → Form → Form × Headers
client_auth_of kit t form =
    apply_client_auth kit.base64 form t.plan.token_auth_method t.plan.client_id t.plan.client_secret

abbrev pub post : {W : Type 0} → Kit W → String → Form × Headers → W → Result String Response × W
post kit endpoint (form, extra) w =
    post_form (kit.environment.send) endpoint (kit.encode form) extra w

-- `obtainToken` with the decoder of the kit.
abbrev pub token_for : {W : Type 0} → Kit W → Target → W → (String × String × Option String) × W
token_for kit t w =
    obtain_token kit.environment kit.encode kit.base64
      (λ (body : String). text_at (lookup "access_token" (kit.json body))) t w
