-- ===== src/Tests/Checked.antt =====
-- Runs of single checks, against the fake server and against written answers.
use aoa_conformance.Prelude.{
  String, Bool, ◌≡◌, ◌↔◌, refl, ap, ◌∙◌, true, false, Option, none, some, [], ◌∷◌, ◌==◌, ◌&&◌, ◌||◌,
  not, is_some, if◌then◌else◌,
}
use aoa_conformance.Prelude.Json.{Json, str, obj, empty, member, bool, lookup}
use aoa_conformance.Prelude.Result.{err, ok}
use aoa_conformance.Prelude.Scan.{after_prefix}
use aoa_conformance.Prelude.Scan.Laws.{after_prefix-append}
use aoa_conformance.Model.{Target, pass, fail, error}
use aoa_conformance.Http.{HttpRequest, HttpReply, Transport}
use aoa_conformance.Http.Form.{get_value}
use aoa_conformance.FakeAs.{
  Violations, State, Request, Answer, Body, document, plain, no_body, new_as,
}
use aoa_conformance.FakeAs.Server.{serve, dispatch, route, is_revoked}
use aoa_conformance.Checks.{Kit}
use aoa_conformance.Checks.Requests.{check_revocation}
use aoa_conformance.Checks.Detection.{IsConnected, delivered, check_revocation-detects}
use aoa_conformance.Checks.Refresh.{run_refresh_scope}
use aoa_conformance.Checks.Refresh.Narrow.{IsHonored, run_refresh_scope-pass_iff}
use aoa_conformance.Checks.Exchange.{delegation, do_exchange, check_delegation, check_may_act}
use aoa_conformance.Checks.Exchange.Verdicts.{check_may_act-opposes}
use aoa_conformance.Checks.Proofs.{Prover}
use aoa_conformance.Checks.Dpop.{
  check_binding, dpop_exchange, exchange_under, retry_once, send_proof, dpop_post, judge_binding,
}
use aoa_conformance.Checks.Dpop.Bound.{IsKeyBound, check_binding-IsKeyBound}
use aoa_conformance.Runner.{Runner, run}
use aoa_conformance.Checks.Documents.{run_cimd_behavioral}
use aoa_conformance.Checks.Registry.{Equipment, default_registry}
use aoa_conformance.Checks.Registry.Index.{IsIndexed, run-IsIndexed}
use aoa_conformance.Tests.{
  sample_codec, sample_decoder, sample_library, server_target, answers, Log,
}
use aoa_conformance.Tests.Servers.{correct, sample_as, posted, known_tokens}

abbrev strip_site : Option String → String
strip_site none = ""
strip_site (some path) = path

abbrev parsed : HttpRequest → Request
parsed req =
    posted (strip_site (after_prefix "https://as.example" req.url))
      (record { name = "token"; values = req.body ∷ [] } ∷ [])

abbrev is_true_at : Option Json → String
is_true_at (some (bool true)) = "active"
is_true_at _ = "inactive"

abbrev body_text : Body → String
body_text no_body = ""
body_text (plain s) = s
body_text (document doc) = is_true_at (lookup "active" doc)

abbrev rendered : Answer → HttpReply
rendered a = record { status_code = a.code; headers = []; body = body_text a.body }

abbrev kit_over : {W : Type 0} → Transport W → Kit W
kit_over send = record {
  environment = record {
    send = send;
    codec = sample_codec;
    decoder = sample_decoder;
    library = sample_library;
    is_loopback = λ host. false;
    elapsed = λ w w'. 0;
  };
  encode = get_value "token";
  base64 = λ s. s;
  json = λ body. member "active" (bool (body == "active")) empty;
  json_error = λ body. none;
  view_url = λ raw. err raw;
  rebuild = λ raw u. raw;
  issuer_in = λ raw. raw;
  to_lower = λ s. s;
  equal_fold = λ a b. a == b;
  quote = λ s. s;
  show = λ j. "";
  random = λ w. ("random", w);
  verify_jwt = λ token url w. (none, w);
  payload = λ token. empty;
}

abbrev deaf : Violations
deaf = record correct { ignore_revoke = true }

abbrev fake_kit : Kit State
fake_kit = kit_over (λ req s. delivered rendered (serve sample_as deaf (parsed req) s))

reads_active :
    (b : Bool)
    → member "active" (bool (is_true_at (some (bool b)) == "active")) empty
      ≡ member "active" (bool b) empty
reads_active true = refl
reads_active false = refl

fake_kit-IsConnected : IsConnected sample_as deaf fake_kit
unfolding get_value lookup
fake_kit-IsConnected = record {
  parse = parsed;
  render = rendered;
  sends = λ t tok p s known. refl;
  path = λ t tok p known. ap strip_site (after_prefix-append "https://as.example" p);
  token = λ t tok p known. refl;
  active = λ a b h.
      ap (λ (d : Body). member "active" (bool (body_text d == "active")) empty) h ∙ reads_active b;
}

abbrev revoking : Target
revoking = record server_target {
  creds = record (server_target.creds) { subject_token = "subject" };
  discovered = record (server_target.discovered) {
    revocation_endpoint = "https://as.example/revoke";
    introspection_endpoint = "https://as.example/introspect";
  };
}

check_revocation-detects_example : (check_revocation fake_kit revoking new_as).0.status ≡ (
    if is_some (known_tokens "subject")
      && not (is_revoked "subject" new_as)
      && not false
      && (false || true)
    then fail
    else pass)
check_revocation-detects_example =
    check_revocation-detects sample_as deaf fake_kit fake_kit-IsConnected revoking new_as refl refl
      refl

revocation_ignored : (check_revocation fake_kit revoking new_as).0.status ≡ fail
unfolding check_revocation serve dispatch route
revocation_ignored = refl

abbrev refreshing : Target
refreshing = record server_target {
  hints = ("granted_scope", "mcp read offline_access") ∷ [];
  creds = record (server_target.creds) { refresh_token = "refresh" };
}

abbrev no_log : Log
no_log = []

run_refresh_scope-pass_iff_example :
    ((run_refresh_scope (kit_over (answers 200 "{}")) refreshing no_log).0.status ≡ pass)
    ↔ IsHonored (kit_over (answers 200 "{}")) refreshing no_log
run_refresh_scope-pass_iff_example =
    run_refresh_scope-pass_iff (kit_over (answers 200 "{}")) refreshing no_log

abbrev delegating : Target
delegating = record server_target {
  hints = ("actor_token", "actor") ∷ [];
  creds = record (server_target.creds) { subject_token = "subject" };
}

abbrev agreeable : Kit Log
agreeable = kit_over (answers 200 "{}")

abbrev after_first : Log
after_first = (do_exchange agreeable (delegation delegating) delegating no_log).1

check_may_act-opposes_example :
    ((check_delegation agreeable delegating no_log).0.status ≡ pass
      → (check_may_act agreeable delegating after_first).0.status ≡ fail)
    × ((check_may_act agreeable delegating after_first).0.status ≡ pass
        → (check_delegation agreeable delegating no_log).0.status ≡ fail)
unfolding do_exchange
check_may_act-opposes_example = check_may_act-opposes agreeable delegating no_log after_first refl

delegation_accepted : (check_delegation agreeable delegating no_log).0.status ≡ pass
unfolding check_delegation do_exchange
delegation_accepted = refl

abbrev sample_prover : Prover Log String
sample_prover = record {
  new_key = λ w. (ok "key", w);
  thumbprint = λ key. ok key;
  now = λ w. 0;
  s256 = λ s. s;
  sign = λ key claims w. (ok key, w);
}

-- The server binds its tokens to the key.
abbrev binding : Kit Log
binding = record (kit_over (answers 200 "{}")) {
  payload = λ token. member "cnf" (obj (member "jkt" (str "key") empty)) empty;
}

check_binding-IsKeyBound_example : IsKeyBound binding sample_prover refreshing no_log
unfolding check_binding dpop_exchange exchange_under retry_once send_proof dpop_post judge_binding
check_binding-IsKeyBound_example =
    check_binding-IsKeyBound binding sample_prover refreshing no_log refl

abbrev equipment : Equipment Log String String String
equipment = record {
  kit = binding;
  prover = sample_prover;
  signing = record {
    new_signer = λ w. (ok "signer", w);
    sign_jwt = λ signer claims w. (ok "forged", w);
    now = λ w. 0;
  };
  hosting = record {
    host = λ uri w. (err "no listener", w);
    url_of = λ d. d;
    is_fetched = λ d w. false;
    close = λ d w. w;
    send_direct = answers 200 "{}";
    challenge = λ w. ("challenge", w);
  };
}

abbrev default_runner : Runner Log
default_runner = record {
  registry = default_registry equipment;
  skip_discovery = true;
  resolve_opts = none;
}

run-IsIndexed_example : IsIndexed (run (binding.environment) default_runner server_target no_log).0
run-IsIndexed_example =
    run-IsIndexed equipment (binding.environment) default_runner refl server_target no_log

unhosted : (run_cimd_behavioral binding (equipment.hosting) server_target no_log).0.status ≡ error
unfolding run_cimd_behavioral
unhosted = refl
