-- ===== src/Checks/Detection.antt =====
-- conformance/checks_rfc7009.go and conformance/checks_rfc7662.go against internal/fakeas/as.go: which
-- violation of the fake server makes a check fail.
use aoa_conformance.Prelude.{
  String, Bool, ◌≡◌, refl, ap, ◌∙◌, true, false, none, some, [], ◌∷◌, ◌⊎◌, inl, inr, ◌||◌, ◌&&◌,
  not, is_empty, is_some, arith, eq_iff, if◌then◌else◌,
}
use aoa_conformance.Prelude.Json.{empty, member, bool}
use aoa_conformance.Prelude.Result.{Result, ok, err}
use aoa_conformance.Prelude.Text.{◌&◌}
use aoa_conformance.Model.{pass, fail, Target, has_subject}
use aoa_conformance.Http.{HttpRequest, HttpReply, Headers, post_form}
use aoa_conformance.Http.Form.{Form, get_value, form_string, set_value}
use aoa_conformance.Http.ClientAuth.{apply_client_auth}
use aoa_conformance.Runner.{obtain_token}
use aoa_conformance.FakeAs.{Environment, Violations, State, Request, Answer, Served, document}
use aoa_conformance.FakeAs.Server.{
  serve, dispatch, route, handle_introspect, handle_revoke, is_revoked,
}
use aoa_conformance.Checks.{Kit, client_auth_of}
use aoa_conformance.Checks.Requests.{
  check_revocation, introspect, revoke_token, after_revocation, judged, judge_inactive,
}

abbrev pub delivered : (Answer → HttpReply) → Served State → Result String HttpReply × State
delivered render (none, s) = (err "EOF", s)
delivered render (some a, s) = (ok (render a), s)

-- The requests of the check: a form posted to an address, with the token and the client's authentication.
abbrev token_form : {W : Type 0} → Kit W → Target → String → Form × Headers
token_form kit t tok = client_auth_of kit t (form_string (("token", tok) ∷ []) [])

abbrev request_to : {W : Type 0} → Kit W → String → Form × Headers → HttpRequest
request_to kit url (f, extra) = record {
  method = "POST";
  url = url;
  headers =
      ("Content-Type", "application/x-www-form-urlencoded")
      ∷ ("Accept", "application/json")
      ∷ extra;
  body = kit.encode f;
}

abbrev pub token_request : {W : Type 0} → Kit W → Target → String → String → HttpRequest
token_request kit t url tok = request_to kit url (token_form kit t tok)

abbrev pub IsPath : String → Type 0
IsPath p = (p ≡ "/revoke") ⊎ (p ≡ "/introspect")

-- What `net/http`, `net/url` and `encoding/json` do between the check and the fake server: a form that
-- is posted to one of the two paths of the server arrives there with its token, and the introspection
-- document comes back as it was written.
pub record IsConnected (env : Environment) (v : Violations) (kit : Kit State) : Type 0 where
  pub parse : HttpRequest → Request
  pub render : Answer → HttpReply
  pub sends :
      (t : Target) (tok p : String) (s : State)
      → IsPath p
      → kit.environment.send (token_request kit t (env.url & p) tok) s
        ≡ delivered render (serve env v (parse (token_request kit t (env.url & p) tok)) s)
  pub path :
      (t : Target) (tok p : String)
      → IsPath p
      → (parse (token_request kit t (env.url & p) tok)).path ≡ p
  pub token :
      (t : Target) (tok p : String)
      → IsPath p
      → get_value "token" (parse (token_request kit t (env.url & p) tok)).form
        ≡ get_value "token" (token_form kit t tok).0
  pub active :
      (a : Answer) (b : Bool)
      → a.body ≡ document (member "active" (bool b) empty)
      → kit.json (render a).body ≡ member "active" (bool b) empty

-- Client authentication leaves the token of a form.
client_auth_of-token :
    {W : Type 0} (kit : Kit W) (t : Target) (tok : String)
    → get_value "token" (token_form kit t tok).0 ≡ tok
unfolding form_string set_value apply_client_auth get_value
client_auth_of-token kit t tok = ground arith

module _ (env : Environment) (v : Violations) (kit : Kit State) (c : IsConnected env v kit) where
  open c use {parse, render, sends, path, token, active}

  send_at :
      (t : Target) (url tok p : String) (s : State)
      → IsPath p
      → url ≡ env.url & p
      → kit.environment.send (token_request kit t url tok) s
        ≡ delivered render (dispatch env v (route p) (parse (token_request kit t url tok)) s)
  unfolding serve
  send_at t url tok p s known h =
      let there : HttpRequest = token_request kit t (env.url & p) tok in
      rw h (
        sends t tok p s known
        ∙ ap (λ (q : String). delivered render (dispatch env v (route q) (parse there) s))
            (path t tok p known))

  -- The state after a revocation request.
  abbrev after_revoke : String → State → State
  after_revoke tok s =
      if v.dead_revocation
      then s
      else if v.ignore_revoke
      then s
      else record s { revoked = tok ∷ s.revoked }

  handle_revoke-state :
      (r : Request) (s : State)
      → (handle_revoke env v r s).1 ≡ after_revoke (get_value "token" r.form) s
  unfolding handle_revoke
  handle_revoke-state r s = ground arith

  token_read :
      (t : Target) (url tok p : String)
      → IsPath p
      → url ≡ env.url & p
      → get_value "token" (parse (token_request kit t url tok)).form ≡ tok
  token_read t url tok p known h = rw h (token t tok p known ∙ client_auth_of-token kit t tok)

  after_revocation-sent :
      (t : Target) (tok : String) (s : State)
      → t.discovered.revocation_endpoint ≡ env.url & "/revoke"
      → after_revocation kit t tok (revoke_token kit t tok s)
        ≡ judged kit (judge_inactive kit) (introspect kit t tok (after_revoke tok s))
  unfolding revoke_token post_form dispatch route
  after_revocation-sent t tok s at_revoke =
      let url : String = t.discovered.revocation_endpoint in
      let req : HttpRequest = token_request kit t url tok in
      rw (send_at t url tok "/revoke" s (inl refl) at_revoke) (
        ap (λ (w : State). judged kit (judge_inactive kit) (introspect kit t tok w))
          (handle_revoke-state (parse req) s
            ∙ ap (λ (u : String). after_revoke u s)
                (token_read t url tok "/revoke" (inl refl) at_revoke)))

  -- What introspection says of a token.
  abbrev is_active : String → State → Bool
  is_active tok s = is_some (env.verify tok) && not (is_revoked tok s) && not v.introspect_inactive

  introspect-read :
      (t : Target) (tok : String) (s : State)
      → t.discovered.introspection_endpoint ≡ env.url & "/introspect"
      → (judged kit (judge_inactive kit) (introspect kit t tok s)).0.status
        ≡ (if is_active tok s then fail else pass)
  unfolding introspect post_form dispatch route handle_introspect
  introspect-read t tok s at_introspect =
      let url : String = t.discovered.introspection_endpoint in
      let req : HttpRequest = token_request kit t url tok in
      let answer : Answer = handle_introspect env v (parse req) s in
      rw (send_at t url tok "/introspect" s (inr refl) at_introspect) (
        ground (
          arith,
          active answer (is_active (get_value "token" (parse req).form) s) refl,
          token_read t url tok "/introspect" (inr refl) at_introspect,
        ))

  is_active-after_revoke :
      (tok : String) (s : State)
      → is_active tok (after_revoke tok s)
        ≡ (is_active tok s && (v.dead_revocation || v.ignore_revoke))
  unfolding is_revoked
  is_active-after_revoke tok s = ground (arith, (eq_iff tok tok).1 refl)

  -- Against the fake server, on a token that the operator supplied and on the server's own addresses,
  -- and where the check's posted forms and the introspection documents arrive as they were sent: the revocation check fails exactly when
  -- the token was active before it and the server has a revocation endpoint that is dead or that
  -- ignores requests; otherwise it passes.
  pub check_revocation-detects :
      (t : Target) (s : State)
      → has_subject t.creds ≡ true
      → t.discovered.revocation_endpoint ≡ env.url & "/revoke"
      → t.discovered.introspection_endpoint ≡ env.url & "/introspect"
      → (check_revocation kit t s).0.status ≡ (
          if is_some (env.verify t.creds.subject_token)
            && not (is_revoked t.creds.subject_token s)
            && not v.introspect_inactive
            && (v.dead_revocation || v.ignore_revoke)
          then fail
          else pass)
  unfolding check_revocation obtain_token
  check_revocation-detects t s supplied at_revoke at_introspect =
      let tok : String = t.creds.subject_token in
      let named : is_empty tok ≡ false = ground arith in
      rw (supplied, named, after_revocation-sent t tok s at_revoke)
        (introspect-read t tok (after_revoke tok s) at_introspect
          ∙ ap (λ (b : Bool). if b then fail else pass) (is_active-after_revoke tok s))
