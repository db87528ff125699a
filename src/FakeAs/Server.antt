-- ===== src/FakeAs/Server.antt =====
-- internal/fakeas/as.go: the token endpoint (`handleToken`), introspection, revocation, the paths that
-- `NewAS` serves, and a run of requests.
use aoa_conformance.Prelude.{
  String, ℕ, Bool, Option, none, some, List, [], ◌∷◌, ◌&&◌, not, ◌==◌, is_empty, is_some,
  if◌then◌else◌,
}
use aoa_conformance.Prelude.Json.{empty, member, str, bool}
use aoa_conformance.Prelude.Lists.{any}
use aoa_conformance.Prelude.Result.{Result, ok, err}
use aoa_conformance.Prelude.Scan.{after_prefix}
use aoa_conformance.Http.Exchange.{grant_token_exchange}
use aoa_conformance.Http.Form.{get_value}
use aoa_conformance.FakeAs.{
  Violations, Environment, State, Request, Answer, Served, write_json, token_error, bare,
}
use aoa_conformance.FakeAs.Discovery.{handle_discovery, handle_jwks}
use aoa_conformance.FakeAs.Clients.{
  handle_par, handle_register, handle_client_config, handle_authorize,
}
use aoa_conformance.FakeAs.Tokens.{
  handle_client_credentials, handle_refresh, handle_dpop, mint_token, answered, refuse,
  token_document,
}
use aoa_conformance.FakeAs.Exchanges.{handle_exchange}

-- `as.revoked[tok]`
unfoldable pub is_revoked : String → State → Bool
is_revoked tok s = any (λ (t : String). t == tok) s.revoked

-- How a token request authenticated its client.
unfoldable pub client_auth : Request → String
unfolding get_value
client_auth r =
    if r.has_basic_auth
    then "client_secret_basic"
    else if not (is_empty (get_value "client_secret" r.form))
    then "client_secret_post"
    else ""

abbrev pub answer_only : State → Answer → Served State
answer_only s a = (some a, s)

abbrev pub changed : Answer × State → Served State
changed (a, s) = (some a, s)

pub data Endpoint : Type 0 where
  metadata keys token registration client_config authorize pushed : Endpoint
  introspection revocation missing : Endpoint

-- The patterns of `NewAS`; any other path is not found.
unfoldable pub route : String → Endpoint
unfolding after_prefix
route path =
    if path == "/.well-known/oauth-authorization-server"
    then metadata
    else if path == "/jwks"
    then keys
    else if path == "/token"
    then token
    else if path == "/register"
    then registration
    else if is_some (after_prefix "/register/" path)
    then client_config
    else if path == "/authorize"
    then authorize
    else if path == "/par"
    then pushed
    else if path == "/introspect"
    then introspection
    else if path == "/revoke"
    then revocation
    else missing

-- A grant moves the counter only.
abbrev pub counted : State → Served ℕ → Served State
counted s (a, n) = (a, record s { minted = n })

module _ (env : Environment) (v : Violations) where
  -- The switch on grant_type.
  unfoldable pub grant : Request → Option String → ℕ → Served ℕ
  unfolding get_value handle_exchange handle_client_credentials handle_refresh mint_token
      token_error
  grant r proof n =
      let grant_type = get_value "grant_type" r.form in
      if grant_type == grant_token_exchange
      then handle_exchange env v r proof n
      else if grant_type == "client_credentials"
      then if v.no_client_credentials
        then refuse env v 400 "unsupported_grant_type" "client_credentials not supported" n
        else handle_client_credentials env v r proof n
      else if grant_type == "refresh_token"
      then handle_refresh env v r proof n
      else if v.accept_unknown_grant
      then answered (token_document none)
          (mint_token env (member "sub" (str "unknown-grant") empty) n)
      else refuse env v 400 "unsupported_grant_type" "unsupported grant" n

  abbrev pub after_dpop : Result Answer String → Request → ℕ → Served ℕ
  after_dpop (err a) r n = (some a, n)
  after_dpop (ok jkt) r n = grant r (some jkt) n

  -- The part of `handleToken` after the request was noted.
  unfoldable pub prove_and_grant : Request → ℕ → Served ℕ
  unfolding handle_dpop grant
  prove_and_grant r n =
      if is_empty r.dpop then grant r none n else after_dpop (handle_dpop env v r.dpop) r n

  -- `handleToken`
  unfoldable pub handle_token : Request → State → Served State
  unfolding client_auth prove_and_grant
  handle_token r s =
      counted (record s { last_form = r.form; last_client_auth = client_auth r })
        (prove_and_grant r s.minted)

  -- `handleIntrospect`
  unfoldable pub handle_introspect : Request → State → Answer
  unfolding get_value is_revoked
  handle_introspect r s =
      let tok = get_value "token" r.form in
      let active =
        is_some (env.verify tok) && not (is_revoked tok s) && not v.introspect_inactive in
      write_json [] 200 (member "active" (bool active) empty)

  -- `handleRevoke`
  unfoldable pub handle_revoke : Request → State → Answer × State
  unfolding get_value
  handle_revoke r s = if v.dead_revocation then (bare 404, s) else (
    bare 200,
    if v.ignore_revoke then s else record s { revoked = get_value "token" r.form ∷ s.revoked },
  )

  unfoldable pub dispatch : Endpoint → Request → State → Served State
  unfolding handle_discovery handle_jwks handle_token handle_register handle_client_config
      handle_authorize handle_par handle_introspect handle_revoke
  dispatch metadata r s = answer_only s (handle_discovery env v)
  dispatch keys r s = answer_only s (handle_jwks env)
  dispatch token r s = handle_token r s
  dispatch registration r s = changed (handle_register env v r s)
  dispatch client_config r s = changed (handle_client_config r s)
  dispatch authorize r s = answer_only s (handle_authorize env v r)
  dispatch pushed r s = changed (handle_par r s)
  dispatch introspection r s = answer_only s (handle_introspect r s)
  dispatch revocation r s = changed (handle_revoke r s)
  dispatch missing r s = answer_only s (bare 404)

  -- One request to the server.
  unfoldable pub serve : Request → State → Served State
  serve r s = dispatch (route r.path) r s

  -- The state after a list of requests.
  unfoldable pub run_all : List Request → State → State
  run_all [] s = s
  run_all (r ∷ rs) s = run_all rs (serve r s).1
