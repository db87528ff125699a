-- ===== src/FakeAs/Recall.antt =====
-- internal/fakeas/as.go: what one request changes in a field of the fake server, said of the request and
-- of the old value, and what a list of requests leaves.
use aoa_conformance.Prelude.{
  String, ℕ, is_empty, Bool, ◌≡◌, refl, ap, false, List, [], ◌∷◌, ◌++◌, ◌&&◌, ◌||◌, not, ◌==◌, map,
  arith, if◌then◌else◌,
}
use aoa_conformance.Prelude.Json.{Members}
use aoa_conformance.Http.Form.{Form, get_value}
use aoa_conformance.FakeAs.{Violations, Environment, State, Request}
use aoa_conformance.FakeAs.Clients.{handle_register, handle_client_config, handle_par, strip}
use aoa_conformance.FakeAs.Server.{
  Endpoint, metadata, keys, token, registration, client_config, authorize, pushed, introspection,
  revocation, missing, route, dispatch, is_revoked, handle_token, handle_revoke, client_auth,
  prove_and_grant,
}

abbrev pub revokes_at : Endpoint → Violations → String → Request → Bool
revokes_at revocation v tok r =
    not v.dead_revocation && not v.ignore_revoke && get_value "token" r.form == tok
revokes_at _ v tok r = false

-- Is this a request that revokes the token?
abbrev pub revokes : Violations → String → Request → Bool
revokes v tok r = revokes_at (route r.path) v tok r

abbrev pub deletes_at : Endpoint → Request → Bool
deletes_at client_config r = r.method == "DELETE" && r.authorization == "Bearer rat-123"
deletes_at _ r = false

-- Is this a request that deletes the client that its path names?
abbrev pub deletes : Request → Bool
deletes r = deletes_at (route r.path) r

abbrev pub named_client : Request → String
named_client r = strip "/register/" r.path

abbrev pub form_at : Endpoint → Request → Form → Form
form_at token r before = r.form
form_at _ r before = before

abbrev pub auth_at : Endpoint → Request → String → String
auth_at token r before = client_auth r
auth_at _ r before = before

abbrev pub par_form_at : Endpoint → Request → Form → Form
par_form_at pushed r before = r.form
par_form_at _ r before = before

-- A registration is noted unless it lacks the initial access token that the server asks for.
abbrev pub registration_at : Violations → Endpoint → Request → Members → Members
registration_at v registration r before =
    if v.registration_requires_iat && is_empty r.authorization then before else r.json
registration_at v _ r before = before

abbrev pub minted_at : Environment → Violations → Endpoint → Request → ℕ → ℕ
minted_at env v token r n = (prove_and_grant env v r n).1
minted_at env v _ r n = n

-- What the requests leave of a value that some of them replace.
unfoldable pub latest : {A : Type 0} → (Endpoint → Request → A → A) → List Request → A → A
latest at [] before = before
latest at (r ∷ rs) before = latest at rs (at (route r.path) r before)

pub append-nil : (xs : List String) → xs ++ [] ≡ xs
append-nil [] = refl
append-nil (x ∷ xs) = ap (◌∷◌ x) (append-nil xs)

module _ (env : Environment) (v : Violations) where
  pub dispatch-revoked :
      (e : Endpoint) (tok : String) (r : Request) (s : State)
      → is_revoked tok (dispatch env v e r s).1 ≡ (revokes_at e v tok r || is_revoked tok s)
  unfolding dispatch handle_token handle_register handle_client_config handle_revoke is_revoked
  dispatch-revoked metadata tok r s = refl
  dispatch-revoked keys tok r s = refl
  dispatch-revoked token tok r s = refl
  dispatch-revoked registration tok r s = ground arith
  dispatch-revoked client_config tok r s = ground arith
  dispatch-revoked authorize tok r s = refl
  dispatch-revoked pushed tok r s = refl
  dispatch-revoked introspection tok r s = refl
  dispatch-revoked revocation tok r s = ground arith
  dispatch-revoked missing tok r s = refl

  pub dispatch-deleted :
      (e : Endpoint) (r : Request) (s : State)
      → (dispatch env v e r s).1.deleted_clients
        ≡ s.deleted_clients ++ map named_client (if deletes_at e r then r ∷ [] else [])
  unfolding dispatch handle_token handle_register handle_client_config handle_revoke
  dispatch-deleted metadata r s = ground (arith, append-nil s.deleted_clients)
  dispatch-deleted keys r s = ground (arith, append-nil s.deleted_clients)
  dispatch-deleted token r s = ground (arith, append-nil s.deleted_clients)
  dispatch-deleted registration r s = ground (arith, append-nil s.deleted_clients)
  dispatch-deleted client_config r s = ground (arith, append-nil s.deleted_clients)
  dispatch-deleted authorize r s = ground (arith, append-nil s.deleted_clients)
  dispatch-deleted pushed r s = ground (arith, append-nil s.deleted_clients)
  dispatch-deleted introspection r s = ground (arith, append-nil s.deleted_clients)
  dispatch-deleted revocation r s = ground (arith, append-nil s.deleted_clients)
  dispatch-deleted missing r s = ground (arith, append-nil s.deleted_clients)

  pub dispatch-last_form :
      (e : Endpoint) (r : Request) (s : State)
      → (dispatch env v e r s).1.last_form ≡ form_at e r s.last_form
  unfolding dispatch handle_token handle_register handle_client_config handle_revoke
  dispatch-last_form metadata r s = refl
  dispatch-last_form keys r s = refl
  dispatch-last_form token r s = refl
  dispatch-last_form registration r s = ground arith
  dispatch-last_form client_config r s = ground arith
  dispatch-last_form authorize r s = refl
  dispatch-last_form pushed r s = refl
  dispatch-last_form introspection r s = refl
  dispatch-last_form revocation r s = ground arith
  dispatch-last_form missing r s = refl

  pub dispatch-last_client_auth :
      (e : Endpoint) (r : Request) (s : State)
      → (dispatch env v e r s).1.last_client_auth ≡ auth_at e r s.last_client_auth
  unfolding dispatch handle_token handle_register handle_client_config handle_par handle_revoke
  dispatch-last_client_auth metadata r s = refl
  dispatch-last_client_auth keys r s = refl
  dispatch-last_client_auth token r s = refl
  dispatch-last_client_auth registration r s = ground arith
  dispatch-last_client_auth client_config r s = ground arith
  dispatch-last_client_auth authorize r s = refl
  dispatch-last_client_auth pushed r s = refl
  dispatch-last_client_auth introspection r s = refl
  dispatch-last_client_auth revocation r s = ground arith
  dispatch-last_client_auth missing r s = refl

  pub dispatch-last_par_form :
      (e : Endpoint) (r : Request) (s : State)
      → (dispatch env v e r s).1.last_par_form ≡ par_form_at e r s.last_par_form
  unfolding dispatch handle_token handle_register handle_client_config handle_par handle_revoke
  dispatch-last_par_form metadata r s = refl
  dispatch-last_par_form keys r s = refl
  dispatch-last_par_form token r s = refl
  dispatch-last_par_form registration r s = ground arith
  dispatch-last_par_form client_config r s = ground arith
  dispatch-last_par_form authorize r s = refl
  dispatch-last_par_form pushed r s = refl
  dispatch-last_par_form introspection r s = refl
  dispatch-last_par_form revocation r s = ground arith
  dispatch-last_par_form missing r s = refl

  pub dispatch-last_registration :
      (e : Endpoint) (r : Request) (s : State)
      → (dispatch env v e r s).1.last_registration ≡ registration_at v e r s.last_registration
  unfolding dispatch handle_token handle_register handle_client_config handle_par handle_revoke
  dispatch-last_registration metadata r s = refl
  dispatch-last_registration keys r s = refl
  dispatch-last_registration token r s = refl
  dispatch-last_registration registration r s = ground arith
  dispatch-last_registration client_config r s = ground arith
  dispatch-last_registration authorize r s = refl
  dispatch-last_registration pushed r s = refl
  dispatch-last_registration introspection r s = refl
  dispatch-last_registration revocation r s = ground arith
  dispatch-last_registration missing r s = refl

  pub dispatch-minted :
      (e : Endpoint) (r : Request) (s : State)
      → (dispatch env v e r s).1.minted ≡ minted_at env v e r s.minted
  unfolding dispatch handle_token handle_register handle_client_config handle_par handle_revoke
  dispatch-minted metadata r s = refl
  dispatch-minted keys r s = refl
  dispatch-minted token r s = refl
  dispatch-minted registration r s = ground arith
  dispatch-minted client_config r s = ground arith
  dispatch-minted authorize r s = refl
  dispatch-minted pushed r s = refl
  dispatch-minted introspection r s = refl
  dispatch-minted revocation r s = ground arith
  dispatch-minted missing r s = refl
