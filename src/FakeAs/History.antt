-- ===== src/FakeAs/History.antt =====
-- What the fake server remembers, against the list of the requests that it was sent: the specification
-- reads the requests alone, the server keeps fields behind a mutex.
use aoa_conformance.Prelude.{
  String, Bool, ◌≡◌, refl, sym, ◌∙◌, ap, true, false, List, [], ◌∷◌, ◌++◌, ◌&&◌, ◌||◌, not, map,
  is_some, arith, if◌then◌else◌,
}
use aoa_conformance.Prelude.Json.{empty, member, bool}
use mathlib.Core.List.{append_assoc}
use aoa_conformance.Prelude.Lists.{any, select, any-append}
use aoa_conformance.Http.Form.{get_value}
use aoa_conformance.FakeAs.{Violations, Environment, State, Request, write_json, new_as}
use aoa_conformance.FakeAs.Server.{
  Endpoint, route, serve, dispatch, run_all, is_revoked, handle_introspect,
}
use aoa_conformance.FakeAs.Recall.{
  revokes, deletes, named_client, form_at, auth_at, par_form_at, registration_at, minted_at, latest,
  append-nil, dispatch-revoked, dispatch-deleted, dispatch-last_form, dispatch-last_client_auth,
  dispatch-last_par_form, dispatch-last_registration, dispatch-minted,
}

-- What the state of the server says of the requests before it.
pub record Reflects (env : Environment) (v : Violations) (rs : List Request) (s : State)
    : Type 0 where
  pub revoked : (tok : String) → is_revoked tok s ≡ any (revokes v tok) rs
  pub deleted : s.deleted_clients ≡ map named_client (select deletes rs)
  pub form : s.last_form ≡ latest form_at rs []
  pub client_auth : s.last_client_auth ≡ latest auth_at rs ""
  pub par_form : s.last_par_form ≡ latest par_form_at rs []
  pub registration : s.last_registration ≡ latest (registration_at v) rs empty
  pub minted : s.minted ≡ latest (minted_at env v) rs 0

or_swap : (a b c : Bool) → (a || (b || c)) ≡ ((b || a) || c)
or_swap a b c = ground arith

or_false : (a : Bool) → (a || false) ≡ a
or_false a = ground arith

or_true : (a : Bool) → (a || true) ≡ true
or_true a = ground arith

and_not : (a b : Bool) {c : Bool} → c ≡ true → (a && not c && not b) ≡ false
and_not a b h = ground arith

regroup :
    (b : Bool) (r : Request) (front : List String) (rest : List Request)
    → (front ++ map named_client (if b then r ∷ [] else [])) ++ map named_client rest
      ≡ front ++ map named_client (if b then r ∷ rest else rest)
regroup true r front rest = append_assoc front (named_client r ∷ []) (map named_client rest)
regroup false r front rest =
    ap (λ (xs : List String). xs ++ map named_client rest) (append-nil front)

module _ (env : Environment) (v : Violations) where
  run_all-revoked :
      (rs : List Request) (tok : String) (s : State)
      → is_revoked tok (run_all env v rs s) ≡ (any (revokes v tok) rs || is_revoked tok s)
  unfolding run_all serve
  run_all-revoked [] tok s = refl
  run_all-revoked (r ∷ rs) tok s =
      run_all-revoked rs tok (dispatch env v (route r.path) r s).1
      ∙ ap (λ (b : Bool). any (revokes v tok) rs || b)
          (dispatch-revoked env v (route r.path) tok r s)
      ∙ or_swap (any (revokes v tok) rs) (revokes v tok r) (is_revoked tok s)

  run_all-deleted :
      (rs : List Request) (s : State)
      → (run_all env v rs s).deleted_clients
        ≡ s.deleted_clients ++ map named_client (select deletes rs)
  unfolding run_all serve
  run_all-deleted [] s = sym (append-nil s.deleted_clients)
  run_all-deleted (r ∷ rs) s =
      run_all-deleted rs (dispatch env v (route r.path) r s).1
      ∙ ap (λ (front : List String). front ++ map named_client (select deletes rs))
          (dispatch-deleted env v (route r.path) r s)
      ∙ regroup (deletes r) r s.deleted_clients (select deletes rs)

  -- A field that a request changes by itself and by its old value.
  run_all-latest :
      {A : Type 0} (field : State → A) (at : Endpoint → Request → A → A)
      → ((e : Endpoint) (r : Request) (s : State)
          → field (dispatch env v e r s).1 ≡ at e r (field s))
      → (rs : List Request) (s : State) → field (run_all env v rs s) ≡ latest at rs (field s)
  unfolding run_all serve latest
  run_all-latest field at step [] s = refl
  run_all-latest field at step (r ∷ rs) s =
      run_all-latest field at step rs (dispatch env v (route r.path) r s).1
      ∙ ap (latest at rs) (step (route r.path) r s)

  -- After any requests to a new server, whatever its violations: the revoked tokens are those that
  -- some request revoked, and the deleted clients are those of the authorized deletions in their
  -- order; the form and the client authentication that are kept are those of the latest token
  -- request, the pushed form is that of the latest pushed request, the registration is the latest one
  -- that came with an initial access token where this is required; and the counter of minted tokens
  -- is moved by the token requests alone.
  pub run_all-Reflects : (rs : List Request) → Reflects env v rs (run_all env v rs new_as)
  unfolding is_revoked
  run_all-Reflects rs = record {
    revoked = λ tok. run_all-revoked rs tok new_as ∙ or_false (any (revokes v tok) rs);
    deleted = run_all-deleted rs new_as;
    form = run_all-latest (λ s. s.last_form) form_at (dispatch-last_form env v) rs new_as;
    client_auth =
        run_all-latest (λ s. s.last_client_auth) auth_at (dispatch-last_client_auth env v) rs
          new_as;
    par_form =
        run_all-latest (λ s. s.last_par_form) par_form_at (dispatch-last_par_form env v) rs new_as;
    registration =
        run_all-latest (λ s. s.last_registration) (registration_at v)
          (dispatch-last_registration env v) rs new_as;
    minted = run_all-latest (λ s. s.minted) (minted_at env v) (dispatch-minted env v) rs new_as;
  }

  -- A new server that was sent any requests introspects a token as active exactly when the token
  -- verifies, none of these requests revoked it, and the server has not the violation that always
  -- answers inactive.
  pub handle_introspect-history :
      (rs : List Request) (q : Request)
      → handle_introspect env v q (run_all env v rs new_as)
        ≡ write_json [] 200 (
            member "active"
              (bool (
                is_some (env.verify (get_value "token" q.form))
                && not (any (revokes v (get_value "token" q.form)) rs)
                && not v.introspect_inactive))
              empty)
  unfolding handle_introspect
  handle_introspect-history rs q =
      rw ((run_all-Reflects rs).revoked (get_value "token" q.form)) refl

  -- A request that revokes a token takes effect at once and for good: whatever is sent after it, the
  -- token introspects as inactive.
  pub handle_introspect-revoked :
      (before after : List Request) (r q : Request)
      → revokes v (get_value "token" q.form) r ≡ true
      → handle_introspect env v q (run_all env v (before ++ r ∷ after) new_as)
        ≡ write_json [] 200 (member "active" (bool false) empty)
  handle_introspect-revoked before after r q h =
      let seen : any (revokes v (get_value "token" q.form)) (before ++ r ∷ after) ≡ true = ground (
        arith,
        any-append (revokes v (get_value "token" q.form)) before (r ∷ after),
        or_true (any (revokes v (get_value "token" q.form)) before),
      ) in
      handle_introspect-history (before ++ r ∷ after) q
      ∙ ap (λ (b : Bool). write_json [] 200 (member "active" (bool b) empty))
          (and_not (is_some (env.verify (get_value "token" q.form))) v.introspect_inactive seen)
