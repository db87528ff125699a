-- ===== src/FakeAs/Serials/Grants.antt =====
-- internal/fakeas/as.go: what each grant of the token endpoint does to the counter.
use aoa_conformance.Prelude.{
  String, ℕ, ◌≡◌, refl, ap, inl, Bool, true, false, Option, none, some, List, [], ◌∷◌, ◌==◌, not,
  ◌&&◌, arith, if◌then◌else◌, is_empty,
}
use aoa_conformance.Prelude.Json.{
  Json, Members, empty, member, str, obj, strings, lookup, lookup-set_member, is_nil,
}
use aoa_conformance.Prelude.Result.{Result, ok, err}
use aoa_conformance.Http.Form.{get_value, values_of}
use aoa_conformance.FakeAs.{Violations, Environment, Request, Answer}
use aoa_conformance.FakeAs.Discovery.{put_if}
use aoa_conformance.FakeAs.Tokens.{
  token_type, bind_cnf, audience, client_claims, token_document, handle_client_credentials,
  handle_refresh, handle_dpop, refreshed_scope,
}
use aoa_conformance.FakeAs.Exchanges.{
  exchange_document, exchange_claims, with_act, may_act, issue, delegate, on_subject,
  exchanged_scope, on_permission, on_actor, on_name, name_in, handle_exchange,
}
use aoa_conformance.FakeAs.Server.{grant, after_dpop, prove_and_grant}
use aoa_conformance.FakeAs.Serials.{
  text_at, token_in, Steps, Steps-refuse, Steps-mint, Steps-if, lookup-put_if,
}

-- The claims of the grants pin no jti.
sub_only-jti : (x : Json) → lookup "jti" (member "sub" x empty) ≡ none
unfolding lookup
sub_only-jti x = refl

pub exchange_document-token :
    (proof : Option String) (scope t : String)
    → text_at (lookup "access_token" (exchange_document proof scope t)) ≡ some t
unfolding exchange_document lookup
exchange_document-token proof scope t = ap text_at (
    lookup-put_if "access_token" "scope" (not (is_empty scope)) (str scope)
      (member "access_token" (str t) (
        member "issued_token_type" (str "urn:ietf:params:oauth:token-type:access_token")
          (member "token_type" (str (token_type proof)) empty)))
      refl)

pub refresh_document-token :
    (proof : Option String) (scope t : String)
    → text_at (
        lookup "access_token"
          (put_if (not (is_empty scope)) "scope" (str scope) (token_document proof t)))
      ≡ some t
unfolding lookup
refresh_document-token proof scope t = ap text_at (
    lookup-put_if "access_token" "scope" (not (is_empty scope)) (str scope) (token_document proof t)
      refl)

module _ (v : Violations) where
  pub lookup-bind_cnf :
      (j : String) (proof : Option String) (m : Members)
      → ("cnf" == j) ≡ false
      → lookup j (bind_cnf v proof m) ≡ lookup j m
  unfolding bind_cnf
  lookup-bind_cnf j none m h = refl
  lookup-bind_cnf j (some jkt) m h =
      lookup-put_if j "cnf" (not v.no_cnf_binding) (obj (member "jkt" (str jkt) empty)) m h

lookup-audience :
    (j : String) (resources : List String) (m : Members)
    → ("aud" == j) ≡ false
    → lookup j (audience resources m) ≡ lookup j m
lookup-audience j [] m h = refl
lookup-audience j (a ∷ []) m h = ground (arith, lookup-set_member j "aud" (str a) m)
lookup-audience j (a ∷ b ∷ more) m h =
    ground (arith, lookup-set_member j "aud" (strings (a ∷ b ∷ more)) m)

module _ (env : Environment) (v : Violations) where
  client_claims-jti :
      (r : Request) (proof : Option String)
      → is_nil (lookup "jti" (client_claims env v r proof)) ≡ true
  unfolding client_claims
  client_claims-jti r proof =
      let named : Members = member "sub" (str (get_value "client_id" r.form)) empty in
      let reflected : Members =
        if v.ignore_resource_param then named else audience (values_of "resource" r.form) named in
      rw (lookup-bind_cnf v "jti" proof reflected refl) (
        ground (
          arith,
          lookup-audience "jti" (values_of "resource" r.form) named refl,
          sub_only-jti (str (get_value "client_id" r.form)),
        ))

  Steps-client_credentials :
      (r : Request) (proof : Option String) (n : ℕ)
      → Steps env n (handle_client_credentials env v r proof n)
  unfolding handle_client_credentials
  Steps-client_credentials r proof n =
      let minted =
        Steps-mint env (token_document proof) (client_claims env v r proof) n
          (client_claims-jti r proof) (λ t. refl) in
      search (Steps-if, Steps-refuse, minted)

  Steps-refresh :
      (r : Request) (proof : Option String) (n : ℕ) → Steps env n (handle_refresh env v r proof n)
  unfolding handle_refresh
  Steps-refresh r proof n =
      let scope : String = refreshed_scope env v (get_value "scope" r.form) in
      let named : Members = member "sub" (str "refresh-sub") empty in
      Steps-mint env
        (λ (t : String). put_if (not (is_empty scope)) "scope" (str scope) (token_document proof t))
        (bind_cnf v proof named) n
        (ground (arith, lookup-bind_cnf v "jti" proof named refl, sub_only-jti (str "refresh-sub")))
        (λ t. ap text_at (
          lookup-put_if "access_token" "scope" (not (is_empty scope)) (str scope)
            (token_document proof t) refl))

  exchange_claims-jti :
      (r : Request) (proof : Option String) (out : Members)
      → is_nil (lookup "jti" out) ≡ true
      → is_nil (lookup "jti" (exchange_claims env v r proof out)) ≡ true
  unfolding exchange_claims
  exchange_claims-jti r proof out h =
      let resource : String = get_value "resource" r.form in
      let reflects : Bool = not (is_empty resource) && not v.ignore_resource_param in
      rw (lookup-bind_cnf v "jti" proof (put_if reflects "aud" (str resource) out) refl)
        (rw (lookup-put_if "jti" "aud" reflects (str resource) out refl) h)

  Steps-issue :
      (r : Request) (proof : Option String) (out : Members) (n : ℕ)
      → is_nil (lookup "jti" out) ≡ true
      → Steps env n (issue env v r proof out n)
  unfolding issue
  Steps-issue r proof out n h =
      let scope : String = exchanged_scope env v (get_value "scope" r.form) in
      Steps-mint env (exchange_document proof scope) (exchange_claims env v r proof out) n
        (exchange_claims-jti r proof out h) (exchange_document-token proof scope)

  with_act-jti :
      (subject actor : Members) (x : Json)
      → is_nil (lookup "jti" (with_act env v subject actor (member "sub" x empty))) ≡ true
  unfolding with_act
  with_act-jti subject actor x = ground arith

  Steps-on_permission :
      (allowed : Option Bool) (r : Request) (proof : Option String) (out : Members) (n : ℕ)
      → is_nil (lookup "jti" out) ≡ true
      → Steps env n (on_permission env v allowed r proof out n)
  unfolding Steps
  Steps-on_permission none r proof out n h = inl (refl, refl)
  Steps-on_permission (some false) r proof out n h = Steps-refuse env v [] 400 _ _ n
  Steps-on_permission (some true) r proof out n h = Steps-issue r proof out n h

  Steps-on_actor :
      (actor : Option Members) (subject : Members) (x : Json) (r : Request) (proof : Option String)
      (n : ℕ)
      → Steps env n (on_actor env v actor subject r proof (member "sub" x empty) n)
  Steps-on_actor none subject x r proof n = search (Steps-refuse)
  Steps-on_actor (some actor) subject x r proof n =
      Steps-on_permission (may_act env v subject actor) r proof _ n (with_act-jti subject actor x)

  Steps-delegate :
      (subject : Members) (x : Json) (r : Request) (proof : Option String) (n : ℕ)
      → Steps env n (delegate env v subject r proof (member "sub" x empty) n)
  unfolding delegate
  Steps-delegate subject x r proof n =
      Steps-if env (is_empty (get_value "actor_token" r.form)) n _ _
        (Steps-issue r proof (member "sub" x empty) n refl)
        (Steps-on_actor (env.verify (get_value "actor_token" r.form)) subject x r proof n)

  Steps-on_name :
      (name : Option String) (subject : Members) (r : Request) (proof : Option String) (n : ℕ)
      → Steps env n (on_name env v name subject r proof n)
  unfolding Steps
  Steps-on_name none subject r proof n = inl (refl, refl)
  Steps-on_name (some sub) subject r proof n = Steps-delegate subject (str sub) r proof n

  Steps-on_subject :
      (subject : Option Members) (r : Request) (proof : Option String) (n : ℕ)
      → Steps env n (on_subject env v subject r proof n)
  unfolding on_subject
  Steps-on_subject none r proof n =
      let anyone = Steps-on_name (some "alice") empty r proof n in
      search (Steps-if, Steps-refuse, anyone)
  Steps-on_subject (some subject) r proof n =
      Steps-on_name (name_in (lookup "sub" subject)) subject r proof n

  Steps-exchange :
      (r : Request) (proof : Option String) (n : ℕ) → Steps env n (handle_exchange env v r proof n)
  unfolding handle_exchange
  Steps-exchange r proof n =
      let exchanged = Steps-on_subject (env.verify (get_value "subject_token" r.form)) r proof n in
      search (Steps-if, Steps-refuse, exchanged)

  Steps-grant : (r : Request) (proof : Option String) (n : ℕ) → Steps env n (grant env v r proof n)
  unfolding grant
  Steps-grant r proof n =
      let unknown =
        Steps-mint env (token_document none) (member "sub" (str "unknown-grant") empty) n refl
          (λ t. refl) in
      search (
        Steps-if,
        Steps-refuse,
        Steps-exchange r proof n,
        Steps-client_credentials r proof n,
        Steps-refresh r proof n,
        unknown,
      )

  pub handle_dpop-no_token :
      (proof : String) (a : Answer) → handle_dpop env v proof ≡ err a → token_in (some a) ≡ none
  unfolding handle_dpop token_in
  handle_dpop-no_token proof a h = ground arith

  Steps-after_dpop :
      (checked : Result Answer String) (r : Request) (n : ℕ)
      → ((a : Answer) → checked ≡ err a → token_in (some a) ≡ none)
      → Steps env n (after_dpop env v checked r n)
  unfolding Steps
  Steps-after_dpop (err a) r n refused = inl (refl, refused a refl)
  Steps-after_dpop (ok jkt) r n refused = Steps-grant r (some jkt) n

  -- Each token request leaves the counter as it was and carries no token, or moves it by one; and the
  -- token that it then carries, if any, is signed with the new number.
  pub Steps-prove_and_grant : (r : Request) (n : ℕ) → Steps env n (prove_and_grant env v r n)
  unfolding prove_and_grant
  Steps-prove_and_grant r n =
      Steps-if env (is_empty r.dpop) n _ _ (Steps-grant r none n)
        (Steps-after_dpop (handle_dpop env v r.dpop) r n (handle_dpop-no_token r.dpop))
