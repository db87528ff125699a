-- ===== src/FakeAs/Delegation.antt =====
-- What a token exchange of the fake server issues: who the token is for, and who acts for whom.
pub mod Tokens
pub mod Grants
use aoa_conformance.Prelude.{
  String, ℕ, Bool, ◌≡◌, ◌≢◌, refl, sym, ap, ◌∙◌, ◌⊎◌, inl, inr, true, false, Option, none, some,
  List, [], ◌∷◌, not, ◌&&◌, ◌==◌, is_empty, arith, Bool-cases, Option-cases, if◌then◌else◌,
}
use aoa_conformance.Prelude.Json.{
  Json, Members, empty, member, str, obj, null, bool, num, arr, lookup, set_member, or_null,
  lookup-set_member,
}
use aoa_conformance.Http.{Headers}
use aoa_conformance.Http.Form.{get_value}
use aoa_conformance.FakeAs.{Violations, Environment, Request, Served, token_error}
use aoa_conformance.FakeAs.Discovery.{put_if}
use aoa_conformance.FakeAs.Tokens.{mint_token, mint_claims, answered, refuse, bind_cnf}
use aoa_conformance.FakeAs.Exchanges.{
  exchange_document, exchange_claims, exchanged_scope, with_act, may_act, permitted_by, nested,
  name_in, issue, on_permission, on_actor, on_name, delegate, on_subject, handle_exchange,
}
use aoa_conformance.FakeAs.Yields.{mint_claims-lookup}
use aoa_conformance.FakeAs.Serials.{token_in, text_at, lookup-put_if}
use aoa_conformance.FakeAs.Serials.Grants.{lookup-bind_cnf, exchange_document-token}

-- The names of the act claim, from the current actor to the earliest.
unfoldable mutual
  pub actors_in : Json → List Json
  actors_in null = []
  actors_in (bool b) = []
  actors_in (num n) = []
  actors_in (str s) = []
  actors_in (arr es) = []
  actors_in (obj act) = or_null (lookup "sub" act) ∷ actors act

  pub actors : Members → List Json
  actors empty = []
  actors (member k j rest) = if k == "act" then actors_in j else actors rest

abbrev actors_at : Option Json → List Json
actors_at none = []
actors_at (some j) = actors_in j

actors-lookup : (m : Members) → actors m ≡ actors_at (lookup "act" m)
unfolding actors lookup
actors-lookup empty = refl
actors-lookup (member k j rest) = ground (arith, actors-lookup rest)

-- The token of an exchange request: its claims, its subject, and its actors.
pub record IsExchanged (env : Environment) (r : Request) (token : String) : Type 0 where
  pub claims : Members
  pub signed : env.sign claims ≡ some token
  pub subject : Members
  pub verified : env.verify (get_value "subject_token" r.form) ≡ some subject
  pub name : String
  pub named : name_in (lookup "sub" subject) ≡ some name
  pub sub : lookup "sub" claims ≡ some (str name)
  pub acting :
      ((get_value "actor_token" r.form ≡ "") × (actors claims ≡ []))
      ⊎ ((actor : Members) × (env.verify (get_value "actor_token" r.form) ≡ some actor)
          × (permitted_by (lookup "may_act" subject) actor ≡ some true)
          × (actors claims ≡ or_null (lookup "sub" actor) ∷ actors subject))

-- The names of a nested act.
actors-nested :
    (existing : Option Json) (x : Json)
    → actors_in (obj (nested existing (member "sub" x empty))) ≡ x ∷ actors_at existing
unfolding actors lookup set_member
actors-nested none x = refl
actors-nested (some null) x = refl
actors-nested (some (bool b)) x = refl
actors-nested (some (num k)) x = refl
actors-nested (some (str t)) x = refl
actors-nested (some (arr es)) x = refl
actors-nested (some (obj act)) x = refl

module _ (env : Environment) (v : Violations) where
  exchange_claims-lookup :
      (j : String) (r : Request) (proof : Option String) (out : Members)
      → ("cnf" == j) ≡ false
      → ("aud" == j) ≡ false
      → lookup j (exchange_claims env v r proof out) ≡ lookup j out
  unfolding exchange_claims
  exchange_claims-lookup j r proof out h k =
      let resource : String = get_value "resource" r.form in
      let reflects : Bool = not (is_empty resource) && not v.ignore_resource_param in
      lookup-bind_cnf v j proof (put_if reflects "aud" (str resource) out) h
      ∙ lookup-put_if j "aud" reflects (str resource) out k

  pub with_act-lookup :
      (j : String) (subject actor out : Members)
      → ("act" == j) ≡ false
      → lookup j (with_act env v subject actor out) ≡ lookup j out
  unfolding with_act
  with_act-lookup j subject actor out h = grind (arith, lookup-set_member)

  pub with_act-actors :
      (subject actor : Members) (x : Json)
      → v.omit_act ≡ false
      → v.forge_act_chain ≡ false
      → actors (with_act env v subject actor (member "sub" x empty))
        ≡ or_null (lookup "sub" actor) ∷ actors subject
  unfolding with_act actors
  with_act-actors subject actor x kept honest =
      rw (kept, honest)
        (actors-nested (lookup "act" subject) (or_null (lookup "sub" actor))
          ∙ ap (◌∷◌ (or_null (lookup "sub" actor))) (sym (actors-lookup subject)))

  pub exchanged_sub :
      (r : Request) (proof : Option String) (out : Members) (n : ℕ) (name : String)
      → lookup "sub" out ≡ some (str name)
      → lookup "sub" (mint_claims env (exchange_claims env v r proof out) n).0 ≡ some (str name)
  exchanged_sub r proof out n name h =
      mint_claims-lookup env "sub" (exchange_claims env v r proof out) n refl refl
      ∙ exchange_claims-lookup "sub" r proof out refl refl
      ∙ h

  pub exchanged_actors :
      (r : Request) (proof : Option String) (out : Members) (n : ℕ)
      → actors (mint_claims env (exchange_claims env v r proof out) n).0 ≡ actors out
  exchanged_actors r proof out n =
      actors-lookup (mint_claims env (exchange_claims env v r proof out) n).0
      ∙ ap actors_at (
          mint_claims-lookup env "act" (exchange_claims env v r proof out) n refl refl
          ∙ exchange_claims-lookup "act" r proof out refl refl)
      ∙ sym (actors-lookup out)
