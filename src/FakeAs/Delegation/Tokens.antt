-- ===== src/FakeAs/Delegation/Tokens.antt =====
-- internal/fakeas/as.go: which exchange requests the fake server answers with a token, and with which.
use aoa_conformance.Prelude.{
  String, ℕ, Bool, ◌≡◌, refl, sym, ap, ◌∙◌, inl, inr, true, false, Option, none, some, is_empty,
  eq_iff, if◌then◌else◌,
}
use mathlib.Core.Bool.{false≢true}
use aoa_conformance.Prelude.Json.{Json, Members, empty, member, str, lookup}
use aoa_conformance.Http.Form.{get_value}
use aoa_conformance.FakeAs.{Violations, Environment, Request}
use aoa_conformance.FakeAs.Tokens.{mint_token, mint_claims}
use aoa_conformance.FakeAs.Exchanges.{
  exchange_document, exchange_claims, exchanged_scope, with_act, may_act, permitted_by, name_in,
  issue, on_permission, on_actor, on_name, delegate, on_subject, handle_exchange,
}
use aoa_conformance.FakeAs.Serials.{token_in}
use aoa_conformance.FakeAs.Serials.Grants.{exchange_document-token}
use aoa_conformance.FakeAs.Yields.{Yields, Yields-if, Yields-refuse, Yields-answered}
use aoa_conformance.FakeAs.Delegation.{
  IsExchanged, actors, exchanged_sub, exchanged_actors, with_act-actors, with_act-lookup,
}

only_sub : (x : Json) → lookup "sub" (member "sub" x empty) ≡ some x
unfolding lookup
only_sub x = refl

module _ (env : Environment) (v : Violations) where
  module _ (r : Request) (proof : Option String) (n : ℕ) where
    Yields-issue :
        (P : String → Type 0) (out : Members)
        → ((t : String)
            → env.sign (mint_claims env (exchange_claims env v r proof out) n).0 ≡ some t
            → P t)
        → Yields P (issue env v r proof out n)
    unfolding issue mint_token
    Yields-issue P out holds =
        let scope : String = exchanged_scope env v (get_value "scope" r.form) in
        Yields-answered P (exchange_document proof scope)
          (env.sign (mint_claims env (exchange_claims env v r proof out) n).0) _
          (exchange_document-token proof scope) holds

    Yields-on_permission :
        (P : String → Type 0) (allowed : Option Bool) (out : Members)
        → (allowed ≡ some true → Yields P (issue env v r proof out n))
        → Yields P (on_permission env v allowed r proof out n)
    unfolding Yields token_in
    Yields-on_permission P none out h t e = cc
    Yields-on_permission P (some false) out h t e =
        Yields-refuse P v 400 "invalid_grant" "actor not permitted by may_act" n t e
    Yields-on_permission P (some true) out h t e = h refl t e

    Yields-on_actor :
        (P : String → Type 0) (found : Option Members) (subject out : Members)
        → ((actor : Members)
            → found ≡ some actor
            → may_act env v subject actor ≡ some true
            → Yields P (issue env v r proof (with_act env v subject actor out) n))
        → Yields P (on_actor env v found subject r proof out n)
    Yields-on_actor P none subject out h = Yields-refuse P v 400 "invalid_grant" "bad actor_token" n
    Yields-on_actor P (some actor) subject out h =
        Yields-on_permission P (may_act env v subject actor) (with_act env v subject actor out)
          (h actor refl)

    Yields-on_name :
        (P : String → Type 0) (found : Option String) (subject : Members)
        → ((name : String)
            → found ≡ some name
            → Yields P (delegate env v subject r proof (member "sub" (str name) empty) n))
        → Yields P (on_name env v found subject r proof n)
    unfolding Yields token_in
    Yields-on_name P none subject h t e = cc
    Yields-on_name P (some name) subject h t e = h name refl t e

    Yields-on_subject :
        (P : String → Type 0) (found : Option Members)
        → (v.accept_bad_subject ≡ true → Yields P (on_name env v (some "alice") empty r proof n))
        → ((subject : Members)
            → found ≡ some subject
            → Yields P (on_name env v (name_in (lookup "sub" subject)) subject r proof n))
        → Yields P (on_subject env v found r proof n)
    unfolding on_subject
    Yields-on_subject P none anyone h =
        Yields-if P v.accept_bad_subject _ _ anyone
          (λ _. Yields-refuse P v 400 "invalid_grant" "bad subject_token" n)
    Yields-on_subject P (some subject) anyone h = h subject refl

    Yields-any_delegate :
        (P : String → Type 0)
        → ((out : Members) → Yields P (issue env v r proof out n))
        → (subject out : Members) → Yields P (delegate env v subject r proof out n)
    unfolding delegate
    Yields-any_delegate P holds subject out =
        Yields-if P (is_empty (get_value "actor_token" r.form)) _ _ (λ _. holds out)
          (λ _.
            Yields-on_actor P (env.verify (get_value "actor_token" r.form)) subject out
              λ actor _ _. holds (with_act env v subject actor out))

    -- A property of whatever the last step issues is one of every token of an exchange.
    pub Yields-exchange :
        (P : String → Type 0)
        → ((out : Members) → Yields P (issue env v r proof out n))
        → Yields P (handle_exchange env v r proof n)
    unfolding handle_exchange
    Yields-exchange P holds =
        let anyone = Yields-any_delegate P holds in
        let exchanged =
          Yields-on_subject P (env.verify (get_value "subject_token" r.form))
            (λ _.
              Yields-on_name P (some "alice") empty
                λ name _. anyone empty (member "sub" (str name) empty))
            λ subject _.
              Yields-on_name P (name_in (lookup "sub" subject)) subject
                λ name _. anyone subject (member "sub" (str name) empty) in
        search (Yields-if, Yields-refuse, exchanged)

    Yields-delegate :
        (subject : Members) (name : String)
        → v.omit_act ≡ false
        → v.forge_act_chain ≡ false
        → v.ignore_may_act ≡ false
        → env.verify (get_value "subject_token" r.form) ≡ some subject
        → name_in (lookup "sub" subject) ≡ some name
        → Yields
            (IsExchanged env r)
            (delegate env v subject r proof (member "sub" (str name) empty) n)
    unfolding delegate may_act actors
    Yields-delegate subject name kept honest strict verified named =
        let out : Members = member "sub" (str name) empty in
        let actor_tok : String = get_value "actor_token" r.form in
        Yields-if (IsExchanged env r) (is_empty actor_tok) _ _
          (λ e. Yields-issue (IsExchanged env r) out λ t signed. record {
            claims = (mint_claims env (exchange_claims env v r proof out) n).0;
            signed = signed;
            subject = subject;
            verified = verified;
            name = name;
            named = named;
            sub = exchanged_sub env v r proof out n name (only_sub (str name));
            acting = inl ((eq_iff actor_tok "").0 e, exchanged_actors env v r proof out n);
          })
          λ e.
            Yields-on_actor (IsExchanged env r) (env.verify actor_tok) subject out
              λ actor found allowed.
                let acted : Members = with_act env v subject actor out in
                Yields-issue (IsExchanged env r) acted λ t signed. record {
                  claims = (mint_claims env (exchange_claims env v r proof acted) n).0;
                  signed = signed;
                  subject = subject;
                  verified = verified;
                  name = name;
                  named = named;
                  sub =
                      exchanged_sub env v r proof acted n name
                        (with_act-lookup env v "sub" subject actor out refl ∙ only_sub (str name));
                  acting = inr (
                    actor,
                    found,
                    ap
                          (λ (b : Bool).
                            if b then some true else permitted_by (lookup "may_act" subject) actor)
                          (sym strict)
                        ∙ allowed,
                    exchanged_actors env v r proof acted n
                        ∙ with_act-actors env v subject actor (str name) kept honest,
                  );
                }

    -- On a server without the violations of delegation and of the subject's verification, a token
    -- comes from an exchange only where the subject token verifies and names its subject by a text or
    -- not at all; the token is signed for that subject. Without an actor token it has no actors; with
    -- one, the actor token verifies too, the subject's may_act permits the actor, and the actors of
    -- the token are this actor, then those of the subject token.
    pub handle_exchange-IsExchanged :
        (t : String)
        → v.accept_bad_subject ≡ false
        → v.ignore_may_act ≡ false
        → v.omit_act ≡ false
        → v.forge_act_chain ≡ false
        → token_in (handle_exchange env v r proof n).0 ≡ some t
        → IsExchanged env r t
    unfolding handle_exchange Yields
    handle_exchange-IsExchanged t strict enforced kept honest carried =
        let exchanged =
          Yields-on_subject (IsExchanged env r) (env.verify (get_value "subject_token" r.form))
            (λ accepted. absurd (false≢true (sym strict ∙ accepted)))
            λ subject verified.
              Yields-on_name (IsExchanged env r) (name_in (lookup "sub" subject)) subject
                λ name named. Yields-delegate subject name kept honest enforced verified named in
        let yields : Yields (IsExchanged env r) (handle_exchange env v r proof n) =
          search (Yields-if, Yields-refuse, exchanged) in
        yields t carried
