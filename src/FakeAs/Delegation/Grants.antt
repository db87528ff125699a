-- ===== src/FakeAs/Delegation/Grants.antt =====
-- internal/fakeas/as.go: an exchange that is in order is answered with a token.
use aoa_conformance.Prelude.{
  String, ℕ, ◌≡◌, refl, ap, ◌⊎◌, inl, inr, true, false, Option, none, some, [], is_empty, arith,
  Bool-cases, eq_iff, if◌then◌else◌,
}
use aoa_conformance.Prelude.Json.{Members, empty, member, str, lookup, set_member}
use aoa_conformance.Http.Form.{get_value}
use aoa_conformance.FakeAs.{Violations, Environment, Request, Answer, document, write_json}
use aoa_conformance.FakeAs.Tokens.{mint_token, mint_claims}
use aoa_conformance.FakeAs.Exchanges.{
  exchange_document, exchange_claims, exchanged_scope, with_act, may_act, permitted_by, name_in,
  issue, delegate, on_subject, handle_exchange,
}

as_requested : (scope : String) → (if is_empty scope then "" else scope) ≡ scope
as_requested scope = ground (arith, eq_iff scope "")

module _ (env : Environment) (v : Violations) (r : Request) (proof : Option String) (n : ℕ) where
  -- The document that is answered with a signed token.
  abbrev IsSigned : Option Answer → Type 0
  IsSigned answered =
      (t : String) × (claims : Members) × (env.sign claims ≡ some t)
      × (answered ≡ some (write_json [] 200 (exchange_document proof (get_value "scope" r.form) t)))

  issue-IsSigned :
      (out : Members)
      → v.widen_scope ≡ false
      → ((claims : Members) → (t : String) × (env.sign claims ≡ some t))
      → IsSigned (issue env v r proof out n).0
  unfolding issue mint_token exchanged_scope
  issue-IsSigned out exact signs =
      let claims : Members = (mint_claims env (exchange_claims env v r proof out) n).0 in
      let (t, signed) = signs claims in
      (
        t,
        claims,
        signed,
        rw (signed, exact)
            (ap (λ (scope : String). some (write_json [] 200 (exchange_document proof scope t)))
              (as_requested (get_value "scope" r.form))),
      )

  delegate-IsSigned :
      (subject : Members) (name : String)
      → v.widen_scope ≡ false
      → ((claims : Members) → (t : String) × (env.sign claims ≡ some t))
      → (get_value "actor_token" r.form ≡ "")
        ⊎ ((actor : Members) × (env.verify (get_value "actor_token" r.form) ≡ some actor)
            × (permitted_by (lookup "may_act" subject) actor ≡ some true))
      → IsSigned (delegate env v subject r proof (member "sub" (str name) empty) n).0
  unfolding delegate may_act
  delegate-IsSigned subject name exact signs (inl absent) =
      rw absent (issue-IsSigned (member "sub" (str name) empty) exact signs)
  delegate-IsSigned subject name exact signs (inr (actor, found, permitted)) =
      elim (Bool-cases (is_empty (get_value "actor_token" r.form))) [
        | inl e ↦ rw e (issue-IsSigned (member "sub" (str name) empty) exact signs)
        | inr e ↦
            let allowed : may_act env v subject actor ≡ some true = ground arith in
            rw (e, found, allowed)
              (issue-IsSigned (with_act env v subject actor (member "sub" (str name) empty)) exact
                signs)
      ]

  -- An answer 200 with a token that the server signed, and with the scope of the request and no
  -- other one.
  pub record IsGranted (answered : Option Answer) : Type 0 where
    pub answer : Answer
    pub given : answered ≡ some answer
    pub code : answer.code ≡ 200
    pub doc : Members
    pub body : answer.body ≡ document doc
    pub token : String
    pub claims : Members
    pub signed : env.sign claims ≡ some token
    pub access_token : lookup "access_token" doc ≡ some (str token)
    pub issued_token_type :
        lookup "issued_token_type" doc ≡ some (str "urn:ietf:params:oauth:token-type:access_token")
    pub scope :
        ((get_value "scope" r.form ≡ "") × (lookup "scope" doc ≡ none))
        ⊎ (lookup "scope" doc ≡ some (str (get_value "scope" r.form)))

  IsGranted-document : (answered : Option Answer) → IsSigned answered → IsGranted answered
  unfolding exchange_document lookup set_member
  IsGranted-document answered (t, claims, signed, given) = record {
    answer = write_json [] 200 (exchange_document proof (get_value "scope" r.form) t);
    given = given;
    code = refl;
    doc = exchange_document proof (get_value "scope" r.form) t;
    body = refl;
    token = t;
    claims = claims;
    signed = signed;
    access_token = ground arith;
    issued_token_type = ground arith;
    scope = elim (Bool-cases (is_empty (get_value "scope" r.form))) [
      | inl none_asked ↦ inl ((eq_iff (get_value "scope" r.form) "").0 none_asked, ground arith)
      | inr asked ↦ inr (ground arith)
    ];
  }

  -- Where the server has the grant, refuses neither impersonation nor delegation, does not widen
  -- scopes, and signs, an exchange is answered with 200, a token that the server signed, and the scope
  -- as requested or none, if the subject token verifies and names its subject, and there is no actor
  -- token or one that verifies and that the subject's may_act permits.
  pub handle_exchange-grants :
      (subject : Members) (name : String)
      → v.no_token_exchange ≡ false
      → v.fail_impersonation ≡ false
      → v.reject_delegation ≡ false
      → v.widen_scope ≡ false
      → ((claims : Members) → (t : String) × (env.sign claims ≡ some t))
      → env.verify (get_value "subject_token" r.form) ≡ some subject
      → name_in (lookup "sub" subject) ≡ some name
      → (get_value "actor_token" r.form ≡ "")
        ⊎ ((actor : Members) × (env.verify (get_value "actor_token" r.form) ≡ some actor)
            × (permitted_by (lookup "may_act" subject) actor ≡ some true))
      → IsGranted (handle_exchange env v r proof n).0
  unfolding handle_exchange on_subject
  handle_exchange-grants subject name served alone joint exact signs verified named acting =
      let granted : IsSigned (handle_exchange env v r proof n).0 =
        rw (served, alone, joint, verified, named)
          (delegate-IsSigned subject name exact signs acting) in
      IsGranted-document (handle_exchange env v r proof n).0 granted
