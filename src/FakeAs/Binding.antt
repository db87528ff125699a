-- ===== src/FakeAs/Binding.antt =====
-- internal/fakeas/as.go: a token that is issued with a DPoP proof is bound to the key of the proof.
use aoa_conformance.Prelude.{
  String, ℕ, Bool, ◌≡◌, refl, sym, ap, ◌∙◌, true, false, none, some, not, ◌&&◌, is_empty, arith,
  eq_iff, if◌then◌else◌,
}
use mathlib.Core.Bool.{false≢true}
use mathlib.Core.Path.{subst}
use aoa_conformance.Prelude.Json.{Members, empty, member, str, obj, lookup, lookup-set_member}
use aoa_conformance.Http.Form.{get_value, values_of}
use aoa_conformance.FakeAs.{Violations, Environment, Request, Answer}
use aoa_conformance.FakeAs.Discovery.{put_if}
use aoa_conformance.FakeAs.Tokens.{mint_token, mint_claims, answered, bind_cnf}
use aoa_conformance.FakeAs.Exchanges.{exchange_document, exchange_claims, exchanged_scope, issue}
use aoa_conformance.FakeAs.Serials.{token_in, text_at}
use aoa_conformance.FakeAs.Serials.Grants.{
  handle_dpop-no_token, exchange_document-token, refresh_document-token,
}
use aoa_conformance.FakeAs.Delegation.Tokens.{Yields-exchange}
use aoa_conformance.FakeAs.Yields.{
  Yields, Yields-if, Yields-refuse, Yields-answered, mint_claims-lookup,
}
use aoa_conformance.FakeAs.Proofs.{ParsedProof, parse_dpop_proof}
use aoa_conformance.FakeAs.Server.{grant, after_dpop, prove_and_grant}
use aoa_conformance.FakeAs.Tokens.{
  handle_client_credentials, handle_refresh, handle_dpop, on_proof, client_claims, token_document,
  refreshed_scope, audience,
}
use aoa_conformance.Prelude.Result.{Result, ok, err}
use aoa_conformance.Prelude.Text.{◌&◌}

-- A token whose cnf names a key.
pub record IsBound (env : Environment) (jkt token : String) : Type 0 where
  pub claims : Members
  pub signed : env.sign claims ≡ some token
  pub cnf : lookup "cnf" claims ≡ some (obj (member "jkt" (str jkt) empty))

module _ (env : Environment) (v : Violations) (jkt : String)
    (binds : v.no_cnf_binding ≡ false) where
  bind_cnf-cnf :
      (claims : Members) (n : ℕ)
      → lookup "cnf" (mint_claims env (bind_cnf v (some jkt) claims) n).0
        ≡ some (obj (member "jkt" (str jkt) empty))
  unfolding bind_cnf
  bind_cnf-cnf claims n =
      mint_claims-lookup env "cnf" (bind_cnf v (some jkt) claims) n refl refl
      ∙ rw binds (lookup-set_member "cnf" "cnf" (obj (member "jkt" (str jkt) empty)) claims)

  Yields-IsBound :
      (doc : String → Members) (claims : Members) (n : ℕ)
      → ((t : String) → text_at (lookup "access_token" (doc t)) ≡ some t)
      → Yields (IsBound env jkt) (answered doc (mint_token env (bind_cnf v (some jkt) claims) n))
  unfolding mint_token
  Yields-IsBound doc claims n named = Yields-answered (IsBound env jkt) doc _ _ named λ t signed.
      record {
        claims = (mint_claims env (bind_cnf v (some jkt) claims) n).0;
        signed = signed;
        cnf = bind_cnf-cnf claims n;
      }

  module _ (r : Request) (n : ℕ) where
    Yields-client_credentials :
        Yields (IsBound env jkt) (handle_client_credentials env v r (some jkt) n)
    unfolding handle_client_credentials client_claims
    Yields-client_credentials =
        let claims : Members = member "sub" (str (get_value "client_id" r.form)) empty in
        let minted =
          Yields-IsBound (token_document (some jkt))
            (if v.ignore_resource_param
              then claims
              else audience (values_of "resource" r.form) claims)
            n (λ t. refl) in
        search (Yields-if, Yields-refuse, minted)

    Yields-refresh : Yields (IsBound env jkt) (handle_refresh env v r (some jkt) n)
    unfolding handle_refresh
    Yields-refresh =
        let scope : String = refreshed_scope env v (get_value "scope" r.form) in
        Yields-IsBound
          (λ (t : String).
            put_if (not (is_empty scope)) "scope" (str scope) (token_document (some jkt) t))
          (member "sub" (str "refresh-sub") empty) n (refresh_document-token (some jkt) scope)

    Yields-issue : (out : Members) → Yields (IsBound env jkt) (issue env v r (some jkt) out n)
    unfolding issue exchange_claims
    Yields-issue out =
        let scope : String = exchanged_scope env v (get_value "scope" r.form) in
        let resource : String = get_value "resource" r.form in
        Yields-IsBound (exchange_document (some jkt) scope)
          (put_if (not (is_empty resource) && not v.ignore_resource_param) "aud" (str resource) out)
          n (exchange_document-token (some jkt) scope)

    Yields-grant :
        v.accept_unknown_grant ≡ false → Yields (IsBound env jkt) (grant env v r (some jkt) n)
    unfolding grant
    Yields-grant known =
        let unknown : v.accept_unknown_grant ≡ true
            → Yields (IsBound env jkt) (
                answered (token_document none)
                  (mint_token env (member "sub" (str "unknown-grant") empty) n)) =
          λ e. absurd (false≢true (sym known ∙ e)) in
        let exchanged = Yields-exchange env v r (some jkt) n (IsBound env jkt) Yields-issue in
        search
          (Yields-if, Yields-refuse, Yields-client_credentials, Yields-refresh, exchanged, unknown)

-- A proof that the server accepts: it is signed, carries a nonce, and is made for the token endpoint.
abbrev pub IsAccepted : Environment → String → ParsedProof → Type 0
IsAccepted env raw p =
    (parse_dpop_proof env.proofs raw ≡ ok p)
    × (is_empty p.nonce ≡ false)
    × (p.htu ≡ env.url & "/token")

module _ (env : Environment) (v : Violations) where
  on_proof-IsAccepted :
      (raw jkt : String) (parsed : Result String ParsedProof)
      → v.skip_dpop_nonce ≡ false
      → v.accept_wrong_htu ≡ false
      → parse_dpop_proof env.proofs raw ≡ parsed
      → on_proof env v parsed ≡ ok jkt
      → (p : ParsedProof) × IsAccepted env raw p × (p.jkt ≡ jkt)
  on_proof-IsAccepted raw jkt (err e) challenges checks read h = cc
  on_proof-IsAccepted raw jkt (ok p) challenges checks read h =
      (p, (read, ground arith, ground (arith, eq_iff p.htu (env.url & "/token"))), ground arith)

  after_dpop-IsBound :
      (r : Request) (n : ℕ) (t : String) (checked : Result Answer String)
      → v.skip_dpop_nonce ≡ false
      → v.accept_wrong_htu ≡ false
      → v.no_cnf_binding ≡ false
      → v.accept_unknown_grant ≡ false
      → handle_dpop env v r.dpop ≡ checked
      → token_in (after_dpop env v checked r n).0 ≡ some t
      → (p : ParsedProof) × IsAccepted env r.dpop p × IsBound env p.jkt t
  unfolding handle_dpop Yields
  after_dpop-IsBound r n t (err a) challenges checks binds known e carried =
      let silent = handle_dpop-no_token env v r.dpop a e in cc
  after_dpop-IsBound r n t (ok jkt) challenges checks binds known e carried =
      let (p, accepted, same) =
        on_proof-IsAccepted r.dpop jkt (parse_dpop_proof env.proofs r.dpop) challenges checks refl
          e in
      (
        p,
        accepted,
        subst (λ (k : String). IsBound env k t) (sym same)
            (Yields-grant env v jkt binds r n known t carried),
      )

  -- On a server without the violations of nonces, of the proof's target, of binding and of unknown
  -- grants, a token request with a DPoP proof is answered with a token only if the proof is
  -- well-formed and signed, carries a nonce and is made for the token endpoint; and the token is
  -- signed with the thumbprint of the proof's key in its cnf.
  pub prove_and_grant-IsBound :
      (r : Request) (n : ℕ) (t : String)
      → v.skip_dpop_nonce ≡ false
      → v.accept_wrong_htu ≡ false
      → v.no_cnf_binding ≡ false
      → v.accept_unknown_grant ≡ false
      → is_empty r.dpop ≡ false
      → token_in (prove_and_grant env v r n).0 ≡ some t
      → (p : ParsedProof) × IsAccepted env r.dpop p × IsBound env p.jkt t
  unfolding prove_and_grant
  prove_and_grant-IsBound r n t challenges checks binds known proven carried =
      after_dpop-IsBound r n t (handle_dpop env v r.dpop) challenges checks binds known refl (
        ap
          (λ (b : Bool).
            token_in
              (if b
                then grant env v r none n
                else after_dpop env v (handle_dpop env v r.dpop) r n).0)
          (sym proven)
        ∙ carried)
