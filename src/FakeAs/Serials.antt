-- ===== src/FakeAs/Serials.antt =====
-- The serial numbers of the tokens that the fake server's token endpoint issues.
pub mod Grants
pub mod Run
use aoa_conformance.Prelude.{
  String, ℕ, suc, ◌+◌, ◌≤◌, ◌<◌, ◌≡◌, refl, sym, ap, ◌∙◌, ◌⊎◌, inl, inr, Bool, true, false, Option,
  none, some, List, [], ◌∷◌, ◌++◌, ◌==◌, not, ◌&&◌, arith, eq_iff, if◌then◌else◌, is_empty,
}
use aoa_conformance.Prelude.Decimal.{itoa}
use aoa_conformance.Prelude.Json.{
  Json, Members, empty, member, str, obj, strings, lookup, lookup-set_member, set_member, is_nil,
}
use aoa_conformance.Prelude.Result.{Result, ok, err}
use aoa_conformance.Prelude.Text.{◌&◌}
use aoa_conformance.Http.{Headers}
use aoa_conformance.Http.Form.{get_value, values_of}
use aoa_conformance.FakeAs.{
  Violations, Environment, Request, Answer, Body, document, no_body, plain, Served, token_error,
}
use aoa_conformance.FakeAs.Discovery.{put_if}
use aoa_conformance.FakeAs.Tokens.{
  mint_token, mint_claims, answered, refuse, bind_cnf, audience, client_claims, token_document,
  handle_client_credentials, handle_refresh, handle_dpop, refreshed_scope,
}
use aoa_conformance.FakeAs.Exchanges.{
  exchange_document, exchange_claims, with_act, may_act, issue, delegate, on_subject,
  exchanged_scope, on_permission, on_actor, on_name, name_in, handle_exchange,
}
use aoa_conformance.FakeAs.Server.{grant, after_dpop, prove_and_grant}

abbrev pub text_at : Option Json → Option String
text_at (some (str s)) = some s
text_at _ = none

abbrev in_body : Body → Option String
in_body no_body = none
in_body (plain s) = none
in_body (document doc) = text_at (lookup "access_token" doc)

-- The access token of an answer.
unfoldable pub token_in : Option Answer → Option String
unfolding lookup
token_in none = none
token_in (some a) = in_body a.body

-- A token that was signed with this serial number as its jti.
pub record IsSerial (env : Environment) (token : String) (k : ℕ) : Type 0 where
  pub claims : Members
  pub signed : env.sign claims ≡ some token
  pub jti : lookup "jti" claims ≡ some (str ("tok-" & itoa k))

-- What a grant does to the counter: nothing, or one step, with the token of that number.
unfoldable pub Steps : Environment → ℕ → Served ℕ → Type 0
unfolding token_in
Steps env n (a, m) =
    ((m ≡ n) × (token_in a ≡ none))
    ⊎ ((m ≡ suc n)
        × ((token_in a ≡ none)
            ⊎ ((token : String) × (token_in a ≡ some token) × IsSerial env token m)))

-- What `set_member` does not touch.
pub lookup-put_if :
    (j k : String) (b : Bool) (x : Json) (m : Members)
    → (k == j) ≡ false
    → lookup j (put_if b k x m) ≡ lookup j m
lookup-put_if j k b x m h = ground (arith, lookup-set_member j k x m)

module _ (env : Environment) where
  mint_claims-jti :
      (claims : Members) (n : ℕ)
      → is_nil (lookup "jti" claims) ≡ true
      → ((mint_claims env claims n).1 ≡ suc n)
        × (lookup "jti" (mint_claims env claims n).0 ≡ some (str ("tok-" & itoa (suc n))))
  unfolding mint_claims
  mint_claims-jti claims n h = ground (
    arith,
    lookup-set_member "jti" "iss" (str env.url) claims,
    lookup-set_member "jti" "jti" (str ("tok-" & itoa (n + 1)))
        (set_member "iss" (str env.url) claims),
    lookup-set_member "jti" "jti" (str ("tok-" & itoa (n + 1))) claims,
  )

  Steps-signed :
      (doc : String → Members) (signed : Members) (n : ℕ) (o : Option String)
      → env.sign signed ≡ o
      → lookup "jti" signed ≡ some (str ("tok-" & itoa (suc n)))
      → ((t : String) → text_at (lookup "access_token" (doc t)) ≡ some t)
      → Steps env n (answered doc (o, suc n))
  unfolding Steps
  Steps-signed doc signed n none e jti named = inr (refl, inl refl)
  Steps-signed doc signed n (some t) e jti named =
      inr (refl, inr (t, named t, record { claims = signed; signed = e; jti = jti }))

  pub Steps-mint :
      (doc : String → Members) (claims : Members) (n : ℕ)
      → is_nil (lookup "jti" claims) ≡ true
      → ((t : String) → text_at (lookup "access_token" (doc t)) ≡ some t)
      → Steps env n (answered doc (mint_token env claims n))
  unfolding mint_token
  Steps-mint doc claims n h named =
      let (counted, jti) = mint_claims-jti claims n h in
      rw counted (
        Steps-signed doc (mint_claims env claims n).0 n (env.sign (mint_claims env claims n).0) refl
          jti named)

  pub Steps-if :
      (b : Bool) (n : ℕ) (x y : Served ℕ)
      → Steps env n x
      → Steps env n y
      → Steps env n (if b then x else y)
  Steps-if true n x y hx hy = hx
  Steps-if false n x y hx hy = hy

module _ (env : Environment) (v : Violations) where
  pub Steps-refuse :
      (headers : Headers) (code : ℕ) (errc desc : String) (n : ℕ)
      → Steps env n (some (token_error v headers code errc desc), n)
  unfolding Steps token_error
  Steps-refuse headers code errc desc n = inl (refl, ground arith)
