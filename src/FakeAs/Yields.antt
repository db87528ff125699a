-- ===== src/FakeAs/Yields.antt =====
-- internal/fakeas/as.go: what holds of every token that a grant issues.
use aoa_conformance.Prelude.{
  String, ℕ, Bool, ◌≡◌, refl, sym, ◌∙◌, true, false, Option, none, some, [], ◌==◌, arith,
  if◌then◌else◌,
}
use aoa_conformance.Prelude.Json.{Members, lookup, lookup-set_member}
use aoa_conformance.FakeAs.{Violations, Environment, Served, token_error}
use aoa_conformance.FakeAs.Tokens.{mint_claims, answered}
use aoa_conformance.FakeAs.Serials.{token_in, text_at}

-- Every token of an outcome has a property.
unfoldable pub Yields : (String → Type 0) → Served ℕ → Type 0
Yields P o = (t : String) → token_in o.0 ≡ some t → P t

module _ (P : String → Type 0) where
  pub Yields-if :
      (b : Bool) (x y : Served ℕ)
      → (b ≡ true → Yields P x)
      → (b ≡ false → Yields P y)
      → Yields P (if b then x else y)
  Yields-if true x y hx hy = hx refl
  Yields-if false x y hx hy = hy refl

  pub Yields-refuse :
      (v : Violations) (code : ℕ) (errc desc : String) (n : ℕ)
      → Yields P (some (token_error v [] code errc desc), n)
  unfolding Yields token_error token_in
  Yields-refuse v code errc desc n t h = ground arith

  pub Yields-answered :
      (doc : String → Members) (o : Option String) (n : ℕ)
      → ((t : String) → text_at (lookup "access_token" (doc t)) ≡ some t)
      → ((t : String) → o ≡ some t → P t)
      → Yields P (answered doc (o, n))
  unfolding Yields token_in
  Yields-answered doc none n named holds t h = cc
  Yields-answered doc (some u) n named holds t h = holds t (sym (named u) ∙ h)

-- A claim that minting does not set.
pub mint_claims-lookup :
    (env : Environment) (j : String) (claims : Members) (n : ℕ)
    → ("iss" == j) ≡ false
    → ("jti" == j) ≡ false
    → lookup j (mint_claims env claims n).0 ≡ lookup j claims
unfolding mint_claims
mint_claims-lookup env j claims n h k = grind (arith, lookup-set_member)
