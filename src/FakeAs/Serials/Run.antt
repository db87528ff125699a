-- ===== src/FakeAs/Serials/Run.antt =====
-- The tokens that a run of requests brings from the fake server's token endpoint.
use aoa_conformance.Prelude.{
  String, ℕ, suc, ◌≤◌, ◌<◌, ◌≡◌, ◌≢◌, refl, sym, ap, ◌∙◌, ◌⊎◌, inl, inr, Option, none, some, List,
  [], ◌∷◌, arith,
}
use text.Mathlib.TextLemmas.{append_cancel_left}
use aoa_conformance.Prelude.Decimal.{itoa}
use aoa_conformance.Prelude.Decimal.Reading.{itoa_injective}
use aoa_conformance.Prelude.Json.{Json, Members, str, lookup}
use aoa_conformance.Prelude.Lists.{All, Distinct}
use aoa_conformance.FakeAs.{Violations, Environment, State, Request}
use aoa_conformance.FakeAs.Server.{
  Endpoint, metadata, keys, token, registration, client_config, authorize, pushed, introspection,
  revocation, missing, route, serve, dispatch, handle_token, handle_revoke, prove_and_grant,
}
use aoa_conformance.FakeAs.Clients.{handle_register, handle_client_config}
use aoa_conformance.FakeAs.Serials.{token_in, IsSerial, Steps}
use aoa_conformance.FakeAs.Serials.Grants.{Steps-prove_and_grant}

abbrev push_token : Option String → List String → List String
push_token none tokens = tokens
push_token (some t) tokens = t ∷ tokens

abbrev issued_at : Environment → Violations → Endpoint → Request → State → Option String
issued_at env v token r s = token_in (prove_and_grant env v r s.minted).0
issued_at env v _ r s = none

-- The tokens that the token endpoint issues, in the order of the requests.
unfoldable pub tokens_of : Environment → Violations → List Request → State → List String
tokens_of env v [] s = []
tokens_of env v (r ∷ rs) s =
    push_token (issued_at env v (route r.path) r s) (tokens_of env v rs (serve env v r s).1)

-- Signing fixes the jti: no text is the signature of two claim sets with different ones.
abbrev pub SignsJti : Environment → Type 0
SignsJti env =
    (a b : Members) (t : String)
    → env.sign a ≡ some t
    → env.sign b ≡ some t
    → lookup "jti" a ≡ lookup "jti" b

abbrev jti_text : Option Json → String
jti_text (some (str s)) = s
jti_text _ = ""

-- Tokens with numbers above a bound.
abbrev Above : Environment → ℕ → String → Type 0
Above env n t = (k : ℕ) × (n < k) × IsSerial env t k

-- What one request does: no token and a counter that is not smaller, or a token of the next number.
abbrev Advances : Environment → ℕ → Option String → ℕ → Type 0
Advances env n issued m =
    ((issued ≡ none) × (n ≤ m))
    ⊎ ((t : String) × (issued ≡ some t) × (m ≡ suc n) × IsSerial env t m)

stays : (env : Environment) {n m : ℕ} → m ≡ n → Advances env n none m
stays env h = inl (refl, omega arith)

module _ (env : Environment) (v : Violations) where
  grant-Advances :
      (r : Request) (n : ℕ)
      → Advances env n (token_in (prove_and_grant env v r n).0) (prove_and_grant env v r n).1
  unfolding Steps
  grant-Advances r n = elim (Steps-prove_and_grant env v r n) [
    | inl (same, without) ↦ inl (without, omega arith)
    | inr (next, inl without) ↦ inl (without, omega arith)
    | inr (next, inr (t, carried, serial)) ↦ inr (t, carried, next, serial)
  ]

  dispatch-Advances :
      (e : Endpoint) (r : Request) (s : State)
      → Advances env s.minted (issued_at env v e r s) (dispatch env v e r s).1.minted
  unfolding dispatch handle_token handle_register handle_client_config handle_revoke
  dispatch-Advances metadata r s = stays env refl
  dispatch-Advances keys r s = stays env refl
  dispatch-Advances token r s = grant-Advances r s.minted
  dispatch-Advances registration r s = stays env (ground arith)
  dispatch-Advances client_config r s = stays env (ground arith)
  dispatch-Advances authorize r s = stays env refl
  dispatch-Advances pushed r s = stays env refl
  dispatch-Advances introspection r s = stays env refl
  dispatch-Advances revocation r s = stays env (ground arith)
  dispatch-Advances missing r s = stays env refl

  Above-weaken : (m n : ℕ) (ts : List String) → m ≤ n → All (Above env n) ts → All (Above env m) ts
  Above-weaken m n [] h a = tt
  Above-weaken m n (t ∷ ts) h ((k, below, serial), a) =
      ((k, omega arith, serial), Above-weaken m n ts h a)

  tokens_of-Above :
      (rs : List Request) (s : State) → All (Above env s.minted) (tokens_of env v rs s)
  unfolding tokens_of serve
  tokens_of-Above [] s = tt
  tokens_of-Above (r ∷ rs) s =
      let later = tokens_of-Above rs (dispatch env v (route r.path) r s).1 in
      elim (dispatch-Advances (route r.path) r s) [
        | inl (silent, at_least) ↦ rw silent (Above-weaken s.minted _ _ at_least later)
        | inr (t, issued, next, serial) ↦
            rw issued ((_, omega arith, serial), Above-weaken s.minted _ _ (omega arith) later)
      ]

  IsSerial-distinct :
      (t u : String) (j k : ℕ) → SignsJti env → j < k → IsSerial env t j → IsSerial env u k → t ≢ u
  IsSerial-distinct t u j k signs below a b same =
      let jtis =
        sym a.jti ∙ signs a.claims b.claims t a.signed (b.signed ∙ ap some (sym same)) ∙ b.jti in
      let numbers : j ≡ k =
        itoa_injective (append_cancel_left "tok-" (itoa j) (itoa k) (ap jti_text jtis)) in
      omega arith

  Above-fresh :
      (t : String) (k : ℕ) (ts : List String)
      → SignsJti env
      → IsSerial env t k
      → All (Above env k) ts
      → All (λ (u : String). t ≢ u) ts
  Above-fresh t k [] signs serial a = tt
  Above-fresh t k (u ∷ ts) signs serial ((j, below, other), a) =
      (IsSerial-distinct t u k j signs below serial other, Above-fresh t k ts signs serial a)

  -- If signing fixes the jti, no two tokens that the token endpoint issues are the same text, whatever
  -- the requests, the violations and the state before them.
  pub tokens_of-Distinct :
      (rs : List Request) (s : State) → SignsJti env → Distinct (tokens_of env v rs s)
  unfolding tokens_of serve
  tokens_of-Distinct [] s signs = tt
  tokens_of-Distinct (r ∷ rs) s signs =
      let later = tokens_of-Distinct rs (dispatch env v (route r.path) r s).1 signs in
      let above = tokens_of-Above rs (dispatch env v (route r.path) r s).1 in
      elim (dispatch-Advances (route r.path) r s) [
        | inl (silent, at_least) ↦ rw silent later
        | inr (t, issued, next, serial) ↦ rw issued (Above-fresh t _ _ signs serial above, later)
      ]
