-- ===== src/FakeRs/Admission.antt =====
-- internal/fakeas/rs.go: whom the fake resource server serves.
use aoa_conformance.Prelude.{
  String, ◌≡◌, ap, ◌∙◌, is_empty, Option-cases, ◌↔◌, ◌⊎◌, inl, inr, refl, true, false, Option, none,
  some, arith, eq_iff, Bool-cases,
}
use aoa_conformance.Prelude.Json.{lookup}
use aoa_conformance.Prelude.Text.{◌&◌}
use aoa_conformance.Prelude.Scan.{after_prefix}
use aoa_conformance.Prelude.Scan.Laws.{after_prefix-append, append-after_prefix}
use aoa_conformance.FakeRs.{
  is_listed, Rs, TokenLibrary, Presented, extract_token, serves, lacks_proof, on_token, handle_mcp,
  text_or_empty,
}
use aoa_conformance.FakeRs.Presenting.{
  IsPresented, extract_token-IsPresented, IsPresented-extract_token,
}

-- The server is set up to serve a verified token.
abbrev IsConfigured : Rs → Type 0
IsConfigured rs =
    (is_empty rs.require_bearer_method ≡ false)
    ⊎ (is_listed rs.bearer_methods ≡ true)
    ⊎ (rs.require_dpop ≡ true)

-- A request that the resource server serves: it presents a token, the token is signed by the trusted
-- server and names it, and it comes with a proof and under the scheme DPoP where that is required.
pub record IsAdmitted (rs : Rs) (library : TokenLibrary) (r : Presented) : Type 0 where
  pub token : String
  pub nonempty : is_empty token ≡ false
  pub presented : IsPresented rs r token
  pub trusted :
      (rs.violations.accept_any_token ≡ true)
      ⊎ (IsConfigured rs
          × (library.is_signed_by token (rs.as_url & "/jwks") ≡ true)
          × (text_or_empty (lookup "iss" (library.payload token)) ≡ rs.as_url))
  pub bound :
      (rs.require_dpop ≡ false)
      ⊎ ((is_empty r.dpop ≡ false) × (rest : String) × (r.authorization ≡ "DPoP " & rest))
  pub in_scope : rs.insufficient_scope ≡ false

module _ (rs : Rs) (r : Presented) where
  lacks_proof-bound :
      (library : TokenLibrary)
      → lacks_proof rs library r ≡ false
      → (rs.require_dpop ≡ false)
        ⊎ ((is_empty r.dpop ≡ false) × (rest : String) × (r.authorization ≡ "DPoP " & rest))
  lacks_proof-bound library h = elim (Bool-cases rs.require_dpop) [
    | inr off ↦ inl off
    | inl on ↦ elim (Option-cases (after_prefix "DPoP " r.authorization)) [
      | inl other ↦ absurd (ground arith)
      | inr (rest, scheme) ↦
          inr (ground arith, rest, append-after_prefix "DPoP " r.authorization rest scheme)
    ]
  ]

  bound-lacks_proof :
      (library : TokenLibrary)
      → (rs.require_dpop ≡ false)
        ⊎ ((is_empty r.dpop ≡ false) × (rest : String) × (r.authorization ≡ "DPoP " & rest))
      → lacks_proof rs library r ≡ false
  bound-lacks_proof library (inl off) = ground arith
  bound-lacks_proof library (inr (proven, rest, scheme)) =
      let found : after_prefix "DPoP " r.authorization ≡ some rest =
        ap (after_prefix "DPoP ") scheme ∙ after_prefix-append "DPoP " rest in
      ground arith

  serves-IsConfigured : serves rs ≡ true → rs.insufficient_scope ≡ false → IsConfigured rs
  unfolding serves
  serves-IsConfigured h enough = elim (Bool-cases (is_empty rs.require_bearer_method)) [
    | inr required ↦ inl required
    | inl unset ↦ elim (Bool-cases (is_listed rs.bearer_methods)) [
      | inl listed ↦ inr (inl listed)
      | inr unlisted ↦ inr (inr (ground arith))
    ]
  ]

  IsConfigured-serves : IsConfigured rs → serves rs ≡ true
  unfolding serves
  IsConfigured-serves (inl required) = ground arith
  IsConfigured-serves (inr (inl listed)) = ground arith
  IsConfigured-serves (inr (inr dpop)) = ground arith

module _ (rs : Rs) (library : TokenLibrary) (r : Presented) where
  served-IsAdmitted :
      (token : String)
      → extract_token rs r ≡ some token
      → (on_token rs library (some token) r).code ≡ 200
      → IsAdmitted rs library r
  unfolding on_token
  served-IsAdmitted token found h =
      let (presented, nonempty) = extract_token-IsPresented rs r token found in
      let enough : rs.insufficient_scope ≡ false = ground arith in
      record {
        token = token;
        nonempty = nonempty;
        presented = presented;
        trusted = elim (Bool-cases rs.violations.accept_any_token) [
          | inl any ↦ inl any
          | inr off ↦ inr (
            serves-IsConfigured rs r (ground arith) enough,
            ground arith,
            ground (arith, eq_iff (text_or_empty (lookup "iss" (library.payload token))) rs.as_url),
          )
        ];
        bound = lacks_proof-bound rs r library (ground arith);
        in_scope = enough;
      }

  extracted-IsAdmitted :
      (found : Option String)
      → extract_token rs r ≡ found
      → (on_token rs library found r).code ≡ 200
      → IsAdmitted rs library r
  unfolding on_token
  extracted-IsAdmitted none e h = absurd (omega arith)
  extracted-IsAdmitted (some token) e h = served-IsAdmitted token e h

  IsAdmitted-served : IsAdmitted rs library r → (handle_mcp rs library r).code ≡ 200
  unfolding handle_mcp on_token
  IsAdmitted-served a =
      let found : extract_token rs r ≡ some a.token =
        IsPresented-extract_token rs r a.token a.nonempty a.presented in
      let bound : lacks_proof rs library r ≡ false = bound-lacks_proof rs r library a.bound in
      let in_scope : rs.insufficient_scope ≡ false = a.in_scope in
      elim a.trusted [
        | inl any ↦ ground (arith, found, bound, in_scope)
        | inr (configured, signed, named) ↦
            let serving : serves rs ≡ true = IsConfigured-serves rs r configured in
            ground (
              arith,
              found,
              bound,
              in_scope,
              serving,
              eq_iff (text_or_empty (lookup "iss" (library.payload a.token))) rs.as_url,
            )
      ]

  -- The fake resource server answers 200 exactly when the request presents a token that is not empty,
  -- by the method that is required or else by the first of the header (what follows its first space),
  -- the body and the query that has one; it accepts any token, or the token is signed by the trusted
  -- server and names it as the issuer, and the server is set up to serve; the request has a DPoP proof
  -- and an authorization of the scheme DPoP where they are required; and no insufficient scope is to be
  -- shown.
  pub handle_mcp-serves_iff : ((handle_mcp rs library r).code ≡ 200) ↔ IsAdmitted rs library r
  unfolding handle_mcp
  handle_mcp-serves_iff = (extracted-IsAdmitted (extract_token rs r) refl, IsAdmitted-served)
