-- ===== src/FakeAs/Tokens.antt =====
-- internal/fakeas/as.go: minting a token, the check of a DPoP proof, and the grants client_credentials
-- and refresh_token. A grant changes no field but the counter `minted`, which is its whole state here.
-- A proof that was accepted is the thumbprint of its key; `none` is a request without a proof.
use aoa_conformance.Prelude.{
  String, ℕ, ◌+◌, Bool, true, false, Option, none, some, List, [], ◌∷◌, ◌&&◌, not, ◌==◌, is_empty,
  if◌then◌else◌,
}
use aoa_conformance.Prelude.Decimal.{itoa}
use aoa_conformance.Prelude.Json.{
  Json, Members, empty, member, str, obj, strings, lookup, set_member, is_nil,
}
use aoa_conformance.Prelude.Result.{Result, ok, err}
use aoa_conformance.Prelude.Text.{◌&◌}
use aoa_conformance.Http.Form.{get_value, values_of}
use aoa_conformance.FakeAs.{
  Violations, Environment, Request, Answer, Served, write_json, token_error,
}
use aoa_conformance.FakeAs.Proofs.{ParsedProof, parse_dpop_proof, dpop_nonce}
use aoa_conformance.FakeAs.Discovery.{put_if}

abbrev default_member : String → Json → Members → Members
default_member k j claims = if is_nil (lookup k claims) then set_member k j claims else claims

-- The serial number, where the caller pinned none.
abbrev numbered : Bool → Members → ℕ → Members × ℕ
numbered true claims n = (set_member "jti" (str ("tok-" & itoa (n + 1))) claims, n + 1)
numbered false claims n = (claims, n)

module _ (env : Environment) where
  -- The claims that `MintToken` signs.
  unfoldable pub mint_claims : Members → ℕ → Members × ℕ
  unfolding lookup set_member itoa
  mint_claims claims n =
      let issued = default_member "iss" (str env.url) claims in
      numbered (is_nil (lookup "jti" issued)) issued n

  -- `MintToken`: `none` is its panic.
  unfoldable pub mint_token : Members → ℕ → Option String × ℕ
  unfolding mint_claims
  mint_token claims n = let (signed, m) = mint_claims claims n in (env.sign signed, m)

-- `tokenType`
abbrev pub token_type : Option String → String
token_type none = "Bearer"
token_type (some jkt) = "DPoP"

module _ (v : Violations) where
  abbrev bind_unless : Bool → Option String → Members → Members
  bind_unless off none claims = claims
  bind_unless off (some jkt) claims =
      put_if (not off) "cnf" (obj (member "jkt" (str jkt) empty)) claims

  -- `bindCnf`
  unfoldable pub bind_cnf : Option String → Members → Members
  unfolding set_member
  bind_cnf proof claims = bind_unless v.no_cnf_binding proof claims

abbrev pub answered : (String → Members) → Option String × ℕ → Served ℕ
answered doc (none, n) = (none, n)
answered doc (some token, n) = (some (write_json [] 200 (doc token)), n)

-- The document of a grant without more members.
abbrev pub token_document : Option String → String → Members
token_document proof token =
    member "access_token" (str token) (member "token_type" (str (token_type proof)) empty)

-- `claims["aud"]`, one text or a list of them.
abbrev pub audience : List String → Members → Members
audience [] claims = claims
audience (one ∷ []) claims = set_member "aud" (str one) claims
audience (one ∷ two ∷ more) claims = set_member "aud" (strings (one ∷ two ∷ more)) claims

abbrev has_resource : List String → Bool
has_resource [] = false
has_resource (_ ∷ _) = true

abbrev has_several : List String → Bool
has_several [] = false
has_several (_ ∷ []) = false
has_several (_ ∷ _ ∷ _) = true

module _ (env : Environment) (v : Violations) where
  abbrev pub refuse : ℕ → String → String → ℕ → Served ℕ
  refuse code errc desc n = (some (token_error v [] code errc desc), n)

  -- The claims of a client_credentials token.
  unfoldable pub client_claims : Request → Option String → Members
  unfolding set_member bind_cnf values_of get_value
  client_claims r proof =
      let claims = member "sub" (str (get_value "client_id" r.form)) empty in
      bind_cnf v proof
        (if v.ignore_resource_param then claims else audience (values_of "resource" r.form) claims)

  -- `handleClientCredentials`
  unfoldable pub handle_client_credentials : Request → Option String → ℕ → Served ℕ
  unfolding token_error values_of mint_token client_claims
  handle_client_credentials r proof n =
      let resources = values_of "resource" r.form in
      if has_resource resources && v.reject_resource
      then refuse 400 "invalid_target" "resource parameter rejected" n
      else if v.error_on_multiple_resources && has_several resources
      then refuse 500 "server_error" "cannot handle multiple resources" n
      else answered (token_document proof) (mint_token env (client_claims r proof) n)

  -- The scope of a refreshed token.
  unfoldable pub refreshed_scope : String → String
  refreshed_scope scope =
      if v.widen_scope && not (is_empty scope) then scope & " extra.scope" else scope

  -- `handleRefresh`
  unfoldable pub handle_refresh : Request → Option String → ℕ → Served ℕ
  unfolding refreshed_scope get_value set_member bind_cnf mint_token
  handle_refresh r proof n =
      let scope = refreshed_scope (get_value "scope" r.form) in
      answered
        (λ (token : String).
          put_if (not (is_empty scope)) "scope" (str scope) (token_document proof token))
        (mint_token env (bind_cnf v proof (member "sub" (str "refresh-sub") empty)) n)

  abbrev pub on_proof : Result String ParsedProof → Result Answer String
  on_proof (err e) =
      err (token_error v [] 400 "invalid_dpop_proof" ("cannot parse DPoP proof: " & e))
  on_proof (ok p) =
      if not v.skip_dpop_nonce && is_empty p.nonce
      then err (
          token_error v (("Dpop-Nonce", dpop_nonce) ∷ []) 400 "use_dpop_nonce"
            "authorization server requires nonce in DPoP proof")
      else if not v.accept_wrong_htu && not (p.htu == env.url & "/token")
      then err (token_error v [] 400 "invalid_dpop_proof" "htu mismatch")
      else if v.reject_valid_dpop
      then err (token_error v [] 400 "invalid_dpop_proof" "DPoP proof rejected")
      else ok p.jkt

  -- `handleDPoP`: an answer is what it has written.
  unfoldable pub handle_dpop : String → Result Answer String
  unfolding token_error parse_dpop_proof
  handle_dpop proof = on_proof (parse_dpop_proof env.proofs proof)
