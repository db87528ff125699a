-- ===== src/Checks/Proofs.antt =====
-- probe/dpop.go: the proofs of possession. Their keys, the signature and the clock are outside.
use aoa_conformance.Prelude.{String, ℕ, Bool, true, false, is_empty, if◌then◌else◌}
use aoa_conformance.Prelude.Json.{Members, str, num, empty, set_member}
use aoa_conformance.Prelude.Result.{Result}
use aoa_conformance.Http.{Call}
use aoa_conformance.Checks.{Kit}

-- ecdsa, jwk, jws, jwt and sha256: `new_key` generates and imports a key, `thumbprint` is that of its
-- public part, `s256` is the digest of a text, and `sign` builds and signs the claims under the type
-- dpop+jwt with the public key in the header; its error has the text that `Proof` gives it.
pub record Prover (W : Type 0) (K : Type 0) : Type 0 where
  pub new_key : Call W K
  pub thumbprint : K → Result String String
  pub now : W → ℕ
  pub s256 : String → String
  pub sign : K → Members → Call W String

pub record ProofParams : Type 0 where
  pub htm : String
  pub htu : String
  pub nonce : String
  pub ath : String
  pub tamper_htu : String
  pub omit_jti : Bool

-- The proof of a POST to an address, without the further fields.
abbrev pub proof_for : String → ProofParams
proof_for htu = record {
  htm = "POST";
  htu = htu;
  nonce = "";
  ath = "";
  tamper_htu = "";
  omit_jti = false;
}

-- `if text != "" { b.Claim(name, text) }`
abbrev claim_text : String → String → Members → Members
claim_text name text claims = if is_empty text then claims else set_member name (str text) claims

abbrev pub sent_htu : ProofParams → String
sent_htu p = if is_empty p.tamper_htu then p.htu else p.tamper_htu

-- The claims of a proof, at a time and with the random text of its jti.
unfoldable pub proof_claims : ProofParams → ℕ → String → Members
unfolding set_member
proof_claims p seconds random =
    let b =
      set_member "iat" (num seconds)
        (set_member "htu" (str (sent_htu p)) (set_member "htm" (str p.htm) empty)) in
    let b = if p.omit_jti then b else set_member "jti" (str random) b in
    claim_text "ath" p.ath (claim_text "nonce" p.nonce b)

module _ {W : Type 0} {K : Type 0} (kit : Kit W) (prover : Prover W K) where
  abbrev signed : K → ProofParams → ℕ → String × W → Result String String × W
  signed key p seconds (random, w) = prover.sign key (proof_claims p seconds random) w

  abbrev drawn : Bool → W → String × W
  drawn true w = ("", w)
  drawn false w = kit.random w

  -- `ProofKey.Proof`
  unfoldable pub proof : K → ProofParams → Call W String
  unfolding proof_claims
  proof key p w = signed key p (prover.now w) (drawn p.omit_jti w)
