-- ===== src/FakeAs/Proofs.antt =====
-- internal/fakeas/dpop.go: a DPoP proof as the server reads it. `jws` is a parameter.
use aoa_conformance.Prelude.{String, Option, none, some, List, [], ◌∷◌, ◌==◌, if◌then◌else◌}
use aoa_conformance.Prelude.Result.{Result, ok, err, ◌>>=◌}
use aoa_conformance.Prelude.Text.{◌&◌}

-- The fixed nonce of the challenge.
abbrev pub dpop_nonce : String
dpop_nonce = "fakeas-dpop-nonce-1"

-- `dpopClaims`
pub record DpopClaims : Type 0 where
  pub htm : String
  pub htu : String
  pub nonce : String

-- `parsedProof`
pub record ParsedProof : Type 0 where
  pub jkt : String
  pub htm : String
  pub htu : String
  pub nonce : String

-- The protected headers of a signature; a header that is not there is `none`.
pub record ProofHeaders : Type 0 where
  pub typ : Option String
  pub alg : Option String
  pub jwk : Option String

-- The calls of `jws`, `jwk` and `json`: an error is its text.
pub record ProofLibrary : Type 0 where
  pub parse : String → Result String (List ProofHeaders)
  pub verify_with : String → String → String → Result String String
  pub thumbprint : String → Result String String
  pub decode_claims : String → Result String DpopClaims
  pub encode_thumbprint : String → String
  pub quote : String → String

abbrev wrap {ℓ} : {A : Type ℓ} → String → Result String A → Result String A
wrap what (ok a) = ok a
wrap what (err e) = err (what & e)

abbrev require {ℓ} : {A : Type ℓ} → String → Option A → Result String A
require what none = err what
require what (some a) = ok a

abbrev first_signature : List ProofHeaders → Result String ProofHeaders
first_signature [] = err "proof has no signature"
first_signature (h ∷ hs) = ok h

module _ (library : ProofLibrary) where
  abbrev wrong_type : String → Result String (Unit {0})
  wrong_type typ = err ("proof typ = " & library.quote typ & ", want dpop+jwt")

  abbrev check_type : Option String → Result String (Unit {0})
  check_type none = wrong_type ""
  check_type (some typ) = if typ == "dpop+jwt" then ok tt else wrong_type typ

  -- `parseDPoPProof`
  unfoldable pub parse_dpop_proof : String → Result String ParsedProof
  parse_dpop_proof raw = do
    signatures ← wrap "parse proof: " (library.parse raw)
    h ← first_signature signatures
    _ ← check_type h.typ
    alg ← require "proof missing alg" h.alg
    key ← require "proof missing jwk header" h.jwk
    payload ← wrap "proof signature: " (library.verify_with raw alg key)
    tp ← wrap "thumbprint: " (library.thumbprint key)
    c ← wrap "proof claims: " (library.decode_claims payload)
    ok (record { jkt = library.encode_thumbprint tp; htm = c.htm; htu = c.htu; nonce = c.nonce })
