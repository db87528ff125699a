-- ===== src/FakeRs/Challenge.antt =====
-- The challenge of the fake resource server (internal/fakeas/rs.go), read by the pattern of
-- probe/discover.go.

use aoa_conformance.Prelude.{
  String, Bool, ◌≡◌, refl, sym, ap, ◌∙◌, true, false, some, not, ◌&&◌, is_empty, arith,
  if◌then◌else◌,
}
use text.Mathlib.TextLemmas.{cons-append, nil-append}
use aoa_conformance.Prelude.Scan.Laws.{after_prefix-append}
use aoa_conformance.Prelude.Scan.{after_prefix, cut, is_code}
use aoa_conformance.Prelude.Text.{◌&◌, join, eq-empty_append_right}
use aoa_conformance.Discover.{prm_url_from_challenge, prm_url}
use aoa_conformance.FakeRs.{Rs, challenge_text, is_listed}

-- No double quote stands in the text.
unfoldable pub is_unquoted : String → Bool
is_unquoted String.[] = true
is_unquoted (String.◌∷◌ c s) = not (is_code 34 c) && is_unquoted s

is_unquoted-append : (s t : String) → is_unquoted (s & t) ≡ (is_unquoted s && is_unquoted t)
unfolding is_unquoted
is_unquoted-append String.[] t = ap is_unquoted (nil-append t)
is_unquoted-append (String.◌∷◌ c s) t =
    ap is_unquoted (cons-append c s t) ∙ ground (arith, is_unquoted-append s t)

cut-quote : (u rest : String) → is_unquoted u ≡ true → cut "\"" (u & "\"" & rest) ≡ some (u, rest)
unfolding cut after_prefix is_unquoted
cut-quote String.[] rest h =
    rw (nil-append ("\"" & rest), cons-append "\"" "" rest, nil-append rest) refl
cut-quote (String.◌∷◌ c u) rest h =
    rw (cons-append c u ("\"" & rest)) (ground (arith, cut-quote u rest (ground arith)))

abbrev after_bearer : String → String
after_bearer s = String.◌∷◌ "B" (
    String.◌∷◌ "e"
      (String.◌∷◌ "a" (String.◌∷◌ "r" (String.◌∷◌ "e" (String.◌∷◌ "r" (String.◌∷◌ " " s))))))

spelled : (s : String) → "Bearer " & s ≡ after_bearer s
spelled s =
    rw
      (
        cons-append "B" "earer " s,
        cons-append "e" "arer " s,
        cons-append "a" "rer " s,
        cons-append "r" "er " s,
        cons-append "e" "r " s,
        cons-append "r" " " s,
        cons-append " " "" s,
        nil-append s,
      )
      refl

skips_bearer : (s : String) → prm_url_from_challenge (after_bearer s) ≡ prm_url_from_challenge s
unfolding prm_url_from_challenge
skips_bearer s = refl

abbrev pointer : String
pointer = "resource_metadata=\""

reads_pointer :
    (u more : String)
    → is_unquoted u ≡ true
    → is_empty u ≡ false
    → prm_url_from_challenge (pointer & u & "\"" & more) ≡ u
unfolding prm_url_from_challenge
reads_pointer u more plain named =
    let rest : String = u & "\"" & more in
    let split = cons-append "r" "esource_metadata=\"" rest in
    let found : after_prefix pointer (String.◌∷◌ "r" ("esource_metadata=\"" & rest)) ≡ some rest =
      ap (after_prefix pointer) (sym split) ∙ after_prefix-append pointer rest in
    ap prm_url_from_challenge split ∙ ground (arith, found, cut-quote u more plain, named)

nonempty : (u : String) → is_empty (u & "/.well-known/oauth-protected-resource") ≡ false
nonempty u = eq-empty_append_right u "/.well-known/oauth-protected-resource" refl

-- If the address of the resource server has no double quote, a client that reads the server's
-- challenge asks for the protected-resource metadata at the server's own well-known address, whatever
-- scopes the challenge carries and wherever the client called.
pub challenge_text-prm_url :
    (rs : Rs) (mcp_url : String)
    → is_unquoted rs.url ≡ true
    → prm_url mcp_url (challenge_text rs) ≡ rs.url & "/.well-known/oauth-protected-resource"
unfolding prm_url challenge_text is_unquoted
challenge_text-prm_url rs mcp_url plain =
    let u : String = rs.url & "/.well-known/oauth-protected-resource" in
    let clean : is_unquoted u ≡ true =
      is_unquoted-append rs.url "/.well-known/oauth-protected-resource" ∙ rw plain refl in
    let more : String =
      if is_listed rs.scopes then ", scope=\"" & join " " rs.scopes & "\"" else "" in
    let read : prm_url_from_challenge (challenge_text rs) ≡ u =
      ap prm_url_from_challenge (spelled (pointer & u & "\"" & more))
      ∙ skips_bearer (pointer & u & "\"" & more)
      ∙ reads_pointer u more clean (nonempty rs.url) in
    ground (arith, read, nonempty rs.url)
