-- ===== src/Checks/Dpop.antt =====
-- conformance/checks_dpop.go: the checks of proofs of possession.
pub mod Bound
use aoa_conformance.Prelude.{
  String, Bool, true, false, Option, none, some, List, [], ◌∷◌, ◌++◌, ◌&&◌, not, is_empty, ◌==◌,
  nat_eq, if◌then◌else◌,
}
use aoa_conformance.Prelude.Json.{Json, Members, str, obj, lookup, is_nil}
use aoa_conformance.Prelude.Result.{Result, ok, err}
use aoa_conformance.Prelude.Text.{◌&◌, join}
use aoa_conformance.Model.{
  Severity, profile_extended, must, should, may, CheckResult, Target, unsupported_for,
  advertises_dpop,
}
use aoa_conformance.Http.{Headers, Response, Call, get_header, post_form}
use aoa_conformance.Http.ClientAuth.{apply_client_auth}
use aoa_conformance.Http.Form.{Form, form_string}
use aoa_conformance.Gate.{Check, Gate, needs, unless, client_credentials_grant, plan_client}
use aoa_conformance.Checks.{
  Kit, passed, failed, errored, left_untested, left_unsupported, described, reads, text_at,
  client_auth_of, post,
}
use aoa_conformance.Checks.Audience.{grant_rejected, unsupported_note}
use aoa_conformance.Checks.Proofs.{Prover, proof, proof_for}
use aoa_conformance.Checks.Requests.{judged}

-- A call, then another one unless it failed: `if err != nil { return err }`.
abbrev pub continue : {W A B : Type 0} → (A → Call W B) → Result String A × W → Result String B × W
continue next (err e, w) = (err e, w)
continue next (ok a, w) = next a w

abbrev dpop_advertised : Gate
dpop_advertised t =
    unless (advertises_dpop t.discovered)
      (unsupported_for "AS does not advertise dpop_signing_alg_values_supported")

-- `h.Set("DPoP", proof)`, on headers that have none.
abbrev with_proof : String → Form × Headers → Form × Headers
with_proof text (form, extra) = (form, extra ++ ("Dpop", text) ∷ [])

abbrev jkt_in : Option Json → String
jkt_in (some (obj cnf)) = text_at (lookup "jkt" cnf)
jkt_in _ = ""

-- `cnfJKT`
unfoldable pub cnf_jkt : Members → String
unfolding lookup
cnf_jkt claims = jkt_in (lookup "cnf" claims)

abbrev pub challenged_nonce : Response → String
challenged_nonce r = get_header "Dpop-Nonce" r.headers

module _ {W : Type 0} {K : Type 0} (kit : Kit W) (prover : Prover W K) where
  -- `dpopPost`
  unfoldable pub dpop_post : Target → String → Call W Response
  unfolding form_string apply_client_auth post_form
  dpop_post t text w =
      post kit t.discovered.token_endpoint
        (with_proof text
          (client_auth_of kit t (form_string (("grant_type", "client_credentials") ∷ []) [])))
        w

  -- A token request with a proof by the key that carries the nonce.
  unfoldable pub send_proof : Target → K → String → Call W Response
  unfolding proof dpop_post
  send_proof t key nonce w =
      continue (dpop_post t)
        (proof kit prover key (record (proof_for t.discovered.token_endpoint) { nonce = nonce }) w)

  abbrev pub asks_nonce : Response → Bool
  asks_nonce r =
      nat_eq r.status_code 400 && text_at (lookup "error" (kit.json r.body)) == "use_dpop_nonce"

  abbrev pub answered_with : String → Response → Call W (Response × String)
  answered_with jkt r w = (ok (r, jkt), w)

  -- The single retry under the nonce of the challenge.
  unfoldable pub retry_once : Target → K → String → Response → Call W (Response × String)
  unfolding send_proof lookup
  retry_once t key jkt r w =
      let again = continue (answered_with jkt) (send_proof t key (challenged_nonce r) w) in
      if asks_nonce r then again else answered_with jkt r w

  unfoldable pub exchange_under : Target → K → Result String String → Call W (Response × String)
  unfolding send_proof retry_once
  exchange_under t key (err e) w = (err e, w)
  exchange_under t key (ok jkt) w = continue (retry_once t key jkt) (send_proof t key "" w)

  -- `dpopExchange`: the answer and the thumbprint of the key.
  unfoldable pub dpop_exchange : Target → Call W (Response × String)
  unfolding exchange_under
  dpop_exchange t w =
      continue (λ key. exchange_under t key (prover.thumbprint key)) (prover.new_key w)

  abbrev nonce_of : Result String Response → String
  nonce_of (err e) = ""
  nonce_of (ok r) = challenged_nonce r

  -- `dpopNonceFor`
  unfoldable pub dpop_nonce_for : Target → K → W → String × W
  unfolding send_proof
  dpop_nonce_for t key w = (nonce_of (send_proof t key "" w).0, (send_proof t key "" w).1)

  abbrev judge_proof : Result String (Response × String) → CheckResult
  judge_proof (err e) = errored e ""
  judge_proof (ok (r, jkt)) =
      if nat_eq r.status_code 200 && not (is_nil (lookup "access_token" (kit.json r.body)))
      then passed "DPoP-bound token issued" r.evidence
      else if grant_rejected kit r
      then left_untested unsupported_note r.evidence
      else failed "valid DPoP proof rejected" r.evidence

  abbrev judge_challenge : Result String Response → CheckResult
  judge_challenge (err e) = errored e ""
  judge_challenge (ok r) =
      if asks_nonce r && not (is_empty (challenged_nonce r))
      then passed "use_dpop_nonce challenge issued" r.evidence
      else if grant_rejected kit r
      then left_untested unsupported_note r.evidence
      else if nat_eq r.status_code 200
      then left_unsupported
          "AS issues a DPoP-bound token without ever challenging for a nonce; RFC 9449 §9 makes nonce use optional"
          r.evidence
      else failed "no use_dpop_nonce challenge on first contact" r.evidence

  abbrev pub issued_jkt : Response → String
  issued_jkt r = cnf_jkt (kit.payload (text_at (lookup "access_token" (kit.json r.body))))

  unfoldable pub judge_binding : Result String (Response × String) → CheckResult
  unfolding grant_rejected lookup cnf_jkt
  judge_binding (err e) = errored e ""
  judge_binding (ok (r, jkt)) =
      if grant_rejected kit r
      then left_untested unsupported_note r.evidence
      else if not (nat_eq r.status_code 200)
      then failed "DPoP token request failed" r.evidence
      else if is_empty (issued_jkt r)
      then failed "issued token has no cnf.jkt" r.evidence
      else if not (issued_jkt r == jkt)
      then failed "cnf.jkt does not match proof key thumbprint" r.evidence
      else passed "cnf.jkt bound to proof key" r.evidence

  abbrev judge_wrong_htu : Result String Response → CheckResult
  judge_wrong_htu (err e) = errored e ""
  judge_wrong_htu (ok r) =
      if nat_eq r.status_code 200
      then failed "wrong-htu proof accepted" r.evidence
      else if grant_rejected kit r
      then left_untested unsupported_note r.evidence
      else passed "wrong-htu proof rejected" r.evidence

  -- A proof for another address, under the nonce.
  unfoldable pub send_tampered : Target → K → String × W → Result String Response × W
  unfolding proof dpop_post
  send_tampered t key (nonce, w) = continue (dpop_post t) (
      proof kit prover key
        (record (proof_for t.discovered.token_endpoint) {
          nonce = nonce;
          tamper_htu = "https://evil.example/token";
        })
        w)

  -- The check dpop.token.binds_cnf_jkt.
  unfoldable pub check_binding : Target → W → CheckResult × W
  unfolding dpop_exchange judge_binding
  check_binding t w = (judge_binding (dpop_exchange t w).0, (dpop_exchange t w).1)

  abbrev dpop_row :
      String → String → String → Severity → List Gate → (Target → W → CheckResult × W) → Check W
  dpop_row id section description severity gates run =
      described id profile_extended "RFC 9449" section severity description (some (needs gates)) run

  -- `registerDPoP`
  unfoldable pub register_dpop : List (Check W)
  unfolding join dpop_exchange check_binding send_proof dpop_nonce_for send_tampered
  register_dpop =
      let needs_dpop = dpop_advertised ∷ client_credentials_grant ∷ plan_client ∷ [] in
      dpop_row "dpop.advertise.algs" "§5.1" "DPoP signing algorithms are advertised" may
        (dpop_advertised ∷ [])
        (reads (λ t.
          passed
            ("DPoP algs advertised: " & join ", " t.discovered.dpop_signing_alg_values_supported)
            ""))
      ∷ dpop_row "dpop.token.accepts_proof" "§5" "a valid DPoP proof yields a token" must needs_dpop
          (λ t w. (judge_proof (dpop_exchange t w).0, (dpop_exchange t w).1))
      ∷ dpop_row "dpop.token.nonce_challenge" "§5"
          "first proof without nonce is challenged with use_dpop_nonce" should needs_dpop
          (λ t w.
            judged kit judge_challenge (continue (λ key. send_proof t key "") (prover.new_key w)))
      ∷ dpop_row "dpop.token.binds_cnf_jkt" "§5"
          "issued token's cnf.jkt equals the proof key thumbprint" must needs_dpop check_binding
      ∷ dpop_row "dpop.token.rejects_wrong_htu" "§4.2" "a proof with a wrong htu is rejected" must
          needs_dpop
          (λ t w.
            judged kit judge_wrong_htu (
              continue (λ key w'. send_tampered t key (dpop_nonce_for t key w'))
                (prover.new_key w)))
      ∷ []
