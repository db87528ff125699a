-- ===== src/Checks/Dpop/Bound.antt =====
-- conformance/checks_dpop.go: what a verdict of the binding check says of the key and the token.
use aoa_conformance.Prelude.{
  String, Bool, if◌then◌else◌, ◌≡◌, refl, ap, sym, true, false, ◌∙◌, is_empty, arith, eq_iff,
}
use aoa_conformance.Prelude.Result.{Result, ok, err}
use aoa_conformance.Model.{pass, Target}
use aoa_conformance.Http.{Response, Call}
use aoa_conformance.Checks.{Kit}
use aoa_conformance.Checks.Proofs.{Prover}
use aoa_conformance.Checks.Dpop.{
  continue, answered_with, asks_nonce, challenged_nonce, send_proof, retry_once, exchange_under,
  dpop_exchange, issued_jkt, judge_binding, check_binding,
}

continue-ok :
    {W A B : Type 0}
    → (next : A → Call W B) → (x : Result String A × W) → (b : B) → (continue next x).0 ≡ ok b
    → (a : A) × (w : W) × (x ≡ (ok a, w)) × ((next a w).0 ≡ ok b)
continue-ok next (err e, w) b h = absurd (ground arith)
continue-ok next (ok a, w) b h = (a, w, refl, h)

-- The response answers a request with a proof by the key.
abbrev IsProved : {W : Type 0} {K : Type 0} → Kit W → Prover W K → Target → K → Response → Type 0
IsProved {W} kit prover t key r =
    (nonce : String) × (w : W) × ((send_proof kit prover t key nonce w).0 ≡ ok r)

-- A key was made and has the thumbprint, and a request proved by it was answered with a token that is
-- bound to it.
pub record IsKeyBound {W : Type 0} {K : Type 0} (kit : Kit W) (prover : Prover W K) (t : Target)
    (w : W) : Type 0 where
  pub key : K
  pub after : W
  pub made : prover.new_key w ≡ (ok key, after)
  pub jkt : String
  pub thumb : prover.thumbprint key ≡ ok jkt
  pub response : Response
  pub proved : IsProved kit prover t key response
  pub issued : response.status_code ≡ 200
  pub bound : issued_jkt kit prover response ≡ jkt
  pub nonempty : is_empty jkt ≡ false

module _ {W : Type 0} {K : Type 0} (kit : Kit W) (prover : Prover W K) (t : Target) where
  -- The answer to the first request, or to the second one, whichever is chosen.
  chosen-IsProved :
      (again : Bool) (key : K) (jkt found : String) (r r' : Response) (w : W)
      → IsProved kit prover t key r
      → (if again
          then continue
              (answered_with kit prover jkt)
              (send_proof kit prover t key (challenged_nonce r) w)
          else answered_with kit prover jkt r w).0
        ≡ ok (r', found)
      → IsProved kit prover t key r' × (found ≡ jkt)
  chosen-IsProved true key jkt found r r' w sent h =
      let (r1, w1, answered, e) =
        continue-ok (answered_with kit prover jkt)
          (send_proof kit prover t key (challenged_nonce r) w) (r', found) h in
      let same : (r1 ≡ r') × (jkt ≡ found) = ground (arith, e) in
      ((challenged_nonce r, w, ap (λ x. x.0) answered ∙ ap ok same.0), sym same.1)
  chosen-IsProved false key jkt found r r' w sent h =
      let same : (r ≡ r') × (jkt ≡ found) = ground (arith, h) in
      let (nonce, w0, answered) = sent in ((nonce, w0, answered ∙ ap ok same.0), sym same.1)

  retry_once-IsProved :
      (key : K) (jkt found : String) (r r' : Response) (w : W)
      → IsProved kit prover t key r
      → (retry_once kit prover t key jkt r w).0 ≡ ok (r', found)
      → IsProved kit prover t key r' × (found ≡ jkt)
  unfolding retry_once
  retry_once-IsProved key jkt found r r' w sent h =
      chosen-IsProved (asks_nonce kit prover r) key jkt found r r' w sent h

  exchange_under-IsProved :
      (key : K) (thumb : Result String String) (r : Response) (found : String) (w : W)
      → (exchange_under kit prover t key thumb w).0 ≡ ok (r, found)
      → IsProved kit prover t key r × (thumb ≡ ok found)
  unfolding exchange_under
  exchange_under-IsProved key (err e) r found w h = absurd (ground arith)
  exchange_under-IsProved key (ok jkt) r found w h =
      let (r0, w0, sent, rest) =
        continue-ok (retry_once kit prover t key jkt) (send_proof kit prover t key "" w) (r, found)
          h in
      let (proved, e) =
        retry_once-IsProved key jkt found r0 r w0 ("", w, ap (λ x. x.0) sent) rest in
      (proved, ap ok (sym e))

  judge_binding-pass :
      (answer : Result String (Response × String))
      → (judge_binding kit prover answer).status ≡ pass
      → (r : Response) × (jkt : String) × (answer ≡ ok (r, jkt))
        × (r.status_code ≡ 200)
        × (issued_jkt kit prover r ≡ jkt)
        × (is_empty jkt ≡ false)
  unfolding judge_binding
  judge_binding-pass (err e) h = absurd (ground arith)
  judge_binding-pass (ok (r, jkt)) h =
      let same : issued_jkt kit prover r ≡ jkt =
        ground (arith, eq_iff (issued_jkt kit prover r) jkt) in
      let held : is_empty (issued_jkt kit prover r) ≡ false = ground arith in
      (r, jkt, refl, ground arith, same, ap is_empty (sym same) ∙ held)

  -- If the binding check passes, then it made a key with a thumbprint that is not empty, a request that
  -- a proof by this key accompanied was answered with 200, and the token in the answer is bound to this
  -- thumbprint.
  pub check_binding-IsKeyBound :
      (w : W) → (check_binding kit prover t w).0.status ≡ pass → IsKeyBound kit prover t w
  unfolding check_binding dpop_exchange
  check_binding-IsKeyBound w h =
      let (r, jkt, answered, issued, bound, nonempty) =
        judge_binding-pass (dpop_exchange kit prover t w).0 h in
      let (key, after, made, rest) =
        continue-ok (λ k. exchange_under kit prover t k (prover.thumbprint k)) (prover.new_key w)
          (r, jkt) answered in
      let (proved, thumb) = exchange_under-IsProved key (prover.thumbprint key) r jkt after rest in
      record {
        key = key;
        after = after;
        made = made;
        jkt = jkt;
        thumb = thumb;
        response = r;
        proved = proved;
        issued = issued;
        bound = bound;
        nonempty = nonempty;
      }
