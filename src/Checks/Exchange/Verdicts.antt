-- ===== src/Checks/Exchange/Verdicts.antt =====
-- conformance/checks_rfc8693.go: how the verdicts of the two delegation checks that
-- send one request go together.
use aoa_conformance.Prelude.{◌≡◌, arith}
use aoa_conformance.Prelude.Result.{Result, ok, err}
use aoa_conformance.Model.{pass, fail, Target}
use aoa_conformance.Http.{Response}
use aoa_conformance.Checks.{Kit}
use aoa_conformance.Checks.Exchange.{
  delegation, do_exchange, judge_delegation, judge_may_act, check_delegation, check_may_act,
}

module _ {W : Type 0} (kit : Kit W) where
  judge_may_act-opposes :
      (answer : Result _ Response)
      → (judge_delegation kit answer).status ≡ pass
      → (judge_may_act kit answer).status ≡ fail
  judge_may_act-opposes (err e) h = absurd (ground arith)
  judge_may_act-opposes (ok r) h = ground arith

  judge_delegation-opposes :
      (answer : Result _ Response)
      → (judge_may_act kit answer).status ≡ pass
      → (judge_delegation kit answer).status ≡ fail
  judge_delegation-opposes (err e) h = absurd (ground arith)
  judge_delegation-opposes (ok r) h = ground arith

  -- If the exchanges of the two checks of one target are answered alike, then neither the check that a
  -- delegation token is issued nor the check that may_act is enforced passes without a failure of the
  -- other.
  pub check_may_act-opposes :
      (t : Target) (w w' : W)
      → (do_exchange kit (delegation t) t w).0 ≡ (do_exchange kit (delegation t) t w').0
      → ((check_delegation kit t w).0.status ≡ pass → (check_may_act kit t w').0.status ≡ fail)
        × ((check_may_act kit t w').0.status ≡ pass → (check_delegation kit t w).0.status ≡ fail)
  unfolding check_delegation check_may_act
  check_may_act-opposes t w w' alike = (
    (λ h. rw (← alike) (judge_may_act-opposes (do_exchange kit (delegation t) t w).0 h)),
    λ h. rw alike (judge_delegation-opposes (do_exchange kit (delegation t) t w').0 h),
  )
