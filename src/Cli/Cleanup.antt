-- ===== src/Cli/Cleanup.antt =====
-- Which clients a run deletes.
use aoa_conformance.Prelude.{String, ◌≡◌, Bool, false, ap, ◌∙◌, inl, inr, arith, is_empty}
use aoa_conformance.Model.{AuthPlan, Target, Discovered}
use aoa_conformance.Http.{Transport}
use aoa_conformance.Register.{Library}
use aoa_conformance.Resolve.{ResolveOptions, resolve}
use aoa_conformance.Resolve.Cases.{resolve_cases}
use aoa_conformance.Cli.{cleanup_registration}

-- A client that the operator supplied is never deleted: the cleanup after its resolution sends
-- nothing, whatever the authorization server advertises.
pub cleanup_registration-supplied :
    {W : Type 0} (library : Library) (is_loopback : String → Bool) (send : Transport W)
    (d : Discovered) (opts : ResolveOptions) (t : Target) (before after : W)
    → is_empty opts.client_id ≡ false
    → t.plan ≡ (resolve library is_loopback send d opts before).0
    → cleanup_registration send t after ≡ after
unfolding cleanup_registration
cleanup_registration-supplied library is_loopback send d opts t before after supplied planned =
    elim (resolve_cases library is_loopback send d opts before) [
      | inl (skips, chosen, same) ↦
          let unmarked : t.plan.registered ≡ false =
            ap (λ (plan : AuthPlan). plan.registered) planned ∙ chosen.not_registered in
          ground arith
      | inr asked ↦ let missing = asked.no_client in ground arith
    ]
