-- ===== src/Gate/Laws.antt =====
-- What `needs` and `Evaluate` report, and what they send.
use aoa_conformance.Prelude.Text.{◌&◌, eq-empty_append}
use aoa_conformance.Prelude.{
  String, ◌≡◌, ◌≢◌, refl, Bool, true, false, ◌⊎◌, inl, inr, some, List, [], ◌∷◌, ◌++◌, arith,
  is_empty, Bool-cases, ap, if◌then◌else◌, ◌∙◌,
}
use aoa_conformance.Prelude.Lists.{any, All}
use aoa_conformance.Model.{
  unsupported_for, untested_for, Target, SkipReason, unset, satisfied, has_subject, has_client,
}
use aoa_conformance.Gate.{
  Gate, Check, returned, needs, evaluate, skipped, is_unmet_reason, is_satisfied, unless,
  mcp_target, resolved_issuer, as_metadata, token_endpoint, authorization_endpoint,
  registration_endpoint, introspection_endpoint, revocation_endpoint, introspection_for_revocation,
  plan_client, client_credentials_grant, token_source, registered_client, subject_token,
  auth_code_flow, iss_parameter_advertised, cimd_advertised, offers_client_credentials,
}
use mathlib.Core.Bool.{not, ◌&&◌, ◌||◌}

-- The first unmet gate, with what it reports.
pub record FirstUnmet (gs : List Gate) (t : Target) : Type 0 where
  pub before : List Gate
  pub gate : Gate
  pub after : List Gate
  pub split : gs ≡ before ++ gate ∷ after
  pub met_before : any (λ (g : Gate). is_unmet_reason (g t)) before ≡ false
  pub unmet_here : is_unmet_reason (gate t) ≡ true
  pub reported : needs gs t ≡ (false, gate t)

-- A precondition passes exactly when every gate is met; else it reports the first unmet gate.
needs_cases :
    (gs : List Gate) (t : Target)
    → ((any (λ (g : Gate). is_unmet_reason (g t)) gs ≡ false) × (needs gs t ≡ (true, satisfied)))
      ⊎ FirstUnmet gs t
unfolding needs
needs_cases [] t = inl (refl, refl)
needs_cases (g ∷ gs) t = elim (Bool-cases (is_unmet_reason (g t))) [
  | inl here ↦ inr (record {
    before = [];
    gate = g;
    after = gs;
    split = refl;
    met_before = refl;
    unmet_here = here;
    reported = ground arith;
  })
  | inr met ↦ elim (needs_cases gs t) [
    | inl (none_unmet, passed) ↦ inl (ground arith, ground arith)
    | inr f ↦ inr (record {
      before = g ∷ f.before;
      gate = f.gate;
      after = f.after;
      split = ap (λ l. g ∷ l) f.split;
      met_before = ground (arith, f.met_before);
      unmet_here = f.unmet_here;
      reported = ground (arith, f.reported);
    })
  ]
]

-- A check behind gates: if one is unmet, the result is a skip with the reason of the first unmet
-- gate and nothing is sent; if all are met, the check runs.
pub evaluate_cases :
    {W : Type 0} (c : Check W) (gs : List Gate) (t : Target) (w : W)
    → c.precondition ≡ some (needs gs)
    → ((any (λ (g : Gate). is_unmet_reason (g t)) gs ≡ false) × (evaluate c t w ≡ c.run t w))
      ⊎ ((f : FirstUnmet gs t) × (evaluate c t w ≡ (returned (skipped (f.gate t)), w)))
unfolding evaluate
evaluate_cases c gs t w gated_by = elim (needs_cases gs t) [
  | inl (all_met, passed) ↦ inl (all_met, rw (gated_by, passed))
  | inr f ↦ inr (f, rw (gated_by, f.reported))
]

-- Every gate that the checks share.
abbrev pub shared_gates : List Gate
shared_gates =
    mcp_target ∷ resolved_issuer ∷ as_metadata ∷ token_endpoint ∷ authorization_endpoint
    ∷ registration_endpoint ∷ introspection_endpoint ∷ revocation_endpoint
    ∷ introspection_for_revocation ∷ plan_client ∷ client_credentials_grant ∷ token_source
    ∷ registered_client ∷ subject_token ∷ auth_code_flow ∷ iss_parameter_advertised
    ∷ cimd_advertised ∷ []

-- What an unmet gate reports says unsupported or untested; a met one reports nothing.
abbrev pub IsLabelled : SkipReason → Type 0
IsLabelled r = (r ≡ satisfied) ⊎ ((is_unmet_reason r ≡ true) × (r.kind ≢ unset))

unless-IsLabelled :
    (b : Bool) (why : SkipReason)
    → is_unmet_reason why ≡ true
    → why.kind ≢ unset
    → IsLabelled (unless b why)
unless-IsLabelled true why h k = inl refl
unless-IsLabelled false why h k = inr (h, k)

untested-IsLabelled :
    (b : Bool) (text : String) → is_empty text ≡ false → IsLabelled (unless b (untested_for text))
untested-IsLabelled b text h = unless-IsLabelled b (untested_for text) (ground arith) (λ e. cc)

unsupported-IsLabelled :
    (b : Bool) (text : String)
    → is_empty text ≡ false
    → IsLabelled (unless b (unsupported_for text))
unsupported-IsLabelled b text h =
    unless-IsLabelled b (unsupported_for text) (ground arith) (λ e. cc)

IsLabelled-if :
    (b : Bool) (r s : SkipReason) → IsLabelled r → IsLabelled s → IsLabelled (if b then r else s)
IsLabelled-if true r s hr hs = hr
IsLabelled-if false r s hr hs = hs

satisfied-IsLabelled : IsLabelled satisfied
satisfied-IsLabelled = inl refl

plan_client-IsLabelled : (t : Target) → IsLabelled (plan_client t)
plan_client-IsLabelled t =
    unless-IsLabelled (has_client t.plan) _ (reasons (not (is_empty t.plan.registration_error)))
      (kinds (not (is_empty t.plan.registration_error)))
  where
    failed : String
    failed = "no usable client: dynamic registration failed ("

    absent : String
    absent =
        "no usable client; pass --client-id (with --client-secret for a confidential client) or point at an AS that allows dynamic registration"

    why : Bool → SkipReason
    why b =
        if b
        then untested_for (failed & t.plan.registration_error & "); pass --client-id")
        else untested_for absent

    reasons : (b : Bool) → is_unmet_reason (why b) ≡ true
    reasons true = ap not (eq-empty_append failed _ refl)
    reasons false = refl

    kinds : (b : Bool) → (why b).kind ≢ unset
    kinds true e = cc
    kinds false e = cc

token_source-IsLabelled : (t : Target) → IsLabelled (token_source t)
token_source-IsLabelled t = IsLabelled-if (has_subject t.creds) _ _ satisfied-IsLabelled (
    IsLabelled-if (has_client t.plan && is_satisfied (client_credentials_grant t)) _ _
      satisfied-IsLabelled (untested-IsLabelled false _ refl))

-- No gate that the checks share reports a skip without saying whether the capability is absent or
-- untested, and none reports a kind when it is met.
shared_gates-IsLabelled : (t : Target) → All (λ (g : Gate). IsLabelled (g t)) shared_gates
shared_gates-IsLabelled t = (
  untested-IsLabelled _ _ refl,
  (
    unsupported-IsLabelled _ _ refl,
    (
      unsupported-IsLabelled _ _ refl,
      (
        unsupported-IsLabelled _ _ refl,
        (
          unsupported-IsLabelled _ _ refl,
          (
            unsupported-IsLabelled _ _ refl,
            (
              unsupported-IsLabelled _ _ refl,
              (
                unsupported-IsLabelled _ _ refl,
                (
                  untested-IsLabelled _ _ refl,
                  (
                    plan_client-IsLabelled t,
                    (
                      untested-IsLabelled _ _ refl,
                      (
                        token_source-IsLabelled t,
                        (
                          untested-IsLabelled _ _ refl,
                          (
                            untested-IsLabelled _ _ refl,
                            (
                              untested-IsLabelled _ _ refl,
                              (
                                unsupported-IsLabelled _ _ refl,
                                (unsupported-IsLabelled _ _ refl, tt),
                              ),
                            ),
                          ),
                        ),
                      ),
                    ),
                  ),
                ),
              ),
            ),
          ),
        ),
      ),
    ),
  ),
)

satisfied-unless :
    (b : Bool) (text : String)
    → is_empty text ≡ false
    → is_satisfied (unless b (untested_for text)) ≡ b
satisfied-unless true text h = refl
satisfied-unless false text h = refl

unmet-if :
    (a b : Bool) (why : SkipReason)
    → is_unmet_reason why ≡ true
    → is_unmet_reason (if a then satisfied else if b then satisfied else why) ≡ not (a || b)
unmet-if true b why h = refl
unmet-if false true why h = refl
unmet-if false false why h = h

-- `tokenSource` is met exactly when a token was supplied, or there is a client and the
-- authorization server does not rule out the client_credentials grant.
token_source_iff :
    (t : Target)
    → is_unmet_reason (token_source t)
      ≡ not (
          has_subject t.creds
          || (has_client t.plan && offers_client_credentials t.discovered.grant_types_supported))
token_source_iff t =
    let offers =
      satisfied-unless (offers_client_credentials t.discovered.grant_types_supported) _ refl in
    unmet-if (has_subject t.creds) _ _ refl
    ∙ ap (λ b. not (has_subject t.creds || (has_client t.plan && b))) offers
