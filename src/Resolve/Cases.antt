-- ===== src/Resolve/Cases.antt =====
-- The three ways in which a plan is made.
use aoa_conformance.Prelude.{
  String, ◌≡◌, refl, Bool, true, false, ◌&&◌, not, ◌⊎◌, inl, inr, arith, is_empty, if◌then◌else◌,
}
use aoa_conformance.Prelude.Result.{Result, ok, err}
use aoa_conformance.Model.{AuthPlan, Discovered, has_client}
use aoa_conformance.Http.{Transport}
use aoa_conformance.Register.{
  Library, RegisterInput, RegisterFailure, RegisterResult, failure_text, register,
}
use aoa_conformance.Register.Results.{Issues, register-Issues}
use aoa_conformance.Resolve.{
  ResolveOptions, selected_plan, registered_plan, registration_input, resolve,
}

module _ {W : Type 0} (library : Library) (is_loopback : String → Bool) (send : Transport W)
    (d : Discovered) (opts : ResolveOptions) where
  -- The client that the operator named, or none, and no registration.
  pub record IsSelected (plan : AuthPlan) : Type 0 where
    pub client_id : plan.client_id ≡ opts.client_id
    pub client_secret : plan.client_secret ≡ opts.client_secret
    pub not_registered : plan.registered ≡ false
    pub no_error : plan.registration_error ≡ ""

  -- A plan without a client, whose error is the registration's.
  pub record IsFailed (cause : RegisterFailure) (plan : AuthPlan) : Type 0 where
    pub no_client : has_client plan ≡ false
    pub not_registered : plan.registered ≡ false
    pub reported : plan.registration_error ≡ failure_text cause

  -- A plan with the client that the server issued.
  pub record IsRegistered (client : RegisterResult) (plan : AuthPlan) : Type 0 where
    pub usable : has_client plan ≡ true
    pub marked : plan.registered ≡ true
    pub issued_id : plan.client_id ≡ client.client_id
    pub issued_secret : plan.client_secret ≡ client.client_secret
    pub issued_token : plan.registration_access_token ≡ client.registration_access_token
    pub issued_uri : plan.registration_client_uri ≡ client.registration_client_uri
    pub no_error : plan.registration_error ≡ ""

  abbrev pub Ends : Result RegisterFailure RegisterResult → AuthPlan → Type 0
  Ends (err cause) plan = IsFailed cause plan
  Ends (ok client) plan = IsRegistered client plan

  -- One registration at the advertised endpoint, and a plan after its outcome.
  pub record IsAsked (w : W) (r : AuthPlan × W) : Type 0 where
    pub no_client : is_empty opts.client_id ≡ true
    pub advertised : is_empty d.registration_endpoint ≡ false
    pub input : RegisterInput
    pub addressed : input.registration_endpoint ≡ d.registration_endpoint
    pub authorized : input.initial_access_token ≡ opts.registration_token
    pub outcome : Result RegisterFailure RegisterResult
    pub answered : register library send input w ≡ (outcome, r.1)
    pub ends : Ends outcome r.0

  -- What a plan and the network are.
  abbrev pub Planned : W → AuthPlan × W → Type 0
  Planned w r =
      (((is_empty opts.client_id ≡ false) ⊎ (is_empty d.registration_endpoint ≡ true))
        × IsSelected r.0
        × (r.1 ≡ w))
      ⊎ IsAsked w r

  abbrev asked_input : RegisterInput
  asked_input = registration_input library is_loopback d opts (selected_plan d opts)

  attempted :
      (w : W)
      → is_empty opts.client_id ≡ true
      → (x : Result RegisterFailure RegisterResult) → Issues library send asked_input w x
      → Ends x (registered_plan d opts (selected_plan d opts) x)
  unfolding registered_plan selected_plan
  attempted w missing (err f) issues = record {
    no_client = ground arith;
    not_registered = refl;
    reported = refl;
  }
  attempted w missing (ok out) (inl (f, e)) = cc
  attempted w missing (ok out) (inr (other, e, issued)) = record {
    usable = ground (arith, issued.named);
    marked = refl;
    issued_id = refl;
    issued_secret = refl;
    issued_token = refl;
    issued_uri = refl;
    no_error = refl;
  }

  selected : (w : W) → IsSelected (selected_plan d opts)
  unfolding selected_plan
  selected w = record {
    client_id = refl;
    client_secret = refl;
    not_registered = refl;
    no_error = refl;
  }

  Planned-if :
      (w : W) (b c : Bool) (x : AuthPlan × W)
      → is_empty opts.client_id ≡ b
      → is_empty d.registration_endpoint ≡ c
      → (is_empty opts.client_id ≡ true → is_empty d.registration_endpoint ≡ false → IsAsked w x)
      → Planned w (if b && not c then x else (selected_plan d opts, w))
  Planned-if w false c x hb hc h = inl (inl hb, selected w, refl)
  Planned-if w true true x hb hc h = inl (inr hc, selected w, refl)
  Planned-if w true false x hb hc h = inr (h hb hc)

  -- With a client of one's own, or at a server that advertises no registration endpoint, nothing is
  -- sent, and the plan has the client of the options and no registration. Otherwise one registration
  -- is asked for at the advertised endpoint, with the initial access token of the options: after a
  -- failure the plan has no client and reports it, after a success it has the issued client with its
  -- secret and its management address and token.
  pub resolve_cases : (w : W) → Planned w (resolve library is_loopback send d opts w)
  unfolding resolve registration_input
  resolve_cases w =
      Planned-if w (is_empty opts.client_id) (is_empty d.registration_endpoint) _ refl refl
        (λ no_client advertised. record {
          no_client = no_client;
          advertised = advertised;
          input = asked_input;
          addressed = refl;
          authorized = refl;
          outcome = (register library send asked_input w).0;
          answered = refl;
          ends =
              attempted w no_client (register library send asked_input w).0
                (register-Issues library send asked_input w);
        })
