-- ===== src/Checks/Registry/Index.antt =====
-- conformance/registry.go: the ids of the default registry, and what they mean for the report of a run.
use aoa_conformance.Prelude.{
  String, Bool, ◌≡◌, ◌≢◌, refl, ap, ◌∙◌, true, false, List, [], ◌∷◌, ◌++◌, ◌==◌, ◌&&◌, not, arith,
  eq_iff, map,
}
use aoa_conformance.Prelude.Lists.{All, Distinct, any, all}
use aoa_conformance.Model.{CheckMeta, Entry, Target}
use aoa_conformance.Capability.{CapabilitySpec, capability_specs, matches}
use aoa_conformance.Report.{Report}
use aoa_conformance.Runner.{Environment, Runner, run}
use aoa_conformance.Runner.Entries.{IsSynthetic, checks_of, metas, run-IsComplete}
use aoa_conformance.Checks.Resource.Rows.{register_rfc9728, mcp_server_rows}
use aoa_conformance.Checks.Metadata.{register_rfc8414, register_pkce, register_rfc8705}
use aoa_conformance.Checks.Audience.{register_rfc8707}
use aoa_conformance.Checks.Requests.{
  register_oauth21, register_rfc7662, register_rfc7009, register_sep2351,
}
use aoa_conformance.Checks.Exchange.{register_rfc8693}
use aoa_conformance.Checks.Dpop.{register_dpop}
use aoa_conformance.Checks.Rounds.{
  register_rfc9207, register_sep2468, register_sep837, register_sep2352, register_sep2350,
}
use aoa_conformance.Checks.Documents.{register_cimd}
use aoa_conformance.Checks.Refresh.{register_sep2207}
use aoa_conformance.Checks.Present.{register_mcp_server, register_smoke}
use aoa_conformance.Checks.Registry.{Equipment, default_registry}

abbrev pub ids : List CheckMeta → List String
ids checks = map (λ (c : CheckMeta). c.id) checks

abbrev are_distinct : List String → Bool
are_distinct [] = true
are_distinct (x ∷ xs) = not (any (λ y. x == y) xs) && are_distinct xs

any-All : (x : String) (xs : List String) → any (λ y. x == y) xs ≡ false → All (λ y. x ≢ y) xs
any-All x [] h = tt
any-All x (y ∷ ys) h =
    ((λ e. let same = (eq_iff x y).1 e in ground arith), any-All x ys (ground arith))

are_distinct-Distinct : (xs : List String) → are_distinct xs ≡ true → Distinct xs
are_distinct-Distinct [] h = tt
are_distinct-Distinct (x ∷ xs) h =
    (any-All x xs (ground arith), are_distinct-Distinct xs (ground arith))

-- Some id belongs to the row of the matrix.
abbrev pub is_covered : List CheckMeta → CapabilitySpec → Bool
is_covered checks spec = any (λ id. matches spec id) (ids checks)

is_covered-append :
    (spec : CapabilitySpec) (front back : List Entry)
    → is_covered (checks_of back) spec ≡ true
    → is_covered (checks_of (front ++ back)) spec ≡ true
is_covered-append spec [] back h = h
is_covered-append spec (e ∷ front) back h = ground (arith, is_covered-append spec front back h)

all-covered :
    (specs : List CapabilitySpec) (front back : List Entry)
    → all (is_covered (checks_of back)) specs ≡ true
    → All (λ spec. is_covered (checks_of (front ++ back)) spec ≡ true) specs
all-covered [] front back h = tt
all-covered (spec ∷ specs) front back h =
    (is_covered-append spec front back (ground arith), all-covered specs front back (ground arith))

-- The ids of all checks, file by file in the order of `DefaultRegistry`.
abbrev pub all_ids : List String
all_ids =
    "rfc9728.challenge.resource_metadata" ∷ "rfc9728.prm.fetchable"
    ∷ "rfc9728.prm.authorization_servers_present" ∷ "rfc9728.prm.as_resolvable"
    ∷ "rfc8414.metadata.reachable" ∷ "rfc8414.metadata.issuer_match"
    ∷ "rfc8414.metadata.token_endpoint_present" ∷ "rfc8414.metadata.token_endpoint_https"
    ∷ "rfc8414.metadata.jwks_uri_present" ∷ "rfc8414.metadata.grant_types_advertised"
    ∷ "rfc8414.metadata.signed_metadata_valid" ∷ "pkce.advertise.s256" ∷ "pkce.enforce.reject_plain"
    ∷ "rfc8707.token.accepts_resource" ∷ "rfc8707.token.reflects_audience"
    ∷ "rfc8707.token.multiple_resources" ∷ "rfc8707.authcode.aud_reflects_resource"
    ∷ "oauth21.token.reachable" ∷ "oauth21.token.rejects_unknown_grant"
    ∷ "oauth21.token.error_shape_rfc6749" ∷ "oauth21.authorize.response_type_code"
    ∷ "rfc8693.grant.advertised" ∷ "rfc8693.impersonation.issues_token"
    ∷ "rfc8693.delegation.issues_token" ∷ "rfc8693.delegation.act_present"
    ∷ "rfc8693.delegation.act_nesting" ∷ "rfc8693.delegation.may_act_enforced"
    ∷ "rfc8693.downscope.scope_honored" ∷ "rfc8693.error.invalid_grant_on_bad_subject"
    ∷ "rfc8693.error.invalid_target_on_unknown_audience" ∷ "dpop.advertise.algs"
    ∷ "dpop.token.accepts_proof" ∷ "dpop.token.nonce_challenge" ∷ "dpop.token.binds_cnf_jkt"
    ∷ "dpop.token.rejects_wrong_htu" ∷ "rfc8705.advertise.mtls_bound" ∷ "rfc7662.introspect.active"
    ∷ "rfc7009.advertise.revocation_endpoint" ∷ "rfc7009.revoke.honored"
    ∷ "rfc9207.authorize.iss_present" ∷ "sep2351.discovery.suffix_path"
    ∷ "sep2468.advertise.iss_parameter" ∷ "sep2468.authorize.iss_present"
    ∷ "sep837.register.application_type" ∷ "cimd.advertise.supported"
    ∷ "cimd.register.url_client_id" ∷ "sep2352.register.issuer_binding"
    ∷ "sep2207.refresh.scope_semantics" ∷ "sep2350.stepup.scope_accumulation"
    ∷ "mcp.challenge.scope_present" ∷ "mcp.challenge.no_offline_access"
    ∷ "mcp.prm.resource_canonical" ∷ "mcp.token.query_not_advertised"
    ∷ "mcp.token.header_method_advertised" ∷ "mcp.token.invalid_rejected"
    ∷ "mcp.token.foreign_audience_rejected" ∷ "smoke.present.token_accepted" ∷ []

-- A report with at most two synthetic errors before one entry for each of the listed checks, which are
-- distinct, in which each row of the support matrix has an entry.
pub record IsIndexed (rep : Report) : Type 0 where
  pub synthetic : List Entry
  pub checked : List Entry
  pub split : rep.entries ≡ synthetic ++ checked
  pub only_errors : IsSynthetic 2 synthetic
  pub reported : ids (checks_of checked) ≡ all_ids
  pub distinct : Distinct (ids (checks_of checked))
  pub covered : All (λ spec. is_covered (checks_of rep.entries) spec ≡ true) capability_specs

all_ids-distinct : are_distinct all_ids ≡ true
all_ids-distinct = refl

module _ {W K S D : Type 0} (eq : Equipment W K S D) where
  default_registry_lem :
      (ids (metas (default_registry eq)) ≡ all_ids)
      × (all (is_covered (metas (default_registry eq))) capability_specs ≡ true)
  unfolding default_registry register_rfc9728 register_rfc8414 register_pkce register_rfc8707
      register_oauth21 register_rfc8693 register_dpop register_rfc8705 register_rfc7662
      register_rfc7009 register_rfc9207 register_sep2351 register_sep2468 register_sep837
      register_cimd register_sep2352 register_sep2207 register_sep2350 register_mcp_server
      mcp_server_rows register_smoke matches
  default_registry_lem = (refl, refl)

  -- A run with the default registry, whatever the servers answer, reports each of the listed checks once
  -- and in the order of the list: its entries are at most two synthetic errors, and then one entry for
  -- each id. No row of its support matrix is without an entry.
  pub run-IsIndexed :
      (env : Environment W) (r : Runner W)
      → r.registry ≡ default_registry eq
      → (t : Target) (w : W) → IsIndexed (run env r t w).0
  run-IsIndexed env r registry t w =
      let complete = run-IsComplete env r t w in
      let same : checks_of complete.checked ≡ metas (default_registry eq) =
        complete.one_for_each ∙ ap metas registry in
      record {
        synthetic = complete.synthetic;
        checked = complete.checked;
        split = complete.split;
        only_errors = complete.only_errors;
        reported = ap ids same ∙ default_registry_lem.0;
        distinct =
            are_distinct-Distinct _
              (ap are_distinct (ap ids same ∙ default_registry_lem.0) ∙ all_ids-distinct);
        covered = rw (complete.split) (
            all-covered capability_specs complete.synthetic complete.checked
              (ap (λ l. all (is_covered l) capability_specs) same ∙ default_registry_lem.1));
      }
