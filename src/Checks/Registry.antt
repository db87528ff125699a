-- ===== src/Checks/Registry.antt =====
-- conformance/registry.go: DefaultRegistry, the checks of every file in order.
pub mod Index
use aoa_conformance.Prelude.{String, Bool, ◌≡◌, true, false, List, [], ◌∷◌, ◌++◌, refl}
use aoa_conformance.Gate.{Check}
use aoa_conformance.Runner.{add}
use aoa_conformance.Checks.{Kit}
use aoa_conformance.Checks.Resource.Rows.{register_rfc9728}
use aoa_conformance.Checks.Metadata.{register_rfc8414, register_pkce, register_rfc8705}
use aoa_conformance.Checks.Audience.{register_rfc8707}
use aoa_conformance.Checks.Requests.{
  register_oauth21, register_rfc7662, register_rfc7009, register_sep2351,
}
use aoa_conformance.Checks.Exchange.{register_rfc8693}
use aoa_conformance.Checks.Proofs.{Prover}
use aoa_conformance.Checks.Dpop.{register_dpop}
use aoa_conformance.Checks.Rounds.{
  register_rfc9207, register_sep2468, register_sep837, register_sep2352, register_sep2350,
}
use aoa_conformance.Checks.Documents.{Hosting, register_cimd}
use aoa_conformance.Checks.Refresh.{register_sep2207}
use aoa_conformance.Checks.Present.{Signing, register_mcp_server, register_smoke}

-- What the checks of a run need from outside.
pub record Equipment (W : Type 0) (K : Type 0) (S : Type 0) (D : Type 0) : Type 0 where
  pub kit : Kit W
  pub prover : Prover W K
  pub signing : Signing W S
  pub hosting : Hosting W D

-- `DefaultRegistry`
unfoldable pub default_registry : {W K S D : Type 0} → Equipment W K S D → List (Check W)
default_registry eq =
    register_rfc9728 eq.kit
    ++ register_rfc8414 eq.kit
    ++ register_pkce
    ++ register_rfc8707 eq.kit
    ++ register_oauth21 eq.kit
    ++ register_rfc8693 eq.kit
    ++ register_dpop eq.kit eq.prover
    ++ register_rfc8705
    ++ register_rfc7662 eq.kit
    ++ register_rfc7009 eq.kit
    ++ register_rfc9207
    ++ register_sep2351 eq.kit
    ++ register_sep2468
    ++ register_sep837
    ++ register_cimd eq.kit eq.hosting
    ++ register_sep2352 eq.kit
    ++ register_sep2207 eq.kit
    ++ register_sep2350
    ++ register_mcp_server eq.kit eq.prover eq.signing
    ++ register_smoke eq.kit eq.prover
