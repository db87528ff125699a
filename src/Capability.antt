-- ===== src/Capability.antt =====
-- conformance/capabilities.go: the support matrix.
pub mod Rows
use aoa_conformance.Prelude.{
  String, Bool, true, false, Option, none, some, List, [], ◌∷◌, map, is_empty, if◌then◌else◌,
}
use aoa_conformance.Prelude.Lists.{any, select}
use aoa_conformance.Prelude.Text.{◌&◌}
use text.Mathlib.Text.{starts_with}
use aoa_conformance.Model.{Entry}
use aoa_conformance.Evidence.{Outcome, met, unmet, indeterminate, LabelEvidence, weigh_entries}

pub data CapabilityState : Type 0 where
  supported not_supported not_tested : CapabilityState

pub record Capability : Type 0 where
  pub key : String
  pub title : String
  pub state : CapabilityState
  pub reason : String

pub record CapabilitySpec : Type 0 where
  pub key : String
  pub title : String
  pub prefixes : List String

abbrev row : String → String → List String → CapabilitySpec
row key title prefixes = record { key = key; title = title; prefixes = prefixes }

abbrev pub capability_specs : List CapabilitySpec
capability_specs =
    row "prm-discovery" "PRM discovery (RFC 9728)" ("rfc9728." ∷ "mcp.prm." ∷ "mcp.challenge." ∷ [])
    ∷ row "as-metadata" "AS metadata (RFC 8414)" ("rfc8414." ∷ "discovery" ∷ [])
    ∷ row "pkce-s256" "PKCE S256" ("pkce." ∷ [])
    ∷ row "resource-indicators" "Resource indicators (RFC 8707)" ("rfc8707." ∷ [])
    ∷ row "token-hygiene" "Resource-server token validation hygiene" ("mcp.token." ∷ [])
    ∷ row "cimd" "Client ID Metadata Documents" ("cimd." ∷ [])
    ∷ row "dcr" "Dynamic client registration" ("registration" ∷ "sep837." ∷ "sep2352." ∷ [])
    ∷ row "dpop" "DPoP sender-constrained tokens (RFC 9449)" ("dpop." ∷ [])
    ∷ row "introspection" "Token introspection (RFC 7662)" ("rfc7662." ∷ [])
    ∷ row "revocation" "Token revocation (RFC 7009)" ("rfc7009." ∷ [])
    ∷ row "refresh-scope" "Refresh-token scope semantics (SEP-2207)" ("sep2207." ∷ [])
    ∷ row "step-up" "Step-up authorization (SEP-2350)" ("sep2350." ∷ [])
    ∷ row "mtls" "mTLS-bound tokens (RFC 8705)" ("rfc8705." ∷ [])
    ∷ []

-- The method `matches`; strings.HasPrefix is `starts_with`.
unfoldable pub matches : CapabilitySpec → String → Bool
matches spec id = any (λ p. starts_with id p) spec.prefixes

-- `capReason`
unfoldable pub cap_reason : Option Entry → String → String
cap_reason none fallback = fallback
cap_reason (some e) fallback =
    e.check.id & ": " & (if is_empty e.result.message then fallback else e.result.message)

advisory_note : Bool → String
advisory_note true = "; a SHOULD/MAY-level shortfall is listed in the tables below"
advisory_note false = ""

-- The switch of `resolve` on the weighed evidence.
row_for : CapabilitySpec → LabelEvidence → Outcome → Capability
unfolding advisory_note
row_for spec ev met = record {
  key = spec.key;
  title = spec.title;
  state = supported;
  reason = cap_reason ev.decided_by "advertised and verified" & advisory_note ev.advisory;
}
row_for spec ev unmet = record {
  key = spec.key;
  title = spec.title;
  state = not_supported;
  reason = cap_reason ev.decided_by "no check found it";
}
row_for spec ev indeterminate = record {
  key = spec.key;
  title = spec.title;
  state = not_tested;
  reason = cap_reason ev.decided_by "no check for this capability ran in the selected profiles";
}

abbrev pub matched : CapabilitySpec → List Entry → List Entry
matched spec entries = select (λ (e : Entry). matches spec e.check.id) entries

pub resolve : CapabilitySpec → List Entry → Capability
unfolding row_for
resolve spec entries = let ev = weigh_entries (matched spec entries) in row_for spec ev ev.status

pub capabilities : List Entry → List Capability
unfolding resolve
capabilities entries = map (λ spec. resolve spec entries) capability_specs
