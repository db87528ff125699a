-- ===== src/Checks/Refresh.antt =====
-- conformance/checks_sep2207.go: a refresh with one scope less must not bring a scope back.
pub mod Narrow
use aoa_conformance.Prelude.{
  String, ℕ, Bool, true, false, Option, none, some, List, [], ◌∷◌, not, is_empty, ltb,
  if◌then◌else◌,
}
use aoa_conformance.Prelude.Json.{lookup}
use aoa_conformance.Prelude.Lists.{length, all}
use aoa_conformance.Prelude.Result.{Result, ok, err}
use aoa_conformance.Prelude.Scan.{fields}
use aoa_conformance.Prelude.Text.{◌&◌, join}
use aoa_conformance.Model.{
  profile_2026_07, should, CheckResult, Target, hint, contains, untested_for,
}
use aoa_conformance.Http.{Response, post_form}
use aoa_conformance.Http.ClientAuth.{apply_client_auth}
use aoa_conformance.Http.Form.{Form, set_value}
use aoa_conformance.Gate.{Check, Gate, needs, unless, token_endpoint}
use aoa_conformance.Checks.{
  Kit, passed, failed, errored, left_untested, described, text_at, client_auth_of, post,
}

-- `granted[:len(granted)-1]`
abbrev pub all_but_last : List String → List String
all_but_last [] = []
all_but_last (s ∷ []) = []
all_but_last (s ∷ u ∷ more) = s ∷ all_but_last (u ∷ more)

-- The scopes of the request: the granted ones but for the last.
unfoldable pub narrowed_scope : Target → List String
narrowed_scope t = all_but_last (fields (hint "granted_scope" t.hints))

-- The form of the refresh, before the client is authenticated.
unfoldable pub refresh_form : Target → Form
unfolding set_value narrowed_scope join
refresh_form t =
    set_value "scope" (join " " (narrowed_scope t))
      (set_value "refresh_token" t.creds.refresh_token (set_value "grant_type" "refresh_token" []))

-- The loop over the returned scopes.
abbrev pub stays_within : List String → List String → Bool
stays_within allowed returned = all (λ (s : String). contains allowed s) returned

abbrev refresh_token_held : Gate
refresh_token_held t =
    unless (not (is_empty t.creds.refresh_token))
      (untested_for "no refresh token; needs --auth-code with an offline-capable scope")

module _ {W : Type 0} (kit : Kit W) where
  abbrev pub returned_scope : Response → String
  returned_scope r = text_at (lookup "scope" (kit.json r.body))

  unfoldable pub judge_refresh : Target → Result String Response → CheckResult
  judge_refresh t (err e) = errored ("refresh request failed: " & e) ""
  judge_refresh t (ok r) =
      if not (stays_within (narrowed_scope t) (fields (returned_scope r)))
      then failed
          ("refresh widened scope: returned "
            & returned_scope r
            & " exceeds requested "
            & join " " (narrowed_scope t))
          r.evidence
      else passed ("refresh honored the narrowed scope: " & returned_scope r) r.evidence

  -- The request for the refresh.
  unfoldable pub send_refresh : Target → W → Result String Response × W
  unfolding refresh_form apply_client_auth post_form
  send_refresh t w = post kit t.discovered.token_endpoint (client_auth_of kit t (refresh_form t)) w

  abbrev judged_refresh : Target → Result String Response × W → CheckResult × W
  judged_refresh t (answer, w) = (judge_refresh t answer, w)

  -- `runRefreshScope`
  unfoldable pub run_refresh_scope : Target → W → CheckResult × W
  run_refresh_scope t w =
      if ltb (length (fields (hint "granted_scope" t.hints))) 2
      then (
        left_untested
            ("need at least two granted scopes to test narrowing; granted="
              & hint "granted_scope" t.hints)
            "",
        w,
      )
      else judged_refresh t (send_refresh t w)

  -- `registerSEP2207`
  unfoldable pub register_sep2207 : List (Check W)
  unfolding run_refresh_scope
  register_sep2207 =
      described "sep2207.refresh.scope_semantics" profile_2026_07 "SEP-2207" "refresh scope" should
        "a refresh with a narrowed scope is honored without widening (RFC 6749 §6)"
        (some (needs (token_endpoint ∷ refresh_token_held ∷ []))) run_refresh_scope
      ∷ []
