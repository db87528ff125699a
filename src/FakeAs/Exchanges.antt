-- ===== src/FakeAs/Exchanges.antt =====
-- internal/fakeas/as.go: the token exchange of RFC 8693 (`handleExchange`): impersonation, delegation
-- with may_act and a nested act, the resource and the scope.
use aoa_conformance.Prelude.{
  String, ℕ, Bool, true, false, Option, none, some, ◌&&◌, not, ◌==◌, is_empty, nat_eq,
  if◌then◌else◌,
}
use aoa_conformance.Prelude.Json.{
  Json, Members, empty, member, null, bool, num, str, arr, obj, lookup, set_member, or_null,
}
use aoa_conformance.Prelude.Text.{◌&◌}
use aoa_conformance.Http.Form.{get_value}
use aoa_conformance.FakeAs.{Violations, Environment, Request, Served, token_error}
use aoa_conformance.FakeAs.Discovery.{put_if}
use aoa_conformance.FakeAs.Tokens.{bind_cnf, mint_token, token_type, answered, refuse}

abbrev equal_bool : Bool → Bool → Bool
equal_bool true b = b
equal_bool false b = not b

-- `==` of Go on two values of type `any`; `none` is the panic on two maps or two lists.
abbrev same_json : Json → Json → Option Bool
same_json null null = some true
same_json (bool a) (bool b) = some (equal_bool a b)
same_json (num a) (num b) = some (nat_eq a b)
same_json (str a) (str b) = some (a == b)
same_json (arr _) (arr _) = none
same_json (obj _) (obj _) = none
same_json _ _ = some false

-- `ma["sub"] != actor["sub"]` compares nil where a key is missing.
unfoldable pub same_sub : Members → Members → Option Bool
unfolding lookup
same_sub ma actor = same_json (or_null (lookup "sub" ma)) (or_null (lookup "sub" actor))

abbrev pub permitted_by : Option Json → Members → Option Bool
permitted_by (some (obj ma)) actor = same_sub ma actor
permitted_by _ actor = some true

abbrev pub nested : Option Json → Members → Members
nested (some (obj existing)) act = set_member "act" (obj existing) act
nested _ act = act

-- The subject's name: "alice" for none, and `none` for the panic on a name that is not a text.
abbrev pub name_in : Option Json → Option String
name_in none = some "alice"
name_in (some null) = some "alice"
name_in (some (str name)) = some name
name_in (some _) = none

-- The answer of an exchange.
unfoldable pub exchange_document : Option String → String → String → Members
unfolding set_member
exchange_document proof scope token = put_if (not (is_empty scope)) "scope" (str scope) (
    member "access_token" (str token) (
      member "issued_token_type" (str "urn:ietf:params:oauth:token-type:access_token")
        (member "token_type" (str (token_type proof)) empty)))

module _ (env : Environment) (v : Violations) where
  -- `may_act` of the subject, unless the violation disables it.
  unfoldable pub may_act : Members → Members → Option Bool
  unfolding lookup same_sub
  may_act subject actor =
      if v.ignore_may_act then some true else permitted_by (lookup "may_act" subject) actor

  -- The claims with the act claim of a delegation.
  unfoldable pub with_act : Members → Members → Members → Members
  unfolding lookup set_member
  with_act subject actor out =
      let act = member "sub" (or_null (lookup "sub" actor)) empty in
      if v.omit_act
      then out
      else if v.forge_act_chain
      then set_member "act" (obj act) out
      else set_member "act" (obj (nested (lookup "act" subject) act)) out

  -- The scope of the answer.
  unfoldable pub exchanged_scope : String → String
  exchanged_scope scope =
      if is_empty scope then "" else if v.widen_scope then scope & " write admin" else scope

  -- The claims of the issued token, after the act claim.
  unfoldable pub exchange_claims : Request → Option String → Members → Members
  unfolding get_value set_member bind_cnf
  exchange_claims r proof out =
      let resource = get_value "resource" r.form in
      bind_cnf v proof
        (put_if (not (is_empty resource) && not v.ignore_resource_param) "aud" (str resource) out)

  unfoldable pub issue : Request → Option String → Members → ℕ → Served ℕ
  unfolding get_value exchange_claims exchanged_scope exchange_document mint_token
  issue r proof out n =
      answered (exchange_document proof (exchanged_scope (get_value "scope" r.form)))
        (mint_token env (exchange_claims r proof out) n)

  abbrev pub on_permission : Option Bool → Request → Option String → Members → ℕ → Served ℕ
  on_permission none r proof out n = (none, n)
  on_permission (some false) r proof out n =
      refuse env v 400 "invalid_grant" "actor not permitted by may_act" n
  on_permission (some true) r proof out n = issue r proof out n

  abbrev pub on_actor : Option Members → Members → Request → Option String → Members → ℕ → Served ℕ
  on_actor none subject r proof out n = refuse env v 400 "invalid_grant" "bad actor_token" n
  on_actor (some actor) subject r proof out n =
      on_permission (may_act subject actor) r proof (with_act subject actor out) n

  unfoldable pub delegate : Members → Request → Option String → Members → ℕ → Served ℕ
  unfolding get_value token_error may_act with_act issue
  delegate subject r proof out n =
      let actor_tok = get_value "actor_token" r.form in
      if is_empty actor_tok
      then issue r proof out n
      else on_actor (env.verify actor_tok) subject r proof out n

  abbrev pub on_name : Option String → Members → Request → Option String → ℕ → Served ℕ
  on_name none subject r proof n = (none, n)
  on_name (some sub) subject r proof n = delegate subject r proof (member "sub" (str sub) empty) n

  unfoldable pub on_subject : Option Members → Request → Option String → ℕ → Served ℕ
  unfolding lookup token_error delegate
  on_subject none r proof n =
      if v.accept_bad_subject
      then on_name (some "alice") empty r proof n
      else refuse env v 400 "invalid_grant" "bad subject_token" n
  on_subject (some subject) r proof n = on_name (name_in (lookup "sub" subject)) subject r proof n

  -- `handleExchange`
  unfoldable pub handle_exchange : Request → Option String → ℕ → Served ℕ
  unfolding get_value token_error on_subject
  handle_exchange r proof n =
      let actor_tok = get_value "actor_token" r.form in
      if v.no_token_exchange
      then refuse env v 400 "unsupported_grant_type" "token exchange not supported" n
      else if v.fail_impersonation && is_empty actor_tok
      then refuse env v 400 "invalid_request" "impersonation refused" n
      else if v.reject_delegation && not (is_empty actor_tok)
      then refuse env v 400 "invalid_request" "delegation refused" n
      else on_subject (env.verify (get_value "subject_token" r.form)) r proof n
