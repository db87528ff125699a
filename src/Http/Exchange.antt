-- ===== src/Http/Exchange.antt =====
-- probe/exchange.go: the form of an RFC 8693 token exchange.
use aoa_conformance.Prelude.{String, is_empty, List, [], ◌∷◌, if◌then◌else◌}
use aoa_conformance.Prelude.Text.{◌&◌, join}
use aoa_conformance.Model.{non_nil}
use aoa_conformance.Http.Form.{Form, set_value, add_value}

abbrev pub grant_token_exchange : String
grant_token_exchange = "urn:ietf:params:oauth:grant-type:token-exchange"

pub record ExchangeInput : Type 0 where
  pub subject_token : String
  pub subject_token_type : String
  pub actor_token : String
  pub actor_token_type : String
  pub audience : List String
  pub resource : List String
  pub scope : List String
  pub requested_token_type : String

abbrev pub token_type_uri : String → String
token_type_uri short = if is_empty short then "" else "urn:ietf:params:oauth:token-type:" & short

-- `joinSpace`: the loop writes a space before every element but the first.
abbrev pub join_space : List String → String
join_space ss = join " " ss

-- `if t := tokenTypeURI(short); t != "" { v.Set(name, t) }`
abbrev set_type : String → String → Form → Form
set_type name short form =
    if is_empty (token_type_uri short) then form else set_value name (token_type_uri short) form

add_all : String → List String → Form → Form
add_all name [] form = form
add_all name (v ∷ vs) form = add_all name vs (add_value name v form)

-- The fields that an actor adds.
abbrev set_actor : ExchangeInput → Form → Form
set_actor input form =
    if is_empty input.actor_token
    then form
    else set_type "actor_token_type" input.actor_token_type
        (set_value "actor_token" input.actor_token form)

abbrev set_scope : ExchangeInput → Form → Form
set_scope input form =
    if non_nil input.scope then set_value "scope" (join_space input.scope) form else form

-- `ExchangeForm`
unfoldable pub exchange_form : ExchangeInput → Form
unfolding add_all set_value add_value join
exchange_form input =
    let v =
      set_value "subject_token" input.subject_token
        (set_value "grant_type" grant_token_exchange []) in
    let v = set_type "subject_token_type" input.subject_token_type v in
    let v = set_actor input v in
    let v = add_all "resource" input.resource (add_all "audience" input.audience v) in
    set_type "requested_token_type" input.requested_token_type (set_scope input v)
