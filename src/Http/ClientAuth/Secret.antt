-- ===== src/Http/ClientAuth/Secret.antt =====
-- Where a client's secret goes.
use aoa_conformance.Prelude.{
  String, ◌≡◌, Bool, [], ◌∷◌, ◌==◌, ◌||◌, ◌&&◌, not, arith, is_empty, if◌then◌else◌,
}
use aoa_conformance.Prelude.Text.{◌&◌}
use aoa_conformance.Http.{Headers}
use aoa_conformance.Http.Form.{Form, values_of, set_value}
use aoa_conformance.Http.Form.Laws.{values_of-set_value}
use aoa_conformance.Http.ClientAuth.{auth_none, auth_client_secret_basic, apply_client_auth}

-- A client that has no secret to send, or must not send it.
abbrev pub is_public : String → String → Bool
is_public method secret = method == auth_none || is_empty secret

abbrev pub uses_header : String → String → Bool
uses_header method secret = not (is_public method secret) && method == auth_client_secret_basic

-- What is sent, described by where the id and the secret are.
pub record IsSent (base64 : String → String) (form : Form) (method client_id secret : String)
    (sent : Form × Headers) : Type 0 where
  pub form_secret :
      values_of "client_secret" sent.0
      ≡ (if is_public method secret || uses_header method secret then [] else secret ∷ [])
  pub form_id :
      values_of "client_id" sent.0
      ≡ (if uses_header method secret then values_of "client_id" form else client_id ∷ [])
  pub header : sent.1 ≡ (
      if uses_header method secret
      then ("Authorization", "Basic " & base64 (client_id & ":" & secret)) ∷ []
      else [])

-- On a form without a secret: a public client sends its id in the form and no secret anywhere; with
-- client_secret_basic the id and the secret are in the header alone; with any other method they
-- are in the form alone.
pub apply_client_auth-IsSent :
    (base64 : String → String) (form : Form) (method client_id secret : String)
    → values_of "client_secret" form ≡ []
    → IsSent base64 form method client_id secret
        (apply_client_auth base64 form method client_id secret)
unfolding apply_client_auth
apply_client_auth-IsSent base64 form method client_id secret bare =
    let named = set_value "client_id" client_id form in
    let kept = values_of-set_value "client_secret" "client_id" client_id form in
    let id_set = values_of-set_value "client_id" "client_id" client_id form in
    let id_kept = values_of-set_value "client_id" "client_secret" secret named in
    let secret_set = values_of-set_value "client_secret" "client_secret" secret named in
    record {
      form_secret = ground (arith, bare, kept, secret_set);
      form_id = ground (arith, id_set, id_kept);
      header = ground arith;
    }
