-- ===== src/Http/ClientAuth.antt =====
-- probe/clientauth.go: how a token request authenticates its client. base64 is a parameter.
pub mod Secret
use aoa_conformance.Prelude.{String, Bool, ◌==◌, ◌||◌, ◌&&◌, not, is_empty, [], ◌∷◌, if◌then◌else◌}
use aoa_conformance.Prelude.Text.{◌&◌}
use aoa_conformance.Http.{Headers}
use aoa_conformance.Http.Form.{Form, set_value}

abbrev pub auth_client_secret_post : String
auth_client_secret_post = "client_secret_post"

abbrev pub auth_client_secret_basic : String
auth_client_secret_basic = "client_secret_basic"

abbrev pub auth_none : String
auth_none = "none"

-- `ImplementsClientAuth`
abbrev pub implements_client_auth : String → Bool
implements_client_auth m =
    m == auth_client_secret_post || m == auth_client_secret_basic || m == auth_none

-- `ApplyClientAuth` changes the form and returns headers; here it returns both.
unfoldable pub apply_client_auth :
    (String → String) → Form → String → String → String → Form × Headers
apply_client_auth base64 form method client_id client_secret =
    if method == auth_none
    then (set_value "client_id" client_id form, [])
    else if method == auth_client_secret_basic && not (is_empty client_secret)
    then (form, ("Authorization", "Basic " & base64 (client_id & ":" & client_secret)) ∷ [])
    else if is_empty client_secret
    then (set_value "client_id" client_id form, [])
    else (set_value "client_secret" client_secret (set_value "client_id" client_id form), [])
