-- ===== src/Tests/Clients.antt =====
-- Runs of the registration and of the plan.
use aoa_conformance.Prelude.{
  String, Bool, ◌≡◌, refl, true, false, none, some, List, [], ◌∷◌, ◌||◌, ◌&&◌, not, ◌==◌,
}
use aoa_conformance.Model.{contains}
use aoa_conformance.Http.ClientAuth.{
  auth_client_secret_post, auth_client_secret_basic, auth_none, implements_client_auth,
}
use aoa_conformance.Register.{
  RegisterInput, register, registration_members, delete_registration, texts, text,
}
use aoa_conformance.Register.Results.{Issues, register-Issues}
use aoa_conformance.Resolve.{
  resolve, resolve_token_auth_method, registered_auth_method, registration_application_type,
  registration_grant_types,
}
use aoa_conformance.Resolve.Cases.{Planned, resolve_cases}
use aoa_conformance.Resolve.Methods.{
  resolve_token_auth_method-advertised, registered_auth_method-implemented,
}
use aoa_conformance.Cli.{cleanup_registration}
use aoa_conformance.Cli.Cleanup.{cleanup_registration-supplied}
use aoa_conformance.Tests.{
  Log, answers, sample_library, options_for, advertised, issued_client, server_target,
}

abbrev request : RegisterInput
request = record {
  registration_endpoint = "https://as.example/register";
  redirect_uris = "http://127.0.0.1:8765/callback" ∷ [];
  grant_types = [];
  token_endpoint_auth_method = "none";
  scope = "";
  application_type = "native";
  client_name = "";
  initial_access_token = "";
}

abbrev no_requests : Log
no_requests = []

register-Issues_example :
    Issues sample_library
      (answers 201 "{}")
      request
      no_requests
      (register sample_library (answers 201 "{}") request no_requests).0
register-Issues_example = register-Issues sample_library (answers 201 "{}") request no_requests

registration_members_omit : registration_members request ≡ (
    texts "redirect_uris" ("http://127.0.0.1:8765/callback" ∷ [])
    ∷ text "token_endpoint_auth_method" "none"
    ∷ text "application_type" "native"
    ∷ [])
unfolding registration_members
registration_members_omit = refl

abbrev is_loopback : String → Bool
is_loopback host = host == "127.0.0.1"

resolve_cases_example :
    Planned sample_library is_loopback (answers 201 "{}") advertised (options_for "") no_requests (
      resolve sample_library is_loopback (answers 201 "{}") advertised (options_for "") no_requests)
resolve_cases_example =
    resolve_cases sample_library is_loopback (answers 201 "{}") advertised (options_for "")
      no_requests

abbrev methods : List String
methods = "private_key_jwt" ∷ "none" ∷ []

resolve_token_auth_method-advertised_example :
    (contains methods auth_client_secret_post
      || contains methods auth_client_secret_basic
      || (not false && contains methods auth_none))
    ≡ contains methods (resolve_token_auth_method "" methods false)
resolve_token_auth_method-advertised_example = resolve_token_auth_method-advertised methods false

registered_auth_method-implemented_example :
    implements_client_auth (registered_auth_method "" issued_client methods) ≡ true
registered_auth_method-implemented_example =
    registered_auth_method-implemented issued_client methods

cleanup_registration-supplied_example :
    cleanup_registration
      (answers 201 "{}")
      (record server_target {
        plan =
            (resolve sample_library is_loopback
              (answers 201 "{}")
              advertised
              (options_for "mine")
              no_requests).0;
      })
      no_requests
    ≡ no_requests
cleanup_registration-supplied_example =
    cleanup_registration-supplied sample_library is_loopback (answers 201 "{}") advertised
      (options_for "mine")
      (record server_target {
        plan =
            (resolve sample_library is_loopback (answers 201 "{}") advertised (options_for "mine")
              no_requests).0;
      })
      no_requests no_requests refl refl

delete_registration_blank : delete_registration (answers 204 "") "  " "rat" [] ≡ (none, [])
unfolding delete_registration
delete_registration_blank = refl

grant_types_offered :
    registration_grant_types ("refresh_token" ∷ "authorization_code" ∷ [])
    ≡ ("authorization_code" ∷ [])
unfolding registration_grant_types
grant_types_offered = refl

application_type_loopback :
    registration_application_type
      (λ raw. some (record { scheme = "http"; host = "127.0.0.1:1"; hostname = "127.0.0.1" }))
      is_loopback
      ("http://127.0.0.1:1/callback" ∷ [])
    ≡ "native"
unfolding registration_application_type
application_type_loopback = refl
