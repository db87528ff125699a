-- ===== src/Resolve/Methods.antt =====
-- How the client of a run authenticates.
use aoa_conformance.Prelude.{
  String, ◌||◌, ◌&&◌, ◌≡◌, refl, Bool, true, false, List, not, is_empty, if◌then◌else◌,
}
use aoa_conformance.Model.{contains}
use aoa_conformance.Register.{RegisterResult}
use aoa_conformance.Http.ClientAuth.{
  auth_client_secret_post, auth_client_secret_basic, auth_none, implements_client_auth,
}
use aoa_conformance.Resolve.{registered_auth_method, resolve_token_auth_method}

abbrev choice : Bool → Bool → Bool → String
choice n p b =
    if n
    then auth_none
    else if p
    then auth_client_secret_post
    else if b
    then auth_client_secret_basic
    else auth_client_secret_post

choice-implemented : (n p b : Bool) → implements_client_auth (choice n p b) ≡ true
choice-implemented true p b = refl
choice-implemented false true b = refl
choice-implemented false false true = refl
choice-implemented false false false = refl

choice-advertised :
    (advertised : List String) (s n p b : Bool)
    → n ≡ contains advertised auth_none
    → p ≡ contains advertised auth_client_secret_post
    → b ≡ contains advertised auth_client_secret_basic
    → (p || b || (s && n)) ≡ contains advertised (choice (s && n) p b)
choice-advertised advertised true true true b hn hp hb = hn
choice-advertised advertised true false true b hn hp hb = hp
choice-advertised advertised false n true b hn hp hb = hp
choice-advertised advertised true true false true hn hp hb = hn
choice-advertised advertised true false false true hn hp hb = hb
choice-advertised advertised false n false true hn hp hb = hb
choice-advertised advertised true true false false hn hp hb = hn
choice-advertised advertised true false false false hn hp hb = hp
choice-advertised advertised false n false false hn hp hb = hp

resolve_token_auth_method-implemented :
    (advertised : List String) (has_secret : Bool)
    → implements_client_auth (resolve_token_auth_method "" advertised has_secret) ≡ true
unfolding resolve_token_auth_method
resolve_token_auth_method-implemented advertised has_secret =
    choice-implemented (not has_secret && contains advertised auth_none)
      (contains advertised auth_client_secret_post) (contains advertised auth_client_secret_basic)

-- With no override, the method is one that the server advertises, exactly when the server
-- advertises one that suits the client: a secret method, or none for a client without a secret.
pub resolve_token_auth_method-advertised :
    (advertised : List String) (has_secret : Bool)
    → (contains advertised auth_client_secret_post
        || contains advertised auth_client_secret_basic
        || (not has_secret && contains advertised auth_none))
      ≡ contains advertised (resolve_token_auth_method "" advertised has_secret)
unfolding resolve_token_auth_method
resolve_token_auth_method-advertised advertised has_secret =
    choice-advertised advertised (not has_secret) _ _ _ refl refl refl

implemented-if :
    (b : Bool) (x y : String)
    → (b ≡ true → implements_client_auth x ≡ true)
    → implements_client_auth y ≡ true
    → implements_client_auth (if b then x else y) ≡ true
implemented-if true x y hx hy = hx refl
implemented-if false x y hx hy = hy

-- Without an override, the method of a registered client is one that the program can perform,
-- whatever method the server echoes.
pub registered_auth_method-implemented :
    (res : RegisterResult) (advertised : List String)
    → implements_client_auth (registered_auth_method "" res advertised) ≡ true
unfolding registered_auth_method
registered_auth_method-implemented res advertised =
    implemented-if (implements_client_auth res.token_endpoint_auth_method) _ _ (λ h. h)
      (resolve_token_auth_method-implemented advertised (not (is_empty res.client_secret)))
