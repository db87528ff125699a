-- ===== src/Http/Form.antt =====
-- `url.Values` as the program uses it (probe/http.go, probe/clientauth.go, probe/exchange.go): a
-- map from names to lists of values. `Encode` orders by name and escapes, and is a parameter of
-- the code that posts a form.
pub mod Laws
use aoa_conformance.Prelude.{String, List, [], ◌∷◌, ◌++◌, ◌==◌, if◌then◌else◌}

pub record FormField : Type 0 where
  pub name : String
  pub values : List String

abbrev pub Form : Type 0
Form = List FormField

-- All values of a name.
unfoldable pub values_of : String → Form → List String
values_of k [] = []
values_of k (f ∷ fs) = if f.name == k then f.values else values_of k fs

abbrev first_value : List String → String
first_value [] = ""
first_value (v ∷ vs) = v

-- `Values.Get`
unfoldable pub get_value : String → Form → String
unfolding values_of
get_value k f = first_value (values_of k f)

-- `Values.Set`
unfoldable pub set_value : String → String → Form → Form
set_value k v [] = record { name = k; values = v ∷ [] } ∷ []
set_value k v (f ∷ fs) =
    if f.name == k then record f { values = v ∷ [] } ∷ fs else f ∷ set_value k v fs

-- `Values.Add`
unfoldable pub add_value : String → String → Form → Form
add_value k v [] = record { name = k; values = v ∷ [] } ∷ []
add_value k v (f ∷ fs) =
    if f.name == k then record f { values = f.values ++ v ∷ [] } ∷ fs else f ∷ add_value k v fs

-- `FormString`, on the pairs that its arguments make.
unfoldable pub form_string : List (String × String) → Form → Form
unfolding set_value
form_string [] form = form
form_string ((k, v) ∷ rest) form = form_string rest (set_value k v form)
