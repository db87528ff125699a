-- ===== src/Http/Form/Laws.antt =====
-- What a form holds after a field was set.
use aoa_conformance.Prelude.{String, ◌≡◌, [], ◌∷◌, ◌==◌, arith, eq_iff, if◌then◌else◌}
use aoa_conformance.Http.Form.{Form, values_of, set_value}

-- Setting a name replaces its values and leaves every other name as it was.
pub values_of-set_value :
    (k name v : String) (form : Form)
    → values_of k (set_value name v form) ≡ (if name == k then v ∷ [] else values_of k form)
unfolding values_of set_value
values_of-set_value k name v [] = ground arith
values_of-set_value k name v (f ∷ fs) =
    ground (
      arith,
      values_of-set_value k name v fs,
      eq_iff (f.name) name,
      eq_iff name k,
      eq_iff (f.name) k,
    )
