-- ===== src/Prelude/Json.antt =====
-- JSON values as Go's `encoding/json` gives them to `any`: an object is its members, in the order of
-- writing, and a number is a natural one, since no code here reads another.
use Prim.Native.String.{String}
use Prim.Native.Nat.{ℕ}
use mathlib.Core.Bool.{Bool, true, false}
use mathlib.Core.List.{List, [], ◌∷◌}
use mathlib.Core.Option.{Option, none, some}
use mathlib.Core.Path.{◌≡◌, refl}
use native.Mathlib.Omega.{arith}
use text.Mathlib.Text.{◌==◌}
use text.Mathlib.TextEquality.{eq_iff}

mutual
  pub data Json : Type 0 where
    null : Json
    bool : Bool → Json
    num : ℕ → Json
    str : String → Json
    arr : Elements → Json
    obj : Members → Json

  pub data Elements : Type 0 where
    end : Elements
    item : Json → Elements → Elements

  pub data Members : Type 0 where
    empty : Members
    member : String → Json → Members → Members

abbrev elements : List String → Elements
elements [] = end
elements (s ∷ ss) = item (str s) (elements ss)

-- A `[]string` in a document.
abbrev pub strings : List String → Json
strings ss = arr (elements ss)

abbrev one_of {ℓ} : {A : Type ℓ} → Bool → A → A → A
one_of true x y = x
one_of false x y = y

-- `m[k]`, where a missing key is `none`.
unfoldable pub lookup : String → Members → Option Json
lookup k empty = none
lookup k (member name value rest) = one_of (name == k) (some value) (lookup k rest)

-- `m[k] = v`
unfoldable pub set_member : String → Json → Members → Members
set_member k v empty = member k v empty
set_member k v (member name value rest) =
    one_of (name == k) (member name v rest) (member name value (set_member k v rest))

-- `delete(m, k)`
unfoldable pub delete_member : String → Members → Members
delete_member k empty = empty
delete_member k (member name value rest) =
    one_of (name == k) (delete_member k rest) (member name value (delete_member k rest))

-- `m[k] == nil`
abbrev pub is_nil : Option Json → Bool
is_nil none = true
is_nil (some null) = true
is_nil (some _) = false

-- The value of `m[k]` where it is written into another document.
abbrev pub or_null : Option Json → Json
or_null none = null
or_null (some v) = v

pub lookup-set_member :
    (j k : String) (v : Json) (m : Members)
    → lookup j (set_member k v m) ≡ one_of (k == j) (some v) (lookup j m)
unfolding lookup set_member
lookup-set_member j k v empty = refl
lookup-set_member j k v (member name value rest) =
    ground (arith, lookup-set_member j k v rest, eq_iff name k, eq_iff name j, eq_iff k j)
