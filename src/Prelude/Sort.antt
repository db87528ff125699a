-- ===== src/Prelude/Sort.antt =====
-- `sort.Strings`: texts in the order of their code points, which is the order of their UTF-8 bytes.
use Prim.Native.Nat.{ℕ, compare, Ordering}
use Prim.Native.Char.{code}
use Prim.Native.String.{String}
use mathlib.Core.Path.{◌≡◌, refl}
use mathlib.Core.Bool.{Bool, true, false}
use mathlib.Core.Logic.{inl, inr}
use mathlib.Core.List.{List, [], ◌∷◌, Perm}
use mathlib.Core.List.Perm
use native.Mathlib.Omega.{arith}
use aoa_conformance.Prelude.Lists.{Bool-cases, all}

abbrev pub codes : String → List ℕ
codes String.[] = []
codes (String.◌∷◌ c s) = code c ∷ codes s

codes_le : List ℕ → List ℕ → Bool
codes_le [] ys = true
codes_le (x ∷ xs) [] = false
codes_le (x ∷ xs) (y ∷ ys) =
    let rest = codes_le xs ys in
    elim (compare x y) [ Ordering.lt ↦ true | Ordering.eq ↦ rest | Ordering.gt ↦ false ]

codes_le_total : (xs ys : List ℕ) → codes_le xs ys ≡ false → codes_le ys xs ≡ true
unfolding codes_le
codes_le_total [] ys h = cc
codes_le_total (x ∷ xs) [] h = refl
codes_le_total (x ∷ xs) (y ∷ ys) h = ground (arith, codes_le_total xs ys)

codes_le_trans :
    (xs ys zs : List ℕ) → codes_le xs ys ≡ true → codes_le ys zs ≡ true → codes_le xs zs ≡ true
unfolding codes_le
codes_le_trans [] ys zs h k = refl
codes_le_trans (x ∷ xs) [] zs h k = cc
codes_le_trans (x ∷ xs) (y ∷ ys) [] h k = cc
codes_le_trans (x ∷ xs) (y ∷ ys) (z ∷ zs) h k = ground (arith, codes_le_trans xs ys zs)

-- Go's `a <= b` on strings.
unfoldable pub str_le : String → String → Bool
unfolding codes_le
str_le a b = codes_le (codes a) (codes b)

pub str_le_total : (a b : String) → str_le a b ≡ false → str_le b a ≡ true
unfolding str_le
str_le_total a b = codes_le_total (codes a) (codes b)

pub str_le_trans : (a b c : String) → str_le a b ≡ true → str_le b c ≡ true → str_le a c ≡ true
unfolding str_le
str_le_trans a b c = codes_le_trans (codes a) (codes b) (codes c)

choose : Bool → List String → List String → List String
choose true xs ys = xs
choose false xs ys = ys

insert : String → List String → List String
unfolding choose
insert a [] = a ∷ []
insert a (x ∷ xs) = choose (str_le a x) (a ∷ x ∷ xs) (x ∷ insert a xs)

unfoldable pub sort_strings : List String → List String
unfolding insert
sort_strings [] = []
sort_strings (x ∷ xs) = insert x (sort_strings xs)

insert-perm : (a : String) (xs : List String) → Perm (insert a xs) (a ∷ xs)
unfolding insert
insert-perm a [] = Perm.refl (a ∷ [])
insert-perm a (x ∷ xs) = elim (Bool-cases (str_le a x)) [
  | inl before ↦ rw before (Perm.refl (a ∷ x ∷ xs))
  | inr after ↦ rw after (Perm.trans (Perm.cons x (insert-perm a xs)) (Perm.swap a x xs))
]

-- Sorting keeps the texts, as often as they come.
pub sort_strings-perm : (xs : List String) → Perm (sort_strings xs) xs
unfolding sort_strings
sort_strings-perm [] = Perm.refl []
sort_strings-perm (x ∷ xs) =
    Perm.trans (insert-perm x (sort_strings xs)) (Perm.cons x (sort_strings-perm xs))

-- Each text is at most all that come after it.
abbrev pub IsSorted : List String → Type 0
IsSorted [] = Unit
IsSorted (x ∷ xs) = (all (str_le x) xs ≡ true) × IsSorted xs

all_trans :
    (a x : String) (xs : List String)
    → str_le a x ≡ true
    → all (str_le x) xs ≡ true
    → all (str_le a) xs ≡ true
all_trans a x [] h k = refl
all_trans a x (y ∷ ys) h k = ground (arith, all_trans a x ys h, str_le_trans a x y h)

all-insert :
    (y a : String) (xs : List String)
    → str_le y a ≡ true
    → all (str_le y) xs ≡ true
    → all (str_le y) (insert a xs) ≡ true
unfolding insert
all-insert y a [] h k = ground arith
all-insert y a (x ∷ xs) h k = ground (arith, all-insert y a xs h)

insert-IsSorted : (a : String) (xs : List String) → IsSorted xs → IsSorted (insert a xs)
unfolding insert
insert-IsSorted a [] s = (refl, tt)
insert-IsSorted a (x ∷ xs) (below, s) = elim (Bool-cases (str_le a x)) [
  | inl before ↦ rw before (ground (arith, before, all_trans a x xs before below), (below, s))
  | inr after ↦ rw after (all-insert x a xs (str_le_total a x after) below, insert-IsSorted a xs s)
]

pub sort_strings-IsSorted : (xs : List String) → IsSorted (sort_strings xs)
unfolding sort_strings
sort_strings-IsSorted [] = tt
sort_strings-IsSorted (x ∷ xs) = insert-IsSorted x (sort_strings xs) (sort_strings-IsSorted xs)
