-- ===== src/Mcp/Versions.antt =====
-- The version that a retry asks for.
use aoa_conformance.Prelude.{
  String, ◌≡◌, refl, ap, sym, ◌∙◌, Bool, true, false, ◌⊎◌, inl, inr, List, [], ◌∷◌, arith,
  Bool-cases, ◌&&◌, eq_iff, ◌==◌, not,
}
use aoa_conformance.Prelude.Lists.{any-select, select_none, select, any, all, any-perm}
use aoa_conformance.Prelude.Sort.{
  str_le, str_le_total, sort_strings, sort_strings-perm, sort_strings-IsSorted, IsSorted,
}
use aoa_conformance.Mcp.{version_modern, last_of, highest_modern_version}

str_le_refl : (a : String) → str_le a a ≡ true
str_le_refl a = elim (Bool-cases (str_le a a)) [ inl h ↦ h | inr h ↦ str_le_total a a h ]

last-hit :
    (p : String → Bool) (x : String) (xs : List String)
    → any (λ v. not (p v)) (x ∷ xs) ≡ false
    → p (last_of (x ∷ xs)) ≡ true
unfolding last_of
last-hit p x [] h = ground arith
last-hit p x (y ∷ ys) h = last-hit p y ys (ground arith)

last-known : (x : String) (xs : List String) → any (λ v. v == last_of (x ∷ xs)) (x ∷ xs) ≡ true
unfolding last_of
last-known x [] = ground (arith, eq_iff x x)
last-known x (y ∷ ys) = ground (arith, last-known y ys)

any-not_of_all :
    (p : String → Bool) (xs : List String) → all p xs ≡ true → any (λ v. not (p v)) xs ≡ false
any-not_of_all p [] h = refl
any-not_of_all p (x ∷ xs) h = ground (arith, any-not_of_all p xs)

-- The last of a sorted list is at least each of its texts.
last-largest : (xs : List String) → IsSorted xs → any (λ v. not (str_le v (last_of xs))) xs ≡ false
unfolding last_of
last-largest [] s = refl
last-largest (x ∷ []) s = ground (arith, str_le_refl x)
last-largest (x ∷ y ∷ ys) (below, s) = ground (
  arith,
  last-largest (y ∷ ys) s,
  last-hit (str_le x) y ys (any-not_of_all (str_le x) (y ∷ ys) below),
)

abbrev is_modern : String → Bool
is_modern v = str_le version_modern v

-- What is asked of the highest of some versions.
abbrev pub IsHighest : String → List String → Type 0
IsHighest h vs =
    (is_modern h ≡ true)
    × (any (λ v. v == h) vs ≡ true)
    × (any (λ v. is_modern v && not (str_le v h)) vs ≡ false)

any-weaken :
    (p q : String → Bool) (xs : List String) → any q xs ≡ false → any (λ v. p v && q v) xs ≡ false
any-weaken p q [] h = refl
any-weaken p q (x ∷ xs) h = ground (arith, any-weaken p q xs)

last-IsHighest :
    (xs : List String)
    → IsSorted xs
    → any is_modern xs ≡ true
    → any (λ v. not (is_modern v)) xs ≡ false
    → IsHighest (last_of xs) xs
last-IsHighest [] s some_modern all_modern = cc
last-IsHighest (x ∷ xs) s some_modern all_modern = (
  last-hit is_modern x xs all_modern,
  last-known x xs,
  any-weaken is_modern (λ v. not (str_le v (last_of (x ∷ xs)))) (x ∷ xs) (last-largest (x ∷ xs) s),
)

any-contradiction : (p : String → Bool) (xs : List String) → any (λ v. p v && not (p v)) xs ≡ false
any-contradiction p [] = refl
any-contradiction p (x ∷ xs) = ground (arith, any-contradiction p xs)

any-twice : (p : String → Bool) (xs : List String) → any (λ v. p v && p v) xs ≡ any p xs
any-twice p [] = refl
any-twice p (x ∷ xs) = ground (arith, any-twice p xs)

any-and-right :
    (p q : String → Bool) (xs : List String) → any (λ v. p v && q v) xs ≡ true → any q xs ≡ true
any-and-right p q [] h = cc
any-and-right p q (x ∷ xs) h = ground (arith, any-and-right p q xs)

any-and_again :
    (p q : String → Bool) (xs : List String)
    → any (λ v. p v && (p v && q v)) xs ≡ any (λ v. p v && q v) xs
any-and_again p q [] = refl
any-and_again p q (x ∷ xs) = ground (arith, any-and_again p q xs)

-- Of the versions that a server lists: "" if none is modern; else one of them, modern, and at
-- least every modern one.
pub highest_modern_version-IsHighest :
    (vs : List String)
    → ((any is_modern vs ≡ false) × (highest_modern_version vs ≡ ""))
      ⊎ IsHighest (highest_modern_version vs) vs
unfolding highest_modern_version sort_strings
highest_modern_version-IsHighest vs = elim (Bool-cases (any is_modern vs)) [
  | inr no_modern ↦
      inl (no_modern, ap (λ xs. last_of (sort_strings xs)) (select_none is_modern vs no_modern))
  | inl some_modern ↦
      let picked = select is_modern vs in
      let xs = sort_strings picked in
      let same =
        λ (p : String → Bool). any-perm p (sort_strings-perm picked) ∙ any-select p is_modern vs in
      let (modern, known, largest) =
        last-IsHighest xs (sort_strings-IsSorted picked)
          (same is_modern ∙ any-twice is_modern vs ∙ some_modern)
          (same (λ v. not (is_modern v)) ∙ any-contradiction is_modern vs) in
      inr (
        modern,
        any-and-right is_modern (λ v. v == last_of xs) vs
            (sym (same (λ v. v == last_of xs)) ∙ known),
        sym (any-and_again is_modern (λ v. not (str_le v (last_of xs))) vs)
            ∙ sym (same (λ v. is_modern v && not (str_le v (last_of xs))))
            ∙ largest,
      )
]
