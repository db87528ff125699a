-- ===== src/Markdown/Counting.antt =====
-- How often an element is in a list, and how often in the groups that its key makes of it.
use mathlib.Core.Logic.{∥∥₁_elim}
use mathlib.Core.List.{Perm, Permᴰ}
use aoa_conformance.Prelude.{
  ℕ, ◌+◌, String, ◌≡◌, refl, ap, ◌∙◌, Bool, List, [], ◌∷◌, ◌++◌, ◌==◌, arith, if◌then◌else◌, eq_iff,
}
use aoa_conformance.Prelude.Lists.{All, select}
use aoa_conformance.Model.{contains}
use aoa_conformance.Markdown.{dedup}

abbrev pub times {ℓ} : {A : Type ℓ} → (A → Bool) → List A → ℕ
times p [] = 0
times p (x ∷ xs) = (if p x then 1 else 0) + times p xs

pub times-append {ℓ} :
    {A : Type ℓ} (p : A → Bool) (xs ys : List A) → times p (xs ++ ys) ≡ times p xs + times p ys
times-append p [] ys = omega arith
times-append p (x ∷ xs) ys = omega (arith, times-append p xs ys)

times-permᴰ {ℓ} :
    {A : Type ℓ} (p : A → Bool) {xs ys : List A} → Permᴰ xs ys → times p xs ≡ times p ys
times-permᴰ p Permᴰ.nil = refl
times-permᴰ p (Permᴰ.cons e h) = ground (arith, times-permᴰ p h, ap p e)
times-permᴰ p (Permᴰ.swap d e) = ground (arith, ap p d, ap p e)
times-permᴰ p (Permᴰ.trans h k) = times-permᴰ p h ∙ times-permᴰ p k

pub times-perm {ℓ} :
    {A : Type ℓ} (p : A → Bool) {xs ys : List A} → Perm xs ys → times p xs ≡ times p ys
times-perm p h = ∥∥₁_elim h (hlevel) (times-permᴰ p)

abbrev pub occurrences : String → List String → ℕ
occurrences k ks = times (λ x. x == k) ks

pub occurrences-dedup :
    (k : String) (seen ks : List String)
    → occurrences k (dedup seen ks)
      ≡ (if contains seen k then 0 else if contains ks k then 1 else 0)
unfolding dedup
occurrences-dedup k seen [] = ground arith
occurrences-dedup k seen (x ∷ ks) =
    ground (arith, occurrences-dedup k seen ks, occurrences-dedup k (x ∷ seen) ks, eq_iff x k)

module _ {A : Type 0} (key : A → String) (p : A → Bool) where
  -- The elements of the groups, group after group.
  abbrev pub grouped : List String → List A → List A
  grouped [] xs = []
  grouped (k ∷ ks) xs = select (λ x. key x == k) xs ++ grouped ks xs

  times-grouped-cons :
      (ks : List String) (x : A) (xs : List A)
      → times p (grouped ks (x ∷ xs))
        ≡ times p (grouped ks xs) + (if p x then occurrences (key x) ks else 0)
  times-grouped-cons [] x xs = ground arith
  times-grouped-cons (k ∷ ks) x xs = ground (
    arith,
    times-grouped-cons ks x xs,
    times-append p (select (λ y. key y == k) (x ∷ xs)) (grouped ks (x ∷ xs)),
    times-append p (select (λ y. key y == k) xs) (grouped ks xs),
    eq_iff k (key x),
    eq_iff (key x) k,
  )

  times-grouped-nil : (ks : List String) → times p (grouped ks []) ≡ 0
  times-grouped-nil [] = refl
  times-grouped-nil (k ∷ ks) = times-grouped-nil ks

  -- Groups that name each key once lose nothing and repeat nothing.
  pub times-grouped :
      (ks : List String) (xs : List A)
      → All (λ x. occurrences (key x) ks ≡ 1) xs
      → times p (grouped ks xs) ≡ times p xs
  times-grouped ks [] once = times-grouped-nil ks
  times-grouped ks (x ∷ xs) (here, later) =
      ground (arith, here, times-grouped-cons ks x xs, times-grouped ks xs later)
