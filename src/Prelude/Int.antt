-- ===== src/Prelude/Int.antt =====
-- Signed integers, for the error codes of JSON-RPC; `negsuc n` is -(n + 1).
use Prim.Native.Nat.{ℕ, compare, Ordering}
use mathlib.Core.Bool.{Bool, true, false}

pub data ℤ : Type 0 where
  pos : ℕ → ℤ
  negsuc : ℕ → ℤ

abbrev at_most : ℕ → ℕ → Bool
at_most a b = elim (compare a b) [ Ordering.gt ↦ false | _ ↦ true ]

abbrev equal : ℕ → ℕ → Bool
equal a b = elim (compare a b) [ Ordering.eq ↦ true | _ ↦ false ]

abbrev pub leℤ : ℤ → ℤ → Bool
leℤ (pos a) (pos b) = at_most a b
leℤ (pos a) (negsuc b) = false
leℤ (negsuc a) (pos b) = true
leℤ (negsuc a) (negsuc b) = at_most b a

abbrev pub eqℤ : ℤ → ℤ → Bool
eqℤ (pos a) (pos b) = equal a b
eqℤ (negsuc a) (negsuc b) = equal a b
eqℤ _ _ = false
