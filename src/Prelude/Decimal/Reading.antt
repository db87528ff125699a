-- ===== src/Prelude/Decimal/Reading.antt =====
-- Reading back what `strconv.Itoa` prints.
use Prim.Native.Char.{Char, code}
use Prim.Native.Nat.{ℕ, zero, suc, ◌+◌, ◌*◌, ◌-◌, ◌/◌, ◌%◌, ◌<◌}
use Prim.Native.String.{String}
use mathlib.Core.Path.{◌≡◌, refl, sym, ap, ◌∙◌}
use native.Mathlib.Omega.{arith}
use text.Mathlib.TextLemmas.{nil-append, cons-append}
use native.Mathlib.Decide.{dec_lt}
use aoa_conformance.Prelude.Text.{◌&◌}
use aoa_conformance.Prelude.Decimal.{itoa, itoa_fuel, digit}

abbrev pub digit_value : Char → ℕ
digit_value c = code c - 48

-- The number that a text of digits stands for, after what was read before it.
unfoldable pub read_digits : ℕ → String → ℕ
read_digits acc String.[] = acc
read_digits acc (String.◌∷◌ c s) = read_digits (acc * 10 + digit_value c) s

read_digits-digit : (acc d : ℕ) → d < 10 → read_digits acc (digit d) ≡ acc * 10 + d
unfolding read_digits
read_digits-digit acc zero h = refl
read_digits-digit acc (suc zero) h = refl
read_digits-digit acc (suc (suc zero)) h = refl
read_digits-digit acc (suc (suc (suc zero))) h = refl
read_digits-digit acc (suc (suc (suc (suc zero)))) h = refl
read_digits-digit acc (suc (suc (suc (suc (suc zero))))) h = refl
read_digits-digit acc (suc (suc (suc (suc (suc (suc zero)))))) h = refl
read_digits-digit acc (suc (suc (suc (suc (suc (suc (suc zero))))))) h = refl
read_digits-digit acc (suc (suc (suc (suc (suc (suc (suc (suc zero)))))))) h = refl
read_digits-digit acc (suc (suc (suc (suc (suc (suc (suc (suc (suc zero))))))))) h = refl
read_digits-digit acc (suc (suc (suc (suc (suc (suc (suc (suc (suc (suc d)))))))))) h = omega arith

read_digits-append :
    (acc d : ℕ) (s : String) → d < 10 → read_digits acc (s & digit d) ≡ read_digits acc s * 10 + d
unfolding read_digits
read_digits-append acc d String.[] h = rw (nil-append (digit d)) (read_digits-digit acc d h)
read_digits-append acc d (String.◌∷◌ c s) h =
    rw (cons-append c s (digit d)) (read_digits-append (acc * 10 + digit_value c) d s h)

read_digits-itoa_fuel : (f n : ℕ) → n < f → read_digits 0 (itoa_fuel f n) ≡ n
unfolding itoa_fuel
read_digits-itoa_fuel zero n h = omega arith
read_digits-itoa_fuel (suc f) n h = elim (dec_lt n 10) [
  | yes small ↦ ground (arith, read_digits-digit 0 n small)
  | no large ↦ ground (
    arith,
    read_digits-append 0 (n % 10) (itoa_fuel f (n / 10)) (omega arith),
    read_digits-itoa_fuel f (n / 10) (omega arith),
  )
]

-- A printed number reads back as itself.
pub read_digits-itoa : (n : ℕ) → read_digits 0 (itoa n) ≡ n
unfolding itoa
read_digits-itoa n = read_digits-itoa_fuel (suc n) n (omega arith)

pub itoa_injective : {m n : ℕ} → itoa m ≡ itoa n → m ≡ n
itoa_injective {m} {n} h = sym (read_digits-itoa m) ∙ ap (read_digits 0) h ∙ read_digits-itoa n
