-- ===== src/Prelude/Decimal.antt =====
-- `strconv.Itoa`, and the `%d` of `fmt`, for a number that is not negative.
pub mod Reading
use Prim.Native.Nat.{ℕ, zero, suc, compare, Ordering, ◌/◌, ◌%◌, ◌<◌}
use Prim.Native.String.{String}
use mathlib.Core.Path.{◌≡◌, refl}
use native.Mathlib.Omega.{arith}
use aoa_conformance.Prelude.Text.{◌&◌}

abbrev pub digit : ℕ → String
digit zero = "0"
digit (suc zero) = "1"
digit (suc (suc zero)) = "2"
digit (suc (suc (suc zero))) = "3"
digit (suc (suc (suc (suc zero)))) = "4"
digit (suc (suc (suc (suc (suc zero))))) = "5"
digit (suc (suc (suc (suc (suc (suc zero)))))) = "6"
digit (suc (suc (suc (suc (suc (suc (suc zero))))))) = "7"
digit (suc (suc (suc (suc (suc (suc (suc (suc zero)))))))) = "8"
digit _ = "9"

-- On fuel: a round for each digit.
unfoldable pub itoa_fuel : ℕ → ℕ → String
itoa_fuel zero n = ""
itoa_fuel (suc f) n =
    let high = itoa_fuel f (n / 10) in
    elim (compare n 10) [ Ordering.lt ↦ digit n | _ ↦ high & digit (n % 10) ]

unfoldable pub itoa : ℕ → String
unfolding itoa_fuel
itoa n = itoa_fuel (suc n) n

-- More fuel than the number changes nothing, so `itoa` never runs out.
itoa_fuel_enough : (f g n : ℕ) → n < f → n < g → itoa_fuel f n ≡ itoa_fuel g n
unfolding itoa_fuel
itoa_fuel_enough zero g n h k = elim h [ ]
itoa_fuel_enough (suc f) zero n h k = elim k [ ]
itoa_fuel_enough (suc f) (suc g) n h k = ground (arith, itoa_fuel_enough f g (n / 10))

itoa_404 : itoa 404 ≡ "404"
unfolding itoa
itoa_404 = refl
