-- ===== src/Prelude/Decimal.antt =====
-- Decimal numbers, as `std::to_string` writes them.
use Prim.Native.Nat.{ℕ, zero, suc, ◌+◌, ◌/◌, ◌%◌, ◌≤◌}
use mathlib.Core.List.{[], ◌∷◌}
use native.Mathlib.Omega.{arith}
use llamaste.Prelude.Tests.{ltb, if◌then◌else◌}
use llamaste.Prelude.ByteStrings.{Bytes}
use llamaste.Prelude.Lists.{All}

-- Decimal digits, as `std::to_string` writes them; the fuel is one more than the number.
unfoldable pub decimal_fuel : ℕ → ℕ → Bytes → Bytes
decimal_fuel zero n out = out
decimal_fuel (suc f) n out =
    let digit : Bytes = (b'0' + n % 10) ∷ out in
    let rest = decimal_fuel f (n / 10) digit in if ltb n 10 then digit else rest

unfoldable pub decimal : ℕ → Bytes
unfolding decimal_fuel
decimal n = decimal_fuel (suc n) n []

abbrev pub DecimalDigit : ℕ → Type 0
DecimalDigit c = (b'0' ≤ c) × (c ≤ b'9')

decimal_fuel_digits :
    (f n : ℕ) (out : Bytes) → All DecimalDigit out → All DecimalDigit (decimal_fuel f n out)
unfolding decimal_fuel
decimal_fuel_digits zero n out h = h
decimal_fuel_digits (suc f) n out h =
    let next = decimal_fuel_digits f (n / 10) ((b'0' + n % 10) ∷ out) in ground arith

pub decimal_digits : (n : ℕ) → All DecimalDigit (decimal n)
unfolding decimal
decimal_digits n = decimal_fuel_digits (suc n) n [] (ground arith)
