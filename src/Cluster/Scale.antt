-- ===== src/Cluster/Scale.antt =====
-- The factor `* 0.70` of src/llamaste/cluster.cpp, as IEEE double arithmetic has it. The constant
-- is 6305039478318694 / 2 ^ 53; the exact product is rounded to 53 bits, to nearest and on a tie
-- to even, and the conversion to uint32_t drops the fraction.
use native.Mathlib.Nat.{div-add-mod, mod-lt}
use llamaste.Prelude.{
  ℕ, zero, suc, ◌+◌, ◌*◌, ◌/◌, ◌%◌, ◌^◌, ◌≤◌, ◌<◌, ◌≡◌, refl, ◌⊎◌, inl, inr, ◌&&◌, ◌||◌, ltb, ◌==◌,
  if◌then◌else◌, arith, Bool-cases,
}

-- The weight of the last bit that a double keeps of `p`. A product here has at most 85 bits, and
-- forty halvings leave 53 of 93.
ulp : ℕ → ℕ → ℕ
ulp zero p = 1
ulp (suc f) p = let rest = 2 * ulp f (p / 2) in if ltb p (2 ^ 53) then 1 else rest

round_half_even : ℕ → ℕ → ℕ
round_half_even p q =
    let d = p / q in
    let r = p % q in if ltb q (2 * r) || (2 * r == q && d % 2 == 1) then d + 1 else d

unfoldable pub times_070 : ℕ → ℕ
unfolding ulp round_half_even
times_070 n = let p = n * 6305039478318694 in let q = ulp 40 p in round_half_even p q * q / 2 ^ 53

ulp_bound : (f p : ℕ) → (ulp f p ≡ 1) ⊎ (ulp f p * 2 ^ 52 ≤ p)
unfolding ulp
ulp_bound zero p = inl refl
ulp_bound (suc f) p = elim (Bool-cases (ltb p (2 ^ 53))) [
  | inl small ↦ inl (rw small refl)
  | inr big ↦ inr (ground (arith, ulp_bound f (p / 2)))
]

-- What `f` halvings bring below 2 ^ 53.
reach : ℕ → ℕ
reach zero = 2 ^ 53
reach (suc f) = 2 * reach f

-- With enough fuel the value has 53 bits above its last one.
ulp_enough : (f p : ℕ) → p < reach f → p < ulp f p * 2 ^ 53
unfolding ulp reach
ulp_enough zero p h = omega arith
ulp_enough (suc f) p h = ground (arith, ulp_enough f (p / 2) (omega arith))

round_half_even_cases :
    (p q : ℕ) → (round_half_even p q ≡ p / q) ⊎ (round_half_even p q ≡ p / q + 1)
unfolding round_half_even
round_half_even_cases p q =
    elim (Bool-cases (ltb q (2 * (p % q)) || (2 * (p % q) == q && p / q % 2 == 1))) [
      | inl e ↦ inr (rw e refl)
      | inr e ↦ inl (rw e refl)
    ]

round_half_even_bounds :
    (p q : ℕ) → 0 < q → (p ≤ round_half_even p q * q + q) × (round_half_even p q * q ≤ p + q)
round_half_even_bounds p q h = elim (round_half_even_cases p q) [
  | inl e ↦ rw e (omega (arith, div-add-mod p q, mod-lt p h))
  | inr e ↦ rw e (omega (arith, div-add-mod p q, mod-lt p h))
]

ulp-pos : (f p : ℕ) → 0 < ulp f p
unfolding ulp
ulp-pos zero p = omega arith
ulp-pos (suc f) p = ground (arith, ulp-pos f (p / 2))

-- The usable part of the memory is seven tenths of it, rounded down, or one less where the double
-- product falls short of a whole number.
pub times_070_bounds :
    (n : ℕ) → n < 2 ^ 32 → (10 * times_070 n ≤ 7 * n) × (7 * n ≤ 10 * times_070 n + 10)
unfolding times_070
times_070_bounds n h =
    let p : ℕ = n * 6305039478318694 in
    let q = ulp 40 p in
    let rounded = round_half_even p q * q in
    let facts = round_half_even_bounds p q (ulp-pos 40 p) in
    let small = ulp_bound 40 p in omega (arith, facts, small)

times_070_short : times_070 1290 ≡ 902
unfolding times_070
times_070_short = refl
