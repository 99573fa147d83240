-- ===== src/TestBins/Factorial.antt =====
-- factorial.c: the product of the numbers up to 100, in 64 bits.
use dreamscape.Base.{
  ℕ, zero, suc, ◌+◌, ◌*◌, ◌/◌, ◌%◌, ◌^◌, ◌<◌, ◌≡◌, refl, ◌∙◌, arith, ap, ◌++◌, codes, sym,
}
use dreamscape.Base.Decimal.{print_u64}
use dreamscape.PerfTools.{Program, printf, pure, ◌>>◌, call}

-- `for (int i = ...; ...; i++) result *= i;` with the rounds left.
pub multiply_from : (i rounds result : ℕ) → ℕ
multiply_from i zero result = result
multiply_from i (suc rounds) result = multiply_from (i + 1) rounds (result * i % 2 ^ 64)

pub factorial_main : Program ℕ
unfolding multiply_from
factorial_main = do
  call (printf (codes "Factorial of 100: " ++ (print_u64 (multiply_from 1 100 1) ++ codes "\n")))
  pure 0

-- The product of the numbers from i on, as many as there are rounds.
pub rising : ℕ → ℕ → ℕ
rising i zero = 1
rising i (suc rounds) = i * rising (i + 1) rounds

mod_add_multiple : (x y : ℕ) → (2 ^ 64 * x + y) % 2 ^ 64 ≡ y % 2 ^ 64
mod_add_multiple x y = omega arith

-- A factor may be reduced before the product is.
reduce_factor : (a b : ℕ) → a % 2 ^ 64 * b % 2 ^ 64 ≡ a * b % 2 ^ 64
reduce_factor a b =
    let q = a / 2 ^ 64 in
    let r = a % 2 ^ 64 in
    let parts : a ≡ 2 ^ 64 * q + r = omega arith in
    let product : a * b ≡ 2 ^ 64 * (q * b) + r * b =
      ap (λ x. x * b) parts ∙ expand (2 ^ 64) q r b in
    sym (ap (λ x. x % 2 ^ 64) product ∙ mod_add_multiple (q * b) (r * b))
  where
    expand : (m q r b : ℕ) → (m * q + r) * b ≡ m * (q * b) + r * b
    expand m q r b = grind arith

-- For any number of rounds the loop multiplies up the numbers that it passes, modulo 2^64.
pub multiply_from-rising :
    (i rounds result : ℕ)
    → result < 2 ^ 64
    → multiply_from i rounds result ≡ result * rising i rounds % 2 ^ 64
unfolding multiply_from rising
multiply_from-rising i zero result h = grind arith
multiply_from-rising i (suc rounds) result h =
    multiply_from-rising (i + 1) rounds (result * i % 2 ^ 64) (omega arith)
    ∙ reduce_factor (result * i) (rising (i + 1) rounds)
    ∙ grind arith

-- 100! has more than 64 factors of 2.
prints_zero : multiply_from 1 100 1 ≡ 0
unfolding multiply_from
prints_zero = refl
