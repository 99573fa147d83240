-- ===== src/Echomixer/Bits.antt =====
-- CountBits of echomixer.c: the loop that clears the lowest bit until none is left.
use Prim.Native.Nat.{bit_and, bit_and-bitwise, digits}
use dreamscape.Base.{
  ℕ, zero, suc, ◌+◌, ◌-◌, ◌*◌, ◌/◌, ◌%◌, ◌^◌, ◌≤◌, ◌<◌, ◌≡◌, refl, ap, ◌∙◌, inl, inr, min, Option,
  none, some, ◌==◌, if◌then◌else◌, arith, ==_cases, ==_ne,
}

-- `n` by its bit pattern. 33 rounds are enough for the 32 bits of an `int`; `none` says that the fuel
-- is used up.
pub count_loop : (fuel c n : ℕ) → Option ℕ
count_loop zero c n = none
count_loop (suc fuel) c n =
    let rest = count_loop fuel (c + 1) (bit_and n (n - 1)) in if n == 0 then some c else rest

unfoldable pub count_bits : ℕ → Option ℕ
unfolding count_loop
count_bits n = count_loop 33 0 n

-- How many of the lowest `width` binary digits are 1.
pub ones : (width n : ℕ) → ℕ
ones zero n = 0
ones (suc width) n = n % 2 + ones width (n / 2)

-- The rounds that the definition of `bit_and` is given do not matter, if they are enough.
rounds_enough :
    (bound rounds a b : ℕ)
    → rounds ≤ bound
    → a ≤ rounds
    → digits (λ _. 0) min rounds a b ≡ bit_and a b
rounds_enough bound zero zero b h k = omega (arith, bit_and-bitwise 0 b)
rounds_enough bound zero (suc a) b h k = absurd (omega arith)
rounds_enough bound (suc rounds) zero b h k = omega (arith, bit_and-bitwise 0 b)
rounds_enough zero (suc rounds) (suc a) b h k = absurd (omega arith)
rounds_enough (suc bound) (suc rounds) (suc a) b h k = omega (
  arith,
  bit_and-bitwise (suc a) b,
  rounds_enough bound rounds (suc a / 2) (b / 2) (omega arith) (omega arith),
  rounds_enough bound a (suc a / 2) (b / 2) (omega arith) (omega arith),
)

-- The lowest digit on its own.
bit_and-split : (a b : ℕ) → bit_and a b ≡ bit_and (a / 2) (b / 2) * 2 + min (a % 2) (b % 2)
bit_and-split zero b = omega (arith, bit_and-bitwise 0 b, bit_and-bitwise 0 (b / 2))
bit_and-split (suc a) b = omega (
  arith,
  bit_and-bitwise (suc a) b,
  rounds_enough a a (suc a / 2) (b / 2) (omega arith) (omega arith),
)

bit_and_self : (bound a : ℕ) → a ≤ bound → bit_and a a ≡ a
bit_and_self bound zero h = refl
bit_and_self zero (suc a) h = absurd (omega arith)
bit_and_self (suc bound) (suc a) h =
    omega (arith, bit_and-split (suc a) (suc a), bit_and_self bound (suc a / 2) (omega arith))

-- A round of the loop takes away one digit 1.
ones-round :
    (width n : ℕ) → 0 < n → n < 2 ^ width → ones width (bit_and n (n - 1)) + 1 ≡ ones width n
unfolding ones
ones-round zero n some_of fits = absurd (omega arith)
ones-round (suc width) n some_of fits = elim (==_cases (n % 2) 1) [
  | inl odd ↦
      let below : (n - 1) / 2 ≡ n / 2 = omega arith in
      let cleared : bit_and n (n - 1) ≡ n / 2 * 2 =
        rw (bit_and-split n (n - 1), below, bit_and_self (n / 2) (n / 2) (omega arith))
          (omega arith) in
      let half : n / 2 * 2 / 2 ≡ n / 2 = omega arith in rw (cleared, half) (omega (arith, odd))
  | inr even ↦
      let below : (n - 1) / 2 ≡ n / 2 - 1 = omega arith in
      let cleared : bit_and n (n - 1) ≡ bit_and (n / 2) (n / 2 - 1) * 2 =
        rw (bit_and-split n (n - 1), below) (omega arith) in
      let half : bit_and (n / 2) (n / 2 - 1) * 2 / 2 ≡ bit_and (n / 2) (n / 2 - 1) = omega arith in
      rw (cleared, half) (omega (arith, ones-round width (n / 2) (omega arith) (omega arith)))
]

ones-zero : (width : ℕ) → ones width 0 ≡ 0
unfolding ones
ones-zero zero = refl
ones-zero (suc width) = omega (arith, ones-zero width)

ones-le : (width n : ℕ) → ones width n ≤ width
unfolding ones
ones-le zero n = omega arith
ones-le (suc width) n = omega (arith, ones-le width (n / 2))

bit_and-le : (bound a b : ℕ) → a ≤ bound → bit_and a b ≤ a
bit_and-le bound zero b h = omega (arith, bit_and-bitwise 0 b)
bit_and-le zero (suc a) b h = absurd (omega arith)
bit_and-le (suc bound) (suc a) b h =
    omega (arith, bit_and-split (suc a) b, bit_and-le bound (suc a / 2) (b / 2) (omega arith))

-- Clearing bits does not make the number larger.
ones-fits : (width n : ℕ) → n < 2 ^ width → bit_and n (n - 1) < 2 ^ width
ones-fits width n fits = omega (arith, bit_and-le n n (n - 1) (omega arith))

count_loop-ones :
    (fuel width c n : ℕ)
    → n < 2 ^ width
    → ones width n < fuel
    → count_loop fuel c n ≡ some (c + ones width n)
unfolding count_loop
count_loop-ones zero width c n fits enough = absurd (omega arith)
count_loop-ones (suc fuel) width c n fits enough = elim (==_cases n 0) [
  | inl none_left ↦ rw none_left (ap some (omega (arith, ones-zero width)))
  | inr more ↦
      let round = ones-round width n (omega arith) fits in
      let rest =
        count_loop-ones fuel width (c + 1) (bit_and n (n - 1)) (ones-fits width n fits)
          (omega (arith, round)) in
      rw (==_ne n 0 more) (rest ∙ ap some (omega (arith, round)))
]

-- For every pattern of 32 bits the loop ends, and its result is the number of digits 1.
pub count_bits-ones : (n : ℕ) → n < 2 ^ 32 → count_bits n ≡ some (ones 32 n)
unfolding count_bits
count_bits-ones n fits =
    count_loop-ones 33 32 0 n fits (omega (arith, ones-le 32 n)) ∙ ap some (omega arith)
