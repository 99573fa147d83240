-- ===== src/TestBins/Primes/Numbers.antt =====
-- Prime numbers: a number above 1 has a prime divisor, and there is a prime above any number.
use Prim.Native.Nat.{◌∣◌}
use native.Mathlib.Nat
use native.Mathlib.Nat.{dvd_trans, dvd_of_mod-eq-zero, mod-eq-zero_of_dvd}
use dreamscape.Base.{
  ℕ, zero, suc, ◌+◌, ◌-◌, ◌*◌, ◌%◌, ◌≤◌, ◌<◌, ◌≡◌, ◌≢◌, inl, inr, arith, ==_cases, sym, subst,
  lt_cases,
}

abbrev pub IsPrime : ℕ → Type 0
IsPrime n = (2 ≤ n) × ((d : ℕ) → 2 ≤ d → d < n → n % d ≢ 0)

pub mod_trans : (a b c : ℕ) → b % a ≡ 0 → c % b ≡ 0 → c % a ≡ 0
mod_trans a b c p q =
    mod-eq-zero_of_dvd a (dvd_trans a (dvd_of_mod-eq-zero a p) (dvd_of_mod-eq-zero b q))

abbrev PrimeDivisor : ℕ → Type 0
PrimeDivisor n = (p : ℕ) × IsPrime p × (p ≤ n) × (n % p ≡ 0)

least-IsPrime : (d n : ℕ) → 2 ≤ d → n % d ≡ 0 → ((e : ℕ) → 2 ≤ e → e < d → n % e ≢ 0) → IsPrime d
least-IsPrime d n two divides none_below =
    (two, λ e two_e below f. none_below e two_e below (mod_trans e d n f divides))

-- The least divisor from d on is prime where there is none below d.
divisor_from :
    (rounds d n : ℕ)
    → d + rounds ≡ n
    → 2 ≤ d
    → ((e : ℕ) → 2 ≤ e → e < d → n % e ≢ 0)
    → PrimeDivisor n
divisor_from zero d n sum two none_below =
    let same : d ≡ n = omega arith in
    let self : n % d ≡ 0 = mod-eq-zero_of_dvd d (subst (λ x. d ∣ x) same (Nat.dvd_refl d)) in
    (d, least-IsPrime d n two self none_below, omega arith, self)
divisor_from (suc rounds) d n sum two none_below = elim (==_cases (n % d) 0) [
  | inl divides ↦ (d, least-IsPrime d n two divides none_below, omega arith, divides)
  | inr apart ↦ divisor_from rounds (d + 1) n (omega arith) (omega arith) (λ e two_e below.
      elim (==_cases e d) [
        | inl same ↦ subst (λ x. n % x ≢ 0) (sym same) apart
        | inr other ↦ none_below e two_e (omega arith)
      ])
]

pub prime_divisor : (n : ℕ) → 2 ≤ n → PrimeDivisor n
prime_divisor n two =
    divisor_from (n - 2) 2 n (omega arith) (omega arith) (λ e p q. absurd (omega arith))

factorial : ℕ → ℕ
factorial zero = 1
factorial (suc n) = suc n * factorial n

factorial_pos : (n : ℕ) → 1 ≤ factorial n
unfolding factorial
factorial_pos zero = omega arith
factorial_pos (suc n) = grind (arith, factorial_pos n)

dvd-factorial : (p n : ℕ) → 1 ≤ p → p ≤ n → p ∣ factorial n
unfolding factorial
dvd-factorial p zero pos le = absurd (omega arith)
dvd-factorial p (suc n) pos le = elim (==_cases p (suc n)) [
  | inl same ↦ rw same (Nat.dvd-mul_right (suc n) (factorial n))
  | inr other ↦ Nat.dvd-mul_left_of_dvd p (dvd-factorial p n pos (omega arith)) (suc n)
]

-- Euclid: a prime divisor of n! + 1 is above n.
pub above-IsPrime : (n : ℕ) → (p : ℕ) × IsPrime p × (n < p)
above-IsPrime n =
    let (p, prime, _, divides) = prime_divisor (factorial n + 1) (omega (arith, factorial_pos n)) in
    (
      p,
      prime,
      elim (lt_cases n p) [
        | inl above ↦ above
        | inr below ↦
            let in_both = dvd_of_mod-eq-zero p divides in
            let one =
              (Nat.dvd-add_iff_right p (dvd-factorial p n (omega (arith, prime.0)) below)).1
                in_both in
            absurd (omega (arith, Nat.eq-one_of_dvd-one one, prime.0))
      ],
    )
