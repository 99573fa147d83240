-- ===== src/TestBins/Primes.antt =====
-- first_1000_primes.c: trial division by the primes found so far.
mod Numbers
pub mod Found
pub mod Search
use dreamscape.Base.{
  ℕ, zero, suc, ◌+◌, ◌%◌, Bool, true, false, Option, none, some, List, [], ◌∷◌, ◌++◌, codes, length,
  ltb, ◌==◌, if◌then◌else◌,
}
use dreamscape.Base.Decimal.{print_int}
use dreamscape.Base.Int.{pos}
use dreamscape.PerfTools.{Program, printf, pure, ◌>>=◌, ◌>>◌, call}

-- The inner loop, over the primes from index j on; it leaves at the first divisor.
pub is_prime : (i : ℕ) → (primes : List ℕ) → Bool
is_prime i [] = true
is_prime i (p ∷ primes) = if i % p == 0 then false else is_prime i primes

-- The outer loop, `count` being the length of `primes`: `none` says that the fuel is used up. The
-- numbers are unbounded; the 3000th prime is 27449, far from the bounds of an `int`.
unfoldable pub find_primes : (fuel num_primes : ℕ) → (primes : List ℕ) → (i : ℕ) → Option (List ℕ)
unfolding is_prime
find_primes zero num_primes primes i = none
find_primes (suc fuel) num_primes primes i =
    let rest =
      find_primes fuel num_primes (if is_prime i primes then primes ++ (i ∷ []) else primes)
        (i + 2) in
    if ltb (length primes) num_primes then rest else some primes

pub print_all : List ℕ → Program (Unit {0})
print_all [] = pure tt
print_all (p ∷ primes) = do call (printf (print_int (pos p) ++ codes " ")); print_all primes

abbrev pub print_found : Option (List ℕ) → Option (Program ℕ)
print_found none = none
print_found (some primes) = some (do print_all primes; pure 0)

pub first_1000_primes_main : (fuel num_primes : ℕ) → Option (Program ℕ)
unfolding find_primes print_all
first_1000_primes_main fuel num_primes = print_found (find_primes fuel num_primes (2 ∷ []) 3)
