-- ===== src/TestBins/Primes/Search.antt =====
-- The outer loop of first_1000_primes.c ends, and with what it ends.
use dreamscape.Base.{
  ℕ, zero, suc, ◌+◌, ◌-◌, ◌*◌, ◌/◌, ◌%◌, ◌<◌, ◌≡◌, refl, inl, inr, Bool, true, false, some, List,
  [], ◌∷◌, ◌++◌, length, length-append, if◌then◌else◌, arith, ap, Bool-cases, lt→ltb, sym, subst,
}
use dreamscape.Base.{codes}
use dreamscape.Base.Int.{pos}
use dreamscape.Base.Decimal.{print_int}
use dreamscape.PerfTools.{Log, Program, value, printf, pure, ◌>>=◌, ◌>>◌}
use dreamscape.TestBins.Primes.{
  is_prime, find_primes, print_all, print_found, first_1000_primes_main,
}
use dreamscape.TestBins.Primes.Numbers.{IsPrime, above-IsPrime}
use dreamscape.TestBins.Primes.Found.{
  FirstPrimes, Found, skip-Found, keep-Found, Found→FirstPrimes, true-IsPrime, IsPrime-true,
}

-- From this state some fuel is enough, and the result is the first `n` primes.
abbrev Ends : (n i : ℕ) → List ℕ → Type 0
Ends n i ps = (fuel : ℕ) × (out : List ℕ) × (find_primes fuel n ps i ≡ some out) × FirstPrimes n out

two-IsPrime : IsPrime 2
two-IsPrime = (omega arith, λ d two below. absurd (omega arith))

odd_prime : (q : ℕ) → IsPrime q → 2 < q → q % 2 ≡ 1
odd_prime q prime big = omega (arith, prime.1 2 (omega arith) big)

module _ (n : ℕ) where
  full-Ends : {i : ℕ} {ps : List ℕ} → Found i ps → length ps ≡ n → Ends n i ps
  unfolding find_primes
  full-Ends {i} {ps} found count = (1, ps, ground (arith, count), Found→FirstPrimes found n count)

  -- One round, on what the inner loop says.
  round-Ends :
      (i : ℕ) (ps : List ℕ) (b : Bool)
      → length ps < n
      → is_prime i ps ≡ b
      → Ends n (i + 2) (if b then ps ++ (i ∷ []) else ps)
      → Ends n i ps
  unfolding find_primes
  round-Ends i ps b less is (fuel, out, run, first) =
      (suc fuel, out, rw (lt→ltb (length ps) n less, is) run, first)

  prime_round :
      (i : ℕ) (ps : List ℕ)
      → Found i ps
      → length ps < n
      → ((i' : ℕ) (ps' : List ℕ) → Found i' ps' → length ps' ≡ length ps + 1 → Ends n i' ps')
      → IsPrime i
      → Ends n i ps
  prime_round i ps found less later prime =
      let is = IsPrime-true found prime in
      round-Ends i ps true less is
        (later (i + 2) (ps ++ (i ∷ [])) (keep-Found found is) (length-append ps (i ∷ [])))

  -- Up to the next prime q, `gap` odd numbers away; `later` is the rest of the search from there.
  advance :
      (gap i q : ℕ) (ps : List ℕ)
      → Found i ps
      → IsPrime q
      → i + 2 * gap ≡ q
      → length ps < n
      → ((i' : ℕ) (ps' : List ℕ) → Found i' ps' → length ps' ≡ length ps + 1 → Ends n i' ps')
      → Ends n i ps
  advance zero i q ps found prime here less later =
      prime_round i ps found less later (subst IsPrime (omega (arith, here)) prime)
  advance (suc gap) i q ps found prime distance less later = elim (Bool-cases (is_prime i ps)) [
    | inl is ↦ prime_round i ps found less later (true-IsPrime found is)
    | inr composite ↦
        round-Ends i ps false less composite
          (advance gap (i + 2) q ps (skip-Found found composite) prime (omega arith) less later)
  ]

  search_from : (rounds i : ℕ) (ps : List ℕ) → Found i ps → length ps + rounds ≡ n → Ends n i ps
  search_from zero i ps found count = full-Ends found (omega (arith, count))
  search_from (suc rounds) i ps found count =
      let (q, prime, above) = above-IsPrime i in
      let odd = odd_prime q prime (omega (arith, found.from_three)) in
      advance ((q - i) / 2) i q ps found prime (omega (arith, odd, found.odd)) (omega arith)
        (λ i' ps' found' longer. search_from rounds i' ps' found' (omega arith))

two_first : Found 3 (2 ∷ [])
two_first = record {
  odd = refl;
  from_three = omega arith;
  ascending = (λ q h. elim h [ ], tt);
  prime = λ p there. elim there [
    | inl e ↦ (subst IsPrime (sym e) two-IsPrime, omega arith)
    | inr h ↦ elim h [ ]
  ];
  complete = λ p prime below. inl (omega (arith, prime.0));
}

-- For every number of primes above 0 some fuel is enough: the search ends, and the list is that of
-- the first primes in ascending order.
pub find_primes-FirstPrimes :
    (n : ℕ)
    → 0 < n
    → (fuel : ℕ) × (out : List ℕ) × (find_primes fuel n (2 ∷ []) 3 ≡ some out) × FirstPrimes n out
find_primes-FirstPrimes n some_of = search_from n (n - 1) 3 (2 ∷ []) two_first (omega arith)

-- What the loop of the printing enters.
abbrev pub printed : List ℕ → Log → Log
printed [] t = t
printed (p ∷ ps) t = printed ps (printf (print_int (pos p) ++ codes " ") ∷ t)

print_all-printed : (ps : List ℕ) (t : Log) → print_all ps t ≡ value tt (printed ps t)
unfolding print_all
print_all-printed [] t = refl
print_all-printed (p ∷ ps) t = print_all-printed ps _

-- For every number of primes above 0 there is fuel with which the program gets through its search,
-- and it then prints the first primes, as many as asked for, in ascending order, and returns 0.
pub first_1000_primes_main-FirstPrimes :
    (n : ℕ) (t : Log)
    → 0 < n
    → (fuel : ℕ) × (out : List ℕ) × (main : Program ℕ) × (first_1000_primes_main fuel n ≡ some main)
      × FirstPrimes n out
      × (main t ≡ value 0 (printed out t))
unfolding first_1000_primes_main
first_1000_primes_main-FirstPrimes n t some_of =
    let (fuel, out, run, first) = find_primes-FirstPrimes n some_of in
    (
      fuel,
      out,
      print_all out >> pure 0,
      ap print_found run,
      first,
      rw (print_all-printed out t, ◌>>=◌) refl,
    )
