-- ===== src/TestBins/Primes/Found.antt =====
-- The search finds the first primes, and it ends.
use dreamscape.Base.{
  ℕ, ◌+◌, ◌%◌, ◌≤◌, ◌<◌, ◌≡◌, ◌≢◌, ◌⊎◌, refl, inl, inr, true, false, List, [], ◌∷◌, ◌++◌, length,
  arith, ==_cases, ==_ne, Bool-cases, lt_cases, sym, subst,
}
use dreamscape.TestBins.Primes.{is_prime}
use dreamscape.TestBins.Primes.Numbers.{IsPrime, prime_divisor, mod_trans}

abbrev pub IsIn : ℕ → List ℕ → Type 0
IsIn q [] = ⊥
IsIn q (p ∷ ps) = (q ≡ p) ⊎ IsIn q ps

abbrev pub Ascending : List ℕ → Type 0
Ascending [] = Unit
Ascending (p ∷ ps) = ((q : ℕ) → IsIn q ps → p < q) × Ascending ps

-- The first `n` primes, in ascending order.
pub record FirstPrimes (n : ℕ) (ps : List ℕ) : Type 0 where
  pub count : length ps ≡ n
  pub ascending : Ascending ps
  pub prime : (p : ℕ) → IsIn p ps → IsPrime p
  pub none_left_out : (p q : ℕ) → IsIn p ps → IsPrime q → q ≤ p → IsIn q ps

-- Before the round for `i`: the primes below `i`, and `i` is odd.
pub record Found (i : ℕ) (ps : List ℕ) : Type 0 where
  pub odd : i % 2 ≡ 1
  pub from_three : 3 ≤ i
  pub ascending : Ascending ps
  pub prime : (p : ℕ) → IsIn p ps → IsPrime p × (p < i)
  pub complete : (p : ℕ) → IsPrime p → p < i → IsIn p ps

IsIn-append : (q i : ℕ) (ps : List ℕ) → IsIn q ps → IsIn q (ps ++ (i ∷ []))
IsIn-append q i [] h = elim h [ ]
IsIn-append q i (p ∷ ps) (inl e) = inl e
IsIn-append q i (p ∷ ps) (inr h) = inr (IsIn-append q i ps h)

IsIn-last : (i : ℕ) (ps : List ℕ) → IsIn i (ps ++ (i ∷ []))
IsIn-last i [] = inl refl
IsIn-last i (p ∷ ps) = inr (IsIn-last i ps)

of_append : (q i : ℕ) (ps : List ℕ) → IsIn q (ps ++ (i ∷ [])) → IsIn q ps ⊎ (q ≡ i)
of_append q i [] (inl e) = inr e
of_append q i [] (inr h) = elim h [ ]
of_append q i (p ∷ ps) (inl e) = inl (inl e)
of_append q i (p ∷ ps) (inr h) = elim (of_append q i ps h) [
  | inl there ↦ inl (inr there)
  | inr e ↦ inr e
]

Ascending-append :
    (i : ℕ) (ps : List ℕ)
    → Ascending ps
    → ((p : ℕ) → IsIn p ps → p < i)
    → Ascending (ps ++ (i ∷ []))
Ascending-append i [] up below = (λ q h. elim h [ ], tt)
Ascending-append i (p ∷ ps) up below = (
  λ q h. elim (of_append q i ps h) [
    | inl there ↦ up.0 q there
    | inr e ↦ subst (λ x. p < x) (sym e) (below p (inl refl))
  ],
  Ascending-append i ps up.1 (λ r h. below r (inr h)),
)

-- The inner loop on its two results.
is_prime-true : (i : ℕ) (ps : List ℕ) → is_prime i ps ≡ true → (p : ℕ) → IsIn p ps → i % p ≢ 0
unfolding is_prime
is_prime-true i [] h p there = elim there [ ]
is_prime-true i (p ∷ ps) h q there = elim (==_cases (i % p) 0) [
  | inl divides ↦ absurd (ground (arith, h, divides))
  | inr apart ↦ elim there [
    | inl e ↦ subst (λ x. i % x ≢ 0) (sym e) apart
    | inr later ↦ is_prime-true i ps (ground (arith, h, ==_ne (i % p) 0 apart)) q later
  ]
]

is_prime-false : (i : ℕ) (ps : List ℕ) → is_prime i ps ≡ false → (p : ℕ) × IsIn p ps × (i % p ≡ 0)
unfolding is_prime
is_prime-false i [] h = absurd (cc)
is_prime-false i (p ∷ ps) h = elim (==_cases (i % p) 0) [
  | inl divides ↦ (p, inl refl, divides)
  | inr apart ↦
      let (q, there, divides) = is_prime-false i ps (ground (arith, h, ==_ne (i % p) 0 apart)) in
      (q, inr there, divides)
]

module _ {i : ℕ} {ps : List ℕ} (found : Found i ps) where
  -- The inner loop decides primality.
  pub true-IsPrime : is_prime i ps ≡ true → IsPrime i
  true-IsPrime h = (
    omega (arith, found.from_three),
    λ d two below divides.
        let (p, prime, le, divides_d) = prime_divisor d two in
        is_prime-true i ps h p (found.complete p prime (omega arith))
          (mod_trans p d i divides_d divides),
  )

  false-composite : is_prime i ps ≡ false → ¬ IsPrime i
  false-composite h prime =
      let (p, there, divides) = is_prime-false i ps h in
      let (p_prime, below) = found.prime p there in prime.1 p p_prime.0 below divides

  pub IsPrime-true : IsPrime i → is_prime i ps ≡ true
  IsPrime-true prime = elim (Bool-cases (is_prime i ps)) [
    | inl is ↦ is
    | inr composite ↦ absurd (false-composite composite prime)
  ]

  even-composite : ¬ IsPrime (i + 1)
  even-composite prime =
      prime.1 2 (omega arith) (omega (arith, found.from_three)) (omega (arith, found.odd))

  pub skip-Found : is_prime i ps ≡ false → Found (i + 2) ps
  skip-Found h = record {
    odd = omega (arith, found.odd);
    from_three = omega (arith, found.from_three);
    ascending = found.ascending;
    prime = λ p there. let (prime, below) = found.prime p there in (prime, omega arith);
    complete = λ p prime below. elim (lt_cases p i) [
      | inl less ↦ found.complete p prime less
      | inr more ↦ elim (==_cases p i) [
        | inl e ↦ absurd (false-composite h (subst IsPrime e prime))
        | inr ne ↦
            let next : p ≡ i + 1 = omega arith in absurd (even-composite (subst IsPrime next prime))
      ]
    ];
  }

  pub keep-Found : is_prime i ps ≡ true → Found (i + 2) (ps ++ (i ∷ []))
  keep-Found h = record {
    odd = omega (arith, found.odd);
    from_three = omega (arith, found.from_three);
    ascending = Ascending-append i ps found.ascending (λ p there. (found.prime p there).1);
    prime = λ p there. elim (of_append p i ps there) [
      | inl earlier ↦ let (prime, below) = found.prime p earlier in (prime, omega arith)
      | inr e ↦ (subst IsPrime (sym e) (true-IsPrime h), omega arith)
    ];
    complete = λ p prime below. elim (lt_cases p i) [
      | inl less ↦ IsIn-append p i ps (found.complete p prime less)
      | inr more ↦ elim (==_cases p i) [
        | inl e ↦ subst (λ x. IsIn x (ps ++ (i ∷ []))) (sym e) (IsIn-last i ps)
        | inr ne ↦
            let next : p ≡ i + 1 = omega arith in absurd (even-composite (subst IsPrime next prime))
      ]
    ];
  }

  pub Found→FirstPrimes : (n : ℕ) → length ps ≡ n → FirstPrimes n ps
  Found→FirstPrimes n count = record {
    count = count;
    ascending = found.ascending;
    prime = λ p there. (found.prime p there).0;
    none_left_out =
        λ p q there prime le. found.complete q prime (omega (arith, (found.prime p there).1));
  }
