-- ===== src/TestBins/Tests.antt =====
-- The theorems on the programs of test_bins at concrete runs.
use dreamscape.Base.{ℕ, ◌+◌, ◌≡◌, [], ◌∷◌, arith}
use dreamscape.PerfTools.{Log, value}
use dreamscape.PerfTools.Sample.{board}
use dreamscape.Base.{
  some, none, List, codes, refl, ◌==◌, if◌then◌else◌, ◌<◌, Option-cases, ==_ne, subst, inl, inr,
  false,
}
use dreamscape.Kernel.{null}
use dreamscape.PerfTools.{System, Program, segfault, malloc, free}
use dreamscape.PerfTools.Array.{fill}
use dreamscape.TestBins.Primes.{find_primes, first_1000_primes_main}
use dreamscape.TestBins.Primes.Found.{FirstPrimes}
use dreamscape.TestBins.Primes.Search.{printed, first_1000_primes_main-FirstPrimes}
use dreamscape.TestBins.Forking.{forking_main, IsForkEnd, forking_main-IsForkEnd}
use dreamscape.TestBins.StartSuspended.{start_suspended_main, IsStart, start_suspended_main-IsStart}
use dreamscape.TestBins.Cache.{cache_intensive_task, cache_intensive_task-fill}
use dreamscape.TestBins.Pointers.Blocks.{use_of, in_use}
use dreamscape.TestBins.Pointers.Chain.{LosesOne, pointer_fun_main-LosesOne}

-- All addresses that were taken, added up; a new one is above it.
abbrev addresses : Log → ℕ
addresses [] = 0
addresses (c ∷ t) = elim (use_of c) [ none ↦ addresses t | some (p, b) ↦ p + addresses t ]

abbrev allocator : System
allocator = record board { malloc_reply = λ t size. addresses t + 1 }

above_unused : (x : ℕ) (t : Log) → addresses t < x → in_use x t ≡ false
above_unused x [] h = refl
above_unused x (c ∷ t) h = elim (Option-cases (use_of c)) [
  | inl other ↦
      rw (in_use, other)
        (above_unused x t (
          subst (λ o. (elim o [ none ↦ addresses t | some (p, b) ↦ p + addresses t ]) < x) other h))
  | inr ((p, b), is) ↦
      let low : p + addresses t < x =
        subst (λ o. (elim o [ none ↦ addresses t | some (p, b) ↦ p + addresses t ]) < x) is h in
      rw (in_use, is, ==_ne p x (λ e. omega (arith, low, e)))
        (above_unused x t (omega (arith, low)))
]

pointer_fun_main-LosesOne_example : LosesOne allocator 3 []
pointer_fun_main-LosesOne_example =
    pointer_fun_main-LosesOne allocator 2 [] (λ t size. omega arith)
      (λ t size. above_unused (addresses t + 1) t (omega arith))

first_1000_primes_main-FirstPrimes_example :
    (fuel : ℕ) × (out : List ℕ) × (main : Program ℕ) × (first_1000_primes_main fuel 3000
      ≡ some main)
    × FirstPrimes 3000 out
    × (main [] ≡ value 0 (printed out []))
first_1000_primes_main-FirstPrimes_example =
    first_1000_primes_main-FirstPrimes 3000 [] (omega arith)

-- The five first primes, found with fuel to spare.
first_primes : find_primes 10 5 (2 ∷ []) 3 ≡ some (2 ∷ 3 ∷ 5 ∷ 7 ∷ 11 ∷ [])
unfolding find_primes
first_primes = refl

forking_main-IsForkEnd_example : IsForkEnd 10 [] (forking_main board [])
forking_main-IsForkEnd_example = forking_main-IsForkEnd board []

start_suspended_main-IsStart_example :
    IsStart [] (start_suspended_main board (codes "./factorial" ∷ []) [])
start_suspended_main-IsStart_example =
    start_suspended_main-IsStart board (codes "./factorial" ∷ []) []

cache_intensive_task-fill_example : cache_intensive_task board 1000 10 [] ≡ (
    if board.malloc_reply [] 4000 == null
    then segfault (malloc 4000 (board.malloc_reply [] 4000) ∷ [])
    else value
        (fill 0 1000)
        (free (board.malloc_reply [] 4000) ∷ malloc 4000 (board.malloc_reply [] 4000) ∷ []))
cache_intensive_task-fill_example = cache_intensive_task-fill board 1000 10 [] (omega arith)
