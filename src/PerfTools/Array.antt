-- ===== src/PerfTools/Array.antt =====
-- pmu_cache_miss_array_sum.c: the count around the sum of an array.
use dreamscape.Base.{
  ℕ, zero, suc, ◌+◌, ◌-◌, ◌*◌, ◌/◌, ◌%◌, ◌^◌, ◌<◌, ◌≡◌, ◌≢◌, refl, ◌∙◌, ==_ne, List, [], ◌∷◌, ◌++◌,
  codes, ◌==◌, if◌then◌else◌, arith,
}
use dreamscape.Base.Int.{neg, eq_ℤ}
use dreamscape.Base.Decimal.{print_int}
use dreamscape.Base.Scan.{int_of}
use dreamscape.Kernel.{null, raw}
use dreamscape.PerfTools.{
  System, Log, Program, value, segfault, malloc, free, printf, pure, ◌>>=◌, ◌>>◌, ask, call, close,
  perf_event_open_any, attr_of, count_workload, open_failed, report,
}

-- `for (int i = 0; i < array_size; i++) array[i] = i;` with the rounds left.
unfoldable pub fill : (i rounds : ℕ) → List ℕ
fill i zero = []
fill i (suc rounds) = i ∷ fill (i + 1) rounds

-- `sum += array[i]`, on the 32 bits of an `int`; C leaves the overflow open, the processor wraps.
pub sum_from : ℕ → List ℕ → ℕ
sum_from sum [] = sum
sum_from sum (a ∷ rest) = sum_from ((sum + a) % 2 ^ 32) rest

abbrev pub array_size : ℕ
array_size = 100_000

module _ (m : System) where
  -- The result of `malloc` is not tested: the first write to NULL ends the program.
  pub sum_array : (size : ℕ) → Program ℕ
  unfolding fill sum_from
  sum_array size = do
    array ← ask (λ t. m.malloc_reply t (size * 4)) (λ r. malloc (size * 4) r)
    if array == 0 then segfault else do call (free array); pure (sum_from 0 (fill 0 size))

  unfoldable pub pmu_cache_miss_array_sum_main : Program ℕ
  unfolding perf_event_open_any count_workload sum_array
  pmu_cache_miss_array_sum_main = do
    fd ← perf_event_open_any m (attr_of m raw 0x03)
    if eq_ℤ fd (neg 1) then open_failed m (codes "Error opening perf event\n") else do
      (count, sum) ← count_workload m fd (sum_array array_size)
      call (printf (report m (codes "Cache misses") count))
      call (printf (codes "Sum: " ++ (print_int (int_of sum) ++ codes "\n")))
      call (close fd)
      pure 0

-- The sum of the numbers from i on, as many as there are rounds.
triangle : ℕ → ℕ → ℕ
triangle i zero = 0
triangle i (suc rounds) = i + triangle (i + 1) rounds

triangle-double : (i rounds : ℕ) → 2 * triangle i rounds + rounds ≡ rounds * (2 * i + rounds)
unfolding triangle
triangle-double i zero = grind arith
triangle-double i (suc rounds) = grind (arith, triangle-double (i + 1) rounds)

sum_from-fill :
    (sum i rounds : ℕ)
    → sum < 2 ^ 32
    → sum_from sum (fill i rounds) ≡ (sum + triangle i rounds) % 2 ^ 32
unfolding sum_from fill triangle
sum_from-fill sum i zero h = omega arith
sum_from-fill sum i (suc rounds) h =
    sum_from-fill ((sum + i) % 2 ^ 32) (i + 1) rounds (omega arith) ∙ omega arith

-- For an array of any size, the loops add up the numbers below the size, on the 32 bits of an `int`.
pub sum_from-fill_all : (n : ℕ) → sum_from 0 (fill 0 n) ≡ n * (n - 1) / 2 % 2 ^ 32
sum_from-fill_all zero = grind (arith, sum_from-fill 0 0 0 (omega arith), triangle-double 0 0)
sum_from-fill_all (suc n) =
    let double : 2 * triangle 0 (suc n) ≡ suc n * n = grind (arith, triangle-double 0 (suc n)) in
    let less : suc n - 1 ≡ n = omega arith in
    sum_from-fill 0 0 (suc n) (omega arith) ∙ rw less (omega (arith, double))

-- Where there is memory, the program's loops add up the numbers below the size of the array on the
-- 32 bits of an `int`, and the array is freed; where there is none, it ends with a signal.
pub sum_array-total :
    (m : System) (size : ℕ) (t : Log)
    → let array = m.malloc_reply t (size * 4) in
      (array ≢ null
        → sum_array m size t
          ≡ value (size * (size - 1) / 2 % 2 ^ 32) (free array ∷ malloc (size * 4) array ∷ t))
      × (array ≡ null → sum_array m size t ≡ segfault (malloc (size * 4) null ∷ t))
unfolding sum_array
sum_array-total m size t = (
  λ there. rw (==_ne (m.malloc_reply t (size * 4)) null there) (rw (sum_from-fill_all size) refl),
  λ z. rw z refl,
)
