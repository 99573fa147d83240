-- ===== src/TestBins/Cache.antt =====
-- cache_intensive.c, onebil_memacc.c and montecarlo_pi.c: loops over an array, and over random
-- points. The text of a floating-point figure and the test on a point are parameters.
use dreamscape.Base.{
  ℕ, zero, suc, ◌+◌, ◌-◌, ◌*◌, ◌%◌, ◌^◌, ◌≤◌, ◌≡◌, refl, Bool, List, [], ◌∷◌, ◌++◌, codes, length,
  get_or, replicate, ◌==◌, if◌then◌else◌, arith, ap, inl, inr, Bool-cases,
}
use dreamscape.Base.Decimal.{print_int}
use dreamscape.Base.Scan.{int_of}
use dreamscape.Kernel.{null}
use dreamscape.PerfTools.{
  System, Log, Program, value, segfault, malloc, free, printf, called_rand, srand_time, pure, ◌>>=◌,
  ◌>>◌, ask, call,
}
use dreamscape.PerfTools.Array.{fill}

-- `data[i] = data[i] * 2 - i`, on the 32 bits of an `int`, from the index i on.
pub pass : (i : ℕ) → List ℕ → List ℕ
pass i [] = []
pass i (d ∷ ds) = (d * 2 + (2 ^ 32 - i)) % 2 ^ 32 ∷ pass (i + 1) ds

pub passes : (iterations : ℕ) → List ℕ → List ℕ
unfolding pass
passes zero ds = ds
passes (suc iterations) ds = passes iterations (pass 0 ds)

-- The result is the array as it is when it is freed. That of `malloc` is not tested: the first write
-- to NULL ends the program.
pub cache_intensive_task : System → (array_size iterations : ℕ) → Program (List ℕ)
unfolding passes
cache_intensive_task m array_size iterations = do
  p ← ask (λ t. m.malloc_reply t (array_size * 4)) (λ r. malloc (array_size * 4) r)
  if p == 0 then segfault else do call (free p); pure (passes iterations (fill 0 array_size))

-- `duration` is the text of the seconds between two readings of the clock.
pub cache_intensive_main :
    System → (duration : Log → Log → List ℕ) → (array_size iterations : ℕ) → Program ℕ
unfolding cache_intensive_task
cache_intensive_main m duration array_size iterations start =
    (do
      _ ← cache_intensive_task m array_size iterations
      (λ end.
          (do
            call (printf (codes "Duration: " ++ (duration start end ++ codes " seconds\n")))
            pure 0)
            end))
      start

-- `sum += arr[i % ARRAY_SIZE]`, with the rounds left.
pub sum_around : (arr : List ℕ) → (sum i rounds : ℕ) → ℕ
sum_around arr sum i zero = sum
sum_around arr sum i (suc rounds) =
    sum_around arr ((sum + get_or arr (i % length arr) 0) % 2 ^ 32) (i + 1) rounds

pub onebil_memacc_main : (elapsed : Log → List ℕ) → (array_size loop_count : ℕ) → Program ℕ
unfolding sum_around
onebil_memacc_main elapsed array_size loop_count t =
    let sum = sum_around (replicate array_size 0) 0 0 loop_count in
    (do
      call (
          printf (
            codes "Sum: "
            ++ (print_int (int_of sum)
                ++ (codes "\nElapsed time: " ++ (elapsed t ++ codes " seconds\n")))))
      pure 0)
      t

-- montecarlo_pi.c: the points that fall inside the circle; `rand` is called twice for each.
module _ (m : System) (inside : (x y : ℕ) → Bool) where
  pub count_points : (count rounds : ℕ) → Program ℕ
  count_points count zero = pure count
  count_points count (suc rounds) = do
    x ← ask m.rand called_rand
    y ← ask m.rand called_rand
    count_points (if inside x y then count + 1 else count) rounds

  pub montecarlo_pi_main :
      (estimate : (count num_points : ℕ) → List ℕ) → (num_points : ℕ) → Program ℕ
  unfolding count_points
  montecarlo_pi_main estimate num_points = do
    call srand_time
    count ← count_points 0 num_points
    call (printf (codes "Estimated value of Pi: " ++ (estimate count num_points ++ codes "\n")))
    pure 0

module _ (size : ℕ) (fits : size ≤ 2 ^ 32) where
  pass-fill : (i rounds : ℕ) → i + rounds ≤ size → pass i (fill i rounds) ≡ fill i rounds
  unfolding pass fill
  pass-fill i zero h = refl
  pass-fill i (suc rounds) h =
      let same : (i * 2 + (2 ^ 32 - i)) % 2 ^ 32 ≡ i = omega arith in
      rw same (ap (λ r. i ∷ r) (pass-fill (i + 1) rounds (omega arith)))

  passes-fill : (iterations : ℕ) → passes iterations (fill 0 size) ≡ fill 0 size
  unfolding passes
  passes-fill zero = refl
  passes-fill (suc iterations) = rw (pass-fill 0 size (omega arith)) (passes-fill iterations)

-- For every size up to 2 ^ 32 and every number of passes: where there is memory, the passes leave
-- the array as the first loop filled it, and the block is freed; where there is none, the program
-- ends with a signal.
pub cache_intensive_task-fill :
    (m : System) (size iterations : ℕ) (t : Log)
    → size ≤ 2 ^ 32
    → cache_intensive_task m size iterations t ≡ (
        let p = m.malloc_reply t (size * 4) in
        if p == null
        then segfault (malloc (size * 4) p ∷ t)
        else value (fill 0 size) (free p ∷ malloc (size * 4) p ∷ t))
unfolding cache_intensive_task
cache_intensive_task-fill m size iterations t fits =
    elim (Bool-cases (m.malloc_reply t (size * 4) == null)) [
      | inl none_left ↦ rw none_left refl
      | inr there ↦ rw there (
          ap
            (λ ds. value ds (
              free (m.malloc_reply t (size * 4))
              ∷ malloc (size * 4) (m.malloc_reply t (size * 4))
              ∷ t))
            (passes-fill size fits iterations))
    ]

get_or-zeros : (n j : ℕ) → get_or {A = ℕ} (replicate n 0) j 0 ≡ 0
get_or-zeros zero j = refl
get_or-zeros (suc n) zero = refl
get_or-zeros (suc n) (suc j) = get_or-zeros n j

-- The array is never written, so that the sum of a thousand million reads is 0.
pub sum_around-zero : (size i rounds : ℕ) → sum_around (replicate size 0) 0 i rounds ≡ 0
unfolding sum_around
sum_around-zero size i zero = refl
sum_around-zero size i (suc rounds) =
    rw (get_or-zeros size (i % length {A = ℕ} (replicate size 0)))
      (sum_around-zero size (i + 1) rounds)

-- Whatever `rand` returns and whichever points count, the count is at most the number of points: the
-- estimate `4 * count / points` is between 0 and 4.
pub count_points-le :
    (m : System) (inside : (x y : ℕ) → Bool) (count rounds : ℕ) (t : Log)
    → (n : ℕ) × (t' : Log) × (count_points m inside count rounds t ≡ value n t')
      × (count ≤ n)
      × (n ≤ count + rounds)
unfolding count_points
count_points-le m inside count zero t = (count, t, refl, omega arith, omega arith)
count_points-le m inside count (suc rounds) t =
    let x = m.rand t in
    let y = m.rand (called_rand x ∷ t) in
    let next = if inside x y then count + 1 else count in
    let (n, t', run, low, high) =
      count_points-le m inside next rounds (called_rand y ∷ called_rand x ∷ t) in
    (n, t', run, ground (arith, low), ground (arith, high))
