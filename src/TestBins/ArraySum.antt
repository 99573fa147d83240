-- ===== src/TestBins/ArraySum.antt =====
-- array_sum.c: the sum of an array on the stack.
use dreamscape.Base.{ℕ, ◌-◌, ◌*◌, ◌/◌, ◌%◌, ◌^◌, ◌≡◌, ◌++◌, codes}
use dreamscape.Base.Decimal.{print_int}
use dreamscape.Base.Scan.{int_of}
use dreamscape.PerfTools.{Program, printf, pure, ◌>>◌, call}
use dreamscape.PerfTools.Array.{fill, sum_from, sum_from-fill_all}

abbrev pub array_size : ℕ
array_size = 10_000_000

-- The two loops, for an array of any size.
pub sum_of_array : (size : ℕ) → ℕ
sum_of_array size = sum_from 0 (fill 0 size)

pub array_sum_main : (size : ℕ) → Program ℕ
unfolding sum_of_array
array_sum_main size = do
  call (
      printf
        (codes "Sum of array elements: " ++ (print_int (int_of (sum_of_array size)) ++ codes "\n")))
  pure 0

-- For an array of any size the loops add up the numbers below the size, on the 32 bits of an `int`.
pub sum_of_array-total : (size : ℕ) → sum_of_array size ≡ size * (size - 1) / 2 % 2 ^ 32
unfolding sum_of_array
sum_of_array-total size = sum_from-fill_all size
