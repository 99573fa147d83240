-- ===== src/TestBins/Histogram.antt =====
-- rand_file.c: how many different bytes a file has. The file is given by its bytes.
use dreamscape.Base.{
  ℕ, zero, suc, ◌+◌, ◌<◌, ◌≡◌, refl, ◌∙◌, inl, inr, List, [], ◌∷◌, ◌++◌, codes, get_or, set, take,
  replicate, length, ◌==◌, if◌then◌else◌, arith, ==_cases, get_or-set_self, get_or-set_ne,
  length-set, length-replicate, sym,
}
use dreamscape.Base.Decimal.{print_u64}
use dreamscape.PerfTools.{Program, printf, pure, ◌>>◌, call}

abbrev pub max_file_size : ℕ
max_file_size = 10_485_760

-- `count` and `unique_count`.
pub record Histogram : Type 0 where
  pub count : List ℕ
  pub unique_count : ℕ

pub count_byte : Histogram → ℕ → Histogram
count_byte h byte =
    let seen = get_or h.count byte 0 + 1 in
    record {
      count = set h.count byte seen;
      unique_count = if seen == 1 then h.unique_count + 1 else h.unique_count;
    }

-- The `while` loop, with the bytes that it may still read.
pub count_bytes : ℕ → List ℕ → Histogram → Histogram
unfolding count_byte
count_bytes zero file h = h
count_bytes (suc room) [] h = h
count_bytes (suc room) (byte ∷ file) h = count_bytes room file (count_byte h byte)

abbrev pub empty : Histogram
empty = record { count = replicate 256 0; unique_count = 0 }

pub rand_file_main : (file : List ℕ) → Program ℕ
unfolding count_bytes
rand_file_main file = do
  let h = count_bytes max_file_size file empty
  call (
      printf (codes "Number of unique bytes in file: " ++ (print_u64 h.unique_count ++ codes "\n")))
  pure 0

abbrev pub occurrences : ℕ → List ℕ → ℕ
occurrences b [] = 0
occurrences b (byte ∷ file) = (if byte == b then 1 else 0) + occurrences b file

abbrev pub AreBytes : List ℕ → Type 0
AreBytes [] = Unit
AreBytes (byte ∷ file) = (byte < 256) × AreBytes file

-- The entries that are not 0.
pub nonzero : List ℕ → ℕ
nonzero [] = 0
nonzero (n ∷ ns) = (if n == 0 then 0 else 1) + nonzero ns

nonzero-set :
    (ns : List ℕ) (i : ℕ)
    → i < length ns
    → nonzero (set ns i (get_or ns i 0 + 1)) ≡ nonzero ns + (if get_or ns i 0 == 0 then 1 else 0)
unfolding nonzero
nonzero-set [] i h = absurd (omega arith)
nonzero-set (n ∷ ns) zero h = ground arith
nonzero-set (n ∷ ns) (suc i) h = omega (arith, nonzero-set ns i (omega arith))

-- What holds at each turn of the loop, for the bytes read so far.
pub record Counts (h : Histogram) : Type 0 where
  pub size : length h.count ≡ 256
  pub unique : h.unique_count ≡ nonzero h.count

count_byte-Counts : (h : Histogram) (byte : ℕ) → byte < 256 → Counts h → Counts (count_byte h byte)
unfolding count_byte
count_byte-Counts h byte small c = record {
  size = length-set h.count byte (get_or h.count byte 0 + 1) ∙ c.size;
  unique = ground (arith, nonzero-set h.count byte (omega (arith, c.size, small)), c.unique);
}

count_byte-get_or :
    (h : Histogram) (byte b : ℕ)
    → byte < length h.count
    → get_or (count_byte h byte).count b 0 ≡ get_or h.count b 0 + (if byte == b then 1 else 0)
unfolding count_byte
count_byte-get_or h byte b fits = elim (==_cases byte b) [
  | inl e ↦ rw⁻¹ e (ground (arith, get_or-set_self h.count byte (get_or h.count byte 0 + 1) 0 fits))
  | inr ne ↦ ground (arith, get_or-set_ne h.count byte b (get_or h.count byte 0 + 1) 0 ne, ne)
]

count_bytes-Counts :
    (room : ℕ) (file : List ℕ) (h : Histogram)
    → AreBytes file
    → Counts h
    → let h' = count_bytes room file h in
      Counts h'
      × ((b : ℕ) → get_or h'.count b 0 ≡ get_or h.count b 0 + occurrences b (take room file))
unfolding count_bytes
count_bytes-Counts zero file h bytes c = (c, λ b. omega arith)
count_bytes-Counts (suc room) [] h bytes c = (c, λ b. omega arith)
count_bytes-Counts (suc room) (byte ∷ file) h bytes c =
    let (c', sums) =
      count_bytes-Counts room file (count_byte h byte) bytes.1
        (count_byte-Counts h byte bytes.0 c) in
    (c', λ b. omega (arith, sums b, count_byte-get_or h byte b (omega (arith, c.size, bytes.0))))

zeros : (n b : ℕ) → get_or {A = ℕ} (replicate n 0) b 0 ≡ 0
zeros zero b = refl
zeros (suc n) zero = refl
zeros (suc n) (suc b) = zeros n b

nonzero-zeros : (n : ℕ) → nonzero (replicate n 0) ≡ 0
unfolding nonzero
nonzero-zeros zero = refl
nonzero-zeros (suc n) = omega (arith, nonzero-zeros n)

-- For a file of bytes and any limit, the loop leaves in `count` how often each byte stands in the
-- part of the file within the limit, and in `unique_count` how many of these numbers are not 0.
pub count_bytes-occurrences :
    (room : ℕ) (file : List ℕ)
    → AreBytes file
    → let h = count_bytes room file empty in
      (h.unique_count ≡ nonzero h.count)
      × ((b : ℕ) → get_or h.count b 0 ≡ occurrences b (take room file))
count_bytes-occurrences room file bytes =
    let start : Counts empty = record {
      size = length-replicate {A = ℕ} 256 0;
      unique = sym (nonzero-zeros 256);
    } in
    let (c, sums) = count_bytes-Counts room file empty bytes start in
    (c.unique, λ b. omega (arith, sums b, zeros 256 b))
