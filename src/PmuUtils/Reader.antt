-- ===== src/PmuUtils/Reader.antt =====
-- read_pmu_counters.c: `fscanf` on what PmuModule shows.
use dreamscape.Base.{
  ℕ, ◌-◌, ◌^◌, ◌<◌, ◌≡◌, refl, ap, ◌∙◌, Bool, true, false, List, [], ◌∷◌, ◌++◌, codes, length,
  Option, none, some, ◌==◌, if◌then◌else◌, min, arith, ◌≢◌, ==_ne,
}
use dreamscape.Base.Decimal.{print_u64, read_digits, read_digits-digits, digits}
use dreamscape.Base.Scan.{
  skip_spaces, is_space, span_digits, drop_digits, drop_digits-append, skip_spaces-digits,
  digits-AllDigits, some_digits, span_digits-append,
}
use dreamscape.PerfTools.{
  System, Log, Program, value, fopen, fclose, printf, perror, pure, ◌>>=◌, ◌>>◌, ask, call,
}
use dreamscape.PmuModule.{PmuCounters, pmu_proc_show}

-- The text in front of a conversion: white space stands for any white space, another byte for
-- itself. The result is what is left of the input, and whether all of it was met.
pub match_text : (format input : List ℕ) → Bool × List ℕ
match_text [] input = (true, input)
match_text (f ∷ format) [] = if is_space f then match_text format [] else (false, [])
match_text (f ∷ format) (c ∷ input) =
    if is_space f
    then match_text format (skip_spaces (c ∷ input))
    else if f == c
    then match_text format input
    else (false, c ∷ input)

abbrev pub number_of : (digits rest : List ℕ) → Option (ℕ × List ℕ)
number_of [] rest = none
number_of (c ∷ s) rest = some (min (read_digits 0 (c ∷ s)) (2 ^ 64 - 1), rest)

-- "%llu": white space is skipped, and a number that does not fit is cut to the largest that does.
-- A sign is not modelled; it counts as a byte that is no digit.
pub scan_u64 : List ℕ → Option (ℕ × List ℕ)
unfolding drop_digits
scan_u64 input = let s = skip_spaces input in number_of (span_digits s) (drop_digits s)

abbrev pub scanned : (variable : ℕ) → List ℕ → Option (ℕ × List ℕ) → ℕ × List ℕ
scanned variable rest none = (variable, rest)
scanned variable rest (some (number, rest')) = (number, skip_spaces rest')

abbrev pub after_label : (variable : ℕ) → Bool × List ℕ → ℕ × List ℕ
after_label variable (true, rest) = scanned variable rest (scan_u64 rest)
after_label variable (false, rest) = (variable, rest)

-- `fscanf(f, "<label>%llu\n", &variable)`: the variable, as it is after the call, and what is left of
-- the file. The number of conversions is not tested.
pub fscanf_counter : (label : List ℕ) → (variable : ℕ) → (input : List ℕ) → ℕ × List ℕ
unfolding match_text scan_u64
fscanf_counter label variable input = after_label variable (match_text label input)

abbrev pub access_label : List ℕ
access_label = codes "L1 data cache access: "

abbrev pub refill_label : List ℕ
refill_label = codes "L1 data cache refill: "

-- `access` and `refill` are what the two variables hold before anything is stored in them, and
-- `input` is what the file gives.
pub read_pmu_counters_main : System → (access refill : ℕ) → (input : List ℕ) → Program ℕ
unfolding fscanf_counter
read_pmu_counters_main m access refill input = do
  f ←
      ask (λ t. m.fopen_reply t (codes "/proc/pmu_counters"))
        (fopen (codes "/proc/pmu_counters") (codes "r"))
  if f == 0
      then (do call (perror (codes "Error opening /proc/pmu_counters")); pure 1)
      else (let (access', rest) = fscanf_counter access_label access input in
          let (refill', _) = fscanf_counter refill_label refill rest in
          (do
            closed ← ask (λ t. m.fclose_reply t f) (fclose f)
            call (printf (access_label ++ (print_u64 access' ++ codes "\n")))
            call (printf (refill_label ++ (print_u64 refill' ++ codes "\n")))
            pure 0))

number_of-digits :
    (s rest : List ℕ)
    → 0 < length s
    → number_of s rest ≡ some (min (read_digits 0 s) (2 ^ 64 - 1), rest)
number_of-digits [] rest h = absurd (omega arith)
number_of-digits (c ∷ s) rest h = refl

scan_u64-print_u64 :
    (n : ℕ) (t : List ℕ) → n < 2 ^ 64 → scan_u64 (print_u64 n ++ 10 ∷ t) ≡ some (n, 10 ∷ t)
unfolding scan_u64 drop_digits print_u64 span_digits
scan_u64-print_u64 n t h =
    let ds = digits 20 n in
    let all = digits-AllDigits 20 n in
    let some_of = some_digits 19 n in
    rw (skip_spaces-digits ds (10 ∷ t) all some_of) (
      rw (span_digits-append ds (10 ∷ t) all refl) (
        rw (drop_digits-append ds (10 ∷ t) all refl) (
          number_of-digits ds (10 ∷ t) some_of
          ∙ ap (λ k. some (k, 10 ∷ t))
              (omega (arith, read_digits-digits 20 n (omega arith) (omega arith))))))

fscanf_counter-print_u64 :
    (label : List ℕ) (variable n : ℕ) (t : List ℕ)
    → n < 2 ^ 64
    → match_text label (label ++ (print_u64 n ++ 10 ∷ t)) ≡ (true, print_u64 n ++ 10 ∷ t)
    → fscanf_counter label variable (label ++ (print_u64 n ++ 10 ∷ t)) ≡ (n, skip_spaces t)
unfolding fscanf_counter skip_spaces
fscanf_counter-print_u64 label variable n t h met = rw met (rw (scan_u64-print_u64 n t h) refl)

access_met :
    (n : ℕ) (t : List ℕ)
    → match_text access_label (access_label ++ (print_u64 n ++ 10 ∷ t))
      ≡ (true, print_u64 n ++ 10 ∷ t)
unfolding match_text skip_spaces print_u64
access_met n t =
    ap (λ r. (true, r))
      (skip_spaces-digits (digits 20 n) (10 ∷ t) (digits-AllDigits 20 n) (some_digits 19 n))

refill_met :
    (n : ℕ) (t : List ℕ)
    → match_text refill_label (refill_label ++ (print_u64 n ++ 10 ∷ t))
      ≡ (true, print_u64 n ++ 10 ∷ t)
unfolding match_text skip_spaces print_u64
refill_met n t =
    ap (λ r. (true, r))
      (skip_spaces-digits (digits 20 n) (10 ∷ t) (digits-AllDigits 20 n) (some_digits 19 n))

-- The text that the reader leaves, and what is left after the first line.
abbrev instruction_lines : PmuCounters → List ℕ
instruction_lines c =
    codes "L1 instruction cache access: "
    ++ (print_u64 c.l1_inst_cache_access
        ++ (codes "\n"
            ++ (codes "L1 instruction cache refill: "
                ++ (print_u64 c.l1_inst_cache_refill ++ codes "\n"))))

abbrev refill_lines : PmuCounters → List ℕ
refill_lines c = refill_label ++ (print_u64 c.l1_data_cache_refill ++ 10 ∷ instruction_lines c)

-- What `pmu_proc_show` writes is what read_pmu_counters.c reads: for two counters of 64 bits, and
-- where the file can be opened, the program prints the two L1 data counters with the values that
-- the module showed, closes the file and returns 0, whatever its variables held at first.
pub read_pmu_counters_main-pmu_proc_show :
    (m : System) (access refill : ℕ) (c : PmuCounters) (t : Log)
    → let f = m.fopen_reply t (codes "/proc/pmu_counters") in
      let t1 = fopen (codes "/proc/pmu_counters") (codes "r") f ∷ t in
      c.l1_data_cache_access < 2 ^ 64
      → c.l1_data_cache_refill < 2 ^ 64
      → f ≢ 0
      → read_pmu_counters_main m access refill (pmu_proc_show c) t
        ≡ value 0 (
            printf (refill_label ++ (print_u64 c.l1_data_cache_refill ++ codes "\n"))
            ∷ printf (access_label ++ (print_u64 c.l1_data_cache_access ++ codes "\n"))
            ∷ fclose f (m.fclose_reply t1 f)
            ∷ t1)
unfolding read_pmu_counters_main pmu_proc_show skip_spaces
read_pmu_counters_main-pmu_proc_show m access refill c t small_access small_refill opened =
    let first =
      fscanf_counter-print_u64 access_label access c.l1_data_cache_access (refill_lines c)
        small_access (access_met c.l1_data_cache_access (refill_lines c)) in
    let second =
      fscanf_counter-print_u64 refill_label refill c.l1_data_cache_refill (instruction_lines c)
        small_refill (refill_met c.l1_data_cache_refill (instruction_lines c)) in
    rw (==_ne (m.fopen_reply t (codes "/proc/pmu_counters")) 0 opened) (rw first (rw second refl))
