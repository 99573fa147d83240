-- ===== src/CacheKprobeMonitorV2/Counters/CounterFile.antt =====
-- `write_counters_to_file`: what is written to the file.
use mathlib.Core.List.{append-nil, append_assoc}
use dreamscape.Base.{
  sym, ℕ, ◌+◌, ◌≤◌, ◌≡◌, refl, ◌∙◌, inl, inr, List, [], ◌∷◌, ◌++◌, arith, codes, get_or, take,
  length, length-append, take_all,
}
use dreamscape.Base.Decimal.{print_u64, length-print_u64}
use dreamscape.Kernel.{Call, Trace, Kernel, ok, Ends, ptr, err_ptr, ErrPtr-cases, ◌>>=◌}
use dreamscape.CacheKprobeMonitorV2.{Globals, event_codes, st}
use dreamscape.CacheKprobeMonitorV2.Counters.{counter_line, write_lines, write_counters_to_file}

abbrev pub counter_file : List ℕ
counter_file = codes "/tmp/perf_counters.txt"

-- What kernel_write was handed, in order, whatever it took of it.
abbrev pub handed : Trace → List (List ℕ)
handed [] = []
handed (Call.kernel_write bytes taken ∷ t) = handed t ++ (bytes ∷ [])
handed (_ ∷ t) = handed t

-- A line for each code from index `i`: the code and the value there, in decimal.
pub counter_lines : ℕ → List ℕ → List ℕ → List (List ℕ)
counter_lines i values [] = []
counter_lines i values (c ∷ rest) =
    (codes "Event "
      ++ (print_u64 c ++ (codes ": " ++ (print_u64 (get_or values i 0) ++ codes "\n"))))
    ∷ counter_lines (i + 1) values rest

-- A line fits `buf[1024]`, so `snprintf` cuts nothing off.
length-counter_line : (c v : ℕ) → length (counter_line c v) ≤ 1023
length-counter_line c v = omega (
  arith,
  length-append (codes "Event ") (print_u64 c ++ (codes ": " ++ (print_u64 v ++ codes "\n"))),
  length-append (print_u64 c) (codes ": " ++ (print_u64 v ++ codes "\n")),
  length-append (codes ": ") (print_u64 v ++ codes "\n"),
  length-append (print_u64 v) (codes "\n"),
  length-print_u64 c,
  length-print_u64 v,
)

write_lines-handed :
    (k : Kernel) (i : ℕ) (values cs : List ℕ) (g : Globals) (t : Trace)
    → (t' : Trace) × (write_lines k i values cs (st g t) ≡ ok tt (st g t'))
      × (handed t' ≡ handed t ++ counter_lines i values cs)
unfolding write_lines counter_lines
write_lines-handed k i values [] g t = (t, refl, sym (append-nil _))
write_lines-handed k i values (c ∷ rest) g t =
    let line = counter_line c (get_or values i 0) in
    let cut : take 1023 line ≡ line =
      take_all 1023 line (length-counter_line c (get_or values i 0)) in
    let sent = take 1023 line in
    let (t', run, lines) =
      write_lines-handed k (i + 1) values rest g
        (Call.kernel_write sent (k.kernel_write_reply t sent) ∷ t) in
    (
      t',
      run,
      lines ∙ rw cut (append_assoc (handed t) (line ∷ []) (counter_lines (i + 1) values rest)),
    )

-- Whatever Linux answers: where the file opens, kernel_write is handed one whole line for each of the
-- event codes, in their order, with the code and the value at the same index in decimal, and nothing
-- else; what it takes of a line is not looked at. Where the file does not open, nothing is handed over.
-- The globals stay.
pub write_counters_to_file-text :
    (k : Kernel) (values : List ℕ) (g : Globals) (t : Trace)
    → Ends (write_counters_to_file k values (st g t)) (λ _ s.
      (s.globals ≡ g)
      × ((f : ℕ)
          → k.open_reply t counter_file ≡ ptr f
          → handed s.trace ≡ handed t ++ counter_lines 0 values event_codes)
      × ((e : ℕ) → k.open_reply t counter_file ≡ err_ptr e → handed s.trace ≡ handed t))
unfolding write_counters_to_file
write_counters_to_file-text k values g t = elim (ErrPtr-cases (k.open_reply t counter_file)) [
  | inl (f, is) ↦
      let (t', run, lines) =
        write_lines-handed k 0 values event_codes g (Call.filp_open counter_file (ptr f) ∷ t) in
      rw is (rw (run, ◌>>=◌) (tt, _, refl, (refl, λ f' q. lines, λ e q. cc)))
  | inr (e, is) ↦ rw is (tt, _, refl, (refl, λ f q. cc, λ e' q. refl))
]
