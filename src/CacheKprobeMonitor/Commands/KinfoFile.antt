-- ===== src/CacheKprobeMonitor/Commands/KinfoFile.antt =====
-- `write_kinfo_to_file`: what the file holds afterwards.
use mathlib.Core.List.{append-nil, append_assoc}
use dreamscape.Base.{
  sym, ℕ, ◌+◌, ◌≤◌, ◌≡◌, refl, ◌∙◌, inl, inr, true, List, [], ◌∷◌, ◌++◌, arith, codes, take, length,
  length-append, take_all,
}
use dreamscape.Base.Int.{ℤ}
use dreamscape.Base.Decimal.{print_u64, length-print_u64}
use dreamscape.Base.Scan.{print_hex, length-print_hex}
use dreamscape.Kernel.{Call, Trace, Kernel, ok, ptr, err_ptr, ErrPtr-cases, ◌>>=◌}
use dreamscape.CacheKprobeMonitor.{Globals, CounterData, num_events, st}
use dreamscape.CacheKprobeMonitor.Commands.{
  filename, file_write, file_write_if, pc_text, event_text, write_events, write_entries,
  write_kinfo_to_file,
}

-- All bytes that were written, in order.
abbrev pub file_bytes : Trace → List ℕ
file_bytes [] = []
file_bytes (Call.file_write bytes ∷ t) = file_bytes t ++ bytes
file_bytes (_ ∷ t) = file_bytes t

pub events_text : ℕ → List ℕ → List ℕ
events_text i [] = []
events_text i (v ∷ rest) = event_text i v ++ events_text (i + 1) rest

-- One line for each entry of the list, from its head on.
pub kinfo_text : List CounterData → List ℕ
unfolding events_text
kinfo_text [] = []
kinfo_text (entry ∷ rest) =
    (pc_text entry.pc ++ (events_text 0 (take num_events entry.counters) ++ codes "\n"))
    ++ kinfo_text rest

-- Each piece fits its buffer, so `snprintf` cuts nothing off.
length-pc_text : (pc : ℕ) → length (pc_text pc) ≤ 255
length-pc_text pc =
    omega (arith, length-append (codes "PC: 0x") (print_hex pc), length-print_hex pc)

length-event_text : (i v : ℕ) → length (event_text i v) ≤ 63
length-event_text i v = omega (
  arith,
  length-append (codes ", Event ") (print_u64 i ++ (codes ": " ++ print_u64 v)),
  length-append (print_u64 i) (codes ": " ++ print_u64 v),
  length-append (codes ": ") (print_u64 v),
  length-print_u64 i,
  length-print_u64 v,
)

module _ (k : Kernel) (g : Globals) (writes : (t : Trace) → k.has_write t ≡ true) where
  file_write-ok :
      (bytes : List ℕ) (t : Trace)
      → file_write k bytes (st g t) ≡ ok tt (st g (Call.file_write bytes ∷ t))
  unfolding file_write
  file_write-ok bytes t = rw (writes t) refl

  file_write_if-ok :
      (bytes : List ℕ) (t : Trace)
      → file_write_if k bytes (st g t) ≡ ok tt (st g (Call.file_write bytes ∷ t))
  unfolding file_write_if
  file_write_if-ok bytes t = rw (writes t) refl

  write_events-text :
      (i : ℕ) (values : List ℕ) (t : Trace)
      → (t' : Trace) × (write_events k i values (st g t) ≡ ok tt (st g t'))
        × (file_bytes t' ≡ file_bytes t ++ events_text i values)
  unfolding write_events events_text
  write_events-text i [] t = (t, refl, sym (append-nil _))
  write_events-text i (v ∷ rest) t =
      let cut : take 63 (event_text i v) ≡ event_text i v =
        take_all 63 (event_text i v) (length-event_text i v) in
      let (t', run, text) =
        write_events-text (i + 1) rest (Call.file_write (take 63 (event_text i v)) ∷ t) in
      rw (file_write-ok _ t, ◌>>=◌)
        (t', run, text ∙ rw cut (append_assoc (file_bytes t) (event_text i v) _))

  write_entries-text :
      (l : List CounterData) (t : Trace)
      → (t' : Trace) × (write_entries k l (st g t) ≡ ok tt (st g t'))
        × (file_bytes t' ≡ file_bytes t ++ kinfo_text l)
  unfolding write_entries kinfo_text
  write_entries-text [] t = (t, refl, sym (append-nil _))
  write_entries-text (entry ∷ rest) t =
      let name = pc_text entry.pc in
      let events = events_text 0 (take num_events entry.counters) in
      let cut : take 255 name ≡ name = take_all 255 name (length-pc_text entry.pc) in
      let (t1, run1, text1) =
        write_events-text 0 (take num_events entry.counters)
          (Call.file_write (take 255 name) ∷ t) in
      let (t2, run2, text2) = write_entries-text rest (Call.file_write (codes "\n") ∷ t1) in
      rw (file_write_if-ok _ t, ◌>>=◌)
        (rw (run1, ◌>>=◌)
          (rw (file_write-ok _ t1, ◌>>=◌)
            (t2, run2, text2 ∙ rw text1 (rw cut (simp append_assoc)))))

  pub write_kinfo_to_file-text :
      (pid : ℤ) (t : Trace)
      → (t' : Trace) × (write_kinfo_to_file k pid (st g t) ≡ ok tt (st g t'))
        × ((f : ℕ)
            → k.open_reply t (filename pid) ≡ ptr f
            → file_bytes t' ≡ file_bytes t ++ kinfo_text g.counter_list)
        × ((e : ℕ) → k.open_reply t (filename pid) ≡ err_ptr e → file_bytes t' ≡ file_bytes t)
  unfolding write_kinfo_to_file
  write_kinfo_to_file-text pid t = elim (ErrPtr-cases (k.open_reply t (filename pid))) [
    | inl (f, is) ↦
        let (t', run, text) =
          write_entries-text g.counter_list (Call.filp_open (filename pid) (ptr f) ∷ t) in
        rw is (rw (run, ◌>>=◌) (_, refl, λ f' q. text, λ e q. cc))
    | inr (e, is) ↦ rw is (_, refl, λ f q. cc, λ e' q. refl)
  ]
