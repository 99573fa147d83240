-- ===== src/CacheKprobeMonitorV2/Counters/Init.antt =====
-- `init_perf_counters` as a whole.
use dreamscape.Base.{
  ℕ, ◌+◌, ◌*◌, ◌≡◌, ◌≢◌, refl, inl, inr, ◌∷◌, arith, length, length-replicate, none, some, ==_cases,
  ==_ne, Bool, if◌then◌else◌,
}
use dreamscape.Base.Int.{ℤ}
use dreamscape.Kernel.{Ptr, null, no_event, Call, Trace, Kernel, Ends, ◌>>=◌, ◌>>◌, emit, pure}
use dreamscape.CacheKprobeMonitorV2.{
  Globals, State, PerfCounterData, event_codes, num_events, sizeof_perf_counter_data, zeroed, put,
  st,
}
use dreamscape.CacheKprobeMonitorV2.Counters.{init_perf_counters}
use dreamscape.CacheKprobeMonitorV2.Counters.Slots.{occurs}
use dreamscape.CacheKprobeMonitorV2.Counters.Create.{
  Creating, Undone, Created, complete, undone, create_events-Created,
}

abbrev pub block_size : ℕ
block_size = num_events * sizeof_perf_counter_data

-- The three ways in which `init_perf_counters` ends.
pub data Initialised (g : Globals) (t : Trace) : Ptr → State → Type 0 where
  no_memory : Initialised g t null (st g (Call.kzalloc block_size null ∷ t))
  abandoned :
      {pd cpu : ℕ} {t' : Trace}
      → pd ≢ null
      → Undone pd (Call.get_cpu cpu ∷ Call.kzalloc block_size pd ∷ t) t'
      → Initialised g t null (st (put pd none g) t')
  ready :
      {pd cpu : ℕ} {d : PerfCounterData} {t' : Trace}
      → pd ≢ null
      → Creating num_events d (Call.get_cpu cpu ∷ Call.kzalloc block_size pd ∷ t) t'
      → Initialised g t pd (st (put pd (some d) g) (Call.put_cpu ∷ t'))

zeroed-Creating : (t : Trace) → Creating 0 zeroed t t
unfolding occurs
zeroed-Creating t = record {
  size = length-replicate num_events no_event;
  events = λ j h. absurd (omega arith);
  zeros = refl;
  since = record {
    creates = λ p. omega arith;
    releases = λ p. omega arith;
    junk = refl;
    others = λ test b. omega arith;
  };
}

all_codes : 0 + length event_codes ≡ num_events
unfolding num_events
all_codes = refl

-- The last lines of `init_perf_counters`, after the loop.
finish :
    {pd cpu : ℕ} {g : Globals} {t : Trace} {done : Bool} {s : State}
    → pd ≢ null
    → Created pd g (Call.get_cpu cpu ∷ Call.kzalloc block_size pd ∷ t) done s
    → Ends ((if done then (emit Call.put_cpu >> pure pd) else pure null) s) (Initialised g t)
finish {pd} ne (complete made) = (pd, _, refl, ready ne made)
finish ne (undone u) = (null, _, refl, abandoned ne u)

module _ (k : Kernel) (pid : ℤ) (g : Globals) (t : Trace) where
  pub init_perf_counters-Initialised :
      Ends (init_perf_counters k pid (st g t)) (λ pd s. Initialised g t pd s)
  unfolding init_perf_counters
  init_perf_counters-Initialised = elim (==_cases (k.kzalloc_reply t block_size) null) [
    | inl e ↦ rw e (null, _, refl, no_memory)
    | inr ne ↦
        let pd = k.kzalloc_reply t block_size in
        let t1 : Trace = Call.kzalloc block_size pd ∷ t in
        let (done, s, e, made) =
          create_events-Created k (k.cpu t1) pd g 0 event_codes zeroed _ _
            (zeroed-Creating (Call.get_cpu (k.cpu t1) ∷ t1)) all_codes in
        rw (==_ne pd null ne) (rw (e, ◌>>=◌) (finish ne made))
  ]
