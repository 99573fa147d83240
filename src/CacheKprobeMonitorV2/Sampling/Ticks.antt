-- ===== src/CacheKprobeMonitorV2/Sampling/Ticks.antt =====
-- `sample_perf_counters` as the timer calls it, once and again.
use dreamscape.Base.{
  ℕ, zero, suc, ◌+◌, ◌%◌, ◌^◌, ◌≡◌, refl, ◌∙◌, inl, inr, true, false, Bool, ◌∷◌, arith, length,
  replicate, some, if◌then◌else◌, ◌==◌, Bool-cases,
}
use dreamscape.Kernel.{Ptr, Call, Trace, Kernel, Cmd, ok, pure, ◌>>=◌}
use dreamscape.Kernel.Counts.{
  count, creates, releases, releases_junk, allocates, frees, gets_task, puts_task, pins, unpins,
  locks, unlocks, registers, unregisters, makes_entry, removes_entry, Leakless, Leakless-refl,
  Leakless-trans,
}
use dreamscape.CacheKprobeMonitorV2.{
  Globals, State, PerfCounterData, event_codes, num_events, put, st,
}
use dreamscape.CacheKprobeMonitorV2.Counters.Slots.{AllEvents}
use dreamscape.CacheKprobeMonitorV2.Sampling.{
  Restart, hrtimer_restart, hrtimer_norestart, take_sample, sample_perf_counters,
}
use dreamscape.CacheKprobeMonitorV2.Sampling.Deltas.{reported, remembered}
use dreamscape.CacheKprobeMonitorV2.Sampling.Loop.{Sampled, IsQuiet, sample_loop-Sampled}

-- A block in which all events are open.
pub record IsOpen (d : PerfCounterData) : Type 0 where
  pub events : AllEvents d.events num_events
  pub size : length d.prev_values ≡ num_events

-- From one block and trace to later ones: the events stay, nothing is taken or given back, and for
-- each code the reports add up to what the remembered values grew by.
pub record Monitored (d : PerfCounterData) (t : Trace) (d' : PerfCounterData) (t' : Trace)
    : Type 0 where
  pub is_open : IsOpen d'
  pub same : d'.events ≡ d.events
  pub conserved :
      (c : ℕ)
      → (reported c t' + remembered c event_codes d.prev_values 0) % 2 ^ 64
        ≡ (reported c t + remembered c event_codes d'.prev_values 0) % 2 ^ 64
  pub leakless : Leakless t t'

all_codes : 0 + length event_codes ≡ num_events
unfolding num_events
all_codes = refl

quiet-Leakless :
    (t t' : Trace)
    → ((test : Call → Bool) → IsQuiet test → count test t' ≡ count test t)
    → Leakless t t'
quiet-Leakless t t' same = record {
  events = λ p. omega (arith, same (creates p) (ground arith), same (releases p) (ground arith));
  junk = same releases_junk (ground arith);
  memory = λ p. omega (arith, same (allocates p) (ground arith), same (frees p) (ground arith));
  tasks = λ p. omega (arith, same (gets_task p) (ground arith), same (puts_task p) (ground arith));
  preemption = omega (arith, same pins (ground arith), same unpins (ground arith));
  locking = omega (arith, same locks (ground arith), same unlocks (ground arith));
  kprobe = omega (arith, same registers (ground arith), same unregisters (ground arith));
  entries = λ p.
      omega (arith, same (makes_entry p) (ground arith), same (removes_entry p) (ground arith));
}

Monitored-refl : (d : PerfCounterData) (t : Trace) → IsOpen d → Monitored d t d t
Monitored-refl d t o = record {
  is_open = o;
  same = refl;
  conserved = λ c. refl;
  leakless = Leakless-refl t;
}

pub Monitored-trans :
    {d d' d'' : PerfCounterData} {t t' t'' : Trace}
    → Monitored d t d' t'
    → Monitored d' t' d'' t''
    → Monitored d t d'' t''
Monitored-trans a b = record {
  is_open = b.is_open;
  same = b.same ∙ a.same;
  conserved = λ c. omega (arith, a.conserved c, b.conserved c);
  leakless = Leakless-trans a.leakless b.leakless;
}

-- What the handler calls round the loop.
Monitored-around :
    (d d' : PerfCounterData) (t t' : Trace) (task pc interval : ℕ) (alive : Bool)
    → IsOpen d
    → Sampled 0 event_codes d (Call.task_pt_regs task pc ∷ Call.pid_alive task alive ∷ t) d' t'
    → Monitored d t d' (Call.hrtimer_forward interval ∷ t')
Monitored-around d d' t t' task pc interval alive o s = record {
  is_open = record { events = rw s.events o.events; size = s.size ∙ o.size };
  same = s.events;
  conserved = λ c. omega (arith, s.conserved c);
  leakless =
      Leakless-trans
        (Leakless-trans {t' = Call.task_pt_regs task pc ∷ Call.pid_alive task alive ∷ t}
          (ground arith) (quiet-Leakless _ t' s.others))
        (ground arith);
}

module _ (k : Kernel) (g : Globals) where
  -- The state between two calls.
  abbrev pub holding : PerfCounterData → Trace → State
  holding d t = st (put g.perf_data (some d) g) t

  take_sample-Monitored :
      (d : PerfCounterData) (t : Trace) (task : Ptr) (alive : Bool)
      → IsOpen d
      → (d' : PerfCounterData) × (t' : Trace) × (take_sample k task
            (holding d (Call.pid_alive task alive ∷ t))
          ≡ ok hrtimer_restart (holding d' t'))
        × Monitored d t d' t'
  unfolding take_sample
  take_sample-Monitored d t task alive o =
      let t1 : Trace = Call.pid_alive task alive ∷ t in
      let t2 : Trace = Call.task_pt_regs task (k.task_pc t1 task) ∷ t1 in
      let (out, d', t', run, s) =
        sample_loop-Sampled k g.perf_data g 0 event_codes (replicate num_events 0) d t2 o.events
          o.size all_codes in
      (
        d',
        Call.hrtimer_forward g.sample_interval ∷ t',
        rw (run, ◌>>=◌) refl,
        Monitored-around d d' t t' _ _ _ _ o s,
      )

  -- The timer is started again exactly if there is a task and it is alive.
  abbrev pub goes_on : Trace → Restart
  goes_on t =
      if g.monitored_task == 0
      then hrtimer_norestart
      else if k.alive t g.monitored_task
      then hrtimer_restart
      else hrtimer_norestart

  -- With an open block the timer callback does not fault, and asks to be called again exactly if
  -- there is a task and it is alive. The events stay open, nothing is taken or given back, and what
  -- it reports for a code is what the remembered values beside it grew by, modulo 2^64.
  pub sample_perf_counters-Monitored :
      (d : PerfCounterData) (t : Trace)
      → IsOpen d
      → (d' : PerfCounterData) × (t' : Trace) × (sample_perf_counters k (holding d t)
          ≡ ok (goes_on t) (holding d' t'))
        × Monitored d t d' t'
  unfolding sample_perf_counters
  sample_perf_counters-Monitored d t o = elim (Bool-cases (g.monitored_task == 0)) [
    | inl e ↦ (d, t, rw e refl, Monitored-refl d t o)
    | inr e ↦ elim (Bool-cases (k.alive t g.monitored_task)) [
      | inl a ↦
          let (d', t', run, m) = take_sample-Monitored d t g.monitored_task true o in
          (d', t', rw e (rw a run), m)
      | inr a ↦ (
        d,
        Call.pid_alive g.monitored_task false ∷ t,
        rw e (rw a refl),
        record { is_open = o; same = refl; conserved = λ c. omega arith; leakless = ground arith },
      )
    ]
  ]

-- The timer fires up to `n` times, and not again once a call has answered HRTIMER_NORESTART.
pub ticks : Kernel → ℕ → Cmd Globals (Unit {0})
ticks k zero = pure tt
ticks k (suc n) = do
  r ← sample_perf_counters k
  elim r [ hrtimer_restart ↦ ticks k n | hrtimer_norestart ↦ pure tt ]

module _ (k : Kernel) (g : Globals) where
  pub ticks-Monitored :
      (n : ℕ) (d : PerfCounterData) (t : Trace)
      → IsOpen d
      → (d' : PerfCounterData) × (t' : Trace) × (ticks k n (holding k g d t)
          ≡ ok tt (holding k g d' t'))
        × Monitored d t d' t'
  unfolding ticks
  ticks-Monitored zero d t o = (d, t, refl, Monitored-refl d t o)
  ticks-Monitored (suc n) d t o =
      let (d1, t1, run, m) = sample_perf_counters-Monitored k g d t o in
      go (goes_on k g t) d1 t1 m (rw (run, ◌>>=◌) refl) (ticks-Monitored n d1 t1 m.is_open)
    where
      go :
          (r : Restart) (d1 : PerfCounterData) (t1 : Trace)
          → Monitored d t d1 t1
          → ticks k (suc n) (holding k g d t)
            ≡ (elim r as (λ x. Cmd Globals (Unit {0})) [
              | hrtimer_restart ↦ ticks k n
              | hrtimer_norestart ↦ pure tt
            ])
                (holding k g d1 t1)
          → ((d' : PerfCounterData) × (t' : Trace) × (ticks k n (holding k g d1 t1)
                ≡ ok tt (holding k g d' t'))
              × Monitored d1 t1 d' t')
          → (d' : PerfCounterData) × (t' : Trace) × (ticks k (suc n) (holding k g d t)
              ≡ ok tt (holding k g d' t'))
            × Monitored d t d' t'
      go hrtimer_restart d1 t1 m run (d', t', more, m') = (d', t', run ∙ more, Monitored-trans m m')
      go hrtimer_norestart d1 t1 m run rest = (d1, t1, run, m)
