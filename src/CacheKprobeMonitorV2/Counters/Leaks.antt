-- ===== src/CacheKprobeMonitorV2/Counters/Leaks.antt =====
-- What `init_perf_counters` takes is given back, by itself on failure, by `cleanup_perf_counters`
-- otherwise.
use dreamscape.Base.{
  ℕ, ◌≡◌, ◌≢◌, refl, true, false, Bool, List, [], ◌∷◌, arith, get_or, some, ==_ne,
}
use dreamscape.Base.Int.{ℤ}
use dreamscape.Kernel.{Ptr, null, EventPtr, no_event, Call, Trace, Kernel, ok, Ends, ◌>>=◌}
use dreamscape.Kernel.Counts.{
  count, creates, releases, releases_junk, allocates, frees, gets_task, puts_task, pins, unpins,
  locks, unlocks, registers, unregisters, makes_entry, removes_entry, Balanced, Leakless,
}
use dreamscape.CacheKprobeMonitorV2.{Globals, State, PerfCounterData, num_events, put, st}
use dreamscape.CacheKprobeMonitorV2.Counters.{init_perf_counters, cleanup_perf_counters}
use dreamscape.CacheKprobeMonitorV2.Counters.Slots.{occurs, holds_event, AllEvents}
use dreamscape.CacheKprobeMonitorV2.Counters.Release.{IsBlind, Since}
use dreamscape.CacheKprobeMonitorV2.Counters.Create.{Creating, Undone}
use dreamscape.CacheKprobeMonitorV2.Counters.Init.{
  Initialised, no_memory, abandoned, ready, init_perf_counters-Initialised, block_size,
}
use dreamscape.CacheKprobeMonitorV2.Counters.Cleanup.{is_bad, NoneBad, cleanup_perf_counters-Since}

-- Two traces on which every test that is blind to perf events counts as on two others, where all
-- is balanced.
pub blind-Leakless :
    (t t1 t' : Trace)
    → ((p : ℕ) → Balanced (creates p) (releases p) t t')
    → count releases_junk t' ≡ count releases_junk t
    → ((test : Call → Bool) → IsBlind test → count test t' ≡ count test t1)
    → Leakless t t1
    → Leakless t t'
blind-Leakless t t1 t' ev junk same l = record {
  events = ev;
  junk = junk;
  memory = λ p.
      omega (arith, same (allocates p) (ground arith), same (frees p) (ground arith), l.memory p);
  tasks = λ p.
      omega
        (arith, same (gets_task p) (ground arith), same (puts_task p) (ground arith), l.tasks p);
  preemption = omega (arith, same pins (ground arith), same unpins (ground arith), l.preemption);
  locking = omega (arith, same locks (ground arith), same unlocks (ground arith), l.locking);
  kprobe = omega (arith, same registers (ground arith), same unregisters (ground arith), l.kprobe);
  entries = λ p. omega (
    arith,
    same (makes_entry p) (ground arith),
    same (removes_entry p) (ground arith),
    l.entries p,
  );
}

module _ (t : Trace) (pd cpu : ℕ) (ne : pd ≢ null) where
  abbrev pub begun : Trace
  begun = Call.get_cpu cpu ∷ Call.kzalloc block_size pd ∷ t

  -- The calls around the loop, taken back.
  around-Leakless : Leakless t (Call.put_cpu ∷ Call.kfree pd ∷ begun)
  around-Leakless = ground (arith, ==_ne pd null ne)

  pub Undone-Leakless : {t' : Trace} → Undone pd begun t' → Leakless t t'
  Undone-Leakless u =
      blind-Leakless t (Call.put_cpu ∷ Call.kfree pd ∷ begun) _ (λ p. omega (arith, u.events p))
        (omega (arith, u.junk)) u.others around-Leakless

  -- After the loop and the later cleanup of the same block.
  cleaned-Leakless :
      {d : PerfCounterData} {t1 t2 : Trace}
      → Creating num_events d begun t1
      → Since
          (Call.put_cpu ∷ t1)
          t2
          (λ p. 0)
          (λ p. occurs p d.events 0 num_events)
          (λ test. count test (Call.kfree pd ∷ []))
      → Leakless t t2
  cleaned-Leakless made since =
      blind-Leakless t (Call.put_cpu ∷ Call.kfree pd ∷ begun) _
        (λ p.
          omega
            (arith, made.since.creates p, made.since.releases p, since.creates p, since.releases p))
        (omega (arith, made.since.junk, since.junk))
        (λ test b. omega (arith, made.since.others test b, since.others test b)) around-Leakless

pub cleanup_null : (s : State) → cleanup_perf_counters null s ≡ ok tt s
unfolding cleanup_perf_counters
cleanup_null s = refl

good_of_event : (e : EventPtr) → holds_event e ≡ true → is_bad e ≡ false
good_of_event e h = ground arith

pub AllEvents-NoneBad : (es : List EventPtr) {n : ℕ} → AllEvents es n → NoneBad es n
AllEvents-NoneBad es all j h = good_of_event (get_or es j no_event) (all j h)

module _ (k : Kernel) (pid : ℤ) (g : Globals) (t : Trace) where
  -- Whatever Linux answers: where `init_perf_counters` returns NULL, it has given back all that it
  -- took.
  pub init_perf_counters-Leakless :
      Ends (init_perf_counters k pid (st g t)) (λ pd s. pd ≡ null → Leakless t s.trace)
  init_perf_counters-Leakless =
      let (pd, s, e, end) = init_perf_counters-Initialised k pid g t in (pd, s, e, from end)
    where
      from : {pd : Ptr} {s : State} → Initialised g t pd s → pd ≡ null → Leakless t s.trace
      from no_memory _ = ground arith
      from (abandoned {pd} {cpu} ne u) _ = Undone-Leakless t pd cpu ne u
      from (ready ne made) z = absurd (ne z)

  -- Whatever Linux answers: `init_perf_counters` followed by `cleanup_perf_counters` of its result
  -- gives back every event, the block of memory and the CPU, and releases nothing else.
  pub cleanup_perf_counters-init_perf_counters :
      Ends
        ((init_perf_counters k pid >>= cleanup_perf_counters) (st g t))
        (λ _ s. Leakless t s.trace)
  cleanup_perf_counters-init_perf_counters =
      let (pd, s, e, end) = init_perf_counters-Initialised k pid g t in rw (e, ◌>>=◌) (from end)
    where
      from :
          {pd : Ptr} {s : State}
          → Initialised g t pd s
          → Ends (cleanup_perf_counters pd s) (λ _ s'. Leakless t s'.trace)
      from no_memory = (tt, _, cleanup_null _, ground arith)
      from (abandoned {pd} {cpu} ne u) = (tt, _, cleanup_null _, Undone-Leakless t pd cpu ne u)
      from (ready {pd} {cpu} {d} {t'} ne made) =
          let (t2, e, since) =
            cleanup_perf_counters-Since pd d (put pd (some d) g) (ground arith) (Call.put_cpu ∷ t')
              ne (AllEvents-NoneBad d.events made.events) in
          (tt, _, e, cleaned-Leakless t pd cpu ne made since)
