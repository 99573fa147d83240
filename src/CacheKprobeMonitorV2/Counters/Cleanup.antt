-- ===== src/CacheKprobeMonitorV2/Counters/Cleanup.antt =====
-- `cleanup_perf_counters`: every event of the block is released, and the block is freed.
use dreamscape.Base.{
  ℕ, zero, suc, ◌+◌, ◌<◌, ◌≡◌, ◌≢◌, refl, ◌∙◌, true, false, Bool, List, [], ◌∷◌, arith, get_or,
  none, some, if◌then◌else◌, ==_ne,
}
use dreamscape.Kernel.{Ptr, null, EventPtr, no_event, event, bad_event, Call, Trace, ok, ◌>>=◌}
use dreamscape.Kernel.Counts.{count, is_event}
use dreamscape.CacheKprobeMonitorV2.{Globals, PerfCounterData, num_events, put, st}
use dreamscape.CacheKprobeMonitorV2.Counters.{release_slot, cleanup_loop, cleanup_perf_counters}
use dreamscape.CacheKprobeMonitorV2.Counters.Heap.{load-some}
use dreamscape.CacheKprobeMonitorV2.Counters.Slots.{occurs, occurs-suc}
use dreamscape.CacheKprobeMonitorV2.Counters.Release.{Since}

abbrev pub is_bad : EventPtr → Bool
is_bad (bad_event e) = true
is_bad _ = false

-- No slot below `n` holds an error pointer; NULL is allowed.
abbrev pub NoneBad : List EventPtr → ℕ → Type 0
NoneBad es n = (j : ℕ) → j < n → is_bad (get_or es j no_event) ≡ false

release_slot-Since :
    (e : EventPtr) (g : Globals) (t : Trace)
    → is_bad e ≡ false
    → (t' : Trace) × (release_slot e (st g t) ≡ ok tt (st g t'))
      × Since t t' (λ p. 0) (λ p. if is_event p e then 1 else 0) (λ test. 0)
release_slot-Since no_event g t h = (
  t,
  refl,
  record {
    creates = λ p. omega arith;
    releases = λ p. omega arith;
    junk = refl;
    others = λ test b. omega arith;
  },
)
release_slot-Since (event q) g t h = (
  _,
  refl,
  record {
    creates = λ p. omega arith;
    releases = λ p. omega arith;
    junk = omega arith;
    others = λ test b. rw (b.release (event q)) (omega arith);
  },
)
release_slot-Since (bad_event e) g t h = cc

module _ (pd : Ptr) (d : PerfCounterData) (g : Globals) (at : g.heap pd ≡ some d) where
  cleanup_loop-Since :
      (i n : ℕ) (t : Trace)
      → ((j : ℕ) → j < i + n → is_bad (get_or d.events j no_event) ≡ false)
      → (t' : Trace) × (cleanup_loop pd i n (st g t) ≡ ok tt (st g t'))
        × Since t t' (λ p. 0) (λ p. occurs p d.events i n) (λ test. 0)
  unfolding cleanup_loop occurs
  cleanup_loop-Since i zero t good = (
    t,
    refl,
    record {
      creates = λ p. omega arith;
      releases = λ p. omega arith;
      junk = refl;
      others = λ test b. omega arith;
    },
  )
  cleanup_loop-Since i (suc n) t good =
      let (t1, e1, since1) =
        release_slot-Since (get_or d.events i no_event) g t (good i (omega arith)) in
      let (t2, e2, since2) = cleanup_loop-Since (i + 1) n t1 (λ j h. good j (omega arith)) in
      (
        t2,
        rw (load-some pd d g t at, ◌>>=◌) (rw (e1, ◌>>=◌) e2),
        record {
          creates = λ p. omega (arith, since1.creates p, since2.creates p);
          releases =
              λ p. ground (arith, since1.releases p, since2.releases p, occurs-suc p d.events i n);
          junk = since2.junk ∙ since1.junk;
          others = λ test b. omega (arith, since1.others test b, since2.others test b);
        },
      )

  -- Each event is released as often as the block holds it, the block is freed, and nothing else
  -- is called.
  pub cleanup_perf_counters-Since :
      (t : Trace)
      → pd ≢ null
      → NoneBad d.events num_events
      → (t' : Trace) × (cleanup_perf_counters pd (st g t) ≡ ok tt (st (put pd none g) t'))
        × Since t t'
            (λ p. 0)
            (λ p. occurs p d.events 0 num_events)
            (λ test. count test (Call.kfree pd ∷ []))
  unfolding cleanup_perf_counters
  cleanup_perf_counters-Since t ne good =
      let (t1, e, since) = cleanup_loop-Since 0 num_events t (λ j h. good j (omega arith)) in
      (
        Call.kfree pd ∷ t1,
        rw (==_ne pd null ne) (rw (e, ◌>>=◌) refl),
        record {
          creates = λ p. omega (arith, since.creates p);
          releases = λ p. omega (arith, since.releases p);
          junk = omega (arith, since.junk);
          others = λ test b. omega (arith, since.others test b);
        },
      )
