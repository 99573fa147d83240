-- ===== src/CacheKprobeMonitorV2/Sampling/Loop.antt =====
-- The loop of `sample_perf_counters`: it does not fault, and what it reports is what the
-- remembered values grew by.
use dreamscape.Base.{
  ℕ, ◌+◌, ◌%◌, ◌^◌, ◌<◌, ◌≡◌, refl, ◌∙◌, true, false, Bool, List, [], ◌∷◌, arith, get_or, set,
  length, length-set, get_or-set_self, get_or-set_ne, some, if◌then◌else◌, ◌==◌,
}
use dreamscape.Kernel.{Ptr, EventPtr, no_event, event, bad_event, Call, Trace, Kernel, ok, ◌>>=◌}
use dreamscape.Kernel.Counts.{count}
use dreamscape.CacheKprobeMonitorV2.{Globals, PerfCounterData, num_events, put, st}
use dreamscape.CacheKprobeMonitorV2.Counters.{with_prev}
use dreamscape.CacheKprobeMonitorV2.Counters.Heap.{load-put, put-put}
use dreamscape.CacheKprobeMonitorV2.Counters.Slots.{AllEvents, holds_event}
use dreamscape.CacheKprobeMonitorV2.Sampling.{u64, delta64, read_slot, sample_loop}
use dreamscape.CacheKprobeMonitorV2.Sampling.Deltas.{reported, remembered, remembered-set}

-- A test that sees neither the reading of an event nor a report.
pub record IsQuiet (test : Call → Bool) : Type 0 where
  pub read : (e : EventPtr) (v : ℕ) → test (Call.perf_event_read e v) ≡ false
  pub report : (c v delta : ℕ) → test (Call.report c v delta) ≡ false

-- From block `d` and trace `t` to `d'` and `t'`, for the codes from index `i`.
pub record Sampled (i : ℕ) (cs : List ℕ) (d : PerfCounterData) (t : Trace) (d' : PerfCounterData)
    (t' : Trace) : Type 0 where
  pub events : d'.events ≡ d.events
  pub size : length d'.prev_values ≡ length d.prev_values
  pub below : (j : ℕ) → j < i → get_or d'.prev_values j 0 ≡ get_or d.prev_values j 0
  pub conserved :
      (c : ℕ)
      → (reported c t' + remembered c cs d.prev_values i) % 2 ^ 64
        ≡ (reported c t + remembered c cs d'.prev_values i) % 2 ^ 64
  pub others : (test : Call → Bool) → IsQuiet test → count test t' ≡ count test t

event_of : (e : EventPtr) → holds_event e ≡ true → (p : ℕ) × (e ≡ event p)
event_of no_event h = cc
event_of (event p) h = (p, refl)
event_of (bad_event n) h = cc

-- One round: `new` is read where `prev` was remembered.
conserved_step :
    (same : Bool) (new prev R' R W W' : ℕ)
    → new < 2 ^ 64
    → (R' + W) % 2 ^ 64 ≡ ((if same then delta64 new prev else 0) + (0 + R) + W') % 2 ^ 64
    → (R' + ((if same then prev else 0) + W)) % 2 ^ 64
      ≡ (R + ((if same then new else 0) + W')) % 2 ^ 64
conserved_step true new prev R' R W W' lt h = omega arith
conserved_step false new prev R' R W W' lt h = omega arith

u64-lt : (n : ℕ) → u64 n < 2 ^ 64
u64-lt n = omega arith

read_slot-ok :
    (k : Kernel) (e : EventPtr) (p : ℕ) (g : Globals) (t : Trace)
    → e ≡ event p
    → read_slot k e (st g t)
      ≡ ok
          (u64 (k.read_reply t (event p)))
          (st g (Call.perf_event_read (event p) (u64 (k.read_reply t (event p))) ∷ t))
read_slot-ok k e p g t is = rw is

module _ (k : Kernel) (pd : Ptr) (g : Globals) where
  pub sample_loop-Sampled :
      (i : ℕ) (cs : List ℕ) (values : List ℕ) (d : PerfCounterData) (t : Trace)
      → AllEvents d.events num_events
      → length d.prev_values ≡ num_events
      → i + length cs ≡ num_events
      → (out : List ℕ) × (d' : PerfCounterData) × (t' : Trace) × (sample_loop k pd i cs values
            (st (put pd (some d) g) t)
          ≡ ok out (st (put pd (some d') g) t'))
        × Sampled i cs d t d' t'
  unfolding sample_loop remembered
  sample_loop-Sampled i [] values d t all size n = (
    values,
    d,
    t,
    refl,
    record {
      events = refl;
      size = refl;
      below = λ j h. refl;
      conserved = λ c. refl;
      others = λ test q. refl;
    },
  )
  sample_loop-Sampled i (c ∷ rest) values d t all size n =
      let (p, is) = event_of (get_or d.events i no_event) (all i (omega arith)) in
      let new = u64 (k.read_reply t (event p)) in
      let prev = get_or d.prev_values i 0 in
      let t1 : Trace =
        Call.report c new (delta64 new prev) ∷ Call.perf_event_read (event p) new ∷ t in
      let d1 = with_prev d i new in
      let (out, d', t', run, after) =
        sample_loop-Sampled (i + 1) rest (set values i (delta64 new prev)) d1 t1 all
          (length-set d.prev_values i new ∙ size) (omega arith) in
      (
        out,
        d',
        t',
        rw (load-put pd d g t, ◌>>=◌)
            (rw (read_slot-ok k _ p (put pd (some d) g) t is, ◌>>=◌) (rw put-put run)),
        record {
          events = after.events;
          size = after.size ∙ length-set d.prev_values i new;
          below = λ j h.
              after.below j (omega arith) ∙ get_or-set_ne d.prev_values i j new 0 (omega arith);
          conserved = λ c'.
              rw (after.below i (omega arith) ∙ get_or-set_self d.prev_values i new 0 (omega arith))
                (conserved_step (c == c') new prev (reported c' t') (reported c' t) _ _
                  (u64-lt (k.read_reply t (event p)))
                  (rw (remembered-set c' rest d.prev_values (i + 1) i new (omega arith)) at
                    (after.conserved c')));
          others = λ test q.
              after.others test q
              ∙ rw (q.report c new (delta64 new prev), q.read (event p) new) (omega arith);
        },
      )
