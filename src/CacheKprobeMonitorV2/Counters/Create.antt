-- ===== src/CacheKprobeMonitorV2/Counters/Create.antt =====
-- The loop of `init_perf_counters`: on success every slot holds an event that was created, on
-- failure all events created so far are released.
use dreamscape.Base.{
  ℕ, suc, ◌+◌, ◌<◌, ◌≡◌, refl, ◌∙◌, inl, inr, Bool, true, false, List, [], ◌∷◌, arith, set, length,
  replicate, length-set, get_or-set_ne, none, some,
}
use dreamscape.Base.Int.{pos}
use dreamscape.Kernel.{
  Ptr, ptr, err_ptr, event, bad_event, no_event, Call, Trace, Kernel, Ends, ◌>>=◌, ErrPtr-cases,
}
use dreamscape.Kernel.Counts.{count, creates, releases, releases_junk, Balanced}
use dreamscape.CacheKprobeMonitorV2.{Globals, State, PerfCounterData, num_events, put, st}
use dreamscape.CacheKprobeMonitorV2.Counters.{with_event, with_prev, counter_attr, create_events}
use dreamscape.CacheKprobeMonitorV2.Counters.Heap.{load-put, put-put}
use dreamscape.CacheKprobeMonitorV2.Counters.Slots.{
  occurs, AllEvents, occurs-set, occurs-set_self, AllEvents-set, set-replicate,
}
use dreamscape.CacheKprobeMonitorV2.Counters.Release.{
  IsBlind, Since, release_log, release_down-log, release_log-creates, release_log-releases,
  release_log-junk, release_log-others,
}

-- The block and the trace when the first `i` events have been created.
pub record Creating (i : ℕ) (d : PerfCounterData) (t0 t : Trace) : Type 0 where
  pub size : length d.events ≡ num_events
  pub events : AllEvents d.events i
  pub zeros : d.prev_values ≡ replicate num_events 0
  pub since : Since t0 t (λ p. occurs p d.events 0 i) (λ p. 0) (λ test. 0)

-- All that was created has been released, and the block and the CPU given back.
pub record Undone (pd : Ptr) (t0 t : Trace) : Type 0 where
  pub events : (p : ℕ) → Balanced (creates p) (releases p) t0 t
  pub junk : count releases_junk t ≡ count releases_junk t0
  pub others :
      (test : Call → Bool)
      → IsBlind test
      → count test t ≡ count test (Call.put_cpu ∷ Call.kfree pd ∷ t0)

pub data Created (pd : Ptr) (g : Globals) (t0 : Trace) : Bool → State → Type 0 where
  complete :
      {d : PerfCounterData} {t : Trace}
      → Creating num_events d t0 t
      → Created pd g t0 true (st (put pd (some d) g) t)
  undone : {t : Trace} → Undone pd t0 t → Created pd g t0 false (st (put pd none g) t)

module _ (k : Kernel) (cpu : ℕ) (c i : ℕ) (d : PerfCounterData) (t0 t : Trace)
    (inv : Creating i d t0 t) (fits : i < num_events) where
  Creating-ptr :
      (p : ℕ)
      → Creating
          (i + 1)
          (with_prev (with_event d i (event p)) i 0)
          t0
          (Call.perf_event_create (counter_attr k c) (pos cpu) (ptr p) ∷ t)
  Creating-ptr p =
      let room : i < length d.events = omega (arith, inv.size) in
      let next : i + 1 ≡ suc i = omega arith in
      rw next (record {
        size = length-set d.events i (event p) ∙ inv.size;
        events = AllEvents-set d.events i p room inv.events;
        zeros = rw (inv.zeros) (set-replicate num_events i 0);
        since = record {
          creates =
              λ q. ground (arith, inv.since.creates q, occurs-set_self q d.events i (event p) room);
          releases = λ q. omega (arith, inv.since.releases q);
          junk = omega (arith, inv.since.junk);
          others = λ test b.
              rw (b.create (counter_attr k c) (pos cpu) (ptr p))
                (omega (arith, inv.since.others test b));
        };
      })

  Undone-err :
      (pd : Ptr) (e : ℕ)
      → Undone pd t0 (
          Call.put_cpu
          ∷ Call.kfree pd
          ∷ release_log
              (with_event d i (bad_event e)).events
              i
              (Call.perf_event_create (counter_attr k c) (pos cpu) (err_ptr e) ∷ t))
  Undone-err pd e =
      let es = set d.events i (bad_event e) in
      let t1 = Call.perf_event_create (counter_attr k c) (pos cpu) (err_ptr e) ∷ t in
      let all : AllEvents es i = λ j h.
        rw (get_or-set_ne d.events i j (bad_event e) no_event (omega arith)) (inv.events j h) in
      record {
        events = λ q. omega (
          arith,
          inv.since.creates q,
          inv.since.releases q,
          release_log-creates q es i t1,
          release_log-releases q es i t1,
          occurs-set q d.events i (bad_event e) i (omega arith),
        );
        junk = omega (arith, inv.since.junk, release_log-junk es i t1 all);
        others = λ test b. ground (
          arith,
          release_log-others test es i t1 b,
          b.create (counter_attr k c) (pos cpu) (err_ptr e),
          inv.since.others test b,
        );
      }

module _ (k : Kernel) (cpu : ℕ) (pd : Ptr) (g : Globals) where
  -- The loop ends, and either way all events are accounted for.
  pub create_events-Created :
      (i : ℕ) (codes : List ℕ) (d : PerfCounterData) (t0 t : Trace)
      → Creating i d t0 t
      → i + length codes ≡ num_events
      → Ends (create_events k cpu pd i codes (st (put pd (some d) g) t)) (Created pd g t0)
  unfolding create_events
  create_events-Created i [] d t0 t inv n =
      let e : num_events ≡ i = omega arith in
      (true, st (put pd (some d) g) t, refl, complete (rw e inv))
  create_events-Created i (c ∷ rest) d t0 t inv n =
      elim (ErrPtr-cases (k.create_reply t (counter_attr k c) (pos cpu))) [
        | inl (p, e) ↦
            rw (load-put pd d g _, ◌>>=◌)
              (rw (e, put-put)
                (rw (load-put pd _ g _, ◌>>=◌)
                  (rw put-put (
                    create_events-Created (i + 1) rest _ t0 _
                      (Creating-ptr k cpu c i d t0 t inv (omega arith) p) (omega arith)))))
        | inr (m, e) ↦
            rw (load-put pd d g _, ◌>>=◌)
              (rw (e, put-put)
                (rw (release_down-log pd i _ g _, ◌>>=◌)
                  (rw put-put
                    (false, _, refl, undone (Undone-err k cpu c i d t0 t inv (omega arith) pd m)))))
      ]
