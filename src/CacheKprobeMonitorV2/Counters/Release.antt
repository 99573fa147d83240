-- ===== src/CacheKprobeMonitorV2/Counters/Release.antt =====
-- Releasing the first events of the block, and what is counted between two traces.
use dreamscape.Base.{
  ℕ, zero, suc, ◌+◌, ◌≡◌, refl, ◌∙◌, Bool, true, false, List, ◌∷◌, arith, get_or, some,
}
use dreamscape.Base.Int.{ℤ}
use dreamscape.Kernel.{Ptr, ErrPtr, PerfEventAttr, EventPtr, no_event, Call, Trace, ok, ◌>>=◌}
use dreamscape.Kernel.Counts.{count, creates, releases, releases_junk}
use dreamscape.CacheKprobeMonitorV2.{Globals, PerfCounterData, put, st}
use dreamscape.CacheKprobeMonitorV2.Counters.{release_down}
use dreamscape.CacheKprobeMonitorV2.Counters.Heap.{load-put}
use dreamscape.CacheKprobeMonitorV2.Counters.Slots.{occurs, AllEvents, holds_event}

-- A test that sees neither the creation nor the release of an event.
pub record IsBlind (test : Call → Bool) : Type 0 where
  pub create :
      (attr : PerfEventAttr) (cpu : ℤ) (r : ErrPtr)
      → test (Call.perf_event_create attr cpu r) ≡ false
  pub release : (e : EventPtr) → test (Call.perf_event_release e) ≡ false

-- The events that a trace took and gave back since an older one, and what else was called.
pub record Since (t0 t : Trace) (taken given : ℕ → ℕ) (more : (Call → Bool) → ℕ) : Type 0 where
  pub creates : (p : ℕ) → count (creates p) t ≡ count (creates p) t0 + taken p
  pub releases : (p : ℕ) → count (releases p) t ≡ count (releases p) t0 + given p
  pub junk : count releases_junk t ≡ count releases_junk t0
  pub others : (test : Call → Bool) → IsBlind test → count test t ≡ count test t0 + more test

-- The releases of `release_down`, the last slot first.
pub release_log : List EventPtr → ℕ → Trace → Trace
release_log es zero t = t
release_log es (suc i) t = release_log es i (Call.perf_event_release (get_or es i no_event) ∷ t)

pub release_down-log :
    (pd : Ptr) (i : ℕ) (d : PerfCounterData) (g : Globals) (t : Trace)
    → release_down pd i (st (put pd (some d) g) t)
      ≡ ok tt (st (put pd (some d) g) (release_log d.events i t))
unfolding release_down release_log
release_down-log pd zero d g t = refl
release_down-log pd (suc i) d g t = rw (load-put pd d g t, ◌>>=◌) (release_down-log pd i d g _)

pub release_log-creates :
    (p : ℕ) (es : List EventPtr) (i : ℕ) (t : Trace)
    → count (creates p) (release_log es i t) ≡ count (creates p) t
unfolding release_log
release_log-creates p es zero t = refl
release_log-creates p es (suc i) t = release_log-creates p es i _ ∙ omega arith

pub release_log-releases :
    (p : ℕ) (es : List EventPtr) (i : ℕ) (t : Trace)
    → count (releases p) (release_log es i t) ≡ count (releases p) t + occurs p es 0 i
unfolding release_log occurs
release_log-releases p es zero t = omega arith
release_log-releases p es (suc i) t =
    let e : 0 + i ≡ i = omega arith in
    rw e (
      omega
        (arith, release_log-releases p es i (Call.perf_event_release (get_or es i no_event) ∷ t)))

junk_of_event :
    (e : EventPtr) → holds_event e ≡ true → releases_junk (Call.perf_event_release e) ≡ false
junk_of_event e h = ground arith

pub release_log-junk :
    (es : List EventPtr) (i : ℕ) (t : Trace)
    → AllEvents es i
    → count releases_junk (release_log es i t) ≡ count releases_junk t
unfolding release_log
release_log-junk es zero t all = refl
release_log-junk es (suc i) t all =
    release_log-junk es i _ (λ j h. all j (omega arith))
    ∙ rw (junk_of_event (get_or es i no_event) (all i (omega arith))) (omega arith)

pub release_log-others :
    (test : Call → Bool) (es : List EventPtr) (i : ℕ) (t : Trace)
    → IsBlind test
    → count test (release_log es i t) ≡ count test t
unfolding release_log
release_log-others test es zero t b = refl
release_log-others test es (suc i) t b =
    release_log-others test es i _ b ∙ rw (b.release (get_or es i no_event)) (omega arith)
