-- ===== src/CacheKprobeMonitor/Module/Freed.antt =====
-- The loop of `perf_cache_kprobe_module_exit` that frees the list.
use dreamscape.Base.{◌+◌, ◌≡◌, refl, ◌∙◌, false, List, [], ◌∷◌, Bool, arith}
use dreamscape.Kernel.{Ptr, Call, Trace, ok}
use dreamscape.Kernel.Counts.{
  count, creates, releases, releases_junk, allocates, frees, gets_task, puts_task, pins, unpins,
  locks, unlocks, registers, unregisters, makes_entry, removes_entry,
}
use dreamscape.CacheKprobeMonitor.{Globals, CounterData, st}
use dreamscape.CacheKprobeMonitor.Counters.Totals.{held}
use dreamscape.CacheKprobeMonitor.Handler.Settled.{Settled}
use dreamscape.CacheKprobeMonitor.Module.{free_entries}

-- The trace when these entries have been freed, from the head on.
pub freed : List CounterData → Trace → Trace
freed [] t = t
freed (entry ∷ rest) t = freed rest (Call.kfree entry.block ∷ t)

pub free_entries-freed :
    (l : List CounterData) (g : Globals) (t : Trace)
    → g.counter_list ≡ l
    → free_entries l (st g t) ≡ ok tt (st (record g { counter_list = [] }) (freed l t))
unfolding free_entries freed
free_entries-freed [] g t e = rw e refl
free_entries-freed (entry ∷ rest) g t e =
    free_entries-freed rest (record g { counter_list = rest }) (Call.kfree entry.block ∷ t) refl

freed-frees :
    (l : List CounterData) (p : Ptr) (t : Trace)
    → count (frees p) (freed l t) ≡ count (frees p) t + held p l
unfolding freed
freed-frees [] p t = omega arith
freed-frees (entry ∷ rest) p t = freed-frees rest p (Call.kfree entry.block ∷ t) ∙ omega arith

freed-others :
    (l : List CounterData) (test : Call → Bool) (t : Trace)
    → ((p : Ptr) → test (Call.kfree p) ≡ false)
    → count test (freed l t) ≡ count test t
unfolding freed
freed-others [] test t b = refl
freed-others (entry ∷ rest) test t b =
    freed-others rest test (Call.kfree entry.block ∷ t) b ∙ rw (b entry.block) (omega arith)

pub freed-Settled : (l : List CounterData) (t : Trace) → Settled l [] t (freed l t)
freed-Settled l t = record {
  events = λ p.
      omega (
        arith,
        freed-others l (creates p) t (λ q. refl),
        freed-others l (releases p) t (λ q. refl),
      );
  junk = freed-others l releases_junk t (λ q. refl);
  owned = λ p. omega (arith, freed-frees l p t, freed-others l (allocates p) t (λ q. refl));
  tasks = λ p. omega (
    arith,
    freed-others l (gets_task p) t (λ q. refl),
    freed-others l (puts_task p) t (λ q. refl),
  );
  preemption =
      omega (arith, freed-others l pins t (λ q. refl), freed-others l unpins t (λ q. refl));
  locking = omega (arith, freed-others l locks t (λ q. refl), freed-others l unlocks t (λ q. refl));
  kprobe =
      omega
        (arith, freed-others l registers t (λ q. refl), freed-others l unregisters t (λ q. refl));
  entries = λ p. omega (
    arith,
    freed-others l (makes_entry p) t (λ q. refl),
    freed-others l (removes_entry p) t (λ q. refl),
  );
}
