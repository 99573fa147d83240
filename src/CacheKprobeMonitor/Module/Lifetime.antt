-- ===== src/CacheKprobeMonitor/Module/Lifetime.antt =====
-- cache_kprobe_monitor.c from loading to unloading.
use dreamscape.Base.{
  ℕ, zero, suc, ◌≡◌, ◌≢◌, refl, ◌∙◌, inl, inr, true, false, List, [], ◌∷◌, arith, codes, some,
  ==_ne, sym, subst, subst⁻¹, ==_cases, Bool-cases,
}
use dreamscape.Base.Int.{ℤ, pos, is_neg}
use dreamscape.Kernel.{
  Ptr, null, Run, PerfEventAttr, ptr, err_ptr, Call, Trace, Kernel, Cmd, ok, Ends, pure, ◌>>=◌,
}
use dreamscape.Kernel.Counts.{Leakless}
use dreamscape.CacheKprobeMonitor.{Globals, CounterData, st, sizeof_counter_data}
use dreamscape.CacheKprobeMonitor.Counters.Totals.{IsCounters}
use dreamscape.CacheKprobeMonitor.Handler.{pre_handler}
use dreamscape.CacheKprobeMonitor.Handler.Settled.{Settled, Settled-trans}
use dreamscape.CacheKprobeMonitor.Handler.Outcomes.{
  Switched, other, recorded, refused_event, out_of_memory, pre_handler-Switched,
}
use dreamscape.CacheKprobeMonitor.Module.{
  perf_cache_kprobe_module_init, perf_cache_kprobe_module_exit,
}
use dreamscape.CacheKprobeMonitor.Module.Freed.{freed, free_entries-freed, freed-Settled}

ptr_ne_err_ptr : (p e : ℕ) → ptr p ≢ err_ptr e
ptr_ne_err_ptr p e q = cc

-- A Linux with a task to switch to, memory, and free perf counters.
pub record IsGenerous (k : Kernel) : Type 0 where
  pub task : (t : Trace) → (pid : ℤ) × (k.current_pid t ≡ some pid)
  pub memory : (t : Trace) (size : ℕ) → k.kmalloc_reply t size ≢ null
  pub counters :
      (t : Trace) (attr : PerfEventAttr) (pid : ℤ) → (p : ℕ) × (k.create_reply t attr pid ≡ ptr p)

-- So many context switches.
pub switches : Kernel → ℕ → Cmd Globals (Unit {0})
switches k zero = pure tt
switches k (suc n) = pre_handler k >>= λ r. switches k n

-- A run that ends with the mutex free, a well-formed list, and nothing taken but its blocks.
abbrev pub Quiet : {A : Type 0} → Globals → Trace → Run Globals A → Type 0
Quiet g t run = Ends run (λ _ s.
    (s.globals.target_pid_mutex ≡ false)
    × IsCounters s.globals.counter_list
    × (s.globals.proc_entry ≡ g.proc_entry)
    × Settled g.counter_list s.globals.counter_list t s.trace)

module _ (k : Kernel) (generous : IsGenerous k) where
  Switched-Quiet :
      (pid : ℤ) (g : Globals) (t : Trace) (run : Run Globals ℤ)
      → IsCounters g.counter_list
      → Switched k pid g t run
      → Quiet g t run
  Switched-Quiet pid g t run c (other n) = (_, _, refl, (refl, c, refl, ground arith))
  Switched-Quiet pid g t run c (recorded values hit v read c' totals settled) =
      (_, _, refl, (refl, c', refl, settled))
  Switched-Quiet pid g t run c (refused_event e evs hit fewer (before, attr, why) o) =
      let (p, works) = generous.counters before attr pid in
      absurd (ptr_ne_err_ptr p e (sym works ∙ why))
  Switched-Quiet pid g t run c (out_of_memory hit (before, why)) =
      absurd (generous.memory before sizeof_counter_data why)

  switches-Quiet :
      (n : ℕ) (g : Globals) (t : Trace)
      → g.target_pid_mutex ≡ false
      → IsCounters g.counter_list
      → Quiet g t (switches k n (st g t))
  unfolding switches
  switches-Quiet zero g t free c = (tt, _, refl, (free, c, refl, ground arith))
  switches-Quiet (suc n) g t free c =
      let (pid, now) = generous.task t in
      let (r, s, run, (free', c', e, a)) =
        Switched-Quiet pid g t _ c (pre_handler-Switched k pid g t now free c) in
      let (_, s', run', (free'', c'', e', b)) = switches-Quiet n s.globals s.trace free' c' in
      rw (run, ◌>>=◌) (tt, s', run', (free'', c'', e' ∙ e, Settled-trans a b))

module _ (k : Kernel) (g : Globals) (t : Trace) where
  abbrev pub probe : ℤ
  probe = k.register_reply t

  abbrev pub entry : Ptr
  entry = k.proc_reply (Call.register_kprobe probe ∷ t) (codes "cache_kprobe_monitor")

  abbrev pub after_load : Trace
  after_load =
      Call.proc_create (codes "cache_kprobe_monitor") 0o666 entry ∷ Call.register_kprobe probe ∷ t

  init_ok :
      is_neg probe ≡ false
      → entry ≢ null
      → perf_cache_kprobe_module_init k (st g t)
        ≡ ok (pos 0) (st (record g { proc_entry = entry }) after_load)
  unfolding perf_cache_kprobe_module_init
  init_ok good live = rw good (rw (==_ne entry null live) refl)

  -- Whatever Linux answers, a load that returns an error has given back all that it took.
  pub perf_cache_kprobe_module_init-Leakless :
      Ends (perf_cache_kprobe_module_init k (st g t)) (λ r s. is_neg r ≡ true → Leakless t s.trace)
  unfolding perf_cache_kprobe_module_init
  perf_cache_kprobe_module_init-Leakless = elim (Bool-cases (is_neg probe)) [
    | inl bad ↦ rw bad (_, _, refl, λ _. ground (arith, bad))
    | inr good ↦ elim (==_cases entry null) [
      | inl e ↦ rw good (rw e (_, _, refl, λ _. ground (arith, good)))
      | inr live ↦ rw good (rw (==_ne entry null live) (_, _, refl, λ is. ground (arith, is)))
    ]
  ]

-- The list, the kprobe and the entry of /proc, given back at unloading.
around_module :
    {l : List CounterData} {t' : Trace} (r : ℤ) (e : Ptr) (name : List ℕ) (t : Trace)
    → is_neg r ≡ false
    → Settled [] l (Call.proc_create name 0o666 e ∷ Call.register_kprobe r ∷ t) t'
    → Leakless t (freed l (Call.proc_remove e ∷ Call.unregister_kprobe ∷ t'))
around_module {l = l} {t' = t'} r e name t good a =
    let b = freed-Settled l (Call.proc_remove e ∷ Call.unregister_kprobe ∷ t') in
    record {
      events = λ p. omega (arith, a.events p, b.events p);
      junk = omega (arith, a.junk, b.junk);
      memory = λ p. omega (arith, a.owned p, b.owned p);
      tasks = λ p. omega (arith, a.tasks p, b.tasks p);
      preemption = omega (arith, a.preemption, b.preemption);
      locking = omega (arith, a.locking, b.locking);
      kprobe = ground (arith, a.kprobe, b.kprobe);
      entries = λ p. ground (arith, a.entries p, b.entries p);
    }

exit_ok :
    (g : Globals) (t : Trace)
    → perf_cache_kprobe_module_exit (st g t)
      ≡ ok tt (
          st
            (record g { counter_list = [] })
            (freed g.counter_list (Call.proc_remove g.proc_entry ∷ Call.unregister_kprobe ∷ t)))
unfolding perf_cache_kprobe_module_exit
exit_ok g t = free_entries-freed g.counter_list g _ refl

module _ (k : Kernel) (generous : IsGenerous k) (n : ℕ) (g : Globals) (t : Trace) where
  -- With an empty list and the mutex free, where nothing is refused, the module goes through any number of context switches without a
  -- fault, and at its unloading all that it took since before its loading has been given back, the
  -- blocks of the list included.
  pub exit-switches-init :
      is_neg (probe k g t) ≡ false
      → entry k g t ≢ null
      → g.target_pid_mutex ≡ false
      → g.counter_list ≡ []
      → Ends
          ((perf_cache_kprobe_module_init k >>= λ r.
              (switches k n >>= λ _. perf_cache_kprobe_module_exit))
            (st g t))
          (λ _ s. Leakless t s.trace)
  exit-switches-init good live free empty =
      let g1 = record g { proc_entry = entry k g t } in
      let (_, s, run, (free', c, same, a)) =
        switches-Quiet k generous n g1 (after_load k g t) free (subst⁻¹ IsCounters empty tt) in
      rw (init_ok k g t good live, ◌>>=◌)
        (rw (run, ◌>>=◌)
          (rw (exit_ok s.globals s.trace) (
            _,
            _,
            refl,
            (rw same (
                around_module (probe k g t) (entry k g t) (codes "cache_kprobe_monitor") t good (
                  subst (λ l. Settled l s.globals.counter_list (after_load k g t) s.trace) empty
                    a))),
          )))
