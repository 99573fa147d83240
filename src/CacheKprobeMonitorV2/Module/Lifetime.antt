-- ===== src/CacheKprobeMonitorV2/Module/Lifetime.antt =====
-- The module from loading to unloading.
use dreamscape.Base.{ℕ, ◌≡◌, ◌≢◌, refl, false, ◌∷◌, arith}
use dreamscape.Base.Int.{ℤ, is_neg}
use dreamscape.Kernel.{
  Ptr, null, null_deref, Call, Trace, Kernel, Cmd, fault, Ends, ◌>>=◌, ◌>>◌, >>-assoc,
}
use dreamscape.Kernel.Counts.{Leakless}
use dreamscape.CacheKprobeMonitorV2.{Globals, st}
use dreamscape.CacheKprobeMonitorV2.Counters.Leaks.{cleanup_null}
use dreamscape.CacheKprobeMonitorV2.Monitoring.{start_monitoring, stop_monitoring}
use dreamscape.CacheKprobeMonitorV2.Monitoring.Outcomes.{start_monitoring-Started}
use dreamscape.CacheKprobeMonitorV2.Monitoring.Lifecycle.{sampling, rest_of_session}
use dreamscape.CacheKprobeMonitorV2.Module.{
  cache_kprobe_monitor_v2_init, cache_kprobe_monitor_v2_exit,
}
use dreamscape.CacheKprobeMonitorV2.Module.Load.{
  probe, entry, message, two_entries, with_entries, init_ok,
}

-- One session with the module: a pid is monitored, once, the timer ticks `n` times if the counters
-- were set up, and the module is unloaded.
pub use_of_module : Kernel → ℤ → ℕ → Cmd Globals (Unit {0})
use_of_module k pid n = do start_monitoring k pid; sampling k n; cache_kprobe_monitor_v2_exit

-- The kprobe and the entries, taken at loading and given back at unloading.
around_module :
    (r : ℤ) (e m : Ptr) {t t' : Trace}
    → is_neg r ≡ false
    → Leakless (two_entries r e m t) t'
    → Leakless t (Call.unregister_kprobe ∷ Call.proc_remove e ∷ Call.proc_remove m ∷ t')
around_module r e m good l = record {
  events = λ p. omega (arith, l.events p);
  junk = omega (arith, l.junk);
  memory = λ p. omega (arith, l.memory p);
  tasks = λ p. omega (arith, l.tasks p);
  preemption = omega (arith, l.preemption);
  locking = omega (arith, l.locking);
  kprobe = ground (arith, l.kprobe);
  entries = λ p. ground (arith, l.entries p);
}

module _ (k : Kernel) (pid : ℤ) (n : ℕ) (r : ℤ) (e m : Ptr) (g : Globals) (t : Trace) where
  exit-Leakless :
      is_neg r ≡ false
      → k.task_of_pid (two_entries r e m t) pid ≢ null
      → Ends
          (use_of_module k pid n (st (with_entries g e m) (two_entries r e m t)))
          (λ _ s. Leakless t s.trace)
  unfolding use_of_module cache_kprobe_monitor_v2_exit
  exit-Leakless good some_task =
      let g1 = with_entries g e m in
      let t1 : Trace = two_entries r e m t in
      let (_, s1, run, started) = start_monitoring-Started k pid g1 t1 in
      let (_, s2, more, stop) = rest_of_session k pid n g1 t1 some_task started in
      rw (run, ◌>>=◌)
        (rw (>>-assoc (sampling k n) stop_monitoring _ s1 s2 more) (
          rw (stop.same_message_entry, stop.same_pid_entry)
            (tt, _, refl, around_module r e m good stop.leakless)))

module _ (k : Kernel) (pid : ℤ) (n : ℕ) (g : Globals) (t : Trace) where
  -- The trace when the module has been loaded.
  abbrev pub after_load : Trace
  after_load = two_entries (probe k g t) (entry k g t) (message k g t) t

  -- One session, from loading to unloading: the module is loaded, monitoring is started once, for one
  -- pid, then come any number of ticks of the timer if the counters were set up, and then the module
  -- is unloaded. Whatever Linux answers else, where loading succeeds and the task exists, the session
  -- has no fault, and at its end all that was taken since before the loading has been given back.
  -- A second start within a session is not covered.
  pub use_of_module-init :
      is_neg (probe k g t) ≡ false
      → entry k g t ≢ null
      → message k g t ≢ null
      → k.task_of_pid after_load pid ≢ null
      → Ends
          ((cache_kprobe_monitor_v2_init k >>= λ r. use_of_module k pid n) (st g t))
          (λ _ s. Leakless t s.trace)
  use_of_module-init good live there some_task =
      rw (init_ok k g t good live there, ◌>>=◌)
        (exit-Leakless k pid n (probe k g t) (entry k g t) (message k g t) g t good some_task)

-- Unloading before any pid was written: `put_task_struct` is called with NULL. The kprobe stays.
pub exit_unstarted :
    (g : Globals) (t : Trace)
    → g.perf_data ≡ null
    → g.monitored_task ≡ null
    → cache_kprobe_monitor_v2_exit (st g t) ≡ fault null_deref (st g (Call.hrtimer_cancel ∷ t))
unfolding cache_kprobe_monitor_v2_exit stop_monitoring
exit_unstarted g t e z = rw e (rw (cleanup_null _, ◌>>=◌) (rw z refl))
