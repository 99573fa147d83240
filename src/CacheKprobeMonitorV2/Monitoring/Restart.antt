-- ===== src/CacheKprobeMonitorV2/Monitoring/Restart.antt =====
-- A start whose counters cannot be set up, while the timer of an earlier start still runs.
use dreamscape.Base.{◌≡◌, ◌≢◌, refl, true, none, ==_ne}
use dreamscape.Base.Int.{ℤ}
use dreamscape.Kernel.{null, null_deref, Trace, Kernel, Run, fault, Ends, ◌>>=◌}
use dreamscape.CacheKprobeMonitorV2.{Globals, State, event_codes, put, st}
use dreamscape.CacheKprobeMonitorV2.Counters.Heap.{load_null}
use dreamscape.CacheKprobeMonitorV2.Counters.Init.{no_memory, abandoned, ready}
use dreamscape.CacheKprobeMonitorV2.Sampling.{
  Restart, sample_loop, take_sample, sample_perf_counters,
}
use dreamscape.CacheKprobeMonitorV2.Monitoring.{start_monitoring}
use dreamscape.CacheKprobeMonitorV2.Monitoring.Outcomes.{
  Started, no_task, no_counters, running, with_task, with_data, start_monitoring-Started,
}

abbrev pub Faults : Run Globals Restart → Type 0
Faults r = (s : State) × (r ≡ fault null_deref s)

sample_without_data :
    (k : Kernel) (g : Globals) (t : Trace)
    → g.monitored_task ≢ null
    → g.heap null ≡ none
    → k.alive t g.monitored_task ≡ true
    → Faults (sample_perf_counters k (st (with_data g null) t))
unfolding sample_perf_counters take_sample sample_loop event_codes
sample_without_data k g t task h a =
    rw (==_ne g.monitored_task null task)
      (rw a (rw (load_null (with_data g null) _ h, ◌>>=◌) (_, refl)))

module _ (k : Kernel) (pid : ℤ) (g : Globals) (t : Trace) where
  -- After a start that found the task but could not set up the counters, a call of the timer
  -- callback dereferences NULL, if the task is alive then.
  pub start_monitoring-Faults :
      k.task_of_pid t pid ≢ null
      → g.heap null ≡ none
      → Ends (start_monitoring k pid (st g t)) (λ _ s.
        s.globals.perf_data ≡ null
        → k.alive s.trace s.globals.monitored_task ≡ true
        → Faults (sample_perf_counters k s))
  start_monitoring-Faults some_task h =
      let (_, s, run, started) = start_monitoring-Started k pid g t in (tt, s, run, from started)
    where
      from :
          {s : State}
          → Started k pid g t s
          → s.globals.perf_data ≡ null
          → k.alive s.trace s.globals.monitored_task ≡ true
          → Faults (sample_perf_counters k s)
      from (no_task e) z a = absurd (some_task e)
      from (no_counters {task} e ne no_memory) z a =
          sample_without_data k (with_task g task) _ ne h a
      from (no_counters {task} e ne (abandoned {pd} {t'} live u)) z a =
          sample_without_data k (put pd none (with_task g task)) t' ne (rw (==_ne pd null live) h) a
      from (no_counters e ne (ready live made)) z a = absurd (live refl)
      from (running e ne live end) z a = absurd (live z)
