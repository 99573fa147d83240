-- ===== src/CacheKprobeMonitorV2/Monitoring/Outcomes.antt =====
-- How `start_monitoring` ends, and what `stop_monitoring` does in a state that it left.
use dreamscape.Base.{◌≡◌, ◌≢◌, refl, inl, inr, ◌∷◌, ==_ne, ==_cases}
use dreamscape.Base.Int.{ℤ}
use dreamscape.Kernel.{Ptr, null, Call, Trace, Kernel, Ends, ◌>>=◌}
use dreamscape.CacheKprobeMonitorV2.{Globals, State, st, sample_perf_counters_function}
use dreamscape.CacheKprobeMonitorV2.Counters.Init.{Initialised, init_perf_counters-Initialised}
use dreamscape.CacheKprobeMonitorV2.Monitoring.{start_monitoring}

abbrev pub with_task : Globals → Ptr → Globals
with_task g task = record g { monitored_task = task }

abbrev pub with_data : Globals → Ptr → Globals
with_data g pd = record g { perf_data = pd }

abbrev pub with_timer : Kernel → Globals → Globals
with_timer k g = record g {
  sample_interval = k.ktime_set 1 0;
  timer_function = sample_perf_counters_function;
}

abbrev pub timer_log : Kernel → Trace → Trace
timer_log k t = Call.hrtimer_start (k.ktime_set 1 0) ∷ Call.hrtimer_init ∷ t

-- The trace when the task has been found.
abbrev pub found : ℤ → Ptr → Trace → Trace
found pid task t = Call.get_task_struct task ∷ Call.pid_task pid task ∷ t

pub data Started (k : Kernel) (pid : ℤ) (g : Globals) (t : Trace) : State → Type 0 where
  no_task :
      k.task_of_pid t pid ≡ null
      → Started k pid g t (st (with_task g null) (Call.pid_task pid null ∷ t))
  no_counters :
      {task : Ptr} {s : State}
      → k.task_of_pid t pid ≡ task
      → task ≢ null
      → Initialised (with_task g task) (found pid task t) null s
      → Started k pid g t (st (with_data s.globals null) s.trace)
  running :
      {task pd : Ptr} {s : State}
      → k.task_of_pid t pid ≡ task
      → task ≢ null
      → pd ≢ null
      → Initialised (with_task g task) (found pid task t) pd s
      → Started k pid g t (st (with_timer k (with_data s.globals pd)) (timer_log k s.trace))

module _ (k : Kernel) (pid : ℤ) (g : Globals) (t : Trace) where
  pub start_monitoring-Started : Ends (start_monitoring k pid (st g t)) (λ _ s. Started k pid g t s)
  unfolding start_monitoring
  start_monitoring-Started = elim (==_cases (k.task_of_pid t pid) null) [
    | inl e ↦ rw e (tt, _, refl, no_task e)
    | inr ne ↦
        let task = k.task_of_pid t pid in
        let (pd, s, run, end) =
          init_perf_counters-Initialised k pid (with_task g task) (found pid task t) in
        elim (==_cases pd null) [
          | inl z ↦
              rw (==_ne task null ne)
                (rw (run, ◌>>=◌) (rw z (tt, _, refl, no_counters refl ne (rw z at end))))
          | inr live ↦
              rw (==_ne task null ne)
                (rw (run, ◌>>=◌) (rw (==_ne pd null live) (tt, _, refl, running refl ne live end)))
        ]
  ]
