-- ===== src/CacheKprobeMonitorV2/Monitoring/Lifecycle.antt =====
-- A monitoring session: started, sampled, stopped.
use dreamscape.Base.{
  ℕ, ◌≡◌, ◌≢◌, refl, ◌∙◌, ◌∷◌, arith, none, some, if◌then◌else◌, ◌==◌, ==_ne, length-replicate,
}
use dreamscape.Base.Int.{ℤ}
use dreamscape.Kernel.{Ptr, null, Call, Trace, Kernel, Cmd, ok, Ends, pure, ◌>>=◌, ◌>>◌, gets}
use dreamscape.Kernel.Counts.{Leakless}
use dreamscape.CacheKprobeMonitorV2.{Globals, State, PerfCounterData, num_events, put, st}
use dreamscape.CacheKprobeMonitorV2.Counters.Init.{no_memory, abandoned, ready}
use dreamscape.CacheKprobeMonitorV2.Counters.Cleanup.{cleanup_perf_counters-Since}
use dreamscape.CacheKprobeMonitorV2.Counters.Leaks.{
  cleanup_null, AllEvents-NoneBad, Undone-Leakless,
}
use dreamscape.CacheKprobeMonitorV2.Sampling.Ticks.{IsOpen, holding, ticks, ticks-Monitored}
use dreamscape.CacheKprobeMonitorV2.Monitoring.{start_monitoring, stop_monitoring}
use dreamscape.CacheKprobeMonitorV2.Monitoring.Outcomes.{
  Started, no_task, no_counters, running, with_task, with_data, with_timer, found,
  start_monitoring-Started, timer_log,
}
use dreamscape.CacheKprobeMonitorV2.Monitoring.Held.{Held, Held-Leakless, made-Held, stop-Leakless}

-- What a session leaves: no leak, no task, and the module's entries of /proc as they were.
pub record Stopped (g : Globals) (t : Trace) (s : State) : Type 0 where
  pub leakless : Leakless t s.trace
  pub idle : s.globals.monitored_task ≡ null
  pub same_pid_entry : s.globals.proc_entry_pid ≡ g.proc_entry_pid
  pub same_message_entry : s.globals.proc_entry_message ≡ g.proc_entry_message

-- The timer fires `n` times, if `start_monitoring` got as far as to start it.
pub sampling : Kernel → ℕ → Cmd Globals (Unit {0})
sampling k n = do pd ← gets (λ g. g.perf_data); if pd == 0 then pure tt else ticks k n

sampling_idle :
    (k : Kernel) (n : ℕ) (g : Globals) (t : Trace)
    → g.perf_data ≡ null
    → sampling k n (st g t) ≡ ok tt (st g t)
unfolding sampling
sampling_idle k n g t e = rw e refl

sampling_live :
    (k : Kernel) (n : ℕ) (g : Globals) (t : Trace)
    → g.perf_data ≢ null
    → sampling k n (st g t) ≡ ticks k n (st g t)
unfolding sampling
sampling_live k n g t ne = rw (==_ne g.perf_data null ne) refl

pub session : Kernel → ℤ → ℕ → Cmd Globals (Unit {0})
session k pid n = do start_monitoring k pid; sampling k n; stop_monitoring

-- Stopping without counters.
stop_idle :
    (g : Globals) (t : Trace)
    → g.perf_data ≡ null
    → g.monitored_task ≢ null
    → stop_monitoring (st g t)
      ≡ ok tt
          (st (with_task g null) (Call.put_task_struct g.monitored_task ∷ Call.hrtimer_cancel ∷ t))
unfolding stop_monitoring
stop_idle g t e ne = rw e (rw (cleanup_null _, ◌>>=◌) (rw (==_ne g.monitored_task null ne) refl))

-- Stopping with an open block.
stop_holding :
    (k : Kernel) (g : Globals) (d : PerfCounterData) (t0 t : Trace)
    → IsOpen d
    → g.perf_data ≢ null
    → g.monitored_task ≢ null
    → Held d.events g.perf_data g.monitored_task t0 t
    → Ends (stop_monitoring (holding k g d t)) (λ _ s. Stopped g t0 s)
unfolding stop_monitoring
stop_holding k g d t0 t o live ne h =
    let (t2, run, since) =
      cleanup_perf_counters-Since g.perf_data d (put g.perf_data (some d) g) (ground arith)
        (Call.hrtimer_cancel ∷ t) live (AllEvents-NoneBad d.events o.events) in
    rw (run, ◌>>=◌)
      (rw (==_ne g.monitored_task null ne) (
        tt,
        _,
        refl,
        record {
          leakless = stop-Leakless h since;
          idle = refl;
          same_pid_entry = refl;
          same_message_entry = refl;
        },
      ))

-- The reference to the task, taken before and given back after.
around_task :
    (pid : ℤ) (task : Ptr) {t t' : Trace}
    → Leakless (found pid task t) t'
    → Leakless t (Call.put_task_struct task ∷ Call.hrtimer_cancel ∷ t')
around_task pid task l = record {
  events = λ p. omega (arith, l.events p);
  junk = omega (arith, l.junk);
  memory = λ p. omega (arith, l.memory p);
  tasks = λ p. ground (arith, l.tasks p);
  preemption = omega (arith, l.preemption);
  locking = omega (arith, l.locking);
  kprobe = omega (arith, l.kprobe);
  entries = λ p. omega (arith, l.entries p);
}

module _ (k : Kernel) (pid : ℤ) (n : ℕ) (g : Globals) (t : Trace) where
  pub rest_of_session :
      {s : State}
      → k.task_of_pid t pid ≢ null
      → Started k pid g t s
      → Ends ((sampling k n >> stop_monitoring) s) (λ _ s'. Stopped g t s')
  rest_of_session some_task (no_task e) = absurd (some_task e)
  rest_of_session some_task (no_counters {task} e ne no_memory) =
      let g' = with_data (with_task g task) null in
      rw (sampling_idle k n g' _ refl, ◌>>=◌)
        (
          tt,
          _,
          stop_idle g' _ refl ne,
          record {
            leakless = around_task pid task (ground arith);
            idle = refl;
            same_pid_entry = refl;
            same_message_entry = refl;
          },
        )
  rest_of_session some_task (no_counters {task} e ne (abandoned {pd} {cpu} {t'} live u)) =
      let g' = with_data (put pd none (with_task g task)) null in
      rw (sampling_idle k n g' _ refl, ◌>>=◌)
        (
          tt,
          _,
          stop_idle g' t' refl ne,
          record {
            leakless = around_task pid task (Undone-Leakless (found pid task t) pd cpu live u);
            idle = refl;
            same_pid_entry = refl;
            same_message_entry = refl;
          },
        )
  rest_of_session some_task (no_counters e ne (ready live made)) = absurd (live refl)
  rest_of_session some_task (running {task} {pd} e ne live (ready {d} {t'} _ made)) =
      let g' = with_timer k (with_data (with_task g task) pd) in
      let o : IsOpen d = record {
        events = made.events;
        size = rw made.zeros (length-replicate num_events 0);
      } in
      let (d2, t2, run, m) = ticks-Monitored k g' n d (timer_log k (Call.put_cpu ∷ t')) o in
      let h = Held-Leakless (made-Held k pid live made) m.leakless in
      rw (sampling_live k n (put pd (some d) g') _ live ∙ run, ◌>>=◌)
        (let (_, s', end, p) = stop_holding k g' d2 t t2 m.is_open live ne (rw m.same h) in
          (
            tt,
            s',
            end,
            record {
              leakless = p.leakless;
              idle = p.idle;
              same_pid_entry = p.same_pid_entry;
              same_message_entry = p.same_message_entry;
            },
          ))
  rest_of_session some_task (running e ne live no_memory) = absurd (live refl)
  rest_of_session some_task (running e ne live (abandoned _ u)) = absurd (live refl)

  -- Whatever Linux answers: for a task that exists, a session from start to stop does not fault, and
  -- gives back all that it took, also where the counters could not be set up. It forgets the task.
  pub session-Stopped :
      k.task_of_pid t pid ≢ null → Ends (session k pid n (st g t)) (λ _ s. Stopped g t s)
  unfolding session
  session-Stopped some_task =
      let (_, s, run, started) = start_monitoring-Started k pid g t in
      rw (run, ◌>>=◌) (rest_of_session some_task started)
