-- ===== src/CacheKprobeMonitorV2/Monitoring.antt =====
-- `start_monitoring` and `stop_monitoring` of cache_kprobe_monitor_v2.c.
pub mod Outcomes
pub mod Held
pub mod Lifecycle
pub mod Restart
use dreamscape.Base.{◌==◌, if◌then◌else◌}
use dreamscape.Base.Int.{ℤ}
use dreamscape.Kernel.{
  Ptr, null, Call, Kernel, Cmd, null_deref, pure, ◌>>=◌, ◌>>◌, emit, ask, gets, modify, fail,
}
use dreamscape.CacheKprobeMonitorV2.{Globals, sample_perf_counters_function}
use dreamscape.CacheKprobeMonitorV2.Counters.{init_perf_counters, cleanup_perf_counters}

-- `sample_interval = ktime_set(1, 0)` up to `hrtimer_start`.
pub start_timer : (k : Kernel) → Cmd Globals (Unit {0})
start_timer k = do
  modify (λ g. record g { sample_interval = k.ktime_set 1 0 })
  emit Call.hrtimer_init
  modify (λ g. record g { timer_function = sample_perf_counters_function })
  interval ← gets (λ g. g.sample_interval)
  emit (Call.hrtimer_start interval)

module _ (k : Kernel) where
  pub start_monitoring : (pid : ℤ) → Cmd Globals (Unit {0})
  unfolding start_timer
  start_monitoring pid = do
    task ← ask (λ t. k.task_of_pid t pid) (λ r. Call.pid_task pid r)
    modify (λ g. record g { monitored_task = task })
    if task == 0 then pure tt else do
      emit (Call.get_task_struct task)
      pd ← init_perf_counters k pid
      modify (λ g. record g { perf_data = pd })
      if pd == 0 then pure tt else start_timer k

-- `put_task_struct` reads its argument.
abbrev pub put_task_struct : Ptr → Cmd Globals (Unit {0})
put_task_struct task = if task == 0 then fail null_deref else emit (Call.put_task_struct task)

unfoldable pub stop_monitoring : Cmd Globals (Unit {0})
stop_monitoring = do
  emit Call.hrtimer_cancel
  pd ← gets (λ g. g.perf_data)
  cleanup_perf_counters pd
  task ← gets (λ g. g.monitored_task)
  put_task_struct task
  modify (λ g. record g { monitored_task = null })
