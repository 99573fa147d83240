-- ===== src/CacheKprobeMonitorV2/Sampling.antt =====
-- The timer callbacks of cache_kprobe_monitor_v2.c. The line that `sample_perf_counters` prints for
-- each event is the program's output, and is entered in the trace as a `report`.
pub mod Deltas
pub mod Loop
pub mod Ticks
pub mod Telescoping
use dreamscape.Base.{
  ℕ, ◌+◌, ◌-◌, ◌%◌, ◌^◌, List, [], ◌∷◌, get_or, set, replicate, ◌==◌, if◌then◌else◌,
}
use dreamscape.Kernel.{
  Ptr, EventPtr, no_event, event, bad_event, Call, Kernel, Cmd, null_deref, pure, ◌>>=◌, ◌>>◌, emit,
  ask, gets, fail,
}
use dreamscape.CacheKprobeMonitorV2.{Globals, event_codes, num_events, load, store}
use dreamscape.CacheKprobeMonitorV2.Counters.{with_prev}

pub data Restart : Type 0 where
  hrtimer_restart hrtimer_norestart : Restart

abbrev pub u64 : ℕ → ℕ
u64 n = n % 2 ^ 64

-- `new_value - perf_data->prev_values[i]` in 64 bits.
abbrev pub delta64 : (new prev : ℕ) → ℕ
delta64 new prev = u64 (new + 2 ^ 64 - u64 prev)

module _ (k : Kernel) where
  -- To read what is no event is a NULL or wild pointer.
  abbrev pub read_slot : EventPtr → Cmd Globals ℕ
  read_slot no_event = fail null_deref
  read_slot (bad_event e) = fail null_deref
  read_slot (event p) = do
    v ← ask (λ t. u64 (k.read_reply t (event p))) (λ r. Call.perf_event_read (event p) r)
    pure v

  -- The loop from index `i`, with the codes still to come; the result is `counter_values`.
  unfoldable pub sample_loop : Ptr → ℕ → List ℕ → List ℕ → Cmd Globals (List ℕ)
  sample_loop pd i [] counter_values = pure counter_values
  sample_loop pd i (c ∷ rest) counter_values = do
    d ← load pd
    new_value ← read_slot (get_or d.events i no_event)
    let delta = delta64 new_value (get_or d.prev_values i 0)
    emit (Call.report c new_value delta)
    store pd (with_prev d i new_value)
    sample_loop pd (i + 1) rest (set counter_values i delta)

  -- The branch of `sample_perf_counters` for a task that is alive.
  unfoldable pub take_sample : Ptr → Cmd Globals Restart
  unfolding sample_loop
  take_sample task = do
    pc ← ask (λ t. k.task_pc t task) (λ r. Call.task_pt_regs task r)
    pd ← gets (λ g. g.perf_data)
    counter_values ← sample_loop pd 0 event_codes (replicate num_events 0)
    interval ← gets (λ g. g.sample_interval)
    emit (Call.hrtimer_forward interval)
    pure hrtimer_restart

  unfoldable pub sample_perf_counters : Cmd Globals Restart
  sample_perf_counters = do
    task ← gets (λ g. g.monitored_task)
    if task == 0 then pure hrtimer_norestart else do
      alive ← ask (λ t. k.alive t task) (λ r. Call.pid_alive task r)
      if alive then take_sample task else pure hrtimer_norestart

-- A callback kept for experiments; no code installs it.
unfoldable pub dummy_callback : Cmd Globals Restart
dummy_callback = do
  interval ← gets (λ g. g.sample_interval)
  emit (Call.hrtimer_forward interval)
  pure hrtimer_restart
