-- ===== src/CacheKprobeMonitor/Handler.antt =====
-- The kprobe handler of cache_kprobe_monitor.c: `configure_perf_event`, `read_perf_counter` and
-- `pre_handler`. A handler without a `current` task would dereference NULL.
pub mod Events
pub mod Settled
pub mod Outcomes
mod Tests
use dreamscape.Base.{
  ℕ, zero, suc, true, false, List, [], ◌∷◌, Option, none, some, if◌then◌else◌, map, ◌%◌, ◌^◌,
}
use dreamscape.Base.Int.{ℤ, pos, neg, eq_ℤ}
use dreamscape.Kernel.{
  ptr, err_ptr, PerfEventAttr, raw, EventPtr, event, Call, Kernel, Cmd, null_deref, pure, ◌>>=◌,
  ◌>>◌, gets, modify, ask, emit, fail,
}
use dreamscape.CacheKprobeMonitor.{Globals, event_codes, mutex_lock, mutex_unlock}
use dreamscape.CacheKprobeMonitor.Counters.{update_counters}

-- What the loop that opens the events ends with: all of them, or the error of the first refused.
pub data Opened : Type 0 where
  opened : List EventPtr → Opened
  refused : ℕ → Opened

abbrev pub also : EventPtr → Opened → Opened
also ev (opened events) = opened (ev ∷ events)
also ev (refused e) = refused e

module _ (k : Kernel) where
  pub configure_perf_event : (config : ℕ) → PerfEventAttr
  configure_perf_event config = record {
    kind = raw;
    size = k.sizeof_perf_event_attr;
    config = config;
    disabled = true;
    exclude_kernel = true;
    exclude_hv = true;
    exclude_idle = true;
  }

  -- A `u64`.
  pub read_perf_counter : EventPtr → Cmd Globals ℕ
  read_perf_counter ev = ask (λ t. k.read_reply t ev % 2 ^ 64) (λ v. Call.perf_event_read ev v)

  -- The first loop, over the codes that are left; `current_pid` is passed where the kernel takes a
  -- CPU. The error leaves the events that are open as they are.
  pub open_events : (current_pid : ℤ) → List ℕ → Cmd Globals Opened
  unfolding configure_perf_event
  open_events current_pid [] = pure (opened [])
  open_events current_pid (c ∷ rest) = do
    ev ←
        ask (λ t. k.create_reply t (configure_perf_event c) current_pid)
          (λ r. Call.perf_event_create (configure_perf_event c) current_pid r)
    elim ev [
      | err_ptr e ↦ pure (refused e)
      | ptr p ↦ (do more ← open_events current_pid rest; pure (also (event p) more))
    ]

  -- The second loop: the values, in the order of the events.
  pub read_events : List EventPtr → Cmd Globals (List ℕ)
  unfolding read_perf_counter
  read_events [] = pure []
  read_events (ev ∷ rest) = do
    v ← read_perf_counter ev
    emit (Call.perf_event_release ev)
    values ← read_events rest
    pure (v ∷ values)

  -- The rest of the body. On the early return the mutex stays locked.
  pub record_counters : (pc : ℕ) → Opened → Cmd Globals ℤ
  unfolding read_events
  record_counters pc (refused e) = pure (neg e)
  record_counters pc (opened events) = do
    values ← read_events events
    update_counters k pc values
    mutex_unlock
    pure (pos 0)

  -- The body for the target.
  pub monitor_switch : (current_pid : ℤ) → Cmd Globals ℤ
  unfolding open_events record_counters
  monitor_switch current_pid = do
    pc ← ask k.return_value Call.regs_return_value
    events ← open_events current_pid event_codes
    record_counters pc events

  pub pre_handler : Cmd Globals ℤ
  unfolding monitor_switch
  pre_handler = do
    task ← ask k.current_pid Call.current
    elim task [
      | none ↦ fail null_deref
      | some current_pid ↦ (do
        mutex_lock
        target_pid ← gets (λ g. g.target_pid)
        if eq_ℤ current_pid target_pid
            then monitor_switch current_pid
            else (mutex_unlock >> pure (pos 0)))
    ]
