-- ===== src/CacheKprobeMonitorV2/Module.antt =====
-- Loading and unloading of cache_kprobe_monitor_v2.c.
pub mod Load
pub mod Lifetime
use dreamscape.Base.{ℕ, codes, List, ◌==◌, if◌then◌else◌}
use dreamscape.Base.Int.{ℤ, pos, neg, is_neg}
use dreamscape.Kernel.{Ptr, Call, Kernel, Cmd, pure, ◌>>=◌, ◌>>◌, emit, ask, gets, modify}
use dreamscape.CacheKprobeMonitorV2.{Globals}
use dreamscape.CacheKprobeMonitorV2.Monitoring.{stop_monitoring}

abbrev pub enomem : ℕ
enomem = 12

-- `unregister_kprobe`, `proc_remove` and the error, after a failed `proc_create`.
abbrev pub abandon : (Globals → Ptr) → Cmd Globals ℤ
abandon entry = do
  emit Call.unregister_kprobe
  e ← gets entry
  emit (Call.proc_remove e)
  pure (neg enomem)

abbrev pub make_entry : Kernel → List ℕ → ℕ → Cmd Globals Ptr
make_entry k name mode = ask (λ t. k.proc_reply t name) (λ r. Call.proc_create name mode r)

pub cache_kprobe_monitor_v2_init : (k : Kernel) → Cmd Globals ℤ
cache_kprobe_monitor_v2_init k = do
  emit (Call.set_console_loglevel 8)
  ret ← ask k.register_reply Call.register_kprobe
  if is_neg ret then pure ret else do
    pid_entry ← make_entry k (codes "cache_kmv2_pid") 0o200
    modify (λ g. record g { proc_entry_pid = pid_entry })
    if pid_entry == 0 then abandon (λ g. g.proc_entry_pid) else do
      message_entry ← make_entry k (codes "cache_kmv2_message") 0o400
      modify (λ g. record g { proc_entry_message = message_entry })
      if message_entry == 0 then abandon (λ g. g.proc_entry_message) else pure (pos 0)

pub cache_kprobe_monitor_v2_exit : Cmd Globals (Unit {0})
cache_kprobe_monitor_v2_exit = do
  stop_monitoring
  message_entry ← gets (λ g. g.proc_entry_message)
  emit (Call.proc_remove message_entry)
  pid_entry ← gets (λ g. g.proc_entry_pid)
  emit (Call.proc_remove pid_entry)
  emit Call.unregister_kprobe
