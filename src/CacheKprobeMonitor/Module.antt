-- ===== src/CacheKprobeMonitor/Module.antt =====
-- Loading and unloading of cache_kprobe_monitor.c.
pub mod Freed
pub mod Lifetime
use dreamscape.Base.{List, [], ◌∷◌, codes, ◌==◌, if◌then◌else◌}
use dreamscape.Base.Int.{ℤ, pos, neg, is_neg}
use dreamscape.Kernel.{Call, Kernel, Cmd, pure, ◌>>=◌, ◌>>◌, emit, ask, gets, modify}
use dreamscape.CacheKprobeMonitor.{Globals, CounterData}

pub perf_cache_kprobe_module_init : (k : Kernel) → Cmd Globals ℤ
perf_cache_kprobe_module_init k = do
  ret ← ask k.register_reply Call.register_kprobe
  if is_neg ret then pure ret else do
    entry ←
        ask (λ t. k.proc_reply t (codes "cache_kprobe_monitor"))
          (λ r. Call.proc_create (codes "cache_kprobe_monitor") 0o666 r)
    modify (λ g. record g { proc_entry = entry })
    if entry == 0 then (do emit Call.unregister_kprobe; pure (neg 12)) else pure (pos 0)

-- `list_for_each_entry_safe`, from the head on.
pub free_entries : List CounterData → Cmd Globals (Unit {0})
free_entries [] = pure tt
free_entries (entry ∷ rest) = do
  modify (λ g. record g { counter_list = rest })
  emit (Call.kfree entry.block)
  free_entries rest

pub perf_cache_kprobe_module_exit : Cmd Globals (Unit {0})
unfolding free_entries
perf_cache_kprobe_module_exit = do
  emit Call.unregister_kprobe
  entry ← gets (λ g. g.proc_entry)
  emit (Call.proc_remove entry)
  l ← gets (λ g. g.counter_list)
  free_entries l
