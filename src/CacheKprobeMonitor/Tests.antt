-- ===== src/CacheKprobeMonitor/Tests.antt =====
-- The theorems on cache_kprobe_monitor.c at runs under a sample Linux.
use dreamscape.Base.{
  ℕ, ◌≡◌, ◌≢◌, ◌⊎◌, refl, true, List, [], ◌∷◌, arith, codes, replicate, get_or, ◌<◌, ◌^◌, zero, suc,
}
use dreamscape.Base.Int.{pos, neg, is_neg}
use dreamscape.Kernel.{Call, ok, Ends, ◌>>=◌}
use dreamscape.Kernel.Counts.{Leakless}
use dreamscape.Kernel.Sample.{linux}
use dreamscape.CacheKprobeMonitor.{Globals, CounterData, initial_globals, st}
use dreamscape.CacheKprobeMonitor.Counters.{update_counters}
use dreamscape.CacheKprobeMonitor.Counters.Totals.{IsValues, IsCounters}
use dreamscape.CacheKprobeMonitor.Counters.Update.{Updated, update_counters-Updated}
use dreamscape.CacheKprobeMonitor.Commands.{command_line, command_handler}
use dreamscape.CacheKprobeMonitor.Commands.Start.{
  start_command, command_length, command_handler-start_command,
}
use dreamscape.CacheKprobeMonitor.Commands.Outcomes.{CommandDone, command_handler-CommandDone}
use dreamscape.CacheKprobeMonitor.Module.{
  perf_cache_kprobe_module_init, perf_cache_kprobe_module_exit,
}
use dreamscape.CacheKprobeMonitor.Module.Lifetime.{
  IsGenerous, switches, perf_cache_kprobe_module_init-Leakless, exit-switches-init,
}

linux-IsGenerous : IsGenerous linux
linux-IsGenerous = record {
  task = λ t. (pos 42, refl);
  memory = λ t n. omega arith;
  counters = λ t attr pid. (_, refl);
}

exit-switches-init_example :
    Ends
      ((perf_cache_kprobe_module_init linux >>= λ r.
          (switches linux 5 >>= λ _. perf_cache_kprobe_module_exit))
        (st initial_globals []))
      (λ _ s. Leakless [] s.trace)
unfolding initial_globals
exit-switches-init_example =
    exit-switches-init linux linux-IsGenerous 5 initial_globals [] refl (omega arith) refl refl

init-Leakless_example :
    Ends
      (perf_cache_kprobe_module_init linux (st initial_globals []))
      (λ r s. is_neg r ≡ true → Leakless [] s.trace)
init-Leakless_example = perf_cache_kprobe_module_init-Leakless linux initial_globals []

-- A list with one entry, at 0x1000.
abbrev one_entry : List CounterData
one_entry = record { block = 7; pc = 0x1000; counters = replicate 13 5 } ∷ []

replicate-IsValues : (v : ℕ) → v < 2 ^ 64 → IsValues (replicate 13 v)
replicate-IsValues v h = record { size = refl; bounds = λ i. bound 13 i }
  where
    bound : (n i : ℕ) → get_or (replicate n v) i 0 < 2 ^ 64
    bound zero i = omega arith
    bound (suc n) zero = h
    bound (suc n) (suc i) = bound n i

one_entry-IsCounters : IsCounters one_entry
one_entry-IsCounters = (replicate-IsValues 5 (omega arith), tt, tt)

abbrev counting : Globals
counting = record initial_globals { counter_list = one_entry }

update_counters-Updated_example :
    Updated linux 0x1000
      (replicate 13 3)
      counting
      []
      (update_counters linux 0x1000 (replicate 13 3) (st counting []))
update_counters-Updated_example =
    update_counters-Updated linux 0x1000 (replicate 13 3) counting [] one_entry-IsCounters
      (replicate-IsValues 3 (omega arith))

command_handler-start_command_example :
    command_handler linux (start_command (pos 42)) (command_length (pos 42)) (st initial_globals [])
    ≡ ok (pos (command_length (pos 42))) (
        st
          (record initial_globals { target_pid = pos 42 })
          (Call.unlock ∷ Call.lock ∷ Call.copy_from_user (command_length (pos 42)) 0 ∷ []))
unfolding initial_globals
command_handler-start_command_example =
    command_handler-start_command linux (pos 42) initial_globals [] (omega arith) refl refl

command_handler-CommandDone_example :
    Ends (command_handler linux (codes "stop_pid\n") 9 (st counting [])) (λ r s.
      ((linux.copy_reply [] 9 ≢ 0) × (r ≡ neg 14) × (s.globals ≡ counting))
      ⊎ ((linux.copy_reply [] 9 ≡ 0)
          × CommandDone linux
              (command_line (codes "stop_pid\n") 9)
              9
              counting
              (Call.copy_from_user 9 0 ∷ [])
              r
              s))
unfolding initial_globals
command_handler-CommandDone_example =
    command_handler-CommandDone linux counting refl (λ t. refl) (codes "stop_pid\n") 9 []
