-- ===== src/CacheKprobeMonitorV2/Tests.antt =====
-- Runs of cache_kprobe_monitor_v2.c under a sample Linux, and its theorems at such runs.
use dreamscape.Base.{
  ℕ, ◌+◌, ◌%◌, ◌^◌, ◌<◌, ◌≡◌, refl, [], ◌++◌, arith, codes, get_or, replicate, take, drop, true,
  get_or-replicate, length-replicate, length, inl, if◌then◌else◌, ◌==◌,
}
use dreamscape.Base.Int.{pos}
use dreamscape.Base.CString.{c_string}
use dreamscape.Base.Decimal.{print_int}
use dreamscape.Kernel.{null, event, no_event, ptr, err_ptr, Trace, Kernel, ok, Ends, ◌>>=◌}
use dreamscape.Kernel.Counts.{Leakless}
use dreamscape.Kernel.Sample.{linux, exhausted, without_pmu}
use dreamscape.Message.{greeting, IsMessage}
use dreamscape.CacheKprobeMonitorV2.{
  Globals, PerfCounterData, initial_globals, event_codes, num_events, st,
}
use dreamscape.CacheKprobeMonitorV2.Counters.{
  init_perf_counters, cleanup_perf_counters, write_counters_to_file,
}
use dreamscape.CacheKprobeMonitorV2.Counters.Leaks.{
  init_perf_counters-Leakless, cleanup_perf_counters-init_perf_counters,
}
use dreamscape.CacheKprobeMonitorV2.Counters.CounterFile.{
  counter_file, counter_lines, handed, write_counters_to_file-text,
}
use dreamscape.CacheKprobeMonitorV2.Sampling.{sample_perf_counters}
use dreamscape.CacheKprobeMonitorV2.Sampling.Deltas.{reported}
use dreamscape.CacheKprobeMonitorV2.Sampling.Ticks.{
  IsOpen, Monitored, holding, goes_on, ticks, sample_perf_counters-Monitored,
}
use dreamscape.CacheKprobeMonitorV2.Sampling.Telescoping.{ticks-reported}
use dreamscape.CacheKprobeMonitorV2.Monitoring.{start_monitoring}
use dreamscape.CacheKprobeMonitorV2.Monitoring.Lifecycle.{session, Stopped, session-Stopped}
use dreamscape.CacheKprobeMonitorV2.Monitoring.Restart.{Faults, start_monitoring-Faults}
use dreamscape.CacheKprobeMonitorV2.Procfs.{hello_switch, pid_write, message_read}
use dreamscape.CacheKprobeMonitorV2.Procfs.Message.{
  hello_switch-IsMessage, message_read-hello_switch,
}
use dreamscape.CacheKprobeMonitorV2.Procfs.PidWrite.{PidWritten, pid_write-PidWritten}
use dreamscape.CacheKprobeMonitorV2.Module.{cache_kprobe_monitor_v2_init}
use dreamscape.CacheKprobeMonitorV2.Module.Lifetime.{use_of_module, use_of_module-init}

init_perf_counters-Leakless_example :
    Ends
      (init_perf_counters without_pmu (pos 42) (st initial_globals []))
      (λ pd s. pd ≡ null → Leakless [] s.trace)
init_perf_counters-Leakless_example =
    init_perf_counters-Leakless without_pmu (pos 42) initial_globals []

cleanup-init_example :
    Ends
      ((init_perf_counters linux (pos 42) >>= cleanup_perf_counters) (st initial_globals []))
      (λ _ s. Leakless [] s.trace)
cleanup-init_example = cleanup_perf_counters-init_perf_counters linux (pos 42) initial_globals []

session-Stopped_example :
    Ends (session linux (pos 42) 3 (st initial_globals [])) (λ _ s. Stopped initial_globals [] s)
session-Stopped_example = session-Stopped linux (pos 42) 3 initial_globals [] (omega arith)

use_of_module-init_example :
    Ends
      ((cache_kprobe_monitor_v2_init linux >>= λ r. use_of_module linux (pos 42) 3)
        (st initial_globals []))
      (λ _ s. Leakless [] s.trace)
use_of_module-init_example =
    use_of_module-init linux (pos 42) 3 initial_globals [] refl (omega arith) (omega arith)
      (omega arith)

-- A block whose events are open.
abbrev open_block : PerfCounterData
open_block = record {
  events = replicate num_events (event 5);
  prev_values = replicate num_events 3;
}

open_block-IsOpen : IsOpen open_block
open_block-IsOpen = record {
  events = λ j h. rw (get_or-replicate num_events j (event 5) no_event h) refl;
  size = length-replicate num_events 3;
}

sample-Monitored_example :
    (d' : PerfCounterData) × (t' : Trace) × (sample_perf_counters linux
        (holding linux initial_globals open_block [])
      ≡ ok (goes_on linux initial_globals []) (holding linux initial_globals d' t'))
    × Monitored open_block [] d' t'
sample-Monitored_example =
    sample_perf_counters-Monitored linux initial_globals open_block [] open_block-IsOpen

eighth : 8 < num_events
unfolding num_events
eighth = omega arith

ticks-reported_example :
    (d' : PerfCounterData) × (t' : Trace) × (ticks linux 4
        (holding linux initial_globals open_block [])
      ≡ ok tt (holding linux initial_globals d' t'))
    × ((reported (get_or event_codes 8 0) t' + get_or open_block.prev_values 8 0) % 2 ^ 64
        ≡ (reported (get_or event_codes 8 0) [] + get_or d'.prev_values 8 0) % 2 ^ 64)
ticks-reported_example =
    ticks-reported linux initial_globals 4 8 open_block [] open_block-IsOpen eighth

write_counters_to_file-text_example :
    Ends (write_counters_to_file linux (replicate 13 6) (st initial_globals [])) (λ _ s.
      (s.globals ≡ initial_globals)
      × ((f : ℕ)
          → linux.open_reply [] counter_file ≡ ptr f
          → handed s.trace ≡ [] ++ counter_lines 0 (replicate 13 6) event_codes)
      × ((e : ℕ) → linux.open_reply [] counter_file ≡ err_ptr e → handed s.trace ≡ []))
write_counters_to_file-text_example =
    write_counters_to_file-text linux (replicate 13 6) initial_globals []

start_monitoring-Faults_example :
    Ends (start_monitoring exhausted (pos 42) (st initial_globals [])) (λ _ s.
      s.globals.perf_data ≡ null
      → exhausted.alive s.trace s.globals.monitored_task ≡ true
      → Faults (sample_perf_counters exhausted s))
unfolding initial_globals
start_monitoring-Faults_example =
    start_monitoring-Faults exhausted (pos 42) initial_globals [] (omega arith) refl

initial-IsMessage : IsMessage initial_globals.message_buffer
unfolding initial_globals c_string
initial-IsMessage = record { size = length-replicate {A = ℕ} 512 0; text = inl refl }

hello_switch-IsMessage_example :
    Ends
      (hello_switch linux (st initial_globals []))
      (λ r s. IsMessage s.globals.message_buffer × Leakless [] s.trace)
hello_switch-IsMessage_example = hello_switch-IsMessage linux initial_globals [] initial-IsMessage

abbrev watching : Globals
watching = record initial_globals { target_pid = pos 42 }

message_read-hello_switch_example :
    Ends
      ((hello_switch linux >>= λ _. message_read linux 512 6) (st watching []))
      (λ r s. r.delivered ≡ take 512 (drop 6 (greeting (pos 42))))
message_read-hello_switch_example =
    message_read-hello_switch linux watching [] (λ t count p available from. refl) 512 6 refl

-- From offset 6, "world 42\n".
reads_on : take 512 (drop 6 (greeting (pos 42))) ≡ codes "world 42\n"
unfolding greeting print_int
reads_on = refl

pid_write-PidWritten_example :
    Ends
      (pid_write linux (codes "42\n") 3 (st initial_globals []))
      (λ r s. PidWritten linux (codes "42\n") 3 initial_globals [] r s)
pid_write-PidWritten_example = pid_write-PidWritten linux (codes "42\n") 3 initial_globals []

-- Linux refuses the second entry of /proc.
abbrev one_entry_only : Kernel
one_entry_only = record linux { proc_reply = λ t name. if length name == 14 then 14 else 0 }
