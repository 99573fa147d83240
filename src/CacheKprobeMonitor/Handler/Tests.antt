-- ===== src/CacheKprobeMonitor/Handler/Tests.antt =====
-- The theorems on `pre_handler` at runs under a sample Linux.
use dreamscape.Base.{◌≡◌, refl, true, [], ◌∷◌, some}
use dreamscape.Base.Int.{pos, neg}
use dreamscape.Kernel.{Call, ok, fault, deadlock, err_ptr}
use dreamscape.Kernel.Sample.{linux, without_pmu}
use dreamscape.CacheKprobeMonitor.{Globals, State, initial_globals, event_codes, st}
use dreamscape.CacheKprobeMonitor.Handler.{
  configure_perf_event, open_events, record_counters, monitor_switch, pre_handler,
}
use dreamscape.CacheKprobeMonitor.Handler.Outcomes.{
  Switched, pre_handler-Switched, pre_handler-deadlock,
}

abbrev watching : Globals
watching = record initial_globals { target_pid = pos 42 }

pre_handler-Switched_example :
    Switched linux (pos 42) watching [] (pre_handler linux (st watching []))
unfolding initial_globals
pre_handler-Switched_example = pre_handler-Switched linux (pos 42) watching [] refl refl tt

-- The first event is refused, with error 2.
abbrev stuck : State
stuck = record {
  globals = record watching { target_pid_mutex = true };
  trace =
      Call.perf_event_create (configure_perf_event without_pmu 1) (pos 42) (err_ptr 2)
      ∷ Call.regs_return_value 0x1000
      ∷ Call.lock
      ∷ Call.current (some (pos 42))
      ∷ [];
}

refuses : pre_handler without_pmu (st watching []) ≡ ok (neg 2) stuck
unfolding pre_handler monitor_switch open_events record_counters event_codes initial_globals
refuses = refl

pre_handler-deadlock_example :
    pre_handler without_pmu stuck
    ≡ fault deadlock (st stuck.globals (Call.current (some (pos 42)) ∷ stuck.trace))
unfolding initial_globals
pre_handler-deadlock_example =
    pre_handler-deadlock without_pmu (pos 42) (pos 42) watching [] (neg 2) stuck refl refl tt
      refuses refl refl
