-- ===== src/KprobeTest/Tests.antt =====
-- The theorems on kprobe_test.c at runs under a sample Linux.
use dreamscape.Base.{refl, [], arith}
use dreamscape.Base.Int.{pos}
use dreamscape.Kernel.{Ends, ◌>>=◌}
use dreamscape.Kernel.Counts.{Leakless}
use dreamscape.Kernel.Sample.{linux}
use dreamscape.KprobeTest.{Globals, initial_globals, st, hello_switch_init, hello_switch_exit}
use dreamscape.KprobeTest.Load.{hello_switch_exit-hello_switch_init}

abbrev watching : Globals
watching = record initial_globals { target_pid = pos 42 }

hello_switch_exit-init_example :
    Ends
      ((hello_switch_init linux >>= λ r. hello_switch_exit) (st initial_globals []))
      (λ _ s. Leakless [] s.trace)
hello_switch_exit-init_example =
    hello_switch_exit-hello_switch_init linux initial_globals [] refl (omega arith) (omega arith)
