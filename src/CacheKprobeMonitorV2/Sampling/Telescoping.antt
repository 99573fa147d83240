-- ===== src/CacheKprobeMonitorV2/Sampling/Telescoping.antt =====
-- The reported deltas of one event against the value that is remembered for it.
use dreamscape.Base.{ℕ, ◌+◌, ◌%◌, ◌^◌, ◌<◌, ◌≡◌, refl, arith, get_or, length}
use dreamscape.Kernel.{Trace, Kernel, ok}
use dreamscape.CacheKprobeMonitorV2.{Globals, PerfCounterData, event_codes, num_events}
use dreamscape.CacheKprobeMonitorV2.Sampling.Deltas.{reported, Distinct, remembered_at}
use dreamscape.CacheKprobeMonitorV2.Sampling.Ticks.{IsOpen, holding, ticks, ticks-Monitored}

event_codes-Distinct : Distinct event_codes
unfolding event_codes
event_codes-Distinct = omega arith

code_count : num_events ≡ length event_codes
unfolding num_events
code_count = refl

-- The delta reports of each event telescope: over any number of timer calls, their sum is what the
-- remembered value grew by, modulo 2^64.
pub ticks-reported :
    (k : Kernel) (g : Globals) (n j : ℕ) (d : PerfCounterData) (t : Trace)
    → IsOpen d
    → j < num_events
    → (d' : PerfCounterData) × (t' : Trace) × (ticks k n (holding k g d t)
        ≡ ok tt (holding k g d' t'))
      × ((reported (get_or event_codes j 0) t' + get_or d.prev_values j 0) % 2 ^ 64
          ≡ (reported (get_or event_codes j 0) t + get_or d'.prev_values j 0) % 2 ^ 64)
ticks-reported k g n j d t o h =
    let (d', t', run, m) = ticks-Monitored k g n d t o in
    let fits : j < length event_codes = omega (arith, code_count) in
    (
      d',
      t',
      run,
      omega (
        arith,
        m.conserved (get_or event_codes j 0),
        remembered_at event_codes d.prev_values j event_codes-Distinct fits,
        remembered_at event_codes d'.prev_values j event_codes-Distinct fits,
      ),
    )
