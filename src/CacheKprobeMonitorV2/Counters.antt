-- ===== src/CacheKprobeMonitorV2/Counters.antt =====
-- The perf counters of cache_kprobe_monitor_v2.c: `init_perf_counters`, `write_counters_to_file`
-- and `cleanup_perf_counters`. A `printk` only logs and is left out.
pub mod Heap
pub mod Slots
pub mod Release
pub mod Create
pub mod Init
pub mod Cleanup
pub mod Leaks
pub mod CounterFile
use dreamscape.Base.{
  ℕ, zero, suc, ◌+◌, ◌*◌, Bool, true, false, List, [], ◌∷◌, ◌++◌, codes, get_or, set, ◌==◌, take,
  if◌then◌else◌, none,
}
use dreamscape.Base.Int.{ℤ, pos}
use dreamscape.Base.Decimal.{print_u64}
use dreamscape.Kernel.{
  Ptr, null, ptr, err_ptr, PerfEventAttr, raw, EventPtr, no_event, slot_of, Call, Kernel, Cmd, pure,
  ◌>>=◌, ◌>>◌, emit, ask, modify,
}
use dreamscape.CacheKprobeMonitorV2.{
  Globals, PerfCounterData, event_codes, num_events, sizeof_perf_counter_data, zeroed, put, load,
  store,
}

-- `perf_data->events[i] = ev` and `perf_data->prev_values[i] = v`.
abbrev pub with_event : PerfCounterData → ℕ → EventPtr → PerfCounterData
with_event d i ev = record d { events = set d.events i ev }

abbrev pub with_prev : PerfCounterData → ℕ → ℕ → PerfCounterData
with_prev d i v = record d { prev_values = set d.prev_values i v }

module _ (k : Kernel) where
  -- The attribute that each round of `init_perf_counters` fills in.
  abbrev pub counter_attr : ℕ → PerfEventAttr
  counter_attr config = record {
    kind = raw;
    size = k.sizeof_perf_event_attr;
    config = config;
    disabled = false;
    exclude_kernel = true;
    exclude_hv = false;
    exclude_idle = false;
  }

-- `while (i > 0) { --i; perf_event_release_kernel(perf_data->events[i]); }`
pub release_down : Ptr → ℕ → Cmd Globals (Unit {0})
release_down pd zero = pure tt
release_down pd (suc i) = do
  d ← load pd
  emit (Call.perf_event_release (get_or d.events i no_event))
  release_down pd i

abbrev pub kfree : Ptr → Cmd Globals (Unit {0})
kfree p = do modify (put p none); emit (Call.kfree p)

module _ (k : Kernel) where
  -- The `for` loop of `init_perf_counters` from index `i`, with the codes still to come; false is
  -- the early `return NULL`.
  pub create_events : (cpu : ℕ) → Ptr → ℕ → List ℕ → Cmd Globals Bool
  create_events cpu pd i [] = pure true
  create_events cpu pd i (c ∷ rest) = do
    ev ←
        ask (λ t. k.create_reply t (counter_attr k c) (pos cpu))
          (λ r. Call.perf_event_create (counter_attr k c) (pos cpu) r)
    d ← load pd
    store pd (with_event d i (slot_of ev))
    elim ev [
      | err_ptr e ↦ (do release_down pd i; kfree pd; emit Call.put_cpu; pure false)
      | ptr p ↦ (do d' ← load pd; store pd (with_prev d' i 0); create_events cpu pd (i + 1) rest)
    ]

  -- `init_perf_counters`; its argument `pid` is not used by the source.
  pub init_perf_counters : (pid : ℤ) → Cmd Globals Ptr
  unfolding create_events release_down
  init_perf_counters pid = do
    pd ←
        ask (λ t. k.kzalloc_reply t (num_events * sizeof_perf_counter_data))
          (λ r. Call.kzalloc (num_events * sizeof_perf_counter_data) r)
    if pd == 0 then pure null else do
      store pd zeroed
      cpu ← ask (λ t. k.cpu t) (λ r. Call.get_cpu r)
      done ← create_events cpu pd 0 event_codes
      if done then (emit Call.put_cpu >> pure pd) else pure null

-- "Event %d: %llu\n", a line of `write_counters_to_file`.
abbrev pub counter_line : ℕ → ℕ → List ℕ
counter_line c v = codes "Event " ++ (print_u64 c ++ (codes ": " ++ (print_u64 v ++ codes "\n")))

module _ (k : Kernel) where
  -- What kernel_write returns is dropped by the source.
  pub write_lines : ℕ → List ℕ → List ℕ → Cmd Globals (Unit {0})
  write_lines i counter_values [] = pure tt
  write_lines i counter_values (c ∷ rest) = do
    let line = take 1023 (counter_line c (get_or counter_values i 0))
    taken ← ask (λ t. k.kernel_write_reply t line) (λ r. Call.kernel_write line r)
    write_lines (i + 1) counter_values rest

  pub write_counters_to_file : List ℕ → Cmd Globals (Unit {0})
  unfolding write_lines
  write_counters_to_file counter_values = do
    file ←
        ask (λ t. k.open_reply t (codes "/tmp/perf_counters.txt"))
          (λ r. Call.filp_open (codes "/tmp/perf_counters.txt") r)
    elim file [
      | err_ptr e ↦ pure tt
      | ptr f ↦ (do write_lines 0 counter_values event_codes; emit Call.filp_close)
    ]

-- `for (i = 0; i < NUM_EVENTS; i++) if (perf_data->events[i]) ...`, with the rounds left.
abbrev pub release_slot : EventPtr → Cmd Globals (Unit {0})
release_slot no_event = pure tt
release_slot ev = emit (Call.perf_event_release ev)

pub cleanup_loop : Ptr → ℕ → ℕ → Cmd Globals (Unit {0})
cleanup_loop pd i zero = pure tt
cleanup_loop pd i (suc rounds) = do
  d ← load pd
  release_slot (get_or d.events i no_event)
  cleanup_loop pd (i + 1) rounds

pub cleanup_perf_counters : Ptr → Cmd Globals (Unit {0})
unfolding cleanup_loop
cleanup_perf_counters pd = if pd == 0 then pure tt else (do cleanup_loop pd 0 num_events; kfree pd)
