-- ===== src/CacheKprobeMonitorV2.antt =====
-- cache_kprobe_monitor_v2/cache_kprobe_monitor_v2.c: its event codes, its data and its globals.
-- The functions are in the modules below, in the order of the source.
pub mod Counters
pub mod Sampling
pub mod Monitoring
pub mod Procfs
pub mod Module
mod Tests
use dreamscape.Base.{
  ℕ, ◌*◌, Option, none, some, List, [], ◌∷◌, length, replicate, ◌==◌, map, if◌then◌else◌,
}
use dreamscape.Base.Int.{ℤ, neg}
use dreamscape.Kernel.{
  Ptr, null, EventPtr, no_event, Trace, Sys, Cmd, null_deref, use_after_free, pure, ◌>>=◌, gets,
  modify, fail,
}

-- https://developer.arm.com/documentation/ddi0500/latest/ p.12-36
pub data EventCode : Type 0 where
  l1i_cache_refill l1i_tlb_refill l1d_cache_refill l1d_cache_access l1d_tlb_refill : EventCode
  ld_retired st_retired inst_retired cpu_cycles br_pred mem_access l1i_cache : EventCode
  l1d_cache_wb : EventCode

abbrev pub code : EventCode → ℕ
code l1i_cache_refill = 0x01
code l1i_tlb_refill = 0x02
code l1d_cache_refill = 0x03
code l1d_cache_access = 0x04
code l1d_tlb_refill = 0x05
code ld_retired = 0x06
code st_retired = 0x07
code inst_retired = 0x08
code cpu_cycles = 0x11
code br_pred = 0x12
code mem_access = 0x13
code l1i_cache = 0x14
code l1d_cache_wb = 0x15

-- The array is shut in proofs about the loops, which hold for any codes.
unfoldable pub event_codes : List ℕ
event_codes = map code (
    l1i_cache_refill ∷ l1i_tlb_refill ∷ l1d_cache_refill ∷ l1d_cache_access ∷ l1d_tlb_refill
    ∷ ld_retired ∷ st_retired ∷ inst_retired ∷ cpu_cycles ∷ br_pred ∷ mem_access ∷ l1i_cache
    ∷ l1d_cache_wb ∷ [])

unfoldable pub num_events : ℕ
unfolding event_codes
num_events = length event_codes

pub record PerfCounterData : Type 0 where
  pub events : List EventPtr
  pub prev_values : List ℕ

-- On a 64-bit machine: two arrays of eight-byte cells.
abbrev pub sizeof_perf_counter_data : ℕ
sizeof_perf_counter_data = num_events * 16

-- What `kzalloc` leaves in the block: no events, and zero values.
abbrev pub zeroed : PerfCounterData
zeroed = record { events = replicate num_events no_event; prev_values = replicate num_events 0 }

pub data TimerFunction : Type 0 where
  no_function sample_perf_counters_function dummy_callback_function : TimerFunction

pub record Globals : Type 0 where
  pub target_pid : ℤ
  pub perf_data : Ptr
  pub monitored_task : Ptr
  pub timer_function : TimerFunction
  pub sample_interval : ℕ
  pub proc_entry_pid : Ptr
  pub proc_entry_message : Ptr
  pub message_buffer : List ℕ
  pub heap : Ptr → Option PerfCounterData

abbrev pub State : Type 0
State = Sys Globals

-- The globals as the module is loaded: `static` initialisers and zeroed storage.
unfoldable pub initial_globals : Globals
initial_globals = record {
  target_pid = neg 1;
  perf_data = null;
  monitored_task = null;
  timer_function = no_function;
  sample_interval = 0;
  proc_entry_pid = null;
  proc_entry_message = null;
  message_buffer = replicate 512 0;
  heap = λ p. none;
}

-- A block is there from its allocation to its `kfree`.
abbrev pub update :
    (Ptr → Option PerfCounterData) → Ptr → Option PerfCounterData → Ptr → Option PerfCounterData
update h p d q = if p == q then d else h q

abbrev pub put : Ptr → Option PerfCounterData → Globals → Globals
put p d g = record g { heap = update g.heap p d }

-- A state from its two parts.
abbrev pub st : Globals → Trace → State
st g t = record { globals = g; trace = t }

-- Access through a pointer to a `struct perf_counter_data`.
abbrev pub deref : Ptr → Option PerfCounterData → Cmd Globals PerfCounterData
deref p (some d) = pure d
deref p none = if p == 0 then fail null_deref else fail use_after_free

unfoldable pub load : Ptr → Cmd Globals PerfCounterData
load p = do d ← gets (λ g. g.heap p); deref p d

abbrev pub store : Ptr → PerfCounterData → Cmd Globals (Unit {0})
store p d = modify (put p (some d))
