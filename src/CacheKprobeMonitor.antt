-- ===== src/CacheKprobeMonitor.antt =====
-- cache_kprobe_monitor/cache_kprobe_monitor.c, the first version of the monitor: its event codes,
-- its data, its globals and its mutex. The functions are in the modules below.
pub mod Counters
pub mod Commands
pub mod Handler
pub mod Module
mod Tests
use dreamscape.Base.{ℕ, Bool, true, false, List, [], ◌∷◌, map, if◌then◌else◌}
use dreamscape.Base.Int.{ℤ, neg}
use dreamscape.Kernel.{
  Ptr, null, Call, Trace, Sys, Cmd, deadlock, ◌>>=◌, ◌>>◌, gets, modify, emit, fail,
}

abbrev pub num_events : ℕ
num_events = 13

-- https://developer.arm.com/documentation/ddi0500/latest/ p.12-36
pub data EventCode : Type 0 where
  l1i_cache_refill l1i_tlb_refill l1d_cache_refill l1d_cache_access l1d_tlb_refill : EventCode
  ld_retired st_retired inst_retired cpu_cycles br_pred mem_access l1i_cache : EventCode
  l1d_cache_wb : EventCode

abbrev pub code : EventCode → ℕ
code l1i_cache_refill = 0x01
code l1i_tlb_refill = 0x02
code l1d_cache_refill = 0x03
code l1d_cache_access = 0x04
code l1d_tlb_refill = 0x05
code ld_retired = 0x06
code st_retired = 0x07
code inst_retired = 0x08
code cpu_cycles = 0x11
code br_pred = 0x12
code mem_access = 0x13
code l1i_cache = 0x14
code l1d_cache_wb = 0x15

unfoldable pub event_codes : List ℕ
event_codes = map code (
    l1i_cache_refill ∷ l1i_tlb_refill ∷ l1d_cache_refill ∷ l1d_cache_access ∷ l1d_tlb_refill
    ∷ ld_retired ∷ st_retired ∷ inst_retired ∷ cpu_cycles ∷ br_pred ∷ mem_access ∷ l1i_cache
    ∷ l1d_cache_wb ∷ [])

-- An entry of `counter_list`, with the address of its block.
pub record CounterData : Type 0 where
  pub block : Ptr
  pub pc : ℕ
  pub counters : List ℕ

-- On a 64-bit machine: the program counter, the counters and the two links.
abbrev pub sizeof_counter_data : ℕ
sizeof_counter_data = 128

-- `counter_list` from its head on, and whether the mutex is held.
pub record Globals : Type 0 where
  pub counter_list : List CounterData
  pub target_pid : ℤ
  pub proc_entry : Ptr
  pub target_pid_mutex : Bool

unfoldable pub initial_globals : Globals
initial_globals = record {
  counter_list = [];
  target_pid = neg 1;
  proc_entry = null;
  target_pid_mutex = false;
}

abbrev pub State : Type 0
State = Sys Globals

abbrev pub st : Globals → Trace → State
st g t = record { globals = g; trace = t }

-- Nobody else runs, so a mutex that is held when it is locked is never released.
abbrev pub mutex_lock : Cmd Globals (Unit {0})
mutex_lock = do
  held ← gets (λ g. g.target_pid_mutex)
  (if held
      then fail deadlock
      else (modify (λ g. record g { target_pid_mutex = true }) >> emit Call.lock))

abbrev pub mutex_unlock : Cmd Globals (Unit {0})
mutex_unlock = do modify (λ g. record g { target_pid_mutex = false }); emit Call.unlock
