-- ===== src/PmuModule/Lifetime.antt =====
-- pmu_module.c from loading to unloading.
use dreamscape.Base.Decimal.{print_u64, digits}
use dreamscape.Base.{List, ◌++◌, codes, ℕ, ◌%◌, ◌≡◌, refl, ap, true, some, arith}
use dreamscape.PmuModule.{
  Machine, PmuCounters, State, initial_counters, Accesses, pmu_proc_show, configure_event_counter,
  pmu_module_init, read_counter, pmu_module_exit,
}
use dreamscape.PmuModule.Registers.{event_type, is_enabled, last_written, last_read, control}

-- A counter that counts an event from 0.
pub record Counts (n event : ℕ) (t : Accesses) : Type 0 where
  pub kind : event_type n t ≡ some event
  pub enabled : is_enabled n t ≡ true
  pub reset : last_written n t ≡ some 0

pub record Configured (t : Accesses) : Type 0 where
  pub data_access : Counts 0 0x04 t
  pub data_refill : Counts 1 0x03 t
  pub inst_access : Counts 2 0x14 t
  pub inst_refill : Counts 3 0x01 t
  pub running : (v : ℕ) × (control t ≡ some v) × (v % 2 ≡ 1)

module _ (m : Machine) (s : State) where
  -- Whatever the processor and Linux answer, after loading the counters 0 to 3 count, from 0 and
  -- enabled, the data and the instruction cache's accesses and refills, and the last write to PMCR
  -- had its enable bit set. This is so even where the entry of /proc was refused and the load fails.
  pub pmu_module_init-Configured : Configured (pmu_module_init m s).1.accesses
  unfolding pmu_module_init configure_event_counter
  pmu_module_init-Configured = record {
    data_access = record { kind = refl; enabled = refl; reset = refl };
    data_refill = record { kind = refl; enabled = refl; reset = refl };
    inst_access = record { kind = refl; enabled = refl; reset = refl };
    inst_refill = record { kind = refl; enabled = refl; reset = refl };
    running = (_, refl, omega arith);
  }

-- A record of the counters that agrees with what was read from the four counters last.
pub record Reported (c : PmuCounters) (t : Accesses) : Type 0 where
  pub data_access : last_read 0 t ≡ some c.l1_data_cache_access
  pub data_refill : last_read 1 t ≡ some c.l1_data_cache_refill
  pub inst_access : last_read 2 t ≡ some c.l1_inst_cache_access
  pub inst_refill : last_read 3 t ≡ some c.l1_inst_cache_refill

abbrev pub four_zeros : List ℕ
four_zeros =
    codes "L1 data cache access: 0\nL1 data cache refill: 0\n"
    ++ codes "L1 instruction cache access: 0\nL1 instruction cache refill: 0\n"

module _ (m : Machine) (s : State) where
  -- Whatever the processor answers, unloading leaves in `pmu_counters` what was read from the
  -- counters 0 to 3 last, the events still those that were configured before, and the last write to
  -- PMCR with its enable bit clear.
  pub pmu_module_exit-Reported :
      let s' = (pmu_module_exit m s).1 in
      Reported s'.counters s'.accesses
      × ((n : ℕ) → event_type n s'.accesses ≡ event_type n s.accesses)
      × ((v : ℕ) × (control s'.accesses ≡ some v) × (v % 2 ≡ 0))
  unfolding pmu_module_exit read_counter
  pmu_module_exit-Reported = (
    record { data_access = refl; data_refill = refl; inst_access = refl; inst_refill = refl },
    λ n. refl,
    (_, refl, omega arith),
  )

  -- After loading, with the counters zero as they are at first, whatever the processor answers, a
  -- reader of /proc/pmu_counters gets four lines with 0.
  pub pmu_proc_show-pmu_module_init :
      s.counters ≡ initial_counters → pmu_proc_show (pmu_module_init m s).1.counters ≡ four_zeros
  unfolding pmu_module_init configure_event_counter pmu_proc_show initial_counters print_u64 digits
  pmu_proc_show-pmu_module_init e = ap pmu_proc_show e
