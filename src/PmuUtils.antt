-- ===== src/PmuUtils.antt =====
-- pmu_utils/: the module enable_ccr.c and the program pmu_enable.c, which set the performance
-- monitor's control registers, and read_pmu_counters.c, which reads what PmuModule shows.
pub mod Control
pub mod Reader
mod Tests
use dreamscape.Base.{ℕ, ◌+◌, ◌-◌, ◌/◌, ◌%◌, ◌^◌, List, [], ◌∷◌, ◌++◌, ◌==◌, if◌then◌else◌}

-- `mcr p15` and `mrc p15` on the control register, the user enable register and the register that
-- enables counters, each access on the processor that it is made on.
pub data Access : Type 0 where
  mcr_pmcr mcr_pmuserenr mcr_pmcntenset : (cpu value : ℕ) → Access
  mrc_pmcr : (cpu value : ℕ) → Access

abbrev pub Accesses : Type 0
Accesses = List Access

-- `info` is not used.
pub enable_ccr : (cpu : ℕ) → Accesses → Accesses
enable_ccr cpu t = mcr_pmcntenset cpu 0x80000000 ∷ mcr_pmcr cpu 1 ∷ mcr_pmuserenr cpu 1 ∷ t

-- `on_each_cpu` is Linux's.
pub init_module :
    (on_each_cpu : (ℕ → Accesses → Accesses) → Accesses → Accesses) → Accesses → Accesses
init_module on_each_cpu t = on_each_cpu enable_ccr t

-- `v | 1 << k`
abbrev pub set_bit : (k v : ℕ) → ℕ
set_bit k v = if v / 2 ^ k % 2 == 0 then v + 2 ^ k else v

-- `pmcr |= PMCR_E | PMCR_C | PMCR_X | PMCR_DP | PMCR_XP`
pub with_flags : ℕ → ℕ
with_flags pmcr = set_bit 6 (set_bit 5 (set_bit 4 (set_bit 2 (set_bit 0 pmcr))))

-- `pmcr &= ~PMCR_E`: the bit has the value 1.
pub without_enable : ℕ → ℕ
without_enable pmcr = pmcr - pmcr % 2

-- `pmcr` is what the control register holds, as a function of the accesses so far.
module _ (pmcr : Accesses → ℕ) (cpu : ℕ) where
  pub pmu_enable : Accesses → Accesses
  unfolding with_flags
  pmu_enable t = mcr_pmcr cpu (with_flags (pmcr t)) ∷ mrc_pmcr cpu (pmcr t) ∷ t

  pub pmu_disable : Accesses → Accesses
  unfolding without_enable
  pmu_disable t = mcr_pmcr cpu (without_enable (pmcr t)) ∷ mrc_pmcr cpu (pmcr t) ∷ t

  pub pmu_enable_main : Accesses → Accesses
  unfolding pmu_enable pmu_disable
  pmu_enable_main t = pmu_disable (pmu_enable t)
