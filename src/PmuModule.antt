-- ===== src/PmuModule.antt =====
-- pmu_kernel_module/pmu_module.c: the module that programs the performance monitor's registers
-- directly, and reports the four counters when it is unloaded. A register access is entered in the
-- list of accesses, the newest first; what a read returns is a parameter.
pub mod Registers
pub mod Lifetime
mod Tests
use dreamscape.Base.{ℕ, ◌+◌, ◌-◌, ◌%◌, ◌^◌, List, [], ◌∷◌, ◌++◌, codes, ◌==◌, if◌then◌else◌}
use dreamscape.Base.Int.{ℤ, pos, neg}
use dreamscape.Base.Decimal.{print_u64}
use dreamscape.Kernel.{Ptr}

-- `msr <register>, value` and `mrs value, <register>`, and the calls of Linux.
pub data Access : Type 0 where
  msr_pmuserenr msr_pmcntenset msr_pmcr msr_pmselr msr_pmxevtyper msr_pmxevcntr : ℕ → Access
  mrs_pmcr mrs_pmxevcntr : ℕ → Access
  proc_create : (name : List ℕ) → Ptr → Access
  remove_proc_entry : (name : List ℕ) → Access

abbrev pub Accesses : Type 0
Accesses = List Access

-- The processor and Linux, as functions of the accesses so far, and two constants of Linux.
pub record Machine : Type 0 where
  pub sys_pmuserenr_el0 : ℕ
  pub sys_pmcntenset_el0 : ℕ
  pub pmcr : Accesses → ℕ
  pub pmxevcntr : Accesses → ℕ
  pub proc_reply : Accesses → List ℕ → Ptr

pub record PmuCounters : Type 0 where
  pub l1_data_cache_access : ℕ
  pub l1_data_cache_refill : ℕ
  pub l1_inst_cache_access : ℕ
  pub l1_inst_cache_refill : ℕ

-- `pmu_counters`, and the accesses.
pub record State : Type 0 where
  pub counters : PmuCounters
  pub accesses : Accesses

unfoldable pub initial_counters : PmuCounters
initial_counters = record {
  l1_data_cache_access = 0;
  l1_data_cache_refill = 0;
  l1_inst_cache_access = 0;
  l1_inst_cache_refill = 0;
}

abbrev pub Action : Type 0 → Type 0
Action A = State → A × State

abbrev pub pure : {A : Type 0} → A → Action A
pure a s = (a, s)

infixl 5 ◌>>=◌ ◌>>◌
abbrev pub ◌>>=◌ : {A B : Type 0} → Action A → (A → Action B) → Action B
m >>= f = λ s. let (a, s') = m s in f a s'

abbrev pub ◌>>◌ : {B : Type 0} → Action (Unit {0}) → Action B → Action B
m >> k = m >>= λ _. k

abbrev pub emit : Access → Action (Unit {0})
emit a s = (tt, record s { accesses = a ∷ s.accesses })

abbrev pub ask : {A : Type 0} → (Accesses → A) → (A → Access) → Action A
ask reply access s =
    (reply s.accesses, record s { accesses = access (reply s.accesses) ∷ s.accesses })

abbrev pub l1d_cache_access : ℕ
l1d_cache_access = 0x04

abbrev pub l1d_cache_refill : ℕ
l1d_cache_refill = 0x03

abbrev pub l1i_cache_refill : ℕ
l1i_cache_refill = 0x01

abbrev pub l1i_cache_access : ℕ
l1i_cache_access = 0x14

-- `v | ARMV8_PMCR_E` and `v & ~ARMV8_PMCR_E`: the bit has the value 1.
abbrev pub with_enable : ℕ → ℕ
with_enable v = v - v % 2 + 1

abbrev pub without_enable : ℕ → ℕ
without_enable v = v - v % 2

-- "L1 ...: %llu\n", four times.
unfoldable pub pmu_proc_show : PmuCounters → List ℕ
pmu_proc_show c =
    codes "L1 data cache access: "
    ++ (print_u64 c.l1_data_cache_access
        ++ (codes "\n"
            ++ (codes "L1 data cache refill: "
                ++ (print_u64 c.l1_data_cache_refill
                    ++ (codes "\n"
                        ++ (codes "L1 instruction cache access: "
                            ++ (print_u64 c.l1_inst_cache_access
                                ++ (codes "\n"
                                    ++ (codes "L1 instruction cache refill: "
                                        ++ (print_u64 c.l1_inst_cache_refill ++ codes "\n"))))))))))

pub configure_event_counter : (counter_index event_code : ℕ) → Action (Unit {0})
configure_event_counter counter_index event_code = do
  emit (msr_pmselr counter_index)
  emit (msr_pmxevtyper event_code)
  emit (msr_pmxevcntr 0)
  emit (msr_pmcntenset (2 ^ counter_index % 2 ^ 64))

module _ (m : Machine) where
  pub pmu_module_init : Action ℤ
  unfolding configure_event_counter
  pmu_module_init = do
    emit (msr_pmuserenr m.sys_pmuserenr_el0)
    emit (msr_pmcntenset m.sys_pmcntenset_el0)
    val ← ask m.pmcr mrs_pmcr
    emit (msr_pmcr (with_enable val))
    configure_event_counter 0 l1d_cache_access
    configure_event_counter 1 l1d_cache_refill
    configure_event_counter 2 l1i_cache_access
    configure_event_counter 3 l1i_cache_refill
    entry ← ask (λ t. m.proc_reply t (codes "pmu_counters")) (proc_create (codes "pmu_counters"))
    pure (if entry == 0 then neg 12 else pos 0)

  -- `msr pmselr_el0` and `mrs pmxevcntr_el0`.
  pub read_counter : ℕ → Action ℕ
  read_counter index = do emit (msr_pmselr index); ask m.pmxevcntr mrs_pmxevcntr

  -- `pmcr_val` has 32 bits.
  pub pmu_module_exit : Action (Unit {0})
  unfolding read_counter
  pmu_module_exit = do
    daccess ← read_counter 0
    drefill ← read_counter 1
    iaccess ← read_counter 2
    irefill ← read_counter 3
    pmcr_val ← ask m.pmcr mrs_pmcr
    emit (msr_pmcr (without_enable (pmcr_val % 2 ^ 32)))
    (λ s. (
      tt,
      record s {
        counters = record {
          l1_data_cache_access = daccess;
          l1_data_cache_refill = drefill;
          l1_inst_cache_access = iaccess;
          l1_inst_cache_refill = irefill;
        };
      },
    ))
    emit (remove_proc_entry (codes "pmu_counters"))
