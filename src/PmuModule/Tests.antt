-- ===== src/PmuModule/Tests.antt =====
-- The theorems on pmu_module.c for a sample processor.
use dreamscape.Base.{ℕ, ◌%◌, ◌≡◌, [], some, length}
use dreamscape.PmuModule.{Machine, State, initial_counters, pmu_module_init, pmu_module_exit}
use dreamscape.PmuModule.Registers.{event_type, control}
use dreamscape.PmuModule.Lifetime.{
  Configured, Reported, pmu_module_init-Configured, pmu_module_exit-Reported,
}

-- A counter that counts the accesses so far.
abbrev cortex : Machine
cortex = record {
  sys_pmuserenr_el0 = 0;
  sys_pmcntenset_el0 = 0;
  pmcr = λ t. 0x41033000;
  pmxevcntr = λ t. length t;
  proc_reply = λ t name. length name;
}

abbrev reset : State
reset = record { counters = initial_counters; accesses = [] }

abbrev loaded : State
loaded = (pmu_module_init cortex reset).1

pmu_module_init-Configured_example : Configured (pmu_module_init cortex reset).1.accesses
pmu_module_init-Configured_example = pmu_module_init-Configured cortex reset

pmu_module_exit-Reported_example :
    let s' = (pmu_module_exit cortex loaded).1 in
    Reported s'.counters s'.accesses
    × ((n : ℕ) → event_type n s'.accesses ≡ event_type n loaded.accesses)
    × ((v : ℕ) × (control s'.accesses ≡ some v) × (v % 2 ≡ 0))
pmu_module_exit-Reported_example = pmu_module_exit-Reported cortex loaded
