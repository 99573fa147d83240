-- ===== src/PmuUtils/Control.antt =====
-- What enable_ccr.c and pmu_enable.c leave in the registers.
use dreamscape.Base.{
  ℕ, ◌/◌, ◌%◌, ◌^◌, ◌≡◌, ◌≢◌, inl, inr, refl, [], ◌∷◌, Option, none, some, ◌==◌, if◌then◌else◌,
  arith, sym, subst, ==_cases, ==_refl, ==_ne,
}
use dreamscape.PmuUtils.{
  Accesses, mcr_pmcr, mcr_pmuserenr, mcr_pmcntenset, mrc_pmcr, with_flags, without_enable,
  enable_ccr, init_module, pmu_enable, pmu_disable, pmu_enable_main,
}

abbrev pub bit : (k v : ℕ) → ℕ
bit k v = v / 2 ^ k % 2

-- The five flags are set and nothing else is changed.
pub record Flagged (v w : ℕ) : Type 0 where
  pub enable : bit 0 w ≡ 1
  pub reset_cycles : bit 2 w ≡ 1
  pub export : bit 4 w ≡ 1
  pub no_cycles_in_debug : bit 5 w ≡ 1
  pub export_events : bit 6 w ≡ 1
  pub same_one : bit 1 w ≡ bit 1 v
  pub same_three : bit 3 w ≡ bit 3 v
  pub same_above : w / 2 ^ 7 ≡ v / 2 ^ 7

with_flags-Flagged : (v : ℕ) → Flagged v (with_flags v)
unfolding with_flags
with_flags-Flagged v = record {
  enable = ground arith;
  reset_cycles = ground arith;
  export = ground arith;
  no_cycles_in_debug = ground arith;
  export_events = ground arith;
  same_one = ground arith;
  same_three = ground arith;
  same_above = ground arith;
}

-- For every value that the control register holds before and between, pmu_enable.c makes four
-- accesses: the value written first has the flags E, C, X, DP and XP set and is otherwise the value
-- read; the value written last has E clear and is otherwise the value read then.
pub pmu_enable_main-Flagged :
    (pmcr : Accesses → ℕ) (cpu : ℕ) (t : Accesses)
    → (v w v' w' : ℕ) × (pmu_enable_main pmcr cpu t
        ≡ mcr_pmcr cpu w' ∷ mrc_pmcr cpu v' ∷ mcr_pmcr cpu w ∷ mrc_pmcr cpu v ∷ t)
      × (v ≡ pmcr t)
      × (v' ≡ pmcr (mcr_pmcr cpu w ∷ mrc_pmcr cpu v ∷ t))
      × Flagged v w
      × (bit 0 w' ≡ 0)
      × (w' / 2 ≡ v' / 2)
unfolding pmu_enable_main pmu_enable pmu_disable without_enable
pmu_enable_main-Flagged pmcr cpu t =
    (_, _, _, _, refl, refl, refl, with_flags-Flagged (pmcr t), ground arith, ground arith)

-- What was last written to a register of a processor.
abbrev pub last_pmcr : (cpu : ℕ) → Accesses → Option ℕ
last_pmcr cpu [] = none
last_pmcr cpu (mcr_pmcr c v ∷ t) = if c == cpu then some v else last_pmcr cpu t
last_pmcr cpu (_ ∷ t) = last_pmcr cpu t

abbrev pub last_pmuserenr : (cpu : ℕ) → Accesses → Option ℕ
last_pmuserenr cpu [] = none
last_pmuserenr cpu (mcr_pmuserenr c v ∷ t) = if c == cpu then some v else last_pmuserenr cpu t
last_pmuserenr cpu (_ ∷ t) = last_pmuserenr cpu t

abbrev pub last_pmcntenset : (cpu : ℕ) → Accesses → Option ℕ
last_pmcntenset cpu [] = none
last_pmcntenset cpu (mcr_pmcntenset c v ∷ t) = if c == cpu then some v else last_pmcntenset cpu t
last_pmcntenset cpu (_ ∷ t) = last_pmcntenset cpu t

-- User access is on, the counters are on as a whole, and of the single counters only that of the
-- cycles, bit 31: the bits of the four event counters are clear.
pub record Enabled (cpu : ℕ) (t : Accesses) : Type 0 where
  pub user : last_pmuserenr cpu t ≡ some 1
  pub control : last_pmcr cpu t ≡ some 1
  pub cycles : (v : ℕ) × (last_pmcntenset cpu t ≡ some v) × (bit 31 v ≡ 1) × (v % 2 ^ 4 ≡ 0)

enable_ccr-own : (cpu : ℕ) (t : Accesses) → Enabled cpu (enable_ccr cpu t)
unfolding enable_ccr
enable_ccr-own cpu t = record {
  user = rw (==_refl cpu) refl;
  control = rw (==_refl cpu) refl;
  cycles = (0x80000000, rw (==_refl cpu) refl, refl, refl);
}

enable_ccr-other :
    (c cpu : ℕ) (t : Accesses) → c ≢ cpu → Enabled cpu t → Enabled cpu (enable_ccr c t)
unfolding enable_ccr
enable_ccr-other c cpu t other e = record {
  user = rw (==_ne c cpu other) e.user;
  control = rw (==_ne c cpu other) e.control;
  cycles = let (v, eq, on, off) = e.cycles in (v, rw (==_ne c cpu other) eq, on, off);
}

enable_ccr-kept : (c cpu : ℕ) (t : Accesses) → Enabled cpu t → Enabled cpu (enable_ccr c t)
enable_ccr-kept c cpu t e = elim (==_cases c cpu) [
  | inl same ↦ subst (λ x. Enabled cpu (enable_ccr x t)) (sym same) (enable_ccr-own cpu t)
  | inr other ↦ enable_ccr-other c cpu t other e
]

-- As Linux documents it: the function is called on every processor that is online, and nothing else is
-- done. What a call on the processor brings about, and every call keeps, holds at the end.
abbrev CallsOnEach :
    ((ℕ → Accesses → Accesses) → Accesses → Accesses) → (online : ℕ → Type 0) → Type 1
CallsOnEach on_each_cpu online =
    (f : ℕ → Accesses → Accesses) (cpu : ℕ) (P : Accesses → Type 0)
    → online cpu
    → ((t : Accesses) → P (f cpu t))
    → ((c : ℕ) (t : Accesses) → P t → P (f c t))
    → (t : Accesses) → P (on_each_cpu f t)

-- Once enable_ccr.c is loaded, every processor that is online has its registers set: user access on,
-- the counters on as a whole, and of the single counters the cycle counter alone.
init_module-Enabled :
    (on_each_cpu : (ℕ → Accesses → Accesses) → Accesses → Accesses) (online : ℕ → Type 0)
    → CallsOnEach on_each_cpu online
    → (cpu : ℕ) (t : Accesses) → online cpu
    → Enabled cpu (init_module on_each_cpu t)
unfolding init_module
init_module-Enabled on_each_cpu online calls cpu t up =
    calls enable_ccr cpu (Enabled cpu) up (enable_ccr-own cpu) (λ c t e. enable_ccr-kept c cpu t e)
      t
