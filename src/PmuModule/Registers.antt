-- ===== src/PmuModule/Registers.antt =====
-- What the accesses mean for the registers, as the architecture documents them: PMXEVTYPER and
-- PMXEVCNTR stand for the counter that PMSELR selects, and a write to PMCNTENSET only sets bits.
use dreamscape.Base.{
  ℕ, ◌/◌, ◌%◌, ◌^◌, Bool, false, ◌||◌, [], ◌∷◌, Option, none, some, ◌==◌, if◌then◌else◌,
}
use dreamscape.PmuModule.{
  Accesses, msr_pmcntenset, msr_pmcr, msr_pmselr, msr_pmxevtyper, msr_pmxevcntr, mrs_pmxevcntr,
}

abbrev pub selected : Accesses → Option ℕ
selected [] = none
selected (msr_pmselr n ∷ t) = some n
selected (_ ∷ t) = selected t

abbrev pub is_some : ℕ → Option ℕ → Bool
is_some n none = false
is_some n (some m) = m == n

-- The event that a counter counts.
abbrev pub event_type : ℕ → Accesses → Option ℕ
event_type n [] = none
event_type n (msr_pmxevtyper e ∷ t) = if is_some n (selected t) then some e else event_type n t
event_type n (_ ∷ t) = event_type n t

abbrev pub is_enabled : ℕ → Accesses → Bool
is_enabled n [] = false
is_enabled n (msr_pmcntenset v ∷ t) = (v / 2 ^ n % 2 == 1) || is_enabled n t
is_enabled n (_ ∷ t) = is_enabled n t

-- The value last written to a counter, and the value last read from it.
abbrev pub last_written : ℕ → Accesses → Option ℕ
last_written n [] = none
last_written n (msr_pmxevcntr v ∷ t) = if is_some n (selected t) then some v else last_written n t
last_written n (_ ∷ t) = last_written n t

abbrev pub last_read : ℕ → Accesses → Option ℕ
last_read n [] = none
last_read n (mrs_pmxevcntr v ∷ t) = if is_some n (selected t) then some v else last_read n t
last_read n (_ ∷ t) = last_read n t

-- The value last written to PMCR.
abbrev pub control : Accesses → Option ℕ
control [] = none
control (msr_pmcr v ∷ t) = some v
control (_ ∷ t) = control t
