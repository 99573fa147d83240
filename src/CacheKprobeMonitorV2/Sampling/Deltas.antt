-- ===== src/CacheKprobeMonitorV2/Sampling/Deltas.antt =====
-- What the reports in a trace add up to, and what the block remembers of it.
use dreamscape.Base.{
  ℕ, zero, suc, ◌+◌, ◌<◌, ◌≡◌, ◌≢◌, refl, sym, List, [], ◌∷◌, arith, get_or, set, length, ==_ne,
  ==_refl, get_or-set_ne, if◌then◌else◌, ◌==◌,
}
use dreamscape.Kernel.{Call, Trace}

-- The sum of the deltas that were reported for a code.
abbrev pub delta_of : ℕ → Call → ℕ
delta_of c (Call.report c' value delta) = if c' == c then delta else 0
delta_of c _ = 0

abbrev pub reported : ℕ → Trace → ℕ
reported c [] = 0
reported c (call ∷ t) = delta_of c call + reported c t

-- The sum of the remembered values, from index `i`, that stand beside a code.
unfoldable pub remembered : ℕ → List ℕ → List ℕ → ℕ → ℕ
remembered c [] values i = 0
remembered c (c' ∷ rest) values i =
    (if c' == c then get_or values i 0 else 0) + remembered c rest values (i + 1)

pub remembered-set :
    (c : ℕ) (cs values : List ℕ) (i j v : ℕ)
    → j < i
    → remembered c cs (set values j v) i ≡ remembered c cs values i
unfolding remembered
remembered-set c [] values i j v h = refl
remembered-set c (c' ∷ rest) values i j v h =
    rw (remembered-set c rest values (i + 1) j v (omega arith))
      (rw (get_or-set_ne values j i v 0 (omega arith)) refl)

abbrev pub Absent : ℕ → List ℕ → Type 0
Absent c [] = Unit
Absent c (c' ∷ rest) = (c' ≢ c) × Absent c rest

abbrev pub Distinct : List ℕ → Type 0
Distinct [] = Unit
Distinct (c ∷ rest) = Absent c rest × Distinct rest

remembered-Absent :
    (c : ℕ) (cs values : List ℕ) (i : ℕ) → Absent c cs → remembered c cs values i ≡ 0
unfolding remembered
remembered-Absent c [] values i h = refl
remembered-Absent c (c' ∷ rest) values i h =
    rw (==_ne c' c h.0) (omega (arith, remembered-Absent c rest values (i + 1) h.1))

Absent-get_or : (c : ℕ) (cs : List ℕ) (j d : ℕ) → Absent c cs → j < length cs → get_or cs j d ≢ c
Absent-get_or c [] j d h lt = absurd (omega arith)
Absent-get_or c (c' ∷ rest) zero d h lt = h.0
Absent-get_or c (c' ∷ rest) (suc j) d h lt = Absent-get_or c rest j d h.1 (omega arith)

-- Among distinct codes, a code stands beside one value.
pub remembered-Distinct :
    (cs values : List ℕ) (i j : ℕ)
    → Distinct cs
    → j < length cs
    → remembered (get_or cs j 0) cs values i ≡ get_or values (i + j) 0
unfolding remembered
remembered-Distinct [] values i j h lt = absurd (omega arith)
remembered-Distinct (c ∷ rest) values i zero h lt =
    let e : i + 0 ≡ i = omega arith in
    rw (==_refl c, e) (omega (arith, remembered-Absent c rest values (i + 1) h.0))
remembered-Distinct (c ∷ rest) values i (suc j) h lt =
    let e : i + suc j ≡ i + 1 + j = omega arith in
    let ne : c ≢ get_or rest j 0 = λ q. Absent-get_or c rest j 0 h.0 (omega arith) (sym q) in
    rw (==_ne c (get_or rest j 0) ne, e)
      (omega (arith, remembered-Distinct rest values (i + 1) j h.1 (omega arith)))

pub remembered_at :
    (cs values : List ℕ) (j : ℕ)
    → Distinct cs
    → j < length cs
    → remembered (get_or cs j 0) cs values 0 ≡ get_or values j 0
remembered_at cs values j h lt =
    let e : 0 + j ≡ j = omega arith in rw e at (remembered-Distinct cs values 0 j h lt)
