-- ===== src/CacheKprobeMonitor/Counters/Totals.antt =====
-- The list of counters as a map from program counters to totals, and `update_counters` on it.
use dreamscape.Base.{
  ℕ, zero, suc, ◌+◌, ◌%◌, ◌^◌, ◌<◌, ◌≡◌, ◌≢◌, refl, ◌∙◌, inl, inr, ap, true, List, [], ◌∷◌, Option,
  none, some, arith, length, get_or, take, take_all, ◌==◌, if◌then◌else◌, ==_cases, ==_ne, sym,
}
use mathlib.Core.Option
use dreamscape.Kernel.{Ptr}
use dreamscape.CacheKprobeMonitor.{CounterData, num_events}
use dreamscape.CacheKprobeMonitor.Counters.{add_counters, add_to_entry}

-- The total of one event at one program counter: 0 where the list has no entry for it.
pub total : List CounterData → ℕ → ℕ → ℕ
total [] pc i = 0
total (entry ∷ rest) pc i =
    let more = total rest pc i in if entry.pc == pc then get_or entry.counters i 0 else more

pub record IsValues (values : List ℕ) : Type 0 where
  pub size : length values ≡ num_events
  pub bounds : (i : ℕ) → get_or values i 0 < 2 ^ 64

-- No entry of the list is for this program counter.
abbrev pub Fresh : ℕ → List CounterData → Type 0
Fresh pc [] = Unit
Fresh pc (entry ∷ rest) = (entry.pc ≢ pc) × Fresh pc rest

-- Each entry has its thirteen counters of 64 bits, and no two are for one program counter.
abbrev pub IsCounters : List CounterData → Type 0
IsCounters [] = Unit
IsCounters (entry ∷ rest) = IsValues entry.counters × Fresh entry.pc rest × IsCounters rest

-- How many entries stand in the block at an address.
abbrev pub held : Ptr → List CounterData → ℕ
held p [] = 0
held p (entry ∷ rest) = (if entry.block == p then 1 else 0) + held p rest

length-add_counters : (cs values : List ℕ) → length (add_counters cs values) ≡ length cs
unfolding add_counters
length-add_counters [] values = refl
length-add_counters (c ∷ cs) [] = refl
length-add_counters (c ∷ cs) (v ∷ values) = ap suc (length-add_counters cs values)

get_or-add_counters :
    (cs values : List ℕ) (i : ℕ)
    → length cs ≡ length values
    → get_or (add_counters cs values) i 0 ≡ (get_or cs i 0 + get_or values i 0) % 2 ^ 64
unfolding add_counters
get_or-add_counters [] [] i h = refl
get_or-add_counters [] (v ∷ values) i h = absurd (omega arith)
get_or-add_counters (c ∷ cs) [] i h = absurd (omega arith)
get_or-add_counters (c ∷ cs) (v ∷ values) zero h = refl
get_or-add_counters (c ∷ cs) (v ∷ values) (suc i) h = get_or-add_counters cs values i (omega arith)

add_counters-IsValues :
    (cs values : List ℕ) → IsValues cs → IsValues values → IsValues (add_counters cs values)
add_counters-IsValues cs values a b = record {
  size = length-add_counters cs values ∙ a.size;
  bounds = λ i. rw (get_or-add_counters cs values i (a.size ∙ sym b.size)) (omega arith);
}

total-Fresh : (l : List CounterData) (pc i : ℕ) → Fresh pc l → total l pc i ≡ 0
unfolding total
total-Fresh [] pc i f = refl
total-Fresh (entry ∷ rest) pc i f = rw (==_ne entry.pc pc f.0) (total-Fresh rest pc i f.1)

-- The totals after `values` were added at `pc`.
abbrev pub TotalsAdded : ℕ → List ℕ → (l l' : List CounterData) → Type 0
TotalsAdded pc values l l' =
    (q i : ℕ)
    → total l' q i ≡ (if pc == q then (total l q i + get_or values i 0) % 2 ^ 64 else total l q i)

pub record Added (pc : ℕ) (values : List ℕ) (l l' : List CounterData) : Type 0 where
  pub counters : IsCounters l'
  pub fresh : (q : ℕ) → Fresh q l → Fresh q l'
  pub blocks : (p : Ptr) → held p l' ≡ held p l
  pub totals : TotalsAdded pc values l l'

abbrev pub WalkEnd : ℕ → List ℕ → List CounterData → Option (List CounterData) → Type 0
WalkEnd pc values l none = Fresh pc l
WalkEnd pc values l (some l') = Added pc values l l'

module _ (pc : ℕ) (values : List ℕ) (v : IsValues values) where
  Added-here :
      (entry : CounterData) (rest : List CounterData)
      → IsCounters (entry ∷ rest)
      → entry.pc ≡ pc
      → Added pc values
          (entry ∷ rest)
          (record entry { counters = add_counters entry.counters values } ∷ rest)
  unfolding total
  Added-here entry rest c e = record {
    counters = (add_counters-IsValues entry.counters values c.0 v, c.1, c.2);
    fresh = λ q f. f;
    blocks = λ p. refl;
    totals = λ q i.
        ground (arith, get_or-add_counters entry.counters values i (c.0.size ∙ sym v.size), e);
  }

  Added-later :
      (entry : CounterData) (rest more : List CounterData)
      → IsCounters (entry ∷ rest)
      → entry.pc ≢ pc
      → Added pc values rest more
      → Added pc values (entry ∷ rest) (entry ∷ more)
  unfolding total
  Added-later entry rest more c ne a = record {
    counters = (c.0, a.fresh entry.pc c.1, a.counters);
    fresh = λ q f. (f.0, a.fresh q f.1);
    blocks = λ p. omega (arith, a.blocks p);
    totals = λ q i. ground (arith, a.totals q i);
  }

  WalkEnd-later :
      (entry : CounterData) (rest : List CounterData) (o : Option (List CounterData))
      → IsCounters (entry ∷ rest)
      → entry.pc ≢ pc
      → WalkEnd pc values rest o
      → WalkEnd pc values (entry ∷ rest) (Option.map (λ l. entry ∷ l) o)
  WalkEnd-later entry rest none c ne w = (ne, w)
  WalkEnd-later entry rest (some more) c ne w = Added-later entry rest more c ne w

  pub add_to_entry-WalkEnd :
      (l : List CounterData) → IsCounters l → WalkEnd pc values l (add_to_entry pc values l)
  unfolding add_to_entry
  add_to_entry-WalkEnd [] c = tt
  add_to_entry-WalkEnd (entry ∷ rest) c = elim (==_cases entry.pc pc) [
    | inl e ↦
        let it : (entry.pc == pc) ≡ true = ground (arith, e) in rw it (Added-here entry rest c e)
    | inr ne ↦
        rw (==_ne entry.pc pc ne) (WalkEnd-later entry rest _ c ne (add_to_entry-WalkEnd rest c.2))
  ]

  pub Added-new :
      (l : List CounterData) (p : Ptr)
      → IsCounters l
      → Fresh pc l
      → let l' = record { block = p; pc = pc; counters = take num_events values } ∷ l in
        IsCounters l' × TotalsAdded pc values l l'
  unfolding total
  Added-new l p c f =
      rw (take_all num_events values (omega (arith, v.size)))
        ((v, f, c), λ q i. ground (arith, total-Fresh l pc i f, v.bounds i))
