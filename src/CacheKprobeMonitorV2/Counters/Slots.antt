-- ===== src/CacheKprobeMonitorV2/Counters/Slots.antt =====
-- The slots of `perf_data->events` below an index: how often they hold an event, and whether all do.
use dreamscape.Base.{
  ℕ, zero, suc, ◌+◌, ◌<◌, ◌≤◌, ◌≡◌, refl, sym, ap, inl, inr, ==_cases, Bool, true, false, List, ◌∷◌,
  arith, get_or, set, length, if◌then◌else◌, get_or-set_self, get_or-set_ne, replicate,
}
use dreamscape.Kernel.{EventPtr, no_event, event}
use dreamscape.Kernel.Counts.{is_event}

-- How many of the slots `lo`, ..., `lo + n - 1` hold the event `p`.
unfoldable pub occurs : ℕ → List EventPtr → (lo n : ℕ) → ℕ
occurs p es lo zero = 0
occurs p es lo (suc n) =
    occurs p es lo n + (if is_event p (get_or es (lo + n) no_event) then 1 else 0)

abbrev pub holds_event : EventPtr → Bool
holds_event (event p) = true
holds_event _ = false

-- Every slot below `i` holds an event.
abbrev pub AllEvents : List EventPtr → ℕ → Type 0
AllEvents es i = (j : ℕ) → j < i → holds_event (get_or es j no_event) ≡ true

pub occurs-set :
    (p : ℕ) (es : List EventPtr) (j : ℕ) (v : EventPtr) (n : ℕ)
    → n ≤ j
    → occurs p (set es j v) 0 n ≡ occurs p es 0 n
unfolding occurs
occurs-set p es j v zero h = refl
occurs-set p es j v (suc n) h = ground (
  arith,
  occurs-set p es j v n (omega arith),
  get_or-set_ne es j (0 + n) v no_event (omega arith),
)

-- One more slot, the one that was written last.
pub occurs-set_self :
    (p : ℕ) (es : List EventPtr) (i : ℕ) (v : EventPtr)
    → i < length es
    → occurs p (set es i v) 0 (suc i) ≡ occurs p es 0 i + (if is_event p v then 1 else 0)
unfolding occurs
occurs-set_self p es i v h =
    rw (occurs-set p es i v i (omega arith))
      (let e : 0 + i ≡ i = omega arith in rw (e, get_or-set_self es i v no_event h))

-- The first slot apart, for a loop that goes up.
pub occurs-suc :
    (p : ℕ) (es : List EventPtr) (lo n : ℕ)
    → occurs p es lo (suc n)
      ≡ (if is_event p (get_or es lo no_event) then 1 else 0) + occurs p es (lo + 1) n
unfolding occurs
occurs-suc p es lo zero = let e : lo + 0 ≡ lo = omega arith in rw e (omega arith)
occurs-suc p es lo (suc n) =
    let e : lo + suc n ≡ lo + 1 + n = omega arith in rw (occurs-suc p es lo n, e) (omega arith)

pub AllEvents-set :
    (es : List EventPtr) (i : ℕ) (p : ℕ)
    → i < length es
    → AllEvents es i
    → AllEvents (set es i (event p)) (suc i)
AllEvents-set es i p fits all j h = elim (==_cases j i) [
  | inl e ↦ rw (e, get_or-set_self es i (event p) no_event fits)
  | inr ne ↦ rw (get_or-set_ne es i j (event p) no_event (λ e. ne (sym e))) (all j (omega arith))
]

pub set-replicate {ℓ} : {A : Type ℓ} (n i : ℕ) (a : A) → set (replicate n a) i a ≡ replicate n a
set-replicate zero i a = refl
set-replicate (suc n) zero a = refl
set-replicate (suc n) (suc i) a = ap (λ l. a ∷ l) (set-replicate n i a)
