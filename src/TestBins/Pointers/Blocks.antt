-- ===== src/TestBins/Pointers/Blocks.antt =====
-- The blocks of pointer_fun.c: which are in use, and what is stored in them.
use dreamscape.Base.{
  ℕ, ◌+◌, ◌≡◌, Bool, true, false, Option, none, some, List, [], ◌∷◌, ◌==◌, ◌||◌, if◌then◌else◌,
}
use dreamscape.Kernel.{Ptr}
use dreamscape.PerfTools.{System, Log, Syscall, malloc, free, store}

-- The block that a call takes (true) or gives back.
abbrev pub use_of : Syscall → Option (Ptr × Bool)
use_of (malloc size p) = some (p, true)
use_of (free p) = some (p, false)
use_of _ = none

-- Whether a block is in use: it was taken, and was not given back since.
abbrev pub in_use : Ptr → Log → Bool
in_use x [] = false
in_use x (c ∷ t) = elim (use_of c) [
  | none ↦ in_use x t
  | some (p, b) ↦ if p == x then b else in_use x t
]

-- What was last stored through a pointer.
abbrev pub points_to : Ptr → Log → Option Ptr
points_to x [] = none
points_to x (store p q ∷ t) = if p == x then some q else points_to x t
points_to x (_ ∷ t) = points_to x t

abbrev pub is_among : Ptr → List Ptr → Bool
is_among x [] = false
is_among x (p ∷ rest) = (p == x) || is_among x rest

-- Each block points to the next, and the last to q.
abbrev pub Linked : Ptr → List Ptr → Ptr → Log → Type 0
Linked p [] q t = points_to p t ≡ some q
Linked p (next ∷ rest) q t = (points_to p t ≡ some next) × Linked next rest q t

abbrev pub Distinct : List Ptr → Type 0
Distinct [] = Unit {0}
Distinct (p ∷ rest) = (is_among p rest ≡ false) × Distinct rest

-- `malloc` gives no block that is in use.
abbrev pub GivesFree : System → Type 0
GivesFree m = (t : Log) (size : ℕ) → in_use (m.malloc_reply t size) t ≡ false

abbrev pub frees : Log → ℕ
frees [] = 0
frees (free p ∷ t) = 1 + frees t
frees (_ ∷ t) = frees t
