-- ===== src/TestBins/Pointers/Chain.antt =====
-- The blocks of pointer_fun.c: what is freed, and the one block that is not.
use dreamscape.Base.{
  ℕ, zero, suc, ◌+◌, ◌≡◌, ◌≢◌, refl, sym, ap, ◌∙◌, inl, inr, Bool, true, false, List, [], ◌∷◌,
  length, ◌==◌, ◌||◌, if◌then◌else◌, arith, ==_ne, ==_refl, ==_cases, Bool-cases, subst,
}
use dreamscape.Kernel.{Ptr, null}
use dreamscape.PerfTools.{System, Log, value, malloc, free, store, ◌>>=◌}
use dreamscape.TestBins.Pointers.Blocks.{
  in_use, points_to, is_among, Linked, Distinct, GivesFree, frees,
}
use dreamscape.TestBins.Pointers.{allocate_all, rewire, free_all, pointer_fun_main}

or_later : (a b c : Bool) → (a || (if b then true else c)) ≡ ((b || a) || c)
or_later true true c = refl
or_later true false c = refl
or_later false true c = refl
or_later false false c = refl

freed_later :
    (a b c : Bool)
    → (if a then false else (if b then false else c)) ≡ (if (b || a) then false else c)
freed_later true true c = refl
freed_later true false c = refl
freed_later false true c = refl
freed_later false false c = refl

or_false : (a b : Bool) → (a || b) ≡ false → (a ≡ false) × (b ≡ false)
or_false false b e = (refl, e)
or_false true b e = absurd (cc)

Linked-points_to :
    (p : Ptr) (rest : List Ptr) (q : Ptr) (t t' : Log)
    → ((x : Ptr) → points_to x t' ≡ points_to x t)
    → Linked p rest q t
    → Linked p rest q t'
Linked-points_to p [] q t t' same linked = same p ∙ linked
Linked-points_to p (next ∷ rest) q t t' same (first, linked) =
    (same p ∙ first, Linked-points_to next rest q t t' same linked)

-- A block that was not in use differs from one that is, and is not among blocks that were not.
outside :
    (x p : Ptr) (ptrs : List Ptr) (t : Log)
    → in_use p t ≡ false
    → in_use x t ≡ true
    → (in_use x (malloc 8 p ∷ t) ≡ true → is_among x ptrs ≡ false)
    → is_among x (p ∷ ptrs) ≡ false
outside x p ptrs t unused used later = elim (==_cases p x) [
  | inl e ↦
      let clash : true ≡ false = sym (subst (λ y. in_use y t ≡ true) (sym e) used) ∙ unused in
      absurd (cc)
  | inr ne ↦ rw (==_ne p x ne) (later (rw (in_use, ==_ne p x ne) used))
]

module _ (m : System) (memory : (t : Log) (size : ℕ) → m.malloc_reply t size ≢ null)
    (gives : GivesFree m) where
  -- After the first loop, what was in use still is, and the blocks of the chain are too; they differ.
  allocate_all-in_use :
      (n : ℕ) (t : Log)
      → (ptrs : List Ptr) × (t' : Log) × (allocate_all m n t ≡ value ptrs t')
        × (length ptrs ≡ n)
        × ((x : Ptr) → in_use x t' ≡ (is_among x ptrs || in_use x t))
        × (frees t' ≡ frees t)
        × ((x : Ptr) → in_use x t ≡ true → is_among x ptrs ≡ false)
        × Distinct ptrs
  unfolding allocate_all
  allocate_all-in_use zero t = ([], t, refl, refl, λ x. refl, refl, λ x used. refl, tt)
  allocate_all-in_use (suc n) t =
      let p = m.malloc_reply t 8 in
      let live = ==_ne p null (memory t 8) in
      let (ptrs, t', run, size, used, none_freed, other, distinct) =
        allocate_all-in_use n (malloc 8 p ∷ t) in
      rw live (
        rw (run, ◌>>=◌)
          (
            p ∷ ptrs,
            t',
            refl,
            omega (arith, size),
            λ x. used x ∙ or_later (is_among x ptrs) (p == x) (in_use x t),
            none_freed,
            λ x live_x. outside x p ptrs t (gives t 8) live_x (other x),
            (other p (rw (in_use, ==_refl p) refl), distinct),
          ))

module _ (m : System) where
  -- The second loop takes one block, and each block points to the next and the last to it.
  rewire-last :
      (p : Ptr) (rest : List Ptr) (t : Log)
      → (q : Ptr) × (t' : Log) × (before : Log) × (rewire m (p ∷ rest) t ≡ value tt t')
        × (q ≡ m.malloc_reply before 4)
        × ((x : Ptr) → in_use x before ≡ in_use x t)
        × ((x : Ptr) → in_use x t' ≡ (if q == x then true else in_use x t))
        × ((x : Ptr) → is_among x (p ∷ rest) ≡ false → points_to x t' ≡ points_to x t)
        × (Distinct (p ∷ rest) → Linked p rest q t')
        × (frees t' ≡ frees t)
  unfolding rewire
  rewire-last p [] t = (
    m.malloc_reply t 4,
    _,
    t,
    refl,
    refl,
    λ x. refl,
    λ x. refl,
    λ x apart. rw (or_false (p == x) false apart).0 refl,
    λ distinct. rw (==_refl p) refl,
    refl,
  )
  rewire-last p (next ∷ rest) t =
      let (q, t', before, run, taken, same, used, kept, linked, freed) =
        rewire-last next rest (store p next ∷ t) in
      (
        q,
        t',
        before,
        run,
        taken,
        same,
        used,
        λ x apart.
            let (ne, later) = or_false (p == x) (is_among x (next ∷ rest)) apart in
            kept x later ∙ rw ne refl,
        λ distinct. (kept p distinct.0 ∙ rw (==_refl p) refl, linked distinct.1),
        freed,
      )

-- The third loop frees the blocks of the chain, and no other.
free_all-in_use :
    (ptrs : List Ptr) (t : Log)
    → (t' : Log) × (free_all ptrs t ≡ value tt t')
      × ((x : Ptr) → in_use x t' ≡ (if is_among x ptrs then false else in_use x t))
      × ((x : Ptr) → points_to x t' ≡ points_to x t)
      × (frees t' ≡ length ptrs + frees t)
unfolding free_all
free_all-in_use [] t = (t, refl, λ x. refl, λ x. refl, omega arith)
free_all-in_use (p ∷ rest) t =
    let (t', run, used, same, count) = free_all-in_use rest (free p ∷ t) in
    (
      t',
      run,
      λ x. used x ∙ freed_later (is_among x rest) (p == x) (in_use x t),
      same,
      omega (arith, count),
    )

-- The blocks in use after the three loops: those from before, and the one that was taken last.
one_more :
    (x q : Ptr) (ptrs : List Ptr) (before after : Bool)
    → is_among q ptrs ≡ false
    → after
      ≡ (if is_among x ptrs then false else (if q == x then true else (is_among x ptrs || before)))
    → after ≡ (if q == x then true else (if is_among x ptrs then false else before))
one_more x q ptrs before after apart e = elim (==_cases q x) [
  | inl same ↦
      let outside : is_among x ptrs ≡ false = subst (λ y. is_among y ptrs ≡ false) same apart in
      let taken : (q == x) ≡ true = subst (λ y. (q == y) ≡ true) same (==_refl q) in
      e ∙ rw (outside, taken) refl
  | inr ne ↦ elim (Bool-cases (is_among x ptrs)) [
    | inl among ↦ e ∙ rw (among, ==_ne q x ne) refl
    | inr outside ↦ e ∙ rw (outside, ==_ne q x ne) refl
  ]
]

-- How the program ends: its chain, of n linked blocks, is given back, and the block q that the last of
-- it points to is still in use.
abbrev pub LosesOne : System → (n : ℕ) → Log → Type 0
LosesOne m n t =
    (p : Ptr) × (rest : List Ptr) × (q : Ptr) × (t' : Log) × (pointer_fun_main m n t ≡ value 0 t')
    × (length (p ∷ rest) ≡ n)
    × (frees t' ≡ n + frees t)
    × Linked p rest q t'
    × ((x : Ptr)
        → in_use x t'
          ≡ (if q == x then true else (if is_among x (p ∷ rest) then false else in_use x t)))

module _ (m : System) (memory : (t : Log) (size : ℕ) → m.malloc_reply t size ≢ null)
    (gives : GivesFree m) where
  after_chain :
      (n : ℕ) (t : Log) (ptrs : List Ptr) (t1 : Log)
      → allocate_all m (suc n) t ≡ value ptrs t1
      → length ptrs ≡ suc n
      → ((x : Ptr) → in_use x t1 ≡ (is_among x ptrs || in_use x t))
      → frees t1 ≡ frees t
      → Distinct ptrs
      → LosesOne m (suc n) t
  unfolding pointer_fun_main
  after_chain n t [] t1 run1 size used1 freed1 distinct = absurd (omega (arith, size))
  after_chain n t (p ∷ rest) t1 run1 size used1 freed1 distinct =
      let (q, t2, before, run2, taken, same, used2, others, linked, freed2) =
        rewire-last m p rest t1 in
      let (t3, run3, used3, kept, freed3) = free_all-in_use (p ∷ rest) t2 in
      let unused : in_use q before ≡ false =
        subst (λ x. in_use x before ≡ false) (sym taken) (gives before 4) in
      let apart : is_among q (p ∷ rest) ≡ false =
        (or_false (is_among q (p ∷ rest)) (in_use q t)
          (sym (used1 q) ∙ (sym (same q) ∙ unused))).0 in
      (
        p,
        rest,
        q,
        t3,
        rw (run1, ◌>>=◌) (rw (run2, ◌>>=◌) (rw (run3, ◌>>=◌) refl)),
        size,
        omega (arith, freed1, freed2, freed3, size),
        Linked-points_to p rest q t2 t3 kept (linked distinct),
        λ x. one_more x q (p ∷ rest) (in_use x t) (in_use x t3) apart (
            used3 x
            ∙ ap (λ b. if is_among x (p ∷ rest) then false else b)
                (used2 x ∙ ap (λ b. if q == x then true else b) (used1 x))),
      )

-- Where there is memory, and `malloc` gives no block that is in use, the program ends by `return 0`,
-- with as many calls of `free` as the chain has blocks. At its end each block of the chain points to
-- the next, none of them is in use, the block that the last of them points to still is, and all other
-- blocks are in use where they were before.
pub pointer_fun_main-LosesOne :
    (m : System) (n : ℕ) (t : Log)
    → ((t' : Log) (size : ℕ) → m.malloc_reply t' size ≢ null)
    → GivesFree m
    → LosesOne m (suc n) t
pointer_fun_main-LosesOne m n t memory gives =
    let (ptrs, t1, run1, size, used1, freed1, other, distinct) =
      allocate_all-in_use m memory gives (suc n) t in
    after_chain m memory gives n t ptrs t1 run1 size used1 freed1 distinct
