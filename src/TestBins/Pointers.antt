-- ===== src/TestBins/Pointers.antt =====
-- pointer_fun.c: a chain of small blocks, allocated, linked and freed.
pub mod Blocks
pub mod Chain
use dreamscape.Base.{
  ℕ, zero, suc, ◌+◌, ◌<◌, ◌≡◌, ◌≢◌, refl, List, [], ◌∷◌, codes, length, ◌==◌, if◌then◌else◌, arith,
  ==_ne,
}
use dreamscape.Kernel.{Ptr, null}
use dreamscape.PerfTools.{
  System, Log, value, Program, malloc, free, store, fprintf_stderr, pure, ◌>>=◌, ◌>>◌, ask, call,
  exit,
}

module _ (m : System) where
  abbrev pub allocate : ℕ → Program Ptr
  allocate size = ask (λ t. m.malloc_reply t size) (λ r. malloc size r)

  -- The first loop, with the rounds left; a failed allocation ends the program.
  pub allocate_all : ℕ → Program (List Ptr)
  allocate_all zero = pure []
  allocate_all (suc rounds) = do
    p ← allocate 8
    if p == 0
        then (do call (fprintf_stderr (codes "Failed to allocate memory")); exit 1)
        else do rest ← allocate_all rounds; pure (p ∷ rest)

  -- The second: each block points to the next, the last to a block of its own.
  pub rewire : List Ptr → Program (Unit {0})
  rewire [] = pure tt
  rewire (p ∷ []) = do q ← allocate 4; call (store p q)
  rewire (p ∷ next ∷ rest) = do call (store p next); rewire (next ∷ rest)

-- The third.
pub free_all : List Ptr → Program (Unit {0})
free_all [] = pure tt
free_all (p ∷ rest) = do call (free p); free_all rest

abbrev pub num_ptrs : ℕ
num_ptrs = 10_000

pub pointer_fun_main : System → (num_ptrs : ℕ) → Program ℕ
unfolding allocate_all rewire free_all
pointer_fun_main m num_ptrs = do
  ptrs ← allocate_all m num_ptrs
  rewire m ptrs
  free_all ptrs
  pure 0
