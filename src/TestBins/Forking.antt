-- ===== src/TestBins/Forking.antt =====
-- forking.c: ten children, each of which outlives its parent.
use dreamscape.Base.{
  ℕ, zero, suc, ◌<◌, ◌≡◌, ◌⊎◌, refl, inl, inr, true, false, List, [], ◌∷◌, ◌++◌, codes, length,
  if◌then◌else◌, arith, Bool-cases, ap, ◌∙◌, length-append,
}
use mathlib.Core.List.{append_assoc}
use dreamscape.Base.Int.{ℤ, pos, is_neg, eq_ℤ, eq_ℤ_iff}
use dreamscape.Base.Decimal.{print_int}
use dreamscape.PerfTools.{
  System, Log, Run, value, exited, segfault, Program, fork, getpid, sleep, printf, perror, pure,
  ◌>>=◌, ◌>>◌, ask, call, exit,
}

module _ (m : System) where
  abbrev pub own_pid : Program ℤ
  own_pid = ask m.getpid_reply (λ r. getpid r)

  -- The branch of the child; it ends by `exit`.
  abbrev pub child : Program (Unit {0})
  child = do
    pid ← own_pid
    call (printf (codes "Child process " ++ (print_int pid ++ codes "\n")))
    call (sleep 10)
    pid' ← own_pid
    call (printf (codes "Orphaned child process " ++ (print_int pid' ++ codes "\n")))
    exit 0

  abbrev pub parent_line : (own pid : ℤ) → List ℕ
  parent_line own pid =
      codes "Parent process "
      ++ (print_int own ++ (codes " forked child " ++ (print_int pid ++ codes "\n")))

  -- The loop, with the rounds left.
  pub fork_children : (rounds : ℕ) → Program (Unit {0})
  fork_children zero = pure tt
  fork_children (suc rounds) = do
    pid ← ask m.fork_reply (λ r. fork r)
    if is_neg pid
        then (do call (perror (codes "Failed to fork process")); exit 1)
        else if eq_ℤ pid (pos 0)
        then child
        else (do own ← own_pid; call (printf (parent_line own pid)); fork_children rounds)

  pub forking_main : Program ℕ
  unfolding fork_children
  forking_main = do fork_children 10; pure 0

-- What `fork` answered, the newest first.
abbrev pub forked : Log → List ℤ
forked [] = []
forked (fork r ∷ t) = r ∷ forked t
forked (_ ∷ t) = forked t

-- All of them ids of children.
abbrev pub ArePids : List ℤ → Type 0
ArePids [] = Unit
ArePids (r ∷ rs) = (is_neg r ≡ false) × (eq_ℤ r (pos 0) ≡ false) × ArePids rs

-- A process that gets through the loop has a child for each round. One that leaves it early does so
-- at its newest `fork`: as the child, with status 0, or where that call failed, with status 1.
pub IsForkEnd : {A : Type 0} → (rounds : ℕ) → Log → Run A → Type 0
IsForkEnd rounds t (value a t') =
    (rs : List ℤ) × (forked t' ≡ rs ++ forked t) × (length rs ≡ rounds) × ArePids rs
IsForkEnd rounds t (exited status t') =
    (r : ℤ) × (rs : List ℤ) × (forked t' ≡ r ∷ (rs ++ forked t))
    × (length rs < rounds)
    × ArePids rs
    × (((r ≡ pos 0) × (status ≡ 0)) ⊎ ((is_neg r ≡ true) × (status ≡ 1)))
IsForkEnd rounds t (segfault t') = ⊥

ArePids-append : (r : ℤ) (rs : List ℤ) → ArePids rs → ArePids (r ∷ []) → ArePids (rs ++ r ∷ [])
ArePids-append r [] h k = k
ArePids-append r (q ∷ rs) h k = (h.0, h.1, ArePids-append r rs h.2 k)

-- A round whose call gives a child puts one more answer in front of those of the later rounds.
IsForkEnd-round :
    {A : Type 0} (rounds : ℕ) (r : ℤ) (t t1 : Log) (run : Run A)
    → ArePids (r ∷ [])
    → forked t1 ≡ r ∷ forked t
    → IsForkEnd rounds t1 run
    → IsForkEnd (suc rounds) t run
unfolding IsForkEnd
IsForkEnd-round rounds r t t1 (value a t') child first (rs, eq, count, pids) = (
  rs ++ r ∷ [],
  rw (append_assoc rs (r ∷ []) (forked t)) (eq ∙ ap (λ x. rs ++ x) first),
  omega (arith, count, length-append rs (r ∷ [])),
  ArePids-append r rs pids child,
)
IsForkEnd-round rounds r t t1 (exited s t') child first (q, rs, eq, count, pids, why) = (
  q,
  rs ++ r ∷ [],
  rw (append_assoc rs (r ∷ []) (forked t)) (eq ∙ ap (λ x. q ∷ (rs ++ x)) first),
  omega (arith, count, length-append rs (r ∷ [])),
  ArePids-append r rs pids child,
  why,
)
IsForkEnd-round rounds r t t1 (segfault t') child first h = elim h [ ]

-- After a round of the parent.
abbrev parent_told : System → ℤ → Log → Log
parent_told m r t =
    let own = m.getpid_reply (fork r ∷ t) in printf (parent_line m own r) ∷ getpid own ∷ fork r ∷ t

fork_children-IsForkEnd :
    (m : System) (rounds : ℕ) (t : Log) → IsForkEnd rounds t (fork_children m rounds t)
unfolding fork_children IsForkEnd
fork_children-IsForkEnd m zero t = ([], refl, refl, tt)
fork_children-IsForkEnd m (suc rounds) t =
    let r = m.fork_reply t in
    elim (Bool-cases (is_neg r)) [
      | inl bad ↦ rw bad (r, [], refl, omega arith, tt, inr (bad, refl))
      | inr good ↦ elim (Bool-cases (eq_ℤ r (pos 0))) [
        | inl zero_pid ↦
            rw (good, zero_pid)
              (r, [], refl, omega arith, tt, inl ((eq_ℤ_iff r (pos 0)).0 zero_pid, refl))
        | inr other ↦
            rw (good, other)
              (IsForkEnd-round rounds r t (parent_told m r t) _ (good, other, tt) refl
                (fork_children-IsForkEnd m rounds (parent_told m r t)))
      ]
    ]

-- The program does not fork without bound: a process that returns from `main` has ten children, and
-- one that leaves the loop early does so at its newest `fork`, after fewer than ten others, which
-- all gave children: as a child, which never forks, with status 0, or on failure with status 1.
pub forking_main-IsForkEnd : (m : System) (t : Log) → IsForkEnd 10 t (forking_main m t)
unfolding forking_main IsForkEnd
forking_main-IsForkEnd m t = ended (fork_children m 10 t) (fork_children-IsForkEnd m 10 t)
  where
    ended :
        (run : Run (Unit {0}))
        → IsForkEnd 10 t run
        → IsForkEnd {A = ℕ} 10 t
            (elim run [ value a t ↦ value 0 t | exited n t ↦ exited n t | segfault t ↦ segfault t ])
    ended (value a t') h = h
    ended (exited s t') h = h
    ended (segfault t') h = elim h [ ]
