-- ===== src/TestBins/StartSuspended.antt =====
-- test_bins/start_suspended.c: a target is started and stopped at once.
use dreamscape.Base.{
  ℕ, ◌≡◌, ◌≢◌, refl, inl, inr, false, Option, none, some, List, [], ◌∷◌, ◌++◌, codes, ◌+◌,
  if◌then◌else◌, Bool-cases, not, ap,
}
use dreamscape.Base.Int.{ℤ, pos, is_neg, eq_ℤ, eq_ℤ_iff}
use dreamscape.Base.Decimal.{print_int}
use dreamscape.PerfTools.{
  System, Log, Run, value, exited, segfault, Program, fork, execvp, kill_stop, waitpid_untraced,
  printf, perror, pure, ◌>>=◌, ◌>>◌, ask, call, exit,
}

-- The target's status where it takes over, and what follows a call that returns.
abbrev pub taken_over : Option ℕ → Program ℕ
taken_over (some status) = exit status
taken_over none = do call (perror (codes "execvp")); exit 1

abbrev pub suspended_line : ℤ → List ℕ
suspended_line pid =
    codes "Child process started in suspended state with PID: " ++ (print_int pid ++ codes "\n")

-- `args` are the arguments after the program's own name. The status that `waitpid` stores is not
-- read.
pub start_suspended_main : System → (args : List (List ℕ)) → Program ℕ
start_suspended_main m args = do
  pid ← ask m.fork_reply (λ r. fork r)
  if eq_ℤ pid (pos 0)
      then (do r ← ask (λ t. m.execvp_reply t args) (λ r. execvp args r); taken_over r)
      else if is_neg pid
      then (do call (perror (codes "fork")); exit 1)
      else (do
        killed ← ask (λ t. m.kill_reply t pid) (λ r. kill_stop pid r)
        if not (eq_ℤ killed (pos 0)) then (do call (perror (codes "kill")); exit 1) else (do
          waited ← ask (λ t. m.waitpid_reply t pid) (λ r. waitpid_untraced pid r)
          if is_neg waited
              then (do call (perror (codes "waitpid")); exit 1)
              else (do call (printf (suspended_line pid)); pure 0)))

-- How often the program has said something on its standard output.
abbrev pub printfs : Log → ℕ
printfs [] = 0
printfs (printf text ∷ t) = 1 + printfs t
printfs (_ ∷ t) = printfs t

-- A process that returns from `main` has forked a child, stopped it, waited for it and then said so;
-- one that leaves by `exit` has said nothing.
pub IsStart : Log → Run ℕ → Type 0
IsStart t (value status t') =
    (pid waited : ℤ) × (status ≡ 0)
    × (is_neg pid ≡ false)
    × (pid ≢ pos 0)
    × (is_neg waited ≡ false)
    × (t'
        ≡ printf (suspended_line pid)
          ∷ waitpid_untraced pid waited
          ∷ kill_stop pid (pos 0)
          ∷ fork pid
          ∷ t)
IsStart t (exited status t') = printfs t' ≡ printfs t
IsStart t (segfault t') = ⊥

-- For every answer of the system, the program says that the child is suspended only after `fork`
-- gave a child, `kill` stopped it and `waitpid` returned, in that order, and it returns 0 then; on
-- every other way it leaves by `exit` and has said nothing on its standard output.
pub start_suspended_main-IsStart :
    (m : System) (args : List (List ℕ)) (t : Log) → IsStart t (start_suspended_main m args t)
unfolding start_suspended_main IsStart
start_suspended_main-IsStart m args t =
    let pid = m.fork_reply t in
    elim (Bool-cases (eq_ℤ pid (pos 0))) [
      | inl child ↦ rw child (child_end (m.execvp_reply (fork pid ∷ t) args))
      | inr parent ↦ elim (Bool-cases (is_neg pid)) [
        | inl bad ↦ rw (parent, bad) refl
        | inr good ↦
            let killed = m.kill_reply (fork pid ∷ t) pid in
            elim (Bool-cases (eq_ℤ killed (pos 0))) [
              | inr failed ↦ rw (parent, good, failed) refl
              | inl stopped ↦
                  let waited = m.waitpid_reply (kill_stop pid killed ∷ fork pid ∷ t) pid in
                  elim (Bool-cases (is_neg waited)) [
                    | inl failed ↦ rw (parent, good, stopped, failed) refl
                    | inr done ↦
                        rw (parent, good, stopped, done)
                          (
                            pid,
                            waited,
                            refl,
                            good,
                            λ e. cc,
                            done,
                            ap
                                (λ k.
                                  printf (suspended_line pid)
                                  ∷ waitpid_untraced pid waited
                                  ∷ kill_stop pid k
                                  ∷ fork pid
                                  ∷ t)
                                ((eq_ℤ_iff killed (pos 0)).0 stopped),
                          )
                  ]
            ]
      ]
    ]
  where
    child_end :
        (r : Option ℕ) → IsStart t (taken_over r (execvp args r ∷ fork (m.fork_reply t) ∷ t))
    child_end none = refl
    child_end (some status) = refl
