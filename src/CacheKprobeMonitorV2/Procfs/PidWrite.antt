-- ===== src/CacheKprobeMonitorV2/Procfs/PidWrite.antt =====
-- `pid_write` on each of its ways out.
use dreamscape.Base.{
  ℕ, ◌<◌, ◌≤◌, ◌≡◌, ◌≢◌, refl, inl, inr, true, List, [], ◌∷◌, ◌++◌, arith, take, none, some, ltb,
  leb, ==_ne, ==_cases, Bool-cases, Option-cases,
}
use dreamscape.Base.Int.{ℤ, pos, neg}
use dreamscape.Base.CString.{c_string}
use dreamscape.Kernel.{Call, Trace, Kernel, Ends, ◌>>=◌}
use dreamscape.CacheKprobeMonitorV2.{Globals, State, st}
use dreamscape.CacheKprobeMonitorV2.Monitoring.Outcomes.{Started, start_monitoring-Started}
use dreamscape.CacheKprobeMonitorV2.Procfs.{einval, efault, pid_write}

-- The C string in `str`.
abbrev pub written : List ℕ → ℕ → List ℕ
written buffer count = c_string (take count buffer ++ 0 ∷ [])

abbrev pub with_target : Globals → ℤ → Globals
with_target g pid = record g { target_pid = pid }

pub data PidWritten (k : Kernel) (buffer : List ℕ) (count : ℕ) (g : Globals) (t : Trace)
    : ℤ → State → Type 0 where
  too_long : 12 ≤ count → PidWritten k buffer count g t (neg einval) (st g t)
  not_copied :
      (left : ℕ)
      → count < 12
      → left ≢ 0
      → PidWritten k buffer count g t (neg efault) (st g (Call.copy_from_user count left ∷ t))
  not_a_number :
      count < 12
      → k.kstrtoint (written buffer count) ≡ none
      → PidWritten k buffer count g t (neg einval) (st g (Call.copy_from_user count 0 ∷ t))
  started :
      {pid : ℤ} {s : State}
      → count < 12
      → k.kstrtoint (written buffer count) ≡ some pid
      → Started k pid (with_target g pid) (Call.copy_from_user count 0 ∷ t) s
      → PidWritten k buffer count g t (pos count) s

module _ (k : Kernel) (buffer : List ℕ) (count : ℕ) (g : Globals) (t : Trace) where
  -- A write to the pid entry never leaves `str`, and ends in one of four ways. Too long an input, a
  -- failed copy and a text that is no number are refused, and the globals are as before. Any other
  -- sets the target and tries to start monitoring it.
  pub pid_write-PidWritten :
      Ends (pid_write k buffer count (st g t)) (λ r s. PidWritten k buffer count g t r s)
  unfolding pid_write
  pid_write-PidWritten = elim (Bool-cases (leb 12 count)) [
    | inl long ↦ rw long (_, _, refl, too_long (ground arith))
    | inr short ↦
        let lt : count < 12 = ground arith in
        let room : leb count 12 ≡ true = ground arith in
        let index : ltb count 12 ≡ true = ground arith in
        elim (==_cases (k.copy_reply t count) 0) [
          | inr ne ↦
              rw short
                (rw room (rw (==_ne (k.copy_reply t count) 0 ne) (_, _, refl, not_copied _ lt ne)))
          | inl e ↦ elim (Option-cases (k.kstrtoint (written buffer count))) [
            | inl bad ↦
                rw short (rw room (rw e (rw index (rw bad (_, _, refl, not_a_number lt bad)))))
            | inr (pid, is) ↦
                let (_, s, run, up) =
                  start_monitoring-Started k pid (with_target g pid)
                    (Call.copy_from_user count 0 ∷ t) in
                rw short (
                  rw room
                    (rw e (rw index (rw is (rw (run, ◌>>=◌) (_, _, refl, started lt is up))))))
          ]
        ]
  ]
