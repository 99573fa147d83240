-- ===== src/CacheKprobeMonitor/Commands/Outcomes.antt =====
-- `command_handler` on each of its ways out.
use dreamscape.Base.{
  ℕ, ◌≡◌, ◌≢◌, refl, ◌⊎◌, subst, inl, inr, true, false, List, ◌∷◌, ◌++◌, none, some, codes, min,
  ==_ne, ==_cases, Bool-cases, Option-cases,
}
use dreamscape.Base.Int.{ℤ, pos, neg}
use dreamscape.Base.Scan.{same, same→eq, scan_word, scan_int}
use dreamscape.Kernel.{Call, Trace, Kernel, ok, Ends, ptr, err_ptr, ◌>>=◌}
use dreamscape.CacheKprobeMonitor.{Globals, State, st}
use dreamscape.CacheKprobeMonitor.Commands.{
  filename, command_line, start_pid, run_command, command_handler,
}
use dreamscape.CacheKprobeMonitor.Commands.KinfoFile.{
  file_bytes, kinfo_text, write_kinfo_to_file-text,
}

-- What a command does: it is refused, it sets the target, or it writes the file and resets it.
pub data CommandDone (k : Kernel) (buf : List ℕ) (count : ℕ) (g : Globals) (t : Trace)
    : ℤ → State → Type 0 where
  no_command :
      ((command : List ℕ)
        → scan_word 31 buf ≡ some command
        → same command (codes "stop_pid") ≡ false)
      → (scan_word 31 buf ≡ some (codes "start_pid") → scan_int (codes "start_pid") buf ≡ none)
      → CommandDone k buf count g t (neg 22) (st g t)
  target_set :
      (command : List ℕ) (pid : ℤ)
      → scan_word 31 buf ≡ some command
      → same command (codes "start_pid") ≡ true
      → scan_int (codes "start_pid") buf ≡ some pid
      → CommandDone k buf count g t (pos count) (
          st
            (record g { target_pid = pid; target_pid_mutex = false })
            (Call.unlock ∷ Call.lock ∷ t))
  target_reset :
      (command : List ℕ) (t' : Trace)
      → scan_word 31 buf ≡ some command
      → same command (codes "stop_pid") ≡ true
      → ((f : ℕ)
          → k.open_reply t (filename g.target_pid) ≡ ptr f
          → file_bytes t' ≡ file_bytes t ++ kinfo_text g.counter_list)
      → ((e : ℕ)
          → k.open_reply t (filename g.target_pid) ≡ err_ptr e
          → file_bytes t' ≡ file_bytes t)
      → CommandDone k buf count g t (pos count) (
          st
            (record g { target_pid = neg 1; target_pid_mutex = false })
            (Call.unlock ∷ Call.lock ∷ t'))

start_not_stop :
    (command : List ℕ)
    → same command (codes "start_pid") ≡ true
    → same command (codes "stop_pid") ≡ false
unfolding same
start_not_stop command h = rw (same→eq command (codes "start_pid") h) refl

-- The text has one first word.
first_word :
    (buf command other : List ℕ)
    → scan_word 31 buf ≡ some command
    → scan_word 31 buf ≡ some other
    → command ≡ other
first_word buf command other h h' = cc

not_start_pid :
    {command : List ℕ} → command ≡ codes "start_pid" → same command (codes "start_pid") ≢ false
unfolding same
not_start_pid {command = command} e h =
    true_ne_false (subst (λ c. same c (codes "start_pid") ≡ false) e h)
  where
    true_ne_false : true ≢ false
    true_ne_false q = cc

module _ (k : Kernel) (g : Globals) (free : g.target_pid_mutex ≡ false)
    (writes : (t : Trace) → k.has_write t ≡ true) where
  start_pid-ok :
      (pid : ℤ) (t : Trace)
      → start_pid k pid (st g t)
        ≡ ok tt (
            st
              (record g { target_pid = pid; target_pid_mutex = false })
              (Call.unlock ∷ Call.lock ∷ t))
  unfolding start_pid
  start_pid-ok pid t = rw free refl

  run_command-CommandDone :
      (buf : List ℕ) (count : ℕ) (t : Trace)
      → Ends (run_command k buf count (st g t)) (CommandDone k buf count g t)
  unfolding run_command
  run_command-CommandDone buf count t = elim (Option-cases (scan_word 31 buf)) [
    | inl none_of ↦ rw (none_of, run_command) (_, _, refl, no_command (λ command e. cc) (λ e. cc))
    | inr (command, word) ↦ elim (Bool-cases (same command (codes "start_pid"))) [
      | inl start ↦ elim (Option-cases (scan_int (codes "start_pid") buf)) [
        | inl no_pid ↦
            rw (word, run_command)
              (rw start (
                rw no_pid (
                  _,
                  _,
                  refl,
                  no_command
                      (λ other e.
                        rw (first_word buf other command e word) (start_not_stop command start))
                      (λ e. no_pid),
                )))
        | inr (pid, number) ↦
            rw (word, run_command)
              (rw start (
                rw number (
                  rw (start_pid-ok pid t, ◌>>=◌)
                    (_, _, refl, target_set command pid word start number))))
      ]
      | inr not_start ↦ elim (Bool-cases (same command (codes "stop_pid"))) [
        | inl stop ↦
            let (t', run, opened, closed) = write_kinfo_to_file-text k g writes g.target_pid t in
            rw (word, run_command)
              (rw not_start (
                rw stop (
                  rw (run, ◌>>=◌)
                    (rw (start_pid-ok (neg 1) t', ◌>>=◌)
                      (_, _, refl, target_reset command t' word stop opened closed)))))
        | inr not_stop ↦
            rw (word, run_command)
              (rw not_start (
                rw not_stop (
                  _,
                  _,
                  refl,
                  no_command (λ other e. rw (first_word buf other command e word) not_stop)
                      (λ e. absurd (
                        not_start_pid (first_word buf command (codes "start_pid") word e)
                          not_start)),
                )))
      ]
    ]
  ]

  -- With the mutex free and files that can be written, a write to the entry of /proc ends, and the
  -- mutex is free again. Where the copy from the user fails the error is -EFAULT. Else the text in
  -- `buf` is a command: "start_pid" with a number sets the target; "stop_pid" writes the list to the
  -- target's file, if that opens, and resets the target; all else is -EINVAL and changes nothing.
  pub command_handler-CommandDone :
      (user_buf : List ℕ) (count : ℕ) (t : Trace)
      → Ends (command_handler k user_buf count (st g t)) (λ r s.
        ((k.copy_reply t (min count 255) ≢ 0) × (r ≡ neg 14) × (s.globals ≡ g))
        ⊎ ((k.copy_reply t (min count 255) ≡ 0)
            × CommandDone k
                (command_line user_buf count)
                count
                g
                (Call.copy_from_user (min count 255) 0 ∷ t)
                r
                s))
  unfolding command_handler
  command_handler-CommandDone user_buf count t =
      elim (==_cases (k.copy_reply t (min count 255)) 0) [
        | inr ne ↦
            rw (==_ne (k.copy_reply t (min count 255)) 0 ne) (_, _, refl, inl (ne, refl, refl))
        | inl e ↦
            let (r, s, run, done) =
              run_command-CommandDone (command_line user_buf count) count
                (Call.copy_from_user (min count 255) 0 ∷ t) in
            rw e (r, s, run, inr (refl, done))
      ]
