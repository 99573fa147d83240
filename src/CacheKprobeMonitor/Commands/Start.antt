-- ===== src/CacheKprobeMonitor/Commands/Start.antt =====
-- The command "start_pid <pid>", as a user writes it to /proc/cache_kprobe_monitor.
use dreamscape.Base.{
  ℕ, ◌≤◌, ◌≡◌, refl, false, List, [], ◌∷◌, ◌++◌, some, arith, codes, length, min, length-append,
  take_all,
}
use dreamscape.Base.Int.{ℤ, pos}
use dreamscape.Base.Decimal.{
  print_int, length-print_int, print_int-NonZero, NonZero, NonZero-append,
}
use dreamscape.Base.CString.{c_string-terminated}
use dreamscape.Base.Scan.{
  same, scan_word, scan_int, word, skip_spaces, span_digits, IsInt, read_signed-print_int,
}
use dreamscape.Kernel.{Call, Trace, Kernel, ok}
use dreamscape.CacheKprobeMonitor.{Globals, st}
use dreamscape.CacheKprobeMonitor.Commands.{command_line, start_pid, run_command, command_handler}

-- "start_pid %d\n"
unfoldable pub start_command : ℤ → List ℕ
start_command pid = codes "start_pid " ++ (print_int pid ++ codes "\n")

length-start_command : (pid : ℤ) → length (start_command pid) ≤ 32
unfolding start_command
length-start_command pid = omega (
  arith,
  length-append (codes "start_pid ") (print_int pid ++ codes "\n"),
  length-append (print_int pid) (codes "\n"),
  length-print_int pid,
)

min_left : (a b : ℕ) → a ≤ b → min a b ≡ a
min_left a b h = omega arith

command_line-fits : (s : List ℕ) → NonZero s → length s ≤ 255 → command_line s (length s) ≡ s
unfolding command_line
command_line-fits s h fits =
    rw (min_left (length s) 255 fits)
      (rw (take_all (length s) s (omega arith)) (c_string-terminated s [] h))

start_command-NonZero : (pid : ℤ) → NonZero (start_command pid)
unfolding start_command
start_command-NonZero pid =
    NonZero-append (codes "start_pid ") _ (omega arith)
      (NonZero-append (print_int pid) _ (print_int-NonZero pid) (omega arith))

scan_word-start_command : (pid : ℤ) → scan_word 31 (start_command pid) ≡ some (codes "start_pid")
unfolding start_command scan_word skip_spaces word
scan_word-start_command pid = refl

scan_int-start_command :
    (pid : ℤ) → IsInt pid → scan_int (codes "start_pid") (start_command pid) ≡ some pid
unfolding start_command scan_int skip_spaces span_digits
scan_int-start_command pid h = read_signed-print_int pid (codes "\n") h refl

abbrev pub command_length : ℤ → ℕ
command_length pid = length (start_command pid)

module _ (k : Kernel) (pid : ℤ) (g : Globals) (t : Trace) where
  run_command-start_command :
      (count : ℕ)
      → IsInt pid
      → g.target_pid_mutex ≡ false
      → run_command k (start_command pid) count (st g t)
        ≡ ok (pos count) (st (record g { target_pid = pid }) (Call.unlock ∷ Call.lock ∷ t))
  unfolding run_command start_pid same
  run_command-start_command count h free =
      rw (scan_word-start_command pid, run_command)
        (rw (scan_int-start_command pid h) (rw free refl))

module _ (k : Kernel) (pid : ℤ) (g : Globals) (t : Trace) where
  -- Writing "start_pid " and any `int` in decimal, with a newline behind it, sets the target to
  -- that number and returns the length: what is printed is what `sscanf` reads. The list and the
  -- entry stay, and the mutex, which was free, is free again.
  pub command_handler-start_command :
      IsInt pid
      → k.copy_reply t (command_length pid) ≡ 0
      → g.target_pid_mutex ≡ false
      → command_handler k (start_command pid) (command_length pid) (st g t)
        ≡ ok (pos (command_length pid)) (
            st
              (record g { target_pid = pid })
              (Call.unlock ∷ Call.lock ∷ Call.copy_from_user (command_length pid) 0 ∷ t))
  unfolding command_handler
  command_handler-start_command h copied free =
      let fits : (command_length pid) ≤ 255 = omega (arith, length-start_command pid) in
      rw (min_left (command_length pid) 255 fits) (
        rw copied (
          rw (command_line-fits (start_command pid) (start_command-NonZero pid) fits)
            (run_command-start_command k pid g _ (command_length pid) h free)))
