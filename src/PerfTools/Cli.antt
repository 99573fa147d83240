-- ===== src/PerfTools/Cli.antt =====
-- pmu_events_cli.c: the event and the program come from the command line. `getopt` is the C
-- library's: `main` is given the options that it finds, in order, and `optarg`.
pub mod Requested
use dreamscape.Base.{
  ℕ, ◌%◌, ◌^◌, Bool, true, false, List, [], ◌∷◌, ◌++◌, Option, some, none, codes, ◌==◌, ◌||◌, ◌&&◌,
  not, if◌then◌else◌,
}
use dreamscape.Base.Int.{ℤ, pos, neg, eq_ℤ, is_neg}
use dreamscape.Base.Decimal.{print_int, print_u64}
use dreamscape.Kernel.{raw}
use dreamscape.PerfTools.{
  System, Program, Syscall, Log, value, printf, fprintf_stderr, ioctl, reset, enable, disable, fork,
  waitpid, read_count, close, pure, ◌>>=◌, ◌>>◌, ask, call, exit, perf_event_open_any, attr_of,
  open_failed,
}

-- `-p <path>`, `-e <event>`, and anything else.
pub data Flag : Type 0 where
  flag_p flag_e : (optarg : List ℕ) → Flag
  flag_other : Flag

pub is_valid_perf_event : ℕ → Bool
is_valid_perf_event event = (event == 0x03) || ((event == 0x04) || (event == 0x05))

-- `binary_path` and `perf_event`.
pub record Settings : Type 0 where
  pub binary_path : Option (List ℕ)
  pub perf_event : ℕ

abbrev pub unset : Settings
unset = record { binary_path = none; perf_event = 0 }

abbrev pub has_path : Settings → Bool
has_path s = elim s.binary_path [ none ↦ false | some path ↦ true ]

module _ (m : System) where
  -- The `while` loop over the options; `argv0` is the program's own name.
  pub read_options : (argv0 : List ℕ) → Settings → List Flag → Program Settings
  read_options argv0 s [] = pure s
  read_options argv0 s (flag_p optarg ∷ rest) =
      read_options argv0 (record s { binary_path = some optarg }) rest
  read_options argv0 s (flag_e optarg ∷ rest) =
      read_options argv0 (record s { perf_event = m.strtoul optarg % 2 ^ 32 }) rest
  read_options argv0 s (flag_other ∷ rest) = do
    call
        (fprintf_stderr (codes "Usage: " ++ (argv0 ++ codes " -p /path/to/binary -e perf_event\n")))
    exit 1

  abbrev pub in_child : ℤ → Program ℕ
  in_child fd = do
    call (printf (codes "in child process\n"))
    call (ioctl fd reset)
    call (ioctl fd enable)
    pure 0

  abbrev pub in_parent : ℕ → ℤ → ℤ → Program ℕ
  in_parent perf_event fd child_pid = do
    call (printf (codes "in parent process\n"))
    call (waitpid child_pid)
    call (ioctl fd disable)
    count ← ask (λ t. m.read_reply t fd) (λ r. read_count fd r)
    call (
        printf (
          codes "event code "
          ++ (print_u64 perf_event
              ++ (codes " cache event count: " ++ (print_int count ++ codes "\n")))))
    call (close fd)
    pure 0

  -- From the `fork` on. The child does not execute the binary.
  pub run_counter : (perf_event : ℕ) → (fd : ℤ) → Program ℕ
  run_counter perf_event fd = do
    child_pid ← ask m.fork_reply fork
    if is_neg child_pid
        then (do call (fprintf_stderr (codes "fork")); exit 1)
        else if eq_ℤ child_pid (pos 0)
        then in_child fd
        else in_parent perf_event fd child_pid

  pub pmu_events_cli_main : (argv0 : List ℕ) → List Flag → Program ℕ
  unfolding read_options run_counter perf_event_open_any
  pmu_events_cli_main argv0 flags = do
    s ← read_options argv0 unset flags
    if has_path s && (not (s.perf_event == 0) && is_valid_perf_event s.perf_event)
        then (do
          fd ← perf_event_open_any m (attr_of m raw s.perf_event)
          if eq_ℤ fd (neg 1)
              then open_failed m (codes "Error opening perf event\n")
              else run_counter s.perf_event fd)
        else (do
          call (
              fprintf_stderr
                (codes "Usage: " ++ (argv0 ++ codes " -p /path/to/binary -e perf_event\n")))
          call
              (fprintf_stderr (codes "Valid perf_event values (hexadecimal) for ARM Cortex A53:\n"))
          call (fprintf_stderr (codes "  0x03 : L1D_CACHE_REFILL\n"))
          call (fprintf_stderr (codes "  0x04 : L1D_CACHE\n"))
          call (fprintf_stderr (codes "  0x05 : L1D_TLB_REFILL\n"))
          exit 1)
