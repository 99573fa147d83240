-- ===== src/PerfTools.antt =====
-- arm_pmu_experiments/: the programs that count one event of a workload through the system call
-- perf_event_open. What a program asks of the system is entered in its log, the newest first; what
-- the system answers is a parameter.
pub mod Array
pub mod Cli
pub mod Protocol
pub mod Sample
mod Tests
use dreamscape.Base.{
  Option, ℕ, ◌%◌, ◌^◌, Bool, true, false, List, [], ◌∷◌, ◌++◌, codes, if◌then◌else◌, ◌||◌, ◌==◌,
  not,
}
use dreamscape.Base.Int.{ℤ, pos, neg, eq_ℤ}
use dreamscape.Base.Decimal.{print_int}
use dreamscape.Kernel.{Ptr, PerfType, hardware, raw, PerfEventAttr}

pub data Request : Type 0 where
  reset enable disable : Request

pub data Syscall : Type 0 where
  perf_event_open : PerfEventAttr → (pid cpu group_fd : ℤ) → (fd : ℤ) → Syscall
  ioctl : (fd : ℤ) → Request → Syscall
  read_count : (fd : ℤ) → (count : ℤ) → Syscall
  close : (fd : ℤ) → Syscall
  sleep : ℕ → Syscall
  malloc : ℕ → Ptr → Syscall
  store : Ptr → Ptr → Syscall
  free : Ptr → Syscall
  fork : ℤ → Syscall
  fopen : (name mode : List ℕ) → Ptr → Syscall
  fputc : Ptr → (byte : ℕ) → Syscall
  fread : Ptr → (offset room read : ℕ) → Syscall
  fclose : Ptr → (reply : ℤ) → Syscall
  fwrite : Ptr → (bytes : List ℕ) → (taken : ℕ) → Syscall
  open_file : (name : List ℕ) → (fd : ℤ) → Syscall
  read : (fd : ℤ) → (room : ℕ) → (bytes : Option (List ℕ)) → Syscall
  unlink : (name : List ℕ) → ℤ → Syscall
  waitpid : ℤ → Syscall
  waitpid_untraced : ℤ → (reply : ℤ) → Syscall
  getpid : (pid : ℤ) → Syscall
  execvp : (args : List (List ℕ)) → (status : Option ℕ) → Syscall
  kill_stop : (pid : ℤ) → (reply : ℤ) → Syscall
  perror : List ℕ → Syscall
  called_rand : ℕ → Syscall
  srand_time : Syscall
  printf fprintf_stderr : List ℕ → Syscall

abbrev pub Log : Type 0
Log = List Syscall

-- `strerror(errno)` is the text of the last error. `execvp` returns where it fails; where it does not,
-- the target program takes over the process, and its exit status is the answer.
pub record System : Type 0 where
  pub sizeof_perf_event_attr : ℕ
  pub strtoul : List ℕ → ℕ
  pub open_reply : Log → PerfEventAttr → ℤ
  pub enosys : Log → Bool
  pub strerror : Log → List ℕ
  pub read_reply : Log → ℤ → ℤ
  pub malloc_reply : Log → ℕ → Ptr
  pub fork_reply : Log → ℤ
  pub fopen_reply : Log → List ℕ → Ptr
  pub rand : Log → ℕ
  pub open_file_reply : Log → List ℕ → ℤ
  pub read_bytes_reply : Log → ℤ → (room : ℕ) → Option (List ℕ)
  pub fread_reply : Log → (room : ℕ) → ℕ
  pub fwrite_reply : Log → (bytes : List ℕ) → ℕ
  pub fclose_reply : Log → Ptr → ℤ
  pub unlink_reply : Log → List ℕ → ℤ
  pub getpid_reply : Log → ℤ
  pub execvp_reply : Log → List (List ℕ) → Option ℕ
  pub kill_reply : Log → ℤ → ℤ
  pub waitpid_reply : Log → ℤ → ℤ

-- A program, or a part of it, ends with a value, with `exit`, or with a signal.
pub data Run (A : Type 0) : Type 0 where
  value : A → Log → Run A
  exited : (status : ℕ) → Log → Run A
  segfault : Log → Run A

abbrev pub Program : Type 0 → Type 0
Program A = Log → Run A

abbrev pub pure : {A : Type 0} → A → Program A
pure a t = value a t

infixl 5 ◌>>=◌ ◌>>◌
abbrev pub ◌>>=◌ : {A B : Type 0} → Program A → (A → Program B) → Program B
◌>>=◌ m f t = elim (m t) [
  | value a t' ↦ f a t'
  | exited n t' ↦ exited n t'
  | segfault t' ↦ segfault t'
]

abbrev pub ◌>>◌ : {B : Type 0} → Program (Unit {0}) → Program B → Program B
m >> k = m >>= λ _. k

abbrev pub exit : {A : Type 0} → ℕ → Program A
exit n t = exited n t

abbrev pub call : Syscall → Program (Unit {0})
call c t = value tt (c ∷ t)

abbrev pub ask : {A : Type 0} → (Log → A) → (A → Syscall) → Program A
ask reply c t = value (reply t) (c (reply t) ∷ t)

module _ (m : System) where
  -- The attribute that each `main` fills in.
  abbrev pub attr_of : PerfType → ℕ → PerfEventAttr
  attr_of kind config = record {
    kind = kind;
    size = m.sizeof_perf_event_attr;
    config = config;
    disabled = true;
    exclude_kernel = true;
    exclude_hv = true;
    exclude_idle = false;
  }

  pub perf_event_open_any : PerfEventAttr → Program ℤ
  perf_event_open_any attr =
      ask (λ t. m.open_reply t attr) (λ r. perf_event_open attr (pos 0) (neg 1) (neg 1) r)

  -- With the test of `l1_cache_misses.c`.
  pub perf_event_open_or_exit : PerfEventAttr → Program ℤ
  unfolding perf_event_open_any
  perf_event_open_or_exit attr = do
    ret ← perf_event_open_any attr
    (λ t.
        if eq_ℤ ret (neg 1)
        then (if m.enosys t
            then (do
              call (fprintf_stderr (codes "Error: perf_event_open syscall not implemented\n"))
              exit 1)
                t
            else pure ret t)
        else pure ret t)

  abbrev pub open_failed : {A : Type 0} → List ℕ → Program A
  open_failed message = do call (fprintf_stderr message); exit 1

  -- Reset, enable, the workload, disable, and the count.
  pub count_workload : {A : Type 0} → (fd : ℤ) → Program A → Program (ℤ × A)
  count_workload fd workload = do
    call (ioctl fd reset)
    call (ioctl fd enable)
    a ← workload
    call (ioctl fd disable)
    count ← ask (λ t. m.read_reply t fd) (λ r. read_count fd r)
    pure (count, a)

  abbrev pub finish : ℤ → List ℕ → Program ℕ
  finish fd text = do call (printf text); call (close fd); pure 0

  -- "<name>: %lld\n"
  abbrev pub report : List ℕ → ℤ → List ℕ
  report name count = name ++ (codes ": " ++ (print_int count ++ codes "\n"))

  pub pmu_cycle_count_main : Program ℕ
  unfolding perf_event_open_any count_workload
  pmu_cycle_count_main = do
    fd ← perf_event_open_any (attr_of hardware 0)
    if eq_ℤ fd (neg 1) then open_failed (codes "Error opening perf event\n") else do
      (count, _) ← count_workload fd (pure {A = Unit {0}} tt)
      finish fd (report (codes "CPU cycles") count)

  pub pmu_cache_miss_main : Program ℕ
  unfolding perf_event_open_any count_workload
  pmu_cache_miss_main = do
    fd ← perf_event_open_any (attr_of raw 0x04)
    if eq_ℤ fd (neg 1)
        then (λ t.
            open_failed (codes "Error opening perf event: " ++ (m.strerror t ++ codes " \n")) t)
        else (do
          (count, _) ← count_workload fd (pure {A = Unit {0}} tt)
          finish fd (report (codes "Cache misses") count))

  pub l1_cache_misses_main : Program ℕ
  unfolding perf_event_open_or_exit count_workload
  l1_cache_misses_main = do
    fd ← perf_event_open_or_exit (attr_of raw 0x04)
    if eq_ℤ fd (neg 1) then open_failed (codes "Error opening perf event\n") else do
      (count, _) ← count_workload fd (call (sleep 1))
      finish fd (report (codes "L1 data cache read misses") count)
