-- ===== src/CacheKprobeMonitor/Commands.antt =====
-- The entry of /proc of cache_kprobe_monitor.c: `write_kinfo_to_file` and `command_handler`, with
-- what C's `sscanf` does on the two formats that the handler uses.
pub mod Start
pub mod KinfoFile
pub mod Outcomes
use dreamscape.Base.{
  ℕ, zero, suc, ◌+◌, ◌-◌, Bool, true, false, ◌||◌, ◌&&◌, List, [], ◌∷◌, ◌++◌, Option, none, some,
  codes, take, drop, get_or, min, ◌==◌, if◌then◌else◌,
}
use dreamscape.Base.Int.{ℤ, pos, negsuc, neg}
use dreamscape.Base.Decimal.{print_u64, print_int}
use dreamscape.Base.Scan.{same, print_hex, scan_word, scan_int}
use dreamscape.Base.CString.{c_string}
use dreamscape.Kernel.{
  ptr, err_ptr, Call, Kernel, Cmd, ok, null_deref, pure, ◌>>=◌, ◌>>◌, gets, modify, ask, emit, fail,
}
use dreamscape.CacheKprobeMonitor.{Globals, CounterData, num_events, mutex_lock, mutex_unlock}

-- "/tmp/cache_kprobe_monitor_pid_%d.txt"
abbrev pub filename : ℤ → List ℕ
filename pid = take 255 (codes "/tmp/cache_kprobe_monitor_pid_" ++ (print_int pid ++ codes ".txt"))

-- "PC: 0x%lx"
abbrev pub pc_text : ℕ → List ℕ
pc_text pc = codes "PC: 0x" ++ print_hex pc

-- ", Event %d: %llu"
abbrev pub event_text : ℕ → ℕ → List ℕ
event_text i v = codes ", Event " ++ (print_u64 i ++ (codes ": " ++ print_u64 v))

-- What `buf` holds when the copy succeeded: `count` bytes, cut to 255.
pub command_line : List ℕ → ℕ → List ℕ
command_line user_buf count = c_string (take (min count 255) user_buf ++ 0 ∷ [])

module _ (k : Kernel) where
  -- `file->f_op->write`, a NULL pointer for some files.
  pub file_write : List ℕ → Cmd Globals (Unit {0})
  file_write bytes s =
      if k.has_write s.trace then emit (Call.file_write bytes) s else fail null_deref s

  -- Only this write is guarded.
  pub file_write_if : List ℕ → Cmd Globals (Unit {0})
  file_write_if bytes s = if k.has_write s.trace then emit (Call.file_write bytes) s else ok tt s

  pub write_events : ℕ → List ℕ → Cmd Globals (Unit {0})
  write_events i [] = pure tt
  write_events i (v ∷ rest) = do file_write (take 63 (event_text i v)); write_events (i + 1) rest

  pub write_entries : List CounterData → Cmd Globals (Unit {0})
  unfolding write_events
  write_entries [] = pure tt
  write_entries (entry ∷ rest) = do
    file_write_if (take 255 (pc_text entry.pc))
    write_events 0 (take num_events entry.counters)
    file_write (codes "\n")
    write_entries rest

  pub write_kinfo_to_file : ℤ → Cmd Globals (Unit {0})
  unfolding write_entries
  write_kinfo_to_file pid = do
    file ← ask (λ t. k.open_reply t (filename pid)) (λ r. Call.filp_open (filename pid) r)
    elim file [
      | err_ptr e ↦ pure tt
      | ptr f ↦ (do l ← gets (λ g. g.counter_list); write_entries l; emit Call.filp_close)
    ]

  pub start_pid : ℤ → Cmd Globals (Unit {0})
  start_pid pid = do mutex_lock; modify (λ g. record g { target_pid = pid }); mutex_unlock

  abbrev pub stop_pid : Cmd Globals (Unit {0})
  stop_pid = do pid ← gets (λ g. g.target_pid); write_kinfo_to_file pid; start_pid (neg 1)

  -- The command in `buf`. Behind "start_pid" the same text is read again, for the number.
  pub run_command : (buf : List ℕ) (count : ℕ) → Cmd Globals ℤ
  unfolding write_kinfo_to_file start_pid
  run_command buf count = elim (scan_word 31 buf) [
    | none ↦ pure (neg 22)
    | some command ↦
        if same command (codes "start_pid")
        then (elim (scan_int (codes "start_pid") buf) [
          | none ↦ pure (neg 22)
          | some pid ↦ (do start_pid pid; pure (pos count))
        ])
        else if same command (codes "stop_pid")
        then (stop_pid >> pure (pos count))
        else pure (neg 22)
  ]

  pub command_handler : (user_buf : List ℕ) (count : ℕ) → Cmd Globals ℤ
  unfolding run_command
  command_handler user_buf count = do
    left ← ask (λ t. k.copy_reply t (min count 255)) (λ r. Call.copy_from_user (min count 255) r)
    if left == 0 then run_command (command_line user_buf count) count else pure (neg 14)
