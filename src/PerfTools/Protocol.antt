-- ===== src/PerfTools/Protocol.antt =====
-- The protocol of a counter, as an automaton over the log: it is opened, reset and enabled, then
-- disabled, then read once, then closed. And the programs that keep to it.
use dreamscape.Base.{ℕ, ◌*◌, ◌≡◌, [], ◌∷◌, if◌then◌else◌}
use dreamscape.Base.Int.{ℤ, pos, neg, eq_ℤ}
use dreamscape.Kernel.{null, raw, PerfEventAttr}
use dreamscape.PerfTools.{
  System, Log, Run, value, exited, segfault, Syscall, malloc, reset, enable, disable,
  perf_event_open, ioctl, read_count, close, attr_of,
}
use dreamscape.PerfTools.Array.{array_size}

pub data Phase : Type 0 where
  idle broken : Phase
  opened counting stopped counted : (fd : ℤ) → Phase

abbrev pub advance : Syscall → Phase → Phase
advance (perf_event_open attr pid cpu group_fd fd) idle =
    if eq_ℤ fd (neg 1) then idle else opened fd
advance (perf_event_open attr pid cpu group_fd fd) _ = broken
advance (ioctl fd reset) (opened own) = if eq_ℤ fd own then opened own else broken
advance (ioctl fd enable) (opened own) = if eq_ℤ fd own then counting own else broken
advance (ioctl fd disable) (counting own) = if eq_ℤ fd own then stopped own else broken
advance (ioctl fd request) _ = broken
advance (read_count fd count) (stopped own) = if eq_ℤ fd own then counted own else broken
advance (read_count fd count) _ = broken
advance (close fd) (counted own) = if eq_ℤ fd own then idle else broken
advance (close fd) _ = broken
advance _ phase = phase

abbrev pub phase : Log → Phase
phase [] = idle
phase (c ∷ t) = advance c (phase t)

-- A run that ended by `return 0` or by `exit(1)`, and has no counter open.
abbrev pub IsDone : Run ℕ → Type 0
IsDone (value n t) = (n ≡ 0) × (phase t ≡ idle)
IsDone (exited n t) = (n ≡ 1) × (phase t ≡ idle)
IsDone (segfault t) = ⊥

-- As IsDone, or ended by a signal right after a `malloc` that had no memory for the array.
abbrev pub IsArrayDone : Run ℕ → Type 0
IsArrayDone (value n t) = (n ≡ 0) × (phase t ≡ idle)
IsArrayDone (exited n t) = (n ≡ 1) × (phase t ≡ idle)
IsArrayDone (segfault t) = (t' : Log) × (t ≡ malloc (array_size * 4) null ∷ t')

module _ (m : System) (t : Log) (start : phase t ≡ idle) where
  abbrev l1_attr : PerfEventAttr
  l1_attr = attr_of m raw 0x04

  abbrev l1_fd : ℤ
  l1_fd = m.open_reply t l1_attr

  abbrev l1_asked : Log
  l1_asked = perf_event_open l1_attr (pos 0) (neg 1) (neg 1) l1_fd ∷ t
