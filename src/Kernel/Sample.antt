-- ===== src/Kernel/Sample.antt =====
-- A Linux that answers, for the tests: pid 42 is a live task and runs next, every call succeeds,
-- and an event counts the calls that were made so far. Variants of it refuse one thing each.
use dreamscape.Base.{true, ◌+◌, ◌*◌, some, length, take, drop}
use dreamscape.Base.Int.{pos}
use dreamscape.Kernel.{Kernel, ptr, err_ptr}

abbrev pub linux : Kernel
linux = record {
  sizeof_perf_event_attr = 112;
  ktime_set = λ s ns. s * 1_000_000_000 + ns;
  kstrtoint = λ s. some (pos 42);
  kzalloc_reply = λ t n. 64;
  kmalloc_reply = λ t n. length t + 1;
  cpu = λ t. 0;
  create_reply = λ t attr cpu. ptr (100 + attr.config);
  read_reply = λ t e. length t;
  task_of_pid = λ t pid. 7;
  alive = λ t task. true;
  task_pc = λ t task. 0x400;
  current_pid = λ t. some (pos 42);
  return_value = λ t. 0x1000;
  register_reply = λ t. pos 0;
  proc_reply = λ t name. length name;
  copy_reply = λ t n. 0;
  simple_read_reply = λ t count p from available. record {
    ret = pos (length (take count (drop p (take available from))));
    pos = p + length (take count (drop p (take available from)));
    delivered = take count (drop p (take available from));
  };
  open_reply = λ t name. ptr 9;
  has_write = λ t. true;
  kernel_write_reply = λ t bytes. pos (length bytes);
}

-- No memory.
abbrev pub exhausted : Kernel
exhausted = record linux { kzalloc_reply = λ t n. 0; kmalloc_reply = λ t n. 0 }

-- No perf events.
abbrev pub without_pmu : Kernel
without_pmu = record linux { create_reply = λ t attr cpu. err_ptr 2 }
