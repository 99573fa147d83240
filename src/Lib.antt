-- ===== src/Lib.antt =====
-- DREAMSCAPE: kernel modules and programs that read the performance counters of an ARM Cortex-A53
-- while a process runs.
--
-- The parts and how they interact. Each kernel module hooks finish_task_switch by a kprobe or arms a
-- timer, takes a process id from a user through an entry of /proc, and counts events of that
-- process. A user starts and stops it by writing to the entry, and reads a message or a file. The
-- programs of arm_pmu_experiments count one event around a workload of their own.
--
-- What is modelled, by file:
--   Base                  lists, C integers, decimal and hexadecimal printing, snprintf and sscanf
--   Kernel                the boundary to Linux: calls, replies, faults, and what is counted of them
--   Message               the greeting in the 512-byte buffer that two modules share
--   CacheKprobeMonitorV2  cache_kprobe_monitor_v2/cache_kprobe_monitor_v2.c: Counters
--                         (init_perf_counters, write_counters_to_file, cleanup_perf_counters),
--                         Sampling (sample_perf_counters, dummy_callback), Monitoring
--                         (start_monitoring, stop_monitoring), Procfs (hello_switch, pid_write,
--                         message_read), Module (the init and exit functions)
--   CacheKprobeMonitor    cache_kprobe_monitor/cache_kprobe_monitor.c: Counters (update_counters),
--                         Handler (configure_perf_event, read_perf_counter, pre_handler), Commands
--                         (write_kinfo_to_file, command_handler), Module (init and exit)
--   KprobeTest            test_module/kprobe_test.c: hello_switch, pid_write, message_read, init, exit
--   PmuModule             pmu_kernel_module/pmu_module.c: the register accesses of init and exit, and
--                         what a reader of /proc/pmu_counters gets
--   PerfTools             arm_pmu_experiments/: pmu_cycle_count.c, pmu_cache_miss.c,
--                         l1_cache_misses.c, Array for pmu_cache_miss_array_sum.c, Cli for
--                         pmu_events_cli.c
--   TestBins              test_bins/src/: factorial.c, array_sum.c, rand_file.c, pointer_fun.c,
--                         tmp_file_activity.c, Primes for first_1000_primes.c, Forking for forking.c,
--                         Cache for cache_intensive.c, onebil_memacc.c and montecarlo_pi.c, and
--                         StartSuspended for test_bins/start_suspended.c
--   PmuUtils              pmu_utils/: the register accesses of enable_ccr.c and pmu_enable.c, Reader
--                         for read_pmu_counters.c
--   Utils                 utils/read_proc_message.c
--   Echomixer             allstar_bins/echomixer.c: Gain and Bits (ClampOutputVolume, Add_dB,
--                         CountBits), Controls (the reads and writes of ALSA's elements, GetVUmeters),
--                         Volumes (the handlers of the sliders), Meters (SetVUmeters and the two
--                         windows of meters), Switches (CheckInputs, the menus), Elements and Opening
--                         (OpenControls), Settings (the file ~/.Emixer_<card> that main reads and
--                         writes), Mouse (the mouse in the graphic mixer), Levels
--                         (Nominal_level_toggled)
--
-- The state of a kernel module is a record of its globals and the trace of its calls, the newest
-- first. Nothing of Linux is defined: a `Kernel` gives its replies as functions of the trace, so a
-- theorem for every `Kernel` holds whatever Linux answers, errors included. A call that Linux does
-- not survive (NULL dereferenced, a freed block used, an index out of bounds, a mutex taken twice)
-- ends the run with a fault. `Leakless` compares two traces: perf events, memory, task references,
-- preemption, locks, the kprobe and the entries of /proc were given back as often as taken.
--
-- The programs are runs of a `System` in the same way. The mixer's console is a record of the
-- variables that its handlers change, with the log of what was asked of ALSA; its arrays and tables are
-- functions of the index. GTK is what it does to a slider: whether a value set moves it, and the handler
-- is called then.
--
-- Bounds. Counters are 64 bits wide and their sums and differences are written modulo 2^64; an `int`
-- read by `%d` is cut to 32 bits. The printing of a number runs on fuel 20 (decimal) or 16
-- (hexadecimal), the digits of a 64-bit value; `read_digits-digits` shows that 20 is enough.
-- The search for primes runs on fuel, and some fuel is enough for any number of them; CountBits runs on
-- 33, one more than the bits of an `int`; a handler of a slider that calls the partner's runs on the
-- depth of the calls, and 2 is enough. All other loops are structural recursions over the array, the
-- list or the rounds left.
--
-- Hypotheses on Linux are named: `SimpleRead` (simple_read_from_buffer delivers the bytes from the
-- position on), `IsGenerous` (there is a current task, memory and a free counter), `has_write`,
-- `CallsOnEach` (on_each_cpu calls its function on each CPU that is online); on ALSA and GTK: `Writable`
-- (every write is taken), `SetsValue` (a slider is at a value after it was set to it). `Apart` and `Fits`
-- are on the card: its ids differ, and its counts are within the arrays. `Numbered`: the ids of
-- ALSA's elements count from 1. `GivesFree`: malloc gives no block that is in use.
--
-- Not modelled: printk lines that only log; the scheduler and real concurrency (handlers run one
-- after the other, which is the order that the locks allow); set_fs; the file_operations tables;
-- floating point; of echomixer.c the drawing of the graphic windows, the search for the card, the
-- widgets and the lines on the windows' places in the settings file; scripts and data.
pub mod Base
pub mod Kernel
pub mod Message
pub mod CacheKprobeMonitorV2
pub mod CacheKprobeMonitor
pub mod KprobeTest
pub mod PmuModule
pub mod PerfTools
pub mod TestBins
pub mod PmuUtils
pub mod Utils
pub mod Echomixer
