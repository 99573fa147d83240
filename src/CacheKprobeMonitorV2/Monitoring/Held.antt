-- ===== src/CacheKprobeMonitorV2/Monitoring/Held.antt =====
-- What a running monitor holds: its events, its block and its reference to the task.
use dreamscape.Base.{ℕ, ◌+◌, ◌≡◌, ◌≢◌, Bool, [], ◌∷◌, arith, if◌then◌else◌, ◌==◌, ==_ne, List}
use dreamscape.Base.Int.{ℤ}
use dreamscape.Kernel.{Ptr, null, EventPtr, Call, Trace, Kernel}
use dreamscape.Kernel.Counts.{
  count, creates, releases, releases_junk, allocates, frees, gets_task, puts_task, pins, unpins,
  locks, unlocks, registers, unregisters, makes_entry, removes_entry, Balanced, Leakless,
}
use dreamscape.CacheKprobeMonitorV2.{PerfCounterData, num_events}
use dreamscape.CacheKprobeMonitorV2.Counters.Slots.{occurs}
use dreamscape.CacheKprobeMonitorV2.Counters.Release.{IsBlind, Since}
use dreamscape.CacheKprobeMonitorV2.Counters.Create.{Creating}
use dreamscape.CacheKprobeMonitorV2.Counters.Init.{block_size}

abbrev pub one_if : Bool → ℕ
one_if b = if b then 1 else 0

-- More was taken than given back by the events, the block and the task.
pub record Held (events : List EventPtr) (pd task : Ptr) (t t' : Trace) : Type 0 where
  pub events_held :
      (p : ℕ)
      → count (creates p) t' + count (releases p) t
        ≡ count (creates p) t + count (releases p) t' + occurs p events 0 num_events
  pub junk : count releases_junk t' ≡ count releases_junk t
  pub block :
      (p : ℕ)
      → count (allocates p) t' + count (frees p) t
        ≡ count (allocates p) t + count (frees p) t' + one_if (pd == p)
  pub reference :
      (p : ℕ)
      → count (gets_task p) t' + count (puts_task p) t
        ≡ count (gets_task p) t + count (puts_task p) t' + one_if (task == p)
  pub preemption : Balanced pins unpins t t'
  pub locking : Balanced locks unlocks t t'
  pub kprobe : Balanced registers unregisters t t'
  pub entries : (p : ℕ) → Balanced (makes_entry p) (removes_entry p) t t'

pub Held-Leakless :
    {es : List EventPtr} {pd task : Ptr} {t t' t'' : Trace}
    → Held es pd task t t'
    → Leakless t' t''
    → Held es pd task t t''
Held-Leakless h l = record {
  events_held = λ p. omega (arith, h.events_held p, l.events p);
  junk = omega (arith, h.junk, l.junk);
  block = λ p. omega (arith, h.block p, l.memory p);
  reference = λ p. omega (arith, h.reference p, l.tasks p);
  preemption = omega (arith, h.preemption, l.preemption);
  locking = omega (arith, h.locking, l.locking);
  kprobe = omega (arith, h.kprobe, l.kprobe);
  entries = λ p. omega (arith, h.entries p, l.entries p);
}

-- After `init_perf_counters` of a task that was found, and the start of the timer.
pub made-Held :
    (k : Kernel) (pid : ℤ) {d : PerfCounterData} {pd task cpu interval : ℕ} {t t1 : Trace}
    → pd ≢ null
    → Creating num_events d
        (Call.get_cpu cpu
          ∷ Call.kzalloc block_size pd
          ∷ Call.get_task_struct task
          ∷ Call.pid_task pid task
          ∷ t)
        t1
    → Held d.events pd task t (Call.hrtimer_start interval ∷ Call.hrtimer_init ∷ Call.put_cpu ∷ t1)
made-Held k pid {pd} {task} {t} {t1} ne made =
    let same = λ (test : Call → Bool) (b : IsBlind test). made.since.others test b in
    record {
      events_held = λ p. omega (arith, made.since.creates p, made.since.releases p);
      junk = omega (arith, made.since.junk);
      block = λ p. ground (
        arith,
        same (allocates p) (ground arith),
        same (frees p) (ground arith),
        ==_ne pd null ne,
      );
      reference =
          λ p. ground (arith, same (gets_task p) (ground arith), same (puts_task p) (ground arith));
      preemption = omega (arith, same pins (ground arith), same unpins (ground arith));
      locking = omega (arith, same locks (ground arith), same unlocks (ground arith));
      kprobe = omega (arith, same registers (ground arith), same unregisters (ground arith));
      entries = λ p.
          omega (arith, same (makes_entry p) (ground arith), same (removes_entry p) (ground arith));
    }

-- After `hrtimer_cancel`, the cleanup of the block and `put_task_struct`.
pub stop-Leakless :
    {es : List EventPtr} {pd task : Ptr} {t t1 t2 : Trace}
    → Held es pd task t t1
    → Since
        (Call.hrtimer_cancel ∷ t1)
        t2
        (λ p. 0)
        (λ p. occurs p es 0 num_events)
        (λ test. count test (Call.kfree pd ∷ []))
    → Leakless t (Call.put_task_struct task ∷ t2)
stop-Leakless {es} {pd} {task} {t} {t1} {t2} h since =
    let same = λ (test : Call → Bool) (b : IsBlind test). since.others test b in
    record {
      events = λ p. omega (arith, h.events_held p, since.creates p, since.releases p);
      junk = omega (arith, h.junk, since.junk);
      memory = λ p.
          ground
            (arith, h.block p, same (allocates p) (ground arith), same (frees p) (ground arith));
      tasks = λ p. ground (
        arith,
        h.reference p,
        same (gets_task p) (ground arith),
        same (puts_task p) (ground arith),
      );
      preemption =
          omega (arith, h.preemption, same pins (ground arith), same unpins (ground arith));
      locking = omega (arith, h.locking, same locks (ground arith), same unlocks (ground arith));
      kprobe =
          omega (arith, h.kprobe, same registers (ground arith), same unregisters (ground arith));
      entries = λ p. omega (
        arith,
        h.entries p,
        same (makes_entry p) (ground arith),
        same (removes_entry p) (ground arith),
      );
    }
