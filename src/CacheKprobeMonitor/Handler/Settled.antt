-- ===== src/CacheKprobeMonitor/Handler/Settled.antt =====
-- What `pre_handler` has given back when it has recorded a sample.
use dreamscape.Base.{ℕ, ◌+◌, ◌≡◌, refl, ◌∙◌, false, List, ◌∷◌, Bool, arith, some}
use dreamscape.Base.Int.{ℤ}
use dreamscape.Kernel.{Ptr, EventPtr, Call, Trace, Kernel}
use dreamscape.Kernel.Counts.{
  count, creates, releases, releases_junk, allocates, frees, gets_task, puts_task, pins, unpins,
  locks, unlocks, registers, unregisters, makes_entry, removes_entry, Balanced,
}
use dreamscape.CacheKprobeMonitor.{Globals, CounterData}
use dreamscape.CacheKprobeMonitor.Counters.Totals.{held}
use dreamscape.CacheKprobeMonitor.Counters.Update.{Grown}
use dreamscape.CacheKprobeMonitor.Handler.Events.{IsBlind, Opening, Reading}

-- Between two traces everything that was taken was given back, save the blocks of the list.
pub record Settled (l l' : List CounterData) (t t' : Trace) : Type 0 where
  pub events : (p : ℕ) → Balanced (creates p) (releases p) t t'
  pub junk : count releases_junk t' ≡ count releases_junk t
  pub owned :
      (p : Ptr)
      → count (allocates p) t' + count (frees p) t + held p l
        ≡ count (allocates p) t + count (frees p) t' + held p l'
  pub tasks : (p : ℕ) → Balanced (gets_task p) (puts_task p) t t'
  pub preemption : Balanced pins unpins t t'
  pub locking : Balanced locks unlocks t t'
  pub kprobe : Balanced registers unregisters t t'
  pub entries : (p : ℕ) → Balanced (makes_entry p) (removes_entry p) t t'

pub Settled-trans :
    {l l' l'' : List CounterData} {t t' t'' : Trace}
    → Settled l l' t t'
    → Settled l' l'' t' t''
    → Settled l l'' t t''
Settled-trans a b = record {
  events = λ p. omega (arith, a.events p, b.events p);
  junk = omega (arith, a.junk, b.junk);
  owned = λ p. omega (arith, a.owned p, b.owned p);
  tasks = λ p. omega (arith, a.tasks p, b.tasks p);
  preemption = omega (arith, a.preemption, b.preemption);
  locking = omega (arith, a.locking, b.locking);
  kprobe = omega (arith, a.kprobe, b.kprobe);
  entries = λ p. omega (arith, a.entries p, b.entries p);
}

-- The trace when the handler has taken the mutex and read the program counter.
abbrev pub entered : Kernel → ℤ → Trace → Trace
entered k pid t =
    let t1 = Call.lock ∷ Call.current (some pid) ∷ t in
    Call.regs_return_value (k.return_value t1) ∷ t1

abbrev pub pc_of : Kernel → ℤ → Trace → ℕ
pc_of k pid t = k.return_value (Call.lock ∷ Call.current (some pid) ∷ t)

module _ (k : Kernel) (pid : ℤ) (g : Globals) (t : Trace) where
  -- A test that sees none of the calls between the lock and the unlock.
  record IsQuiet (test : Call → Bool) : Type 0 where
    blind : IsBlind test
    kmalloc : (size : ℕ) (q : Ptr) → test (Call.kmalloc size q) ≡ false

  module _ {evs : List EventPtr} {values : List ℕ} {l' : List CounterData} {t1 t2 t3 : Trace}
      (o : Opening evs (entered k pid t) t1) (r : Reading evs values t1 t2)
      (u : Grown g.counter_list l' t2 t3) where
    after_loops : (test : Call → Bool) → IsBlind test → count test t2 ≡ count test (entered k pid t)
    after_loops test b = r.others test b ∙ o.others test b

    after_all : (test : Call → Bool) → IsQuiet test → count test t3 ≡ count test (entered k pid t)
    after_all test q = u.others test q.kmalloc ∙ after_loops test q.blind

    pub Settled-recorded : Settled g.counter_list l' t (Call.unlock ∷ t3)
    Settled-recorded = record {
      events = λ p. omega (
        arith,
        o.creates p,
        o.releases p,
        r.creates p,
        r.releases p,
        u.others (creates p) (λ n q. refl),
        u.others (releases p) (λ n q. refl),
      );
      junk = omega (arith, o.junk, r.junk, u.others releases_junk (λ n q. refl));
      owned = λ p. omega (
        arith,
        u.owned p,
        after_loops (allocates p) (ground arith),
        after_all (frees p) (ground arith),
      );
      tasks = λ p.
          omega
            (arith, after_all (gets_task p) (ground arith), after_all (puts_task p) (ground arith));
      preemption = omega (arith, after_all pins (ground arith), after_all unpins (ground arith));
      locking = omega (arith, after_all locks (ground arith), after_all unlocks (ground arith));
      kprobe =
          omega (arith, after_all registers (ground arith), after_all unregisters (ground arith));
      entries = λ p. omega (
        arith,
        after_all (makes_entry p) (ground arith),
        after_all (removes_entry p) (ground arith),
      );
    }
