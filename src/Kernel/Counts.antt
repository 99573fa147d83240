-- ===== src/Kernel/Counts.antt =====
-- Resources, read off the trace: how often something was taken, and how often it was given back.
use dreamscape.Base.{ℕ, ◌+◌, ◌≡◌, Bool, true, false, [], ◌∷◌, ◌==◌, if◌then◌else◌, not}
use dreamscape.Base.Int.{is_neg}
use native.Mathlib.Omega.{arith}
use dreamscape.Kernel.{Ptr, ErrPtr, ptr, err_ptr, EventPtr, no_event, event, bad_event, Call, Trace}

abbrev pub count : (Call → Bool) → Trace → ℕ
count test [] = 0
count test (c ∷ t) = (if test c then 1 else 0) + count test t

abbrev pub is_ptr : ℕ → ErrPtr → Bool
is_ptr p (ptr q) = q == p
is_ptr p (err_ptr e) = false

abbrev pub is_event : ℕ → EventPtr → Bool
is_event p no_event = false
is_event p (event q) = q == p
is_event p (bad_event e) = false

-- Perf events.
abbrev pub creates : ℕ → Call → Bool
creates p (Call.perf_event_create attr cpu r) = is_ptr p r
creates p _ = false

abbrev pub releases : ℕ → Call → Bool
releases p (Call.perf_event_release e) = is_event p e
releases p _ = false

-- A release of what is no event: NULL or an error pointer.
abbrev pub releases_junk : Call → Bool
releases_junk (Call.perf_event_release no_event) = true
releases_junk (Call.perf_event_release (bad_event e)) = true
releases_junk _ = false

-- Memory. An allocation that failed took nothing.
abbrev pub allocates : Ptr → Call → Bool
allocates p (Call.kzalloc size q) = if q == 0 then false else (q == p)
allocates p (Call.kmalloc size q) = if q == 0 then false else (q == p)
allocates p _ = false

abbrev pub frees : Ptr → Call → Bool
frees p (Call.kfree q) = q == p
frees p _ = false

-- References to a task.
abbrev pub gets_task : Ptr → Call → Bool
gets_task p (Call.get_task_struct q) = q == p
gets_task p _ = false

abbrev pub puts_task : Ptr → Call → Bool
puts_task p (Call.put_task_struct q) = q == p
puts_task p _ = false

-- Preemption: `get_cpu` turns it off, `put_cpu` on again.
abbrev pub pins : Call → Bool
pins (Call.get_cpu n) = true
pins _ = false

abbrev pub unpins : Call → Bool
unpins Call.put_cpu = true
unpins _ = false

abbrev pub locks : Call → Bool
locks Call.lock = true
locks _ = false

abbrev pub unlocks : Call → Bool
unlocks Call.unlock = true
unlocks _ = false

-- The kprobe and the entries of /proc.
abbrev pub registers : Call → Bool
registers (Call.register_kprobe r) = not (is_neg r)
registers _ = false

abbrev pub unregisters : Call → Bool
unregisters Call.unregister_kprobe = true
unregisters _ = false

abbrev pub makes_entry : Ptr → Call → Bool
makes_entry p (Call.proc_create name mode q) = if q == 0 then false else (q == p)
makes_entry p _ = false

abbrev pub removes_entry : Ptr → Call → Bool
removes_entry p (Call.proc_remove q) = if q == 0 then false else (q == p)
removes_entry p _ = false

-- Between two traces as much was given back as was taken.
abbrev pub Balanced : (takes gives : Call → Bool) → Trace → Trace → Type 0
Balanced takes gives t t' = count takes t' + count gives t ≡ count takes t + count gives t'

-- Between two traces everything that was taken was given back, and nothing else was released.
pub record Leakless (t t' : Trace) : Type 0 where
  pub events : (p : ℕ) → Balanced (creates p) (releases p) t t'
  pub junk : count releases_junk t' ≡ count releases_junk t
  pub memory : (p : ℕ) → Balanced (allocates p) (frees p) t t'
  pub tasks : (p : ℕ) → Balanced (gets_task p) (puts_task p) t t'
  pub preemption : Balanced pins unpins t t'
  pub locking : Balanced locks unlocks t t'
  pub kprobe : Balanced registers unregisters t t'
  pub entries : (p : ℕ) → Balanced (makes_entry p) (removes_entry p) t t'

pub Leakless-refl : (t : Trace) → Leakless t t
Leakless-refl t = ground arith

pub Leakless-trans : {t t' t'' : Trace} → Leakless t t' → Leakless t' t'' → Leakless t t''
Leakless-trans a b = record {
  events = λ p. omega (arith, a.events p, b.events p);
  junk = omega (arith, a.junk, b.junk);
  memory = λ p. omega (arith, a.memory p, b.memory p);
  tasks = λ p. omega (arith, a.tasks p, b.tasks p);
  preemption = omega (arith, a.preemption, b.preemption);
  locking = omega (arith, a.locking, b.locking);
  kprobe = omega (arith, a.kprobe, b.kprobe);
  entries = λ p. omega (arith, a.entries p, b.entries p);
}
