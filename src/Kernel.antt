-- ===== src/Kernel.antt =====
-- The boundary between the kernel modules and Linux. Nothing of Linux is modelled: `Kernel` is
-- what it answers, as functions of the calls made so far, and every call that a module makes is
-- entered in the trace, the newest first. A module's state is its globals and this trace.
pub mod Counts
pub mod Sample
use dreamscape.Base.{ℕ, ◌≡◌, refl, ◌⊎◌, inl, inr, arith, Bool, List, ◌∷◌, Option}
use dreamscape.Base.Int.{ℤ}

-- A pointer that Linux returns; 0 is NULL.
abbrev pub Ptr : Type 0
Ptr = ℕ

abbrev pub null : Ptr
null = 0

-- What a function returns that answers by a pointer or by ERR_PTR(-errno).
pub data ErrPtr : Type 0 where
  ptr : ℕ → ErrPtr
  err_ptr : ℕ → ErrPtr

pub data PerfType : Type 0 where
  hardware raw : PerfType

-- The fields of `struct perf_event_attr` that the program sets; the others are zeroed.
pub record PerfEventAttr : Type 0 where
  pub kind : PerfType
  pub size : ℕ
  pub config : ℕ
  pub disabled : Bool
  pub exclude_kernel : Bool
  pub exclude_hv : Bool
  pub exclude_idle : Bool

-- A slot for a `struct perf_event *`.
pub data EventPtr : Type 0 where
  no_event : EventPtr
  event : ℕ → EventPtr
  bad_event : ℕ → EventPtr

abbrev pub slot_of : ErrPtr → EventPtr
slot_of (ptr p) = event p
slot_of (err_ptr e) = bad_event e

pub data Call : Type 0 where
  kzalloc kmalloc : (size : ℕ) → Ptr → Call
  kfree : Ptr → Call
  get_cpu : ℕ → Call
  put_cpu : Call
  perf_event_create : PerfEventAttr → (cpu : ℤ) → ErrPtr → Call
  perf_event_release : EventPtr → Call
  perf_event_read : EventPtr → (value : ℕ) → Call
  pid_task : (pid : ℤ) → Ptr → Call
  pid_alive : Ptr → Bool → Call
  task_pt_regs : Ptr → (pc : ℕ) → Call
  get_task_struct put_task_struct : Ptr → Call
  hrtimer_init : Call
  hrtimer_start hrtimer_forward : (interval : ℕ) → Call
  hrtimer_cancel : Call
  current : Option ℤ → Call
  regs_return_value : ℕ → Call
  lock unlock : Call
  register_kprobe : ℤ → Call
  unregister_kprobe : Call
  proc_create : (name : List ℕ) → (mode : ℕ) → Ptr → Call
  proc_remove : Ptr → Call
  remove_proc_entry : (name : List ℕ) → Call
  copy_from_user : (count left : ℕ) → Call
  simple_read : (count : ℕ) → ℤ → Call
  filp_open : (name : List ℕ) → ErrPtr → Call
  file_write : (bytes : List ℕ) → Call
  kernel_write : (bytes : List ℕ) → (taken : ℤ) → Call
  filp_close : Call
  report : (code value delta : ℕ) → Call
  set_console_loglevel : ℕ → Call

abbrev pub Trace : Type 0
Trace = List Call

-- What `simple_read_from_buffer` does: its result, the new position and the bytes delivered.
pub record ReadReply : Type 0 where
  pub ret : ℤ
  pub pos : ℕ
  pub delivered : List ℕ

pub record Kernel : Type 0 where
  pub sizeof_perf_event_attr : ℕ
  pub ktime_set : (secs nsecs : ℕ) → ℕ
  pub kstrtoint : List ℕ → Option ℤ
  pub kzalloc_reply : Trace → ℕ → Ptr
  pub kmalloc_reply : Trace → ℕ → Ptr
  pub cpu : Trace → ℕ
  pub create_reply : Trace → PerfEventAttr → ℤ → ErrPtr
  pub read_reply : Trace → EventPtr → ℕ
  pub task_of_pid : Trace → ℤ → Ptr
  pub alive : Trace → Ptr → Bool
  pub task_pc : Trace → Ptr → ℕ
  pub current_pid : Trace → Option ℤ
  pub return_value : Trace → ℕ
  pub register_reply : Trace → ℤ
  pub proc_reply : Trace → List ℕ → Ptr
  pub copy_reply : Trace → ℕ → ℕ
  pub simple_read_reply : Trace → (count pos : ℕ) → (from : List ℕ) → (available : ℕ) → ReadReply
  pub open_reply : Trace → List ℕ → ErrPtr
  pub has_write : Trace → Bool
  pub kernel_write_reply : Trace → (bytes : List ℕ) → ℤ

-- What ends a run for good: a kernel oops, or a lock that its owner takes again.
pub data Fault : Type 0 where
  null_deref use_after_free out_of_bounds deadlock : Fault

pub record Sys (G : Type 0) : Type 0 where
  pub globals : G
  pub trace : Trace

pub data Run (G A : Type 0) : Type 0 where
  ok : A → Sys G → Run G A
  fault : Fault → Sys G → Run G A

abbrev pub Cmd : Type 0 → Type 0 → Type 0
Cmd G A = Sys G → Run G A

module _ {G : Type 0} where
  abbrev pub pure : {A : Type 0} → A → Cmd G A
  pure a s = ok a s

  infixl 5 ◌>>=◌ ◌>>◌
  abbrev pub ◌>>=◌ : {A B : Type 0} → Cmd G A → (A → Cmd G B) → Cmd G B
  ◌>>=◌ m f s = elim (m s) [ ok a s' ↦ f a s' | fault e s' ↦ fault e s' ]

  abbrev pub ◌>>◌ : {B : Type 0} → Cmd G (Unit {0}) → Cmd G B → Cmd G B
  m >> k = m >>= λ _. k

  abbrev pub fail : {A : Type 0} → Fault → Cmd G A
  fail e s = fault e s

  -- A call without a result, and one whose result Linux chooses.
  abbrev pub emit : Call → Cmd G (Unit {0})
  emit c s = ok tt (record s { trace = c ∷ s.trace })

  abbrev pub ask : {A : Type 0} → (Trace → A) → (A → Call) → Cmd G A
  ask reply call s = ok (reply s.trace) (record s { trace = call (reply s.trace) ∷ s.trace })

  abbrev pub gets : {A : Type 0} → (G → A) → Cmd G A
  gets f s = ok (f s.globals) s

  abbrev pub modify : (G → G) → Cmd G (Unit {0})
  modify f s = ok tt (record s { globals = f s.globals })

-- A run that ends, without a fault, in a state and a result with a property.
abbrev pub Ends : {G A : Type 0} → Run G A → (A → Sys G → Type 0) → Type 0
Ends {G} {A} r P = (a : A) × (s : Sys G) × (r ≡ ok a s) × P a s

-- To split on a reply and keep the equation.
pub ErrPtr-cases : (r : ErrPtr) → ((p : ℕ) × (r ≡ ptr p)) ⊎ ((e : ℕ) × (r ≡ err_ptr e))
ErrPtr-cases (ptr p) = inl (p, refl)
ErrPtr-cases (err_ptr e) = inr (e, refl)

-- A run of two commands, with one more behind them.
pub >>-assoc :
    {G B : Type 0} (m n : Cmd G (Unit {0})) (r : Cmd G B) (s s' : Sys G)
    → (m >> n) s ≡ ok tt s'
    → (m >> (n >> r)) s ≡ r s'
>>-assoc m n r s s' h = ground arith
