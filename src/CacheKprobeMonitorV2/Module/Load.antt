-- ===== src/CacheKprobeMonitorV2/Module/Load.antt =====
-- `cache_kprobe_monitor_v2_init` on each of its four ways out.
use dreamscape.Base.{
  ℕ, ◌+◌, ◌≡◌, ◌≢◌, refl, inl, inr, true, false, List, ◌∷◌, arith, codes, ==_ne, ==_cases, ==_refl,
  Bool-cases,
}
use dreamscape.Base.Int.{ℤ, pos, neg, is_neg}
use dreamscape.Kernel.{Ptr, null, Call, Trace, Kernel, ok, Ends}
use dreamscape.Kernel.Counts.{count, registers, unregisters, makes_entry, removes_entry, Balanced}
use dreamscape.CacheKprobeMonitorV2.{Globals, State, st}
use dreamscape.CacheKprobeMonitorV2.Module.{enomem, cache_kprobe_monitor_v2_init}

abbrev pub pid_name : List ℕ
pid_name = codes "cache_kmv2_pid"

abbrev pub message_name : List ℕ
message_name = codes "cache_kmv2_message"

abbrev pub probed : ℤ → Trace → Trace
probed r t = Call.register_kprobe r ∷ Call.set_console_loglevel 8 ∷ t

abbrev pub one_entry : ℤ → Ptr → Trace → Trace
one_entry r e t = Call.proc_create pid_name 0o200 e ∷ probed r t

abbrev pub two_entries : ℤ → Ptr → Ptr → Trace → Trace
two_entries r e m t = Call.proc_create message_name 0o400 m ∷ one_entry r e t

abbrev pub with_entries : Globals → Ptr → Ptr → Globals
with_entries g e m = record g { proc_entry_pid = e; proc_entry_message = m }

pub data Loaded (g : Globals) (t : Trace) : ℤ → State → Type 0 where
  no_kprobe : (r : ℤ) → is_neg r ≡ true → Loaded g t r (st g (probed r t))
  no_pid_entry :
      (r : ℤ)
      → is_neg r ≡ false
      → Loaded g t (neg enomem) (
          st
            (record g { proc_entry_pid = null })
            (Call.proc_remove null ∷ Call.unregister_kprobe ∷ one_entry r null t))
  no_message_entry :
      (r : ℤ) (e : Ptr)
      → is_neg r ≡ false
      → e ≢ null
      → Loaded g t (neg enomem) (
          st
            (with_entries g e null)
            (Call.proc_remove null ∷ Call.unregister_kprobe ∷ two_entries r e null t))
  loaded :
      (r : ℤ) (e m : Ptr)
      → is_neg r ≡ false
      → e ≢ null
      → m ≢ null
      → Loaded g t (pos 0) (st (with_entries g e m) (two_entries r e m t))

module _ (k : Kernel) (g : Globals) (t : Trace) where
  abbrev pub probe : ℤ
  probe = k.register_reply (Call.set_console_loglevel 8 ∷ t)

  abbrev pub entry : Ptr
  entry = k.proc_reply (probed probe t) pid_name

  abbrev pub message : Ptr
  message = k.proc_reply (one_entry probe entry t) message_name

  pub init-Loaded : Ends (cache_kprobe_monitor_v2_init k (st g t)) (λ r s. Loaded g t r s)
  unfolding cache_kprobe_monitor_v2_init
  init-Loaded = elim (Bool-cases (is_neg probe)) [
    | inl bad ↦ rw bad (_, _, refl, no_kprobe _ bad)
    | inr good ↦ elim (==_cases entry null) [
      | inl e ↦ rw good (rw e (_, _, refl, no_pid_entry _ good))
      | inr live ↦ elim (==_cases message null) [
        | inl e ↦
            rw good (rw (==_ne entry null live) (rw e (_, _, refl, no_message_entry _ _ good live)))
        | inr there ↦ rw good (
            rw (==_ne entry null live)
              (rw (==_ne message null there) (_, _, refl, loaded _ _ _ good live there)))
      ]
    ]
  ]

module _ (k : Kernel) (g : Globals) (t : Trace) where
  -- Where Linux makes the first entry of /proc and refuses the second, loading fails, and the first
  -- entry stays: what is removed is the second, which is NULL.
  pub init_leaks_entry :
      is_neg (probe k g t) ≡ false
      → entry k g t ≢ null
      → message k g t ≡ null
      → Ends (cache_kprobe_monitor_v2_init k (st g t)) (λ r s.
        (r ≡ neg enomem)
        × Balanced registers unregisters t s.trace
        × (count (makes_entry (entry k g t)) s.trace ≡ count (makes_entry (entry k g t)) t + 1)
        × (count (removes_entry (entry k g t)) s.trace ≡ count (removes_entry (entry k g t)) t))
  unfolding cache_kprobe_monitor_v2_init
  init_leaks_entry good live e = rw good (
      rw (==_ne (entry k g t) null live) (
        rw e (
          _,
          _,
          refl,
          (
            refl,
            ground arith,
            ground (arith, ==_refl (entry k g t), ==_ne (entry k g t) null live),
            omega arith,
          ),
        )))

  pub init_ok :
      is_neg (probe k g t) ≡ false
      → entry k g t ≢ null
      → message k g t ≢ null
      → cache_kprobe_monitor_v2_init k (st g t)
        ≡ ok (pos 0) (
            st
              (with_entries g (entry k g t) (message k g t))
              (two_entries (probe k g t) (entry k g t) (message k g t) t))
  unfolding cache_kprobe_monitor_v2_init
  init_ok good live there =
      rw good (rw (==_ne (entry k g t) null live) (rw (==_ne (message k g t) null there) refl))
