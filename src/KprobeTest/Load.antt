-- ===== src/KprobeTest/Load.antt =====
-- Loading and unloading of kprobe_test.c.
use dreamscape.Base.{
  ◌≡◌, ◌≢◌, refl, inl, inr, true, false, ◌∷◌, arith, codes, ==_ne, ==_cases, Bool-cases,
}
use dreamscape.Base.Int.{ℤ, pos, is_neg}
use dreamscape.Kernel.{Ptr, null, Call, Trace, Kernel, ok, Ends, ◌>>=◌}
use dreamscape.Kernel.Counts.{Leakless}
use dreamscape.KprobeTest.{Globals, st, hello_switch_init, hello_switch_exit}

module _ (k : Kernel) (g : Globals) (t : Trace) where
  abbrev pub probe : ℤ
  probe = k.register_reply t

  abbrev pub probed : Trace
  probed = Call.register_kprobe probe ∷ t

  abbrev pub entry : Ptr
  entry = k.proc_reply probed (codes "hello_switch_pid")

  abbrev pub one_entry : Trace
  one_entry = Call.proc_create (codes "hello_switch_pid") 0o200 entry ∷ probed

  abbrev pub message : Ptr
  message = k.proc_reply one_entry (codes "hello_switch_message")

  -- Loading fails without a trace: unless it is the second entry of /proc that Linux refuses, all
  -- that was taken has been given back where `hello_switch_init` returns an error.
  pub hello_switch_init-Leakless :
      message ≢ null
      → Ends (hello_switch_init k (st g t)) (λ r s. is_neg r ≡ true → Leakless t s.trace)
  unfolding hello_switch_init
  hello_switch_init-Leakless there = elim (Bool-cases (is_neg probe)) [
    | inl bad ↦ rw bad (_, _, refl, λ _. ground (arith, bad))
    | inr good ↦ elim (==_cases entry null) [
      | inl e ↦ rw good (rw e (_, _, refl, λ _. ground (arith, good)))
      | inr live ↦ rw good (
          rw (==_ne entry null live)
            (rw (==_ne message null there) (_, _, refl, λ is. ground (arith, is))))
    ]
  ]

  init_ok :
      is_neg probe ≡ false
      → entry ≢ null
      → message ≢ null
      → hello_switch_init k (st g t)
        ≡ ok (pos 0) (
            st
              (record g { proc_entry_pid = entry; proc_entry_message = message })
              (Call.proc_create (codes "hello_switch_message") 0o400 message ∷ one_entry))
  unfolding hello_switch_init
  init_ok good live there =
      rw good (rw (==_ne entry null live) (rw (==_ne message null there) refl))

  -- Where loading succeeds, unloading gives back the kprobe and both entries of /proc.
  pub hello_switch_exit-hello_switch_init :
      is_neg probe ≡ false
      → entry ≢ null
      → message ≢ null
      → Ends ((hello_switch_init k >>= λ r. hello_switch_exit) (st g t)) (λ _ s. Leakless t s.trace)
  unfolding hello_switch_exit
  hello_switch_exit-hello_switch_init good live there =
      rw (init_ok good live there, ◌>>=◌) (_, _, refl, ground (arith, good))
