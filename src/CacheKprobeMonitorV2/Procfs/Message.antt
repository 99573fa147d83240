-- ===== src/CacheKprobeMonitorV2/Procfs/Message.antt =====
-- `hello_switch` and `message_read`: what the message buffer holds, and what a reader gets.
use dreamscape.Base.{
  ℕ, ◌≡◌, ◌≢◌, refl, ◌∙◌, ap, inl, inr, ◌⊎◌, ◌∷◌, arith, take, drop, none, some, Option,
  Option-cases, Bool-cases,
}
use dreamscape.Base.Int.{ℤ, pos, eq_ℤ, eq_ℤ_iff, eq_ℤ_refl, eq_ℤ_ne}
use dreamscape.Base.CString.{c_string}
use dreamscape.Kernel.{Call, Trace, Kernel, ok, Ends, ◌>>=◌}
use dreamscape.Kernel.Counts.{Leakless}
use dreamscape.Message.{
  greeting, write_greeting, IsMessage, write_greeting-text, write_greeting-IsMessage, SimpleRead,
  c_string-take,
}
use dreamscape.CacheKprobeMonitorV2.{Globals, st}
use dreamscape.CacheKprobeMonitorV2.Procfs.{hello_switch, message_read}

abbrev pub with_message : Globals → Globals
with_message g = record g { message_buffer = write_greeting g.message_buffer g.target_pid }

module _ (k : Kernel) (g : Globals) (t : Trace) where
  -- The handler answers 0 whatever runs next. It writes the greeting, under the lock, if the task
  -- that runs next is the target.
  pub hello_switch-target :
      k.current_pid t ≡ some g.target_pid
      → hello_switch k (st g t)
        ≡ ok
            (pos 0)
            (st (with_message g) (Call.unlock ∷ Call.lock ∷ Call.current (some g.target_pid) ∷ t))
  unfolding hello_switch
  hello_switch-target h = rw h (rw (eq_ℤ_refl g.target_pid) refl)

  pub hello_switch-other :
      (k.current_pid t ≢ some g.target_pid)
      → hello_switch k (st g t) ≡ ok (pos 0) (st g (Call.current (k.current_pid t) ∷ t))
  unfolding hello_switch
  hello_switch-other h = elim (Option-cases (k.current_pid t)) [
    | inl e ↦ rw e refl
    | inr (pid, e) ↦ rw e (rw (eq_ℤ_ne pid g.target_pid (λ q. h (e ∙ ap some q))) refl)
  ]

  switched :
      (next : Option ℤ)
      → k.current_pid t ≡ next
      → next ≡ some g.target_pid ⊎ next ≢ some g.target_pid
  switched none e = inr (λ q. cc)
  switched (some pid) e = elim (Bool-cases (eq_ℤ pid g.target_pid)) [
    | inl y ↦ inl (ap some ((eq_ℤ_iff pid g.target_pid).0 y))
    | inr n ↦ inr (λ q. ground (arith, eq_ℤ_refl g.target_pid))
  ]

  -- At every context switch the message stays empty or one whole greeting that fits its buffer, and
  -- the lock is free again.
  pub hello_switch-IsMessage :
      IsMessage g.message_buffer
      → Ends
          (hello_switch k (st g t))
          (λ r s. IsMessage s.globals.message_buffer × Leakless t s.trace)
  hello_switch-IsMessage m = elim (switched (k.current_pid t) refl) [
    | inl y ↦ (
      _,
      _,
      hello_switch-target y,
      (write_greeting-IsMessage g.message_buffer g.target_pid m, ground arith),
    )
    | inr n ↦ (_, _, hello_switch-other n, (m, ground arith))
  ]

module _ (k : Kernel) (g : Globals) (t : Trace) (reads : SimpleRead k) where
  -- A reader gets, from any position, the text of the buffer and nothing behind its terminator.
  pub message_read-text :
      (count ppos : ℕ)
      → Ends (message_read k count ppos (st g t)) (λ r s.
        (r.delivered ≡ take count (drop ppos (c_string g.message_buffer))) × Leakless t s.trace)
  unfolding message_read
  message_read-text count ppos = (
    _,
    _,
    refl,
    (
      reads _ count ppos _ g.message_buffer ∙ rw (c_string-take g.message_buffer) refl,
      ground arith,
    ),
  )

  -- A read after the target was switched to delivers the greeting with the pid of the target, from
  -- the reader's position on, if `simple_read_from_buffer` does as it is documented.
  pub message_read-hello_switch :
      (count ppos : ℕ)
      → k.current_pid t ≡ some g.target_pid
      → Ends
          ((hello_switch k >>= λ _. message_read k count ppos) (st g t))
          (λ r s. r.delivered ≡ take count (drop ppos (greeting g.target_pid)))
  unfolding message_read
  message_read-hello_switch count ppos h =
      rw (hello_switch-target k g t h, ◌>>=◌)
        (
          _,
          _,
          refl,
          reads _ count ppos _ (with_message g).message_buffer
              ∙ rw (c_string-take (with_message g).message_buffer) (
                  ap (λ s. take count (drop ppos s))
                    (write_greeting-text g.message_buffer g.target_pid)),
        )
