-- ===== src/KprobeTest/Handlers.antt =====
-- The handlers of kprobe_test.c, as a user of the module meets them.
use dreamscape.Base.{
  ℕ, ◌≡◌, refl, ◌∙◌, ap, inl, inr, true, List, [], ◌∷◌, ◌++◌, arith, take, drop, none, some, Option,
  Option-cases, Bool-cases, if◌then◌else◌, leb, ltb, ==_ne, ==_cases, ◌==◌,
}
use dreamscape.Base.Int.{ℤ, pos, neg, eq_ℤ, eq_ℤ_refl}
use dreamscape.Base.CString.{c_string}
use dreamscape.Kernel.{Trace, Kernel, Ends, ◌>>=◌}
use dreamscape.Kernel.Counts.{Leakless}
use dreamscape.Message.{greeting, write_greeting, write_greeting-text, SimpleRead, c_string-take}
use dreamscape.KprobeTest.{Globals, st, hello_switch, pid_write, message_read}

-- The globals after a context switch to `next`.
pub after_switch : Option ℤ → Globals → Globals
after_switch none g = g
after_switch (some pid) g =
    if eq_ℤ pid g.target_pid
    then record g { message_buffer = write_greeting g.message_buffer g.target_pid }
    else g

-- A write to the pid entry: what it returns, and the target that it leaves.
pub written_target : Kernel → Trace → List ℕ → ℕ → ℤ → ℤ × ℤ
written_target k t buffer count target =
    if leb 12 count
    then (neg 22, target)
    else if k.copy_reply t count == 0
    then (elim (k.kstrtoint (c_string (take count buffer ++ 0 ∷ []))) [
      | none ↦ (neg 22, target)
      | some pid ↦ (pos count, pid)
    ])
    else (neg 14, target)

module _ (k : Kernel) (g : Globals) (t : Trace) where
  -- Whatever Linux answers, the handler returns 0, leaves the globals of `after_switch`, and leaves
  -- the lock free.
  pub hello_switch-after_switch :
      Ends
        (hello_switch k (st g t))
        (λ r s. (r ≡ pos 0) × (s.globals ≡ after_switch (k.current_pid t) g) × Leakless t s.trace)
  unfolding hello_switch after_switch
  hello_switch-after_switch = elim (Option-cases (k.current_pid t)) [
    | inl e ↦ rw e (_, _, refl, (refl, refl, ground arith))
    | inr (pid, e) ↦ elim (Bool-cases (eq_ℤ pid g.target_pid)) [
      | inl y ↦ rw e (rw y (_, _, refl, (refl, refl, ground arith)))
      | inr n ↦ rw e (rw n (_, _, refl, (refl, refl, ground arith)))
    ]
  ]

  -- A write to the pid entry never leaves `str`. Its result and the target that it leaves are those
  -- of the four cases; all else is as before.
  pub pid_write-written_target :
      (buffer : List ℕ) (count : ℕ)
      → Ends (pid_write k buffer count (st g t)) (λ r s.
        ((r, s.globals.target_pid) ≡ written_target k t buffer count g.target_pid)
        × (s.globals ≡ record g { target_pid = s.globals.target_pid })
        × Leakless t s.trace)
  unfolding pid_write written_target
  pid_write-written_target buffer count = elim (Bool-cases (leb 12 count)) [
    | inl long ↦ rw long (_, _, refl, (refl, refl, ground arith))
    | inr short ↦
        let room : leb count 12 ≡ true = ground arith in
        let index : ltb count 12 ≡ true = ground arith in
        elim (==_cases (k.copy_reply t count) 0) [
          | inr ne ↦ rw short (
              rw room
                (rw (==_ne (k.copy_reply t count) 0 ne) (_, _, refl, (refl, refl, ground arith))))
          | inl e ↦ elim (Option-cases (k.kstrtoint (c_string (take count buffer ++ 0 ∷ [])))) [
            | inl bad ↦
                rw short
                  (rw room (rw e (rw index (rw bad (_, _, refl, (refl, refl, ground arith))))))
            | inr (pid, is) ↦
                rw short
                  (rw room (rw e (rw index (rw is (_, _, refl, (refl, refl, ground arith))))))
          ]
        ]
  ]

module _ (k : Kernel) (g : Globals) (t : Trace) (reads : SimpleRead k) where
  -- A read after a context switch delivers, from the reader's position on, the greeting to the
  -- target where it was the target that runs next, and the text that was there where it was not.
  pub message_read-hello_switch :
      (count ppos : ℕ)
      → Ends ((hello_switch k >>= λ _. message_read k count ppos) (st g t)) (λ r s.
        r.delivered
        ≡ take count (drop ppos (c_string (after_switch (k.current_pid t) g).message_buffer)))
  unfolding message_read
  message_read-hello_switch count ppos =
      let (r, s, run, (_, same, _)) = hello_switch-after_switch k g t in
      rw (run, ◌>>=◌)
        (
          _,
          _,
          refl,
          reads _ count ppos _ s.globals.message_buffer
              ∙ rw (c_string-take s.globals.message_buffer)
                  (ap (λ h. take count (drop ppos (c_string h.message_buffer))) same),
        )

  -- Where the target runs next, a read after the context switch delivers, from the reader's position
  -- on, the greeting with the target's pid. `simple_read_from_buffer` does as it is documented.
  pub message_read-greeting :
      (count ppos : ℕ)
      → k.current_pid t ≡ some g.target_pid
      → Ends
          ((hello_switch k >>= λ _. message_read k count ppos) (st g t))
          (λ r s. r.delivered ≡ take count (drop ppos (greeting g.target_pid)))
  unfolding after_switch
  message_read-greeting count ppos h =
      let (r, s, run, is) = message_read-hello_switch count ppos in
      (
        r,
        s,
        run,
        is
            ∙ rw h (
                rw (eq_ℤ_refl g.target_pid) (
                  ap (λ x. take count (drop ppos x))
                    (write_greeting-text g.message_buffer g.target_pid))),
      )
