-- ===== src/KprobeTest.antt =====
-- test_module/kprobe_test.c: the module that greets on each context switch to a pid.
pub mod Handlers
pub mod Load
mod Tests
use dreamscape.Base.{
  ℕ, List, [], ◌∷◌, ◌++◌, length, some, none, codes, replicate, take, leb, ltb, ◌==◌, if◌then◌else◌,
}
use dreamscape.Base.Int.{ℤ, pos, neg, eq_ℤ, is_neg}
use dreamscape.Base.CString.{c_string}
use dreamscape.Kernel.{
  Ptr, null, Trace, Sys, Call, Kernel, Cmd, ReadReply, out_of_bounds, pure, ◌>>=◌, ◌>>◌, emit, ask,
  gets, modify, fail,
}
use dreamscape.Message.{write_greeting}

pub record Globals : Type 0 where
  pub target_pid : ℤ
  pub proc_entry_pid : Ptr
  pub proc_entry_message : Ptr
  pub message_buffer : List ℕ

abbrev pub State : Type 0
State = Sys Globals

abbrev pub st : Globals → Trace → State
st g t = record { globals = g; trace = t }

unfoldable pub initial_globals : Globals
initial_globals = record {
  target_pid = neg 1;
  proc_entry_pid = null;
  proc_entry_message = null;
  message_buffer = replicate 512 0;
}

module _ (k : Kernel) where
  pub hello_switch : Cmd Globals ℤ
  hello_switch = do
    next_task ← ask k.current_pid Call.current
    target_pid ← gets (λ g. g.target_pid)
    elim next_task [
      | none ↦ pure (pos 0)
      | some pid ↦
          if eq_ℤ pid target_pid
          then (do
            emit Call.lock
            modify (λ g. record g { message_buffer = write_greeting g.message_buffer g.target_pid })
            emit Call.unlock
            pure (pos 0))
          else pure (pos 0)
    ]

  -- `buffer` is what the writer passed; `count` is the length that it stated. `str` has 12 bytes.
  pub pid_write : (buffer : List ℕ) (count : ℕ) → Cmd Globals ℤ
  pid_write buffer count = if leb 12 count then pure (neg 22) else do
    (if leb count 12 then pure tt else fail out_of_bounds)
    left ← ask (λ t. k.copy_reply t count) (λ r. Call.copy_from_user count r)
    if left == 0
        then (do
          (if ltb count 12 then pure tt else fail out_of_bounds)
          elim (k.kstrtoint (c_string (take count buffer ++ 0 ∷ []))) [
            | none ↦ pure (neg 22)
            | some pid ↦ (do modify (λ g. record g { target_pid = pid }); pure (pos count))
          ])
        else pure (neg 14)

  pub message_read : (count ppos : ℕ) → Cmd Globals ReadReply
  message_read count ppos = do
    emit Call.lock
    buf ← gets (λ g. g.message_buffer)
    len ←
        ask (λ t. k.simple_read_reply t count ppos buf (length (c_string buf)))
          (λ r. Call.simple_read count r.ret)
    emit Call.unlock
    pure len

  abbrev pub make_entry : List ℕ → ℕ → Cmd Globals Ptr
  make_entry name mode = ask (λ t. k.proc_reply t name) (λ r. Call.proc_create name mode r)

  pub hello_switch_init : Cmd Globals ℤ
  hello_switch_init = do
    ret ← ask k.register_reply Call.register_kprobe
    if is_neg ret then pure ret else do
      pid_entry ← make_entry (codes "hello_switch_pid") 0o200
      modify (λ g. record g { proc_entry_pid = pid_entry })
      if pid_entry == 0 then (do emit Call.unregister_kprobe; pure (neg 12)) else do
        message_entry ← make_entry (codes "hello_switch_message") 0o400
        modify (λ g. record g { proc_entry_message = message_entry })
        if message_entry == 0
            then (do
              emit Call.unregister_kprobe
              e ← gets (λ g. g.proc_entry_message)
              emit (Call.proc_remove e)
              pure (neg 12))
            else pure (pos 0)

pub hello_switch_exit : Cmd Globals (Unit {0})
hello_switch_exit = do
  message_entry ← gets (λ g. g.proc_entry_message)
  emit (Call.proc_remove message_entry)
  pid_entry ← gets (λ g. g.proc_entry_pid)
  emit (Call.proc_remove pid_entry)
  emit Call.unregister_kprobe
