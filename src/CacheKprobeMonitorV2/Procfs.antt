-- ===== src/CacheKprobeMonitorV2/Procfs.antt =====
-- The kprobe handler and the handlers of the /proc entries of cache_kprobe_monitor_v2.c.
pub mod Message
pub mod PidWrite
use dreamscape.Base.{
  ℕ, ◌∷◌, ◌++◌, [], List, length, none, some, codes, ◌==◌, ltb, leb, take, if◌then◌else◌,
}
use dreamscape.Base.Int.{ℤ, pos, neg, eq_ℤ}
use dreamscape.Base.CString.{c_string}
use dreamscape.Message.{write_greeting}
use dreamscape.Kernel.{
  Call, Kernel, Cmd, ReadReply, out_of_bounds, pure, ◌>>=◌, ◌>>◌, emit, ask, gets, modify, fail,
}
use dreamscape.CacheKprobeMonitorV2.{Globals}
use dreamscape.CacheKprobeMonitorV2.Monitoring.{start_monitoring}

abbrev pub einval : ℕ
einval = 22

abbrev pub efault : ℕ
efault = 14

module _ (k : Kernel) where
  pub hello_switch : Cmd Globals ℤ
  hello_switch = do
    next_task ← ask k.current_pid Call.current
    target_pid ← gets (λ g. g.target_pid)
    elim next_task [
      | none ↦ pure (pos 0)
      | some pid ↦
          if eq_ℤ pid target_pid
          then (do
            emit Call.lock
            modify (λ g. record g { message_buffer = write_greeting g.message_buffer g.target_pid })
            emit Call.unlock
            pure (pos 0))
          else pure (pos 0)
    ]

  -- Writes of `n` bytes, and at index `n`, into `char str[12]`.
  abbrev pub str_room : ℕ → Cmd Globals (Unit {0})
  str_room n = if leb n 12 then pure tt else fail out_of_bounds

  abbrev pub str_index : ℕ → Cmd Globals (Unit {0})
  str_index n = if ltb n 12 then pure tt else fail out_of_bounds

  -- `buffer` is what the writer passed; `count` is the length that it stated.
  pub pid_write : (buffer : List ℕ) (count : ℕ) → Cmd Globals ℤ
  pid_write buffer count = if leb 12 count then pure (neg einval) else do
    str_room count
    left ← ask (λ t. k.copy_reply t count) (λ r. Call.copy_from_user count r)
    if left == 0
        then (do
          str_index count
          elim (k.kstrtoint (c_string (take count buffer ++ 0 ∷ []))) [
            | none ↦ pure (neg einval)
            | some pid ↦ (do
              modify (λ g. record g { target_pid = pid })
              target_pid ← gets (λ g. g.target_pid)
              start_monitoring k target_pid
              pure (pos count))
          ])
        else pure (neg efault)

  pub message_read : (count ppos : ℕ) → Cmd Globals ReadReply
  message_read count ppos = do
    emit Call.lock
    buf ← gets (λ g. g.message_buffer)
    len ←
        ask (λ t. k.simple_read_reply t count ppos buf (length (c_string buf)))
          (λ r. Call.simple_read count r.ret)
    emit Call.unlock
    pure len
