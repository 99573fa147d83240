-- ===== src/Message.antt =====
-- The greeting that cache_kprobe_monitor_v2.c and test_module/kprobe_test.c keep in a buffer of 512
-- bytes for a reader of /proc, and what they rely on in Linux to hand it over.
use dreamscape.Base.{
  ℕ, ◌<◌, ◌≡◌, refl, ◌∙◌, List, [], ◌∷◌, ◌++◌, arith, codes, take, length, length-append, drop, ◌⊎◌,
  inr,
}
use dreamscape.Base.Int.{ℤ}
use dreamscape.Base.Decimal.{
  print_int, print_int-NonZero, NonZero, NonZero-append, length-print_int,
}
use dreamscape.Base.CString.{snprintf, c_string, c_string-snprintf, length-snprintf}
use dreamscape.Kernel.{Trace, Kernel}

-- "hello world %d\n"
unfoldable pub greeting : ℤ → List ℕ
greeting pid = codes "hello world " ++ (print_int pid ++ codes "\n")

-- `snprintf(message_buffer, sizeof(message_buffer), "hello world %d\n", pid)`
abbrev pub write_greeting : List ℕ → ℤ → List ℕ
write_greeting buf pid = snprintf buf 512 (greeting pid)

greeting-NonZero : (pid : ℤ) → NonZero (greeting pid)
unfolding greeting
greeting-NonZero pid =
    NonZero-append (codes "hello world ") _ (omega arith)
      (NonZero-append (print_int pid) _ (print_int-NonZero pid) (omega arith))

-- The longest greeting is far from the end of the buffer.
length-greeting : (pid : ℤ) → length (greeting pid) < 512
unfolding greeting
length-greeting pid = omega (
  arith,
  length-append (codes "hello world ") (print_int pid ++ codes "\n"),
  length-append (print_int pid) (codes "\n"),
  length-print_int pid,
)

-- The buffer keeps its size, and its text is empty or one whole greeting.
pub record IsMessage (buf : List ℕ) : Type 0 where
  pub size : length buf ≡ 512
  pub text : (c_string buf ≡ []) ⊎ ((pid : ℤ) × (c_string buf ≡ greeting pid))

pub write_greeting-text :
    (buf : List ℕ) (pid : ℤ) → c_string (write_greeting buf pid) ≡ greeting pid
write_greeting-text buf pid =
    c_string-snprintf buf 512 (greeting pid) (greeting-NonZero pid) (length-greeting pid)

pub write_greeting-IsMessage :
    (buf : List ℕ) (pid : ℤ) → IsMessage buf → IsMessage (write_greeting buf pid)
write_greeting-IsMessage buf pid m = record {
  size = length-snprintf buf 512 (greeting pid) (omega arith) (omega (arith, m.size)) ∙ m.size;
  text = inr (pid, write_greeting-text buf pid);
}

-- What Linux documents of `simple_read_from_buffer`: it delivers the bytes from the position on, as
-- many as were asked for and are left.
abbrev pub SimpleRead : Kernel → Type 0
SimpleRead k =
    (t : Trace) (count pos available : ℕ) (from : List ℕ)
    → (k.simple_read_reply t count pos from available).delivered
      ≡ take count (drop pos (take available from))

pub c_string-take : (s : List ℕ) → take (length (c_string s)) s ≡ c_string s
unfolding c_string
c_string-take [] = refl
c_string-take (c ∷ s) = ground (arith, c_string-take s)
