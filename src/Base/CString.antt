-- ===== src/Base/CString.antt =====
-- C strings in fixed buffers: what `snprintf` and `strlen` do to them.
use dreamscape.Base.Tests.{◌==◌, if◌then◌else◌}
use dreamscape.Base.Lists.{length, take, drop, length-append, length-drop, length-take_le, take_all}
use dreamscape.Base.Decimal.{NonZero}
use Prim.Native.Nat.{ℕ, ◌-◌, ◌<◌, ◌≤◌}
use mathlib.Core.Path.{◌≡◌, refl}
use mathlib.Core.List.{List, [], ◌∷◌, ◌++◌, append_assoc}
use native.Mathlib.Omega.{arith}

-- Writes the bytes over the front of a buffer.
abbrev pub overwrite : List ℕ → List ℕ → List ℕ
overwrite buf bytes = bytes ++ drop (length bytes) buf

-- `snprintf(buf, size, ...)` where the format expands to `out`: cut to size - 1, and terminated.
pub snprintf : (buf : List ℕ) (size : ℕ) (out : List ℕ) → List ℕ
snprintf buf size out = overwrite buf (take (size - 1) out ++ 0 ∷ [])

-- The bytes in front of the terminator. `strlen` is its length.
unfoldable pub c_string : List ℕ → List ℕ
c_string [] = []
c_string (c ∷ s) = if c == 0 then [] else c ∷ c_string s

pub c_string-terminated : (s t : List ℕ) → NonZero s → c_string (s ++ 0 ∷ t) ≡ s
unfolding c_string
c_string-terminated [] t h = refl
c_string-terminated (c ∷ s) t h = ground (arith, c_string-terminated s t h.1)

-- An output that fits is what the buffer then holds.
pub c_string-snprintf :
    (buf : List ℕ) (size : ℕ) (out : List ℕ)
    → NonZero out
    → length out < size
    → c_string (snprintf buf size out) ≡ out
unfolding snprintf
c_string-snprintf buf size out h fits =
    rw (take_all (size - 1) out (omega arith)) (rw append_assoc (c_string-terminated out _ h))

-- A write within the buffer keeps its size.
pub length-snprintf :
    (buf : List ℕ) (size : ℕ) (out : List ℕ)
    → 0 < size
    → size ≤ length buf
    → length (snprintf buf size out) ≡ length buf
unfolding snprintf
length-snprintf buf size out pos fits =
    let line = take (size - 1) out ++ 0 ∷ [] in
    omega (
      arith,
      length-append line (drop (length line) buf),
      length-append (take (size - 1) out) (0 ∷ []),
      length-drop (length line) buf,
      length-take_le (size - 1) out,
    )

pub length-c_string_le : (s : List ℕ) → length (c_string s) ≤ length s
unfolding c_string
length-c_string_le [] = omega arith
length-c_string_le (c ∷ s) = ground (arith, length-c_string_le s)
