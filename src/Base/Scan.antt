-- ===== src/Base/Scan.antt =====
-- C's `strcmp`, `%lx` and what the kernel's `sscanf` does for "%31s" and for "name %d": white space
-- is skipped in front of a word or a number, and a number is cut to the 32 bits of an `int`.
use Prim.Native.Nat.{ℕ, zero, suc, ◌+◌, ◌-◌, ◌/◌, ◌%◌, ◌^◌, ◌<◌, ◌≤◌}
use mathlib.Core.Path.{◌≡◌, refl, sym, ◌∙◌, ap}
use mathlib.Core.Logic.{◌≢◌, inl, inr}
use mathlib.Core.Bool.{Bool, true, false, ◌&&◌, ◌||◌}
use mathlib.Core.Option.{Option, none, some}
use mathlib.Core.List.{List, [], ◌∷◌, ◌++◌}
use native.Mathlib.Omega.{arith}
use dreamscape.Base.Tests.{leb, ltb, ◌==◌, if◌then◌else◌, ==_cases, ==_ne}
use dreamscape.Base.Lists.{length, length-append}
use dreamscape.Base.Int.{ℤ, pos, negsuc}
use dreamscape.Base.Decimal.{digits, print_u64, print_int, read_digits, read_digits-digits}

-- `strcmp(a, b) == 0`
unfoldable pub same : List ℕ → List ℕ → Bool
same [] [] = true
same [] (b ∷ t) = false
same (a ∷ s) [] = false
same (a ∷ s) (b ∷ t) = (a == b) && same s t

pub same→eq : (a b : List ℕ) → same a b ≡ true → a ≡ b
unfolding same
same→eq [] [] h = refl
same→eq [] (b ∷ t) h = cc
same→eq (a ∷ s) [] h = cc
same→eq (a ∷ s) (b ∷ t) h = elim (==_cases a b) [
  | inl e ↦ rw e (ap (λ r. b ∷ r) (same→eq s t (ground (arith, h, e))))
  | inr ne ↦ absurd (true_ne_false (sym h ∙ rw (==_ne a b ne) refl))
]
  where
    true_ne_false : true ≢ false
    true_ne_false q = cc

abbrev pub hex_digit : ℕ → ℕ
hex_digit d = if ltb d 10 then b'0' + d else 87 + d

pub hex_digits : ℕ → ℕ → List ℕ
hex_digits zero n = []
hex_digits (suc fuel) n =
    let more = hex_digits fuel (n / 16) ++ hex_digit (n % 16) ∷ [] in
    if ltb n 16 then hex_digit n ∷ [] else more

-- `%lx`: a 64-bit value has at most 16 digits.
unfoldable pub print_hex : ℕ → List ℕ
unfolding hex_digits
print_hex n = hex_digits 16 n

pub length-hex_digits : (fuel n : ℕ) → length (hex_digits fuel n) ≤ fuel
unfolding hex_digits
length-hex_digits zero n = omega arith
length-hex_digits (suc fuel) n = ground (
  arith,
  length-hex_digits fuel (n / 16),
  length-append (hex_digits fuel (n / 16)) (hex_digit (n % 16) ∷ []),
)

pub length-print_hex : (n : ℕ) → length (print_hex n) ≤ 16
unfolding print_hex
length-print_hex n = length-hex_digits 16 n

abbrev pub is_space : ℕ → Bool
is_space c = (c == 32) || ((leb 9 c && leb c 13) || (c == 160))

abbrev pub is_digit : ℕ → Bool
is_digit c = leb b'0' c && leb c b'9'

unfoldable pub skip_spaces : List ℕ → List ℕ
skip_spaces [] = []
skip_spaces (c ∷ s) = if is_space c then skip_spaces s else c ∷ s

-- A word of at most so many bytes.
unfoldable pub word : ℕ → List ℕ → List ℕ
word zero s = []
word (suc n) [] = []
word (suc n) (c ∷ s) = if is_space c then [] else c ∷ word n s

-- `sscanf(s, "%<n>s", ...)`
unfoldable pub scan_word : ℕ → List ℕ → Option (List ℕ)
unfolding skip_spaces word
scan_word n [] = none
scan_word n (c ∷ s) = some (word n (skip_spaces (c ∷ s)))

-- The digits in front.
unfoldable pub span_digits : List ℕ → List ℕ
span_digits [] = []
span_digits (c ∷ s) = if is_digit c then c ∷ span_digits s else []

-- The `int` with the low 32 bits of a number.
abbrev pub int_of : ℕ → ℤ
int_of n = if ltb (n % 2 ^ 32) (2 ^ 31) then pos (n % 2 ^ 32) else negsuc (2 ^ 32 - 1 - n % 2 ^ 32)

abbrev pub read_number : (ℕ → ℤ) → List ℕ → Option ℤ
read_number value [] = none
read_number value (c ∷ s) =
    if is_digit c then some (value (read_digits 0 (span_digits (c ∷ s)))) else none

abbrev pub read_signed : List ℕ → Option ℤ
read_signed [] = none
read_signed (c ∷ s) =
    if c == b'-'
    then read_number (λ n. int_of (2 ^ 32 - n % 2 ^ 32)) s
    else read_number int_of (c ∷ s)

-- `sscanf(s, "<name> %d", ...)`
unfoldable pub scan_int : (name s : List ℕ) → Option ℤ
unfolding skip_spaces
scan_int [] s = read_signed (skip_spaces s)
scan_int (a ∷ name) [] = none
scan_int (a ∷ name) (c ∷ s) = if a == c then scan_int name s else none

-- What an `int` holds.
abbrev pub IsInt : ℤ → Type 0
IsInt (pos n) = n < 2 ^ 31
IsInt (negsuc n) = n < 2 ^ 31

abbrev pub AllDigits : List ℕ → Type 0
AllDigits [] = Unit
AllDigits (c ∷ s) = (is_digit c ≡ true) × AllDigits s

AllDigits-append : (s t : List ℕ) → AllDigits s → AllDigits t → AllDigits (s ++ t)
AllDigits-append [] t hs ht = ht
AllDigits-append (c ∷ s) t hs ht = (hs.0, AllDigits-append s t hs.1 ht)

pub digits-AllDigits : (fuel n : ℕ) → AllDigits (digits fuel n)
unfolding digits
digits-AllDigits zero n = tt
digits-AllDigits (suc fuel) n = ground (
  arith,
  AllDigits-append (digits fuel (n / 10)) ((b'0' + n % 10) ∷ []) (digits-AllDigits fuel (n / 10)),
)

pub some_digits : (fuel n : ℕ) → 0 < length (digits (suc fuel) n)
unfolding digits
some_digits fuel n = ground (arith, length-append (digits fuel (n / 10)) ((b'0' + n % 10) ∷ []))

-- A number ends where a byte is no digit.
pub span_digits-append :
    (s t : List ℕ) → AllDigits s → span_digits t ≡ [] → span_digits (s ++ t) ≡ s
unfolding span_digits
span_digits-append [] t h e = e
span_digits-append (c ∷ s) t h e = rw (h.0) (ap (λ r. c ∷ r) (span_digits-append s t h.1 e))

read_number-digits :
    (value : ℕ → ℤ) (s t : List ℕ)
    → AllDigits s
    → 0 < length s
    → span_digits t ≡ []
    → read_number value (s ++ t) ≡ some (value (read_digits 0 s))
read_number-digits value [] t h some_of e = absurd (omega arith)
read_number-digits value (c ∷ s) t h some_of e =
    rw (h.0) (ap (λ r. some (value (read_digits 0 r))) (span_digits-append (c ∷ s) t h e))

read_signed-digits :
    (s t : List ℕ)
    → AllDigits s
    → 0 < length s
    → span_digits t ≡ []
    → read_signed (skip_spaces (s ++ t)) ≡ some (int_of (read_digits 0 s))
unfolding skip_spaces
read_signed-digits [] t h some_of e = absurd (omega arith)
read_signed-digits (c ∷ s) t h some_of e =
    let solid : is_space c ≡ false = ground (arith, h.0) in
    let unsigned : (c == b'-') ≡ false = ground (arith, h.0) in
    rw solid (rw unsigned (read_number-digits int_of (c ∷ s) t h some_of e))

read_digits-print_u64 : (n : ℕ) → n < 2 ^ 32 → read_digits 0 (print_u64 n) ≡ n
unfolding print_u64
read_digits-print_u64 n h = read_digits-digits 20 n (omega arith) (omega arith)

int_of-pos : (n : ℕ) → n < 2 ^ 31 → int_of n ≡ pos n
int_of-pos n h = ground arith

int_of-negsuc : (n : ℕ) → n < 2 ^ 31 → int_of (2 ^ 32 - (n + 1) % 2 ^ 32) ≡ negsuc n
int_of-negsuc n h = ground arith

-- What `%d` prints is what `%d` reads, up to the end or to a byte that is no digit.
pub read_signed-print_int :
    (pid : ℤ) (t : List ℕ)
    → IsInt pid
    → span_digits t ≡ []
    → read_signed (skip_spaces (print_int pid ++ t)) ≡ some pid
unfolding print_int print_u64 skip_spaces
read_signed-print_int (pos n) t h e =
    read_signed-digits (digits 20 n) t (digits-AllDigits 20 n) (some_digits 19 n) e
    ∙ ap some (ap int_of (read_digits-print_u64 n (omega arith)) ∙ int_of-pos n h)
read_signed-print_int (negsuc n) t h e =
    read_number-digits (λ m. int_of (2 ^ 32 - m % 2 ^ 32)) (digits 20 (n + 1)) t
      (digits-AllDigits 20 (n + 1)) (some_digits 19 (n + 1)) e
    ∙ ap some (
        ap (λ m. int_of (2 ^ 32 - m % 2 ^ 32)) (read_digits-print_u64 (n + 1) (omega arith))
        ∙ int_of-negsuc n h)

-- What is behind the digits in front.
unfoldable pub drop_digits : List ℕ → List ℕ
drop_digits [] = []
drop_digits (c ∷ s) = if is_digit c then drop_digits s else c ∷ s

pub drop_digits-append :
    (s t : List ℕ) → AllDigits s → span_digits t ≡ [] → drop_digits (s ++ t) ≡ drop_digits t
unfolding drop_digits
drop_digits-append [] t h e = refl
drop_digits-append (c ∷ s) t h e = rw (h.0) (drop_digits-append s t h.1 e)

pub skip_spaces-digits : (s t : List ℕ) → AllDigits s → 0 < length s → skip_spaces (s ++ t) ≡ s ++ t
unfolding skip_spaces
skip_spaces-digits [] t h some_of = absurd (omega arith)
skip_spaces-digits (c ∷ s) t h some_of =
    let solid : is_space c ≡ false = ground (arith, h.0) in rw solid refl
