-- ===== src/Base/Decimal.antt =====
-- C's `%d`, `%llu` and their inverse. A 64-bit value has at most 20 digits, so the digit loop
-- runs on fuel 20; `read_digits-digits` shows that this is enough.
use Prim.Native.Nat.{ℕ, zero, suc, ◌+◌, ◌-◌, ◌*◌, ◌/◌, ◌%◌, ◌^◌, ◌<◌, ◌≤◌}
use mathlib.Core.Path.{◌≡◌, refl}
use mathlib.Core.List.{List, [], ◌∷◌, ◌++◌}
use native.Mathlib.Omega.{arith}
use dreamscape.Base.Tests.{ltb, if◌then◌else◌}
use dreamscape.Base.Lists.{length, codes, length-append}
use dreamscape.Base.Int.{ℤ, pos, negsuc}

unfoldable pub digits : ℕ → ℕ → List ℕ
digits zero n = []
digits (suc fuel) n =
    let more = digits fuel (n / 10) ++ (b'0' + n % 10) ∷ [] in
    if ltb n 10 then (b'0' + n) ∷ [] else more

-- `%llu`
unfoldable pub print_u64 : ℕ → List ℕ
unfolding digits
print_u64 n = digits 20 n

-- `%d`
unfoldable pub print_int : ℤ → List ℕ
unfolding print_u64
print_int (pos n) = print_u64 n
print_int (negsuc n) = b'-' ∷ print_u64 (n + 1)

-- The number that a run of digits stands for, read from the left.
pub read_digits : ℕ → List ℕ → ℕ
read_digits acc [] = acc
read_digits acc (c ∷ s) = read_digits (acc * 10 + (c - b'0')) s

read_digits-append :
    (acc : ℕ) (s t : List ℕ) → read_digits acc (s ++ t) ≡ read_digits (read_digits acc s) t
unfolding read_digits
read_digits-append acc [] t = refl
read_digits-append acc (c ∷ s) t = read_digits-append (acc * 10 + (c - b'0')) s t

div_lt_pow : (fuel n : ℕ) → n < 10 ^ suc fuel → n / 10 < 10 ^ fuel
div_lt_pow fuel n h = omega arith

-- Enough fuel: what is printed reads back as the number.
pub read_digits-digits : (fuel n : ℕ) → n < 10 ^ fuel → 0 < fuel → read_digits 0 (digits fuel n) ≡ n
unfolding digits read_digits
read_digits-digits zero n h f = absurd (omega arith)
read_digits-digits (suc zero) n h f = ground arith
read_digits-digits (suc (suc fuel)) n h f = ground (
  arith,
  read_digits-digits (suc fuel) (n / 10) (div_lt_pow (suc fuel) n h) (omega arith),
  read_digits-append 0 (digits (suc fuel) (n / 10)) ((b'0' + n % 10) ∷ []),
)

pub length-digits : (fuel n : ℕ) → length (digits fuel n) ≤ fuel
unfolding digits
length-digits zero n = omega arith
length-digits (suc fuel) n = ground (
  arith,
  length-digits fuel (n / 10),
  length-append (digits fuel (n / 10)) ((b'0' + n % 10) ∷ []),
)

-- Every byte printed is a digit, so none is the terminator.
abbrev pub NonZero : List ℕ → Type 0
NonZero [] = Unit
NonZero (c ∷ s) = (0 < c) × NonZero s

pub NonZero-append : (s t : List ℕ) → NonZero s → NonZero t → NonZero (s ++ t)
NonZero-append [] t hs ht = ht
NonZero-append (c ∷ s) t hs ht = (hs.0, NonZero-append s t hs.1 ht)

digits-NonZero : (fuel n : ℕ) → NonZero (digits fuel n)
unfolding digits
digits-NonZero zero n = tt
digits-NonZero (suc fuel) n = ground (
  arith,
  NonZero-append (digits fuel (n / 10)) ((b'0' + n % 10) ∷ []) (digits-NonZero fuel (n / 10))
      (omega arith),
)

pub print_int-NonZero : (n : ℤ) → NonZero (print_int n)
unfolding print_int
print_int-NonZero (pos n) = digits-NonZero 20 n
print_int-NonZero (negsuc n) = (omega arith, digits-NonZero 20 (n + 1))

pub length-print_u64 : (n : ℕ) → length (print_u64 n) ≤ 20
unfolding print_u64
length-print_u64 n = length-digits 20 n

pub length-print_int : (n : ℤ) → length (print_int n) ≤ 21
unfolding print_int
length-print_int (pos n) = omega (arith, length-digits 20 n)
length-print_int (negsuc n) = omega (arith, length-digits 20 (n + 1))

prints : print_int (negsuc 41) ≡ codes "-42"
unfolding print_int
prints = refl
