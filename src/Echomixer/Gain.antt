-- ===== src/Echomixer/Gain.antt =====
-- The gains of echomixer.c: bounds, decibels, their text, and the positions of the sliders.
use dreamscape.Base.{ℕ, ◌≡◌, ◌||◌, List, ◌∷◌, codes, if◌then◌else◌, arith}
use dreamscape.Base.Int.{ℤ, pos, negsuc, eq_ℤ, ◌+ℤ◌, ◌-ℤ◌, ◌≤ℤ◌, ltb_ℤ, int_laws}
use dreamscape.Base.Decimal.{print_int}

-- ECHOGAIN_MINOUT is ECHOGAIN_MUTED too.
abbrev pub echogain_minout : ℤ
echogain_minout = negsuc 127

abbrev pub echogain_maxout : ℤ
echogain_maxout = pos 6

abbrev pub echogain_mininp : ℤ
echogain_mininp = negsuc 49

abbrev pub echogain_maxinp : ℤ
echogain_maxinp = pos 50

-- INVERT and IN_INVERT: the top of a slider is its least position.
unfoldable pub invert : ℤ → ℤ
invert x = echogain_minout +ℤ echogain_maxout -ℤ x

unfoldable pub in_invert : ℤ → ℤ
in_invert x = echogain_mininp +ℤ echogain_maxinp -ℤ x

unfoldable pub clamp_output_volume : ℤ → ℤ
clamp_output_volume v =
    if ltb_ℤ echogain_maxout v
    then echogain_maxout
    else if ltb_ℤ v echogain_minout
    then echogain_minout
    else v

unfoldable pub clamp_input_volume : ℤ → ℤ
clamp_input_volume v =
    if ltb_ℤ echogain_maxinp v
    then echogain_maxinp
    else if ltb_ℤ v echogain_mininp
    then echogain_mininp
    else v

-- -128 dB means muted.
unfoldable pub add_db : ℤ → ℤ → ℤ
add_db a b =
    if eq_ℤ a echogain_minout || eq_ℤ b echogain_minout
    then echogain_minout
    else (let sum = a +ℤ b in if ltb_ℤ sum echogain_minout then echogain_minout else sum)

-- "%+d"
abbrev pub print_signed : ℤ → List ℕ
print_signed (pos n) = b'+' ∷ print_int (pos n)
print_signed (negsuc n) = print_int (negsuc n)

pub str_out_gain : ℤ → List ℕ
str_out_gain g = if eq_ℤ g echogain_minout then codes "mute" else print_signed g

-- What a slider or the hardware of an output can be set to.
abbrev pub IsOutGain : ℤ → Type 0
IsOutGain g = (echogain_minout ≤ℤ g) × (g ≤ℤ echogain_maxout)

pub invert-invert : (x : ℤ) → invert (invert x) ≡ x
unfolding invert
invert-invert x = omega int_laws

pub invert-IsOutGain : (x : ℤ) → IsOutGain x → IsOutGain (invert x)
unfolding invert
invert-IsOutGain x h = omega int_laws

abbrev pub max_ℤ : ℤ → ℤ → ℤ
max_ℤ a b = if ltb_ℤ a b then b else a

abbrev pub min_ℤ : ℤ → ℤ → ℤ
min_ℤ a b = if ltb_ℤ a b then a else b

-- Two gains one after the other, in words: silence where one of them is muted, else their sum within
-- the bounds of an output.
abbrev pub in_series : ℤ → ℤ → ℤ
in_series a b =
    if eq_ℤ a echogain_minout || eq_ℤ b echogain_minout
    then echogain_minout
    else max_ℤ echogain_minout (min_ℤ echogain_maxout (a +ℤ b))

-- The gain that is written where the line-out volume is emulated is never outside the bounds of an
-- output, for any two numbers, and it is that of the two in series; the order does not matter.
pub clamp_output_volume-add_db :
    (a b : ℤ)
    → IsOutGain (clamp_output_volume (add_db a b))
      × (clamp_output_volume (add_db a b) ≡ in_series a b)
      × (add_db a b ≡ add_db b a)
unfolding clamp_output_volume add_db ◌+ℤ◌
clamp_output_volume-add_db a b = (ground arith, ground arith, ground arith)
