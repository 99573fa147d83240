-- ===== src/Echomixer/Switches/Clock.antt =====
-- CheckInputs: which clock source is in use after a look at the valid ones.
use dreamscape.Base.{
  ℕ, zero, suc, ◌+◌, ◌%◌, ◌≤◌, ◌<◌, ◌≡◌, ◌⊎◌, refl, ap, ◌∙◌, inl, inr, not, ◌&&◌, Option, none,
  some, ◌∷◌, ltb, ◌==◌, if◌then◌else◌, arith, ==_cases, ==_ne, ==_refl, Bool-cases, lt→ltb,
}
use dreamscape.Base.Int.{ℤ, pos, negsuc, neg, is_neg, pos_part}
use dreamscape.Echomixer.{Row, hwdep, elem_read, Alsa, Card, Console}
use dreamscape.Echomixer.Controls.{set_enum}
use dreamscape.Echomixer.Switches.{
  has_bit, counts_of, channels_read, get_channels, inputs_checked, clock_source_activate,
  choose_source, switch_source, check_inputs,
}

-- What should be in use: without the automatic choice, what is; with it, the source it is set to if
-- that one is there, else what is if that one is valid, else the internal clock.
abbrev pub wanted_source : (mask nclocksrc : ℕ) → (auto_clock : ℤ) → (current : ℕ) → ℕ
wanted_source mask nclocksrc (negsuc _) current = current
wanted_source mask nclocksrc (pos k) current =
    if ltb k nclocksrc && has_bit mask k then k else if has_bit mask current then current else 0

choose_source-neg :
    (mask k clk rounds : ℕ) (source : ℤ) → choose_source mask (negsuc k) clk rounds source ≡ source
unfolding choose_source
choose_source-neg mask k clk zero source = refl
choose_source-neg mask k clk (suc rounds) source = choose_source-neg mask k (clk + 1) rounds source

-- Behind the source of the automatic choice the loop changes nothing.
choose_source-past :
    (mask k clk rounds : ℕ) (source : ℤ)
    → k < clk
    → choose_source mask (pos k) clk rounds source ≡ source
unfolding choose_source
choose_source-past mask k clk zero source h = refl
choose_source-past mask k clk (suc rounds) source h =
    rw (==_ne clk k (λ e. omega arith), choose_source)
      (choose_source-past mask k (clk + 1) rounds source (omega arith))

choose_source-pos :
    (mask k clk rounds : ℕ) (source : ℤ)
    → clk ≤ k
    → choose_source mask (pos k) clk rounds source
      ≡ (if ltb k (clk + rounds) && has_bit mask k then pos k else source)
unfolding choose_source
choose_source-pos mask k clk zero source h = ground arith
choose_source-pos mask k clk (suc rounds) source h = elim (==_cases clk k) [
  | inl here ↦
      let first = if clk == k && has_bit mask clk then pos k else source in
      let same : first ≡ (if ltb k (clk + suc rounds) && has_bit mask k then pos k else source) =
        rw (here, ==_refl k, lt→ltb k (k + suc rounds) (omega arith)) refl in
      choose_source-past mask k (clk + 1) rounds first (omega arith) ∙ same
  | inr later ↦
      let sums : clk + suc rounds ≡ clk + 1 + rounds = omega arith in
      rw (==_ne clk k later, sums, choose_source)
        (choose_source-pos mask k (clk + 1) rounds source (omega arith))
]

-- The loop and what stands before it, with what follows from the result.
switched_to :
    (a : Alsa) (c : Card) (source : ℤ) (s : Console)
    → (k : ℕ) → source ≡ pos k
    → k < 256
    → let (err, t) = set_enum a c c.clocksrc_id k s.log in
      switch_source a c source s ≡ (
        if k == s.clocksrc_val
        then s
        else if is_neg err
        then record s { log = t }
        else record s { clocksrc_val = k; log = t })
unfolding clock_source_activate
switched_to a c source s k e small =
    let low : k % 256 ≡ k = omega arith in
    elim (Bool-cases (k == s.clocksrc_val)) [
      | inl same ↦ rw (e, same) refl
      | inr new ↦ rw (e, new, low) refl
    ]

-- The state once `w` was asked for, unless it is in use.
abbrev pub with_source : Alsa → Card → (w : ℕ) → Console → Console
with_source a c w s =
    let (err, t) = set_enum a c c.clocksrc_id w s.log in
    if w == s.clocksrc_val
    then s
    else if is_neg err
    then record s { log = t }
    else record s { clocksrc_val = w; log = t }

abbrev fallback_of : (mask : ℕ) → (auto_clock : ℤ) → (current : ℕ) → ℤ
fallback_of mask auto_clock current =
    if not (is_neg auto_clock) && not (has_bit mask current) then pos 0 else neg 1

-- The loop finds the source that is wanted, or says by -1 that what is in use is.
chosen :
    (mask n : ℕ) (auto_clock : ℤ) (current : ℕ)
    → n ≤ 256
    → let source = choose_source mask auto_clock 0 n (fallback_of mask auto_clock current) in
      let w = wanted_source mask n auto_clock current in
      ((source ≡ pos w) × (w < 256)) ⊎ ((source ≡ neg 1) × (w ≡ current))
chosen mask n (negsuc m) current few = inr (choose_source-neg mask m 0 n (neg 1), refl)
chosen mask n (pos k) current few =
    let found = choose_source-pos mask k 0 n (fallback_of mask (pos k) current) (omega arith) in
    let none_before : 0 + n ≡ n = omega arith in
    elim (Bool-cases (ltb k n && has_bit mask k)) [
      | inl there ↦ inl (found ∙ rw (none_before, there) refl, rw there (ground (arith, there)))
      | inr missing ↦ elim (Bool-cases (has_bit mask current)) [
        | inl valid ↦ inr (found ∙ rw (none_before, missing, valid) refl, rw (missing, valid) refl)
        | inr lost ↦
            inl (found ∙ rw (none_before, missing, lost) refl, rw (missing, lost) (omega arith))
      ]
    ]

chosen_source :
    (a : Alsa) (c : Card) (n : ℕ) (s : Console)
    → n ≤ 256
    → switch_source a c
        (choose_source s.clock_mask s.auto_clock 0 n
          (fallback_of s.clock_mask s.auto_clock s.clocksrc_val))
        s
      ≡ with_source a c (wanted_source s.clock_mask n s.auto_clock s.clocksrc_val) s
chosen_source a c n s few =
    let source =
      choose_source s.clock_mask s.auto_clock 0 n
        (fallback_of s.clock_mask s.auto_clock s.clocksrc_val) in
    let w = wanted_source s.clock_mask n s.auto_clock s.clocksrc_val in
    elim (chosen s.clock_mask n s.auto_clock s.clocksrc_val few) [
      | inl (is, small) ↦ switched_to a c source s w is small
      | inr (is, current) ↦ stayed source w is current
    ]
  where
    stayed :
        (source : ℤ) (w : ℕ)
        → source ≡ neg 1
        → w ≡ s.clocksrc_val
        → switch_source a c source s ≡ with_source a c w s
    stayed source w is current = rw (is, current, ==_refl s.clocksrc_val) refl

-- The valid sources are those that the card names, and what is wanted is asked for unless it is in
-- use; where the channels cannot be read, the program ends.
abbrev pub inputs_wanted : Alsa → Card → (n : ℕ) → Console → Option Row → Option (Card × Console)
inputs_wanted a c n s none = none
inputs_wanted a c n s (some row) =
    let mask = pos_part (row 5) in
    let s1 = record s {
      clock_mask = mask;
      log = elem_read hwdep c.channels_id (some row) ∷ s.log;
    } in
    let c1 = counts_of row c in
    some (c1, with_source a c1 (wanted_source mask n s.auto_clock s.clocksrc_val) s1)

-- A look at the inputs, for at most 256 sources. Where the channels cannot be read the program ends.
-- Where they can, the valid sources become those that the card names, and the source in use becomes,
-- unless ALSA refuses it, the one of the automatic choice if it is set and valid; else it stays, or
-- falls back to the internal clock if it is not valid and the automatic choice is set. The setting of
-- the automatic choice is kept, and nothing is asked of ALSA where the source stays.
pub check_inputs-wanted :
    (a : Alsa) (c : Card) (n : ℕ) (s : Console)
    → n ≤ 256
    → check_inputs a c n s ≡ inputs_wanted a c n s (a.read_reply s.log c.channels_id)
unfolding check_inputs get_channels
check_inputs-wanted a c n s few = looked (a.read_reply s.log c.channels_id)
  where
    looked :
        (reply : Option Row)
        → inputs_checked a n
            (channels_read c (record s { log = elem_read hwdep c.channels_id reply ∷ s.log }) reply)
          ≡ inputs_wanted a c n s reply
    looked none = refl
    looked (some row) =
        ap (λ r. some (counts_of row c, r))
          (chosen_source a (counts_of row c) n
            (record s {
              clock_mask = pos_part (row 5);
              log = elem_read hwdep c.channels_id (some row) ∷ s.log;
            })
            few)
