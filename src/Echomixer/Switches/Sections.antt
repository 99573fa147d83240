-- ===== src/Echomixer/Switches/Sections.antt =====
-- After the digital mode was changed, what is selected is within the sections shown.
use dreamscape.Base.{
  ℕ, zero, suc, ◌+◌, ◌-◌, ◌≤◌, ◌<◌, ◌≡◌, ◌≢◌, refl, ◌∙◌, inl, inr, Bool, true, false, not, ◌&&◌,
  Option, none, some, List, ◌==◌, leb, if◌then◌else◌, arith, ==_cases, ==_ne, Bool-cases,
}
use dreamscape.Base.Int.{ℤ, is_neg}
use dreamscape.Echomixer.{set_at, Alsa, Card, Console, Gtk}
use dreamscape.Echomixer.Gain.{invert}
use dreamscape.Echomixer.Controls.{set_enum, get_enum}
use dreamscape.Echomixer.Volumes.{
  monitor_volume_changed, show_moved, show_gain, show_input, mixer_input_selector_clicked,
}
use dreamscape.Echomixer.Switches.{
  leave_inputs, set_sensitivity, set_sections, is_adat, digital_mode_activate,
}

record SameSelection (s s' : Console) : Type 0 where
  input : s'.input ≡ s.input
  output : s'.output ≡ s.output

module _ (a : Alsa) (c : Card) (g : Gtk) where
  monitor-SameSelection : (ch : ℕ) (s : Console) → SameSelection s (monitor_volume_changed a c ch s)
  unfolding monitor_volume_changed
  monitor-SameSelection ch s = elim (Bool-cases s.gang) [
    | inl on ↦ rw on (record { input = refl; output = refl })
    | inr off ↦ rw off (record { input = refl; output = refl })
  ]

  moved-SameSelection :
      (moved : Option ℤ) (ch : ℕ) (s : Console) → SameSelection s (show_moved a c moved ch s)
  moved-SameSelection none ch s = record { input = refl; output = refl }
  moved-SameSelection (some v) ch s =
      let same = monitor-SameSelection ch (record s { mixer_adj = set_at s.mixer_adj ch v }) in
      record { input = same.input; output = same.output }

  show_input-SameSelection :
      (ch rounds : ℕ) (s : Console) → SameSelection s (show_input a c g ch rounds s)
  unfolding show_input
  show_input-SameSelection ch zero s = record { input = refl; output = refl }
  show_input-SameSelection ch (suc rounds) s =
      let first =
        moved-SameSelection (g (s.mixer_adj ch) (invert (s.mixer_gain ch s.input))) ch s in
      let rest = show_input-SameSelection (ch + 1) rounds (show_gain a c g ch s) in
      record { input = rest.input ∙ first.input; output = rest.output ∙ first.output }

  -- Selecting the first input.
  first_selected :
      (s : Console)
      → s.input ≢ 0
      → let s' = mixer_input_selector_clicked a c g 0 s in (s'.input ≡ 0) × (s'.output ≡ s.output)
  unfolding mixer_input_selector_clicked
  first_selected s other =
      let same = show_input-SameSelection 0 c.n_lout (record s { input = 0 }) in
      rw (==_ne s.input 0 other) (same.input, same.output)

  -- The loop leaves the inputs from `first` on, if it starts there and gets to the selected one.
  leave_inputs-below :
      (first i rounds : ℕ) (s : Console)
      → 0 < first
      → first ≤ i
      → (s.input < i → s.input < first)
      → s.input < i + rounds
      → let s' = leave_inputs a c g i rounds s in (s'.input < first) × (s'.output ≡ s.output)
  unfolding leave_inputs
  leave_inputs-below first i zero s some_of low passed reach = (passed (omega (arith, reach)), refl)
  leave_inputs-below first i (suc rounds) s some_of low passed reach = elim (==_cases s.input i) [
    | inl here ↦
        let s1 = mixer_input_selector_clicked a c g 0 s in
        let (zero_input, same) = first_selected s (λ e. omega (arith, here)) in
        let (below, rest) =
          leave_inputs-below first (i + 1) rounds s1 some_of (omega arith)
            (λ _. omega (arith, zero_input)) (omega (arith, zero_input)) in
        let taken : (s.input == i) ≡ true = ground (arith, here) in
        rw (taken, leave_inputs) (below, rest ∙ same)
    | inr elsewhere ↦
        rw (==_ne s.input i elsewhere, leave_inputs)
          (leave_inputs-below first (i + 1) rounds s some_of (omega arith)
            (λ below. passed (omega arith)) (omega (arith, reach)))
  ]

  abbrev pub IsSelected : (inputs outputs : ℕ) → Console → Type 0
  IsSelected inputs outputs s = (s.input < inputs) × (s.output < outputs)

  -- The two steps behind the first loop.
  voutput_left :
      (inputs outputs : ℕ) (b : Bool) (s : Console)
      → IsSelected inputs outputs s
      → IsSelected inputs outputs (if b then record s { voutput = 0 } else s)
  voutput_left inputs outputs true s h = h
  voutput_left inputs outputs false s h = h

  output_left :
      (inputs outputs : ℕ) (b : Bool) (s : Console)
      → s.input < inputs
      → 0 < outputs
      → leb outputs s.output ≡ b
      → IsSelected inputs outputs (if b then record s { output = 0 } else s)
  output_left inputs outputs true s h some_of e = (h, some_of)
  output_left inputs outputs false s h some_of e = (h, ground (arith, e))

  set_sensitivity-IsSelected :
      (s : Console)
      → s.input < c.n_in
      → IsSelected (c.fd_in + 2) (c.fd_out + 2) (set_sensitivity a c g false s)
  unfolding set_sensitivity
  set_sensitivity-IsSelected s inside =
      let first = c.fd_in + 2 in
      let out = c.fd_out + 2 in
      let s1 = leave_inputs a c g first (c.n_in - first) s in
      let s2 = if leb out s1.output then record s1 { output = 0 } else s1 in
      let below =
        (leave_inputs-below first first (c.n_in - first) s (omega arith) (omega arith) (λ h. h)
          (omega arith)).0 in
      voutput_left first out (not (c.vmixer_id == 0) && leb out s2.voutput) s2
        (output_left first out (leb out s1.output) s1 below (omega arith) refl)

  set_sensitivity-adat :
      (s : Console)
      → IsSelected c.n_in c.n_lout s
      → IsSelected c.n_in c.n_lout (set_sensitivity a c g true s)
  unfolding set_sensitivity
  set_sensitivity-adat s h = voutput_left c.n_in c.n_lout (not (c.vmixer_id == 0) && false) s h

  sections_set :
      (adat : Bool) (s : Console)
      → IsSelected c.n_in c.n_lout s
      → let s' = set_sections a c g adat (set_sensitivity a c g adat s) in
        IsSelected s'.section_inputs s'.section_outputs s'
  sections_set true s h = set_sensitivity-adat s h
  sections_set false s h = set_sensitivity-IsSelected s h.0

  -- Whatever ALSA and GTK answer, and whatever the mode is called: where ALSA refuses the mode, the
  -- program keeps its state; where it takes it, the selected input and output are within the sections
  -- that the mixer's window shows then, if they were channels of the card before.
  pub digital_mode_activate-IsSelected :
      (names : ℕ → List ℕ) (mode : ℕ) (s : Console)
      → s.input < c.n_in
      → s.output < c.n_lout
      → let s' = digital_mode_activate a c g names mode s in
        let (err, t) = set_enum a c c.dmode_id mode s.log in
        if is_neg err
        then s' ≡ record s { log = t }
        else IsSelected s'.section_inputs s'.section_outputs s'
  unfolding digital_mode_activate
  digital_mode_activate-IsSelected names mode s inside out =
      elim (Bool-cases (is_neg (set_enum a c c.dmode_id mode s.log).0)) [
        | inl refused ↦ rw refused refl
        | inr taken ↦ rw taken (
            sections_set (is_adat a c g (names mode))
              (record s {
                dmode_val = mode;
                clocksrc_val =
                    (get_enum a c c.clocksrc_id (set_enum a c c.dmode_id mode s.log).1).0;
                log = (get_enum a c c.clocksrc_id (set_enum a c c.dmode_id mode s.log).1).1;
              })
              (inside, out))
      ]
