-- ===== src/Echomixer/Mouse/Shown.antt =====
-- A cell of the monitor mixer that is selected: the sliders then show its input's gains.
use dreamscape.Base.{
  ℕ, zero, suc, ◌+◌, ◌≤◌, ◌<◌, ◌≡◌, ◌≢◌, ◌⊎◌, inl, inr, refl, sym, ap, ◌∙◌, subst, ◌==◌,
  if◌then◌else◌, arith, Bool-cases, ==_cases, ==_refl, ==_ne,
}
use dreamscape.Base.Int.{ℤ, eq_ℤ, eq_ℤ_iff}
use dreamscape.Echomixer.{
  set_at, set_at_self, set_at_ne, set_cell, partner, Alsa, Card, Console, Gtk,
}
use dreamscape.Echomixer.Gain.{invert, invert-invert, IsOutGain, invert-IsOutGain}
use dreamscape.Echomixer.Volumes.{
  monitor_volume_changed, monitor_volume_clicked, show_moved, show_gain, show_input,
  mixer_input_selector_clicked,
}
use dreamscape.Echomixer.Volumes.Ganged.{SetsValue, partner_ne}
use dreamscape.Echomixer.Volumes.Heard.{set_cell_self, set_cell_other}
use dreamscape.Echomixer.Mouse.{select_cell}

-- The selected input's sliders show its gains.
abbrev pub Shows : Card → Console → Type 0
Shows c s = (k : ℕ) → k < c.n_lout → s.mixer_adj k ≡ invert (s.mixer_gain k s.input)

-- The slider of output o was set to v: nothing else of the selected input has changed.
pub record SliderSet (o : ℕ) (v : ℤ) (s s' : Console) : Type 0 where
  pub input : s'.input ≡ s.input
  pub output : s'.output ≡ s.output
  pub sections : (s'.section_inputs ≡ s.section_inputs) × (s'.section_outputs ≡ s.section_outputs)
  pub position : s'.mixer_adj o ≡ v
  pub gain :
      (s'.mixer_gain o s.input ≡ invert v)
      ⊎ ((s.mixer_adj o ≡ v) × (s'.mixer_gain o s.input ≡ s.mixer_gain o s.input))
  pub other_positions : (k : ℕ) → o ≢ k → s'.mixer_adj k ≡ s.mixer_adj k
  pub other_gains : (k : ℕ) → o ≢ k → s'.mixer_gain k s.input ≡ s.mixer_gain k s.input

-- One cell written, and with it its partner's: the selected input has changed in that cell alone.
own_gain :
    (gain : ℕ → ℕ → ℤ) (adj : ℕ → ℤ) (o i : ℕ) (v : ℤ)
    → set_cell gain o i (invert (set_at adj o v o)) o i ≡ invert v
own_gain gain adj o i v = set_cell_self gain o i _ ∙ ap invert (set_at_self adj o v)

other_gain : (gain : ℕ → ℕ → ℤ) (o i k : ℕ) (v : ℤ) → o ≢ k → set_cell gain o i v k i ≡ gain k i
other_gain gain o i k v ne = set_cell_other gain o i k i v (λ both. ne both.0)

beside_partner :
    (gain : ℕ → ℕ → ℤ) (o i k : ℕ) (v : ℤ) → set_cell gain (partner o) (partner i) v k i ≡ gain k i
beside_partner gain o i k v =
    set_cell_other gain (partner o) (partner i) k i v (λ both. partner_ne i (sym both.1))

module _ (a : Alsa) (c : Card) (g : Gtk) (gtk : SetsValue g) where
  moved-SliderSet :
      (o : ℕ) (v : ℤ) (s : Console)
      → SliderSet o v s
          (monitor_volume_changed a c o (record s { mixer_adj = set_at s.mixer_adj o v }))
  unfolding monitor_volume_changed
  moved-SliderSet o v s =
      let w = invert (set_at s.mixer_adj o v o) in
      let written = set_cell s.mixer_gain o s.input w in
      elim (Bool-cases s.gang) [
        | inl on ↦ rw on (record {
          input = refl;
          output = refl;
          sections = (refl, refl);
          position = set_at_self s.mixer_adj o v;
          gain = inl (
              beside_partner written o s.input o w ∙ own_gain s.mixer_gain s.mixer_adj o s.input v);
          other_positions = λ k ne. set_at_ne s.mixer_adj o k v ne;
          other_gains = λ k ne.
              beside_partner written o s.input k w ∙ other_gain s.mixer_gain o s.input k w ne;
        })
        | inr off ↦ rw off (record {
          input = refl;
          output = refl;
          sections = (refl, refl);
          position = set_at_self s.mixer_adj o v;
          gain = inl (own_gain s.mixer_gain s.mixer_adj o s.input v);
          other_positions = λ k ne. set_at_ne s.mixer_adj o k v ne;
          other_gains = λ k ne. other_gain s.mixer_gain o s.input k w ne;
        })
      ]

  pub set_slider :
      (o : ℕ) (v : ℤ) (s : Console)
      → IsOutGain v
      → SliderSet o v s (show_moved a c (g (s.mixer_adj o) v) o s)
  set_slider o v s within = elim (Bool-cases (eq_ℤ (s.mixer_adj o) v)) [
    | inl same ↦
        let e : s.mixer_adj o ≡ v = (eq_ℤ_iff (s.mixer_adj o) v).0 same in
        rw (gtk (s.mixer_adj o) v within, same)
          (record {
            input = refl;
            output = refl;
            sections = (refl, refl);
            position = e;
            gain = inr (e, refl);
            other_positions = λ k ne. refl;
            other_gains = λ k ne. refl;
          })
    | inr other ↦ rw (gtk (s.mixer_adj o) v within, other) (moved-SliderSet o v s)
  ]

  -- What a loop over the outputs from `ch` on has done: the gains of the input are as they were, and
  -- the sliders that it came to show them.
  pub record Shown (ch rounds : ℕ) (s s' : Console) : Type 0 where
    pub input : s'.input ≡ s.input
    pub output : s'.output ≡ s.output
    pub sections : (s'.section_inputs ≡ s.section_inputs) × (s'.section_outputs ≡ s.section_outputs)
    pub gains : (k : ℕ) → s'.mixer_gain k s.input ≡ s.mixer_gain k s.input
    pub shows :
        (k : ℕ) → ch ≤ k → k < ch + rounds → s'.mixer_adj k ≡ invert (s.mixer_gain k s.input)
    pub before : (k : ℕ) → k < ch → s'.mixer_adj k ≡ s.mixer_adj k

  abbrev Sound : Console → Type 0
  Sound s = (k : ℕ) → IsOutGain (s.mixer_gain k s.input)

  show_gain-gains :
      (ch : ℕ) (s : Console)
      → Sound s
      → (k : ℕ) → (show_gain a c g ch s).mixer_gain k s.input ≡ s.mixer_gain k s.input
  show_gain-gains ch s sound k =
      let did =
        set_slider ch (invert (s.mixer_gain ch s.input)) s (invert-IsOutGain _ (sound ch)) in
      elim (==_cases ch k) [
        | inl e ↦
            subst (λ x. (show_gain a c g ch s).mixer_gain x s.input ≡ s.mixer_gain x s.input) e
              (elim did.gain [
                | inl set ↦ set ∙ invert-invert (s.mixer_gain ch s.input)
                | inr (at, kept) ↦ kept
              ])
        | inr ne ↦ did.other_gains k ne
      ]

  show_input-Shown :
      (ch rounds : ℕ) (s : Console) → Sound s → Shown ch rounds s (show_input a c g ch rounds s)
  unfolding show_input
  show_input-Shown ch zero s sound = record {
    input = refl;
    output = refl;
    sections = (refl, refl);
    gains = λ k. refl;
    shows = λ k low high. absurd (omega arith);
    before = λ k low. refl;
  }
  show_input-Shown ch (suc rounds) s sound =
      let s1 = show_gain a c g ch s in
      let did =
        set_slider ch (invert (s.mixer_gain ch s.input)) s (invert-IsOutGain _ (sound ch)) in
      let kept = show_gain-gains ch s sound in
      let same : (k : ℕ) → s1.mixer_gain k s1.input ≡ s.mixer_gain k s.input =
        λ k. ap (s1.mixer_gain k) did.input ∙ kept k in
      let sound1 : Sound s1 = λ k. subst IsOutGain (sym (same k)) (sound k) in
      let rest = show_input-Shown (ch + 1) rounds s1 sound1 in
      record {
        input = rest.input ∙ did.input;
        output = rest.output ∙ did.output;
        sections = (rest.sections.0 ∙ did.sections.0, rest.sections.1 ∙ did.sections.1);
        gains = λ k.
            subst
              (λ i. (show_input a c g (ch + 1) rounds s1).mixer_gain k i ≡ s.mixer_gain k s.input)
              did.input (rest.gains k ∙ same k);
        shows = λ k low high. elim (==_cases ch k) [
          | inl e ↦
              subst
                (λ x.
                  (show_input a c g (ch + 1) rounds s1).mixer_adj x
                  ≡ invert (s.mixer_gain x s.input))
                e (rest.before ch (omega arith) ∙ did.position)
          | inr ne ↦ rest.shows k (omega (arith, ne)) (omega arith) ∙ ap invert (same k)
        ];
        before =
            λ k low. rest.before k (omega arith) ∙ did.other_positions k (λ e. omega (arith, e));
      }

  -- A cell was selected: its input's gains are as they were, and the sliders show them.
  pub record Selected (row column : ℕ) (s s' : Console) : Type 0 where
    pub input : s'.input ≡ row
    pub output : s'.output ≡ column
    pub sections : (s'.section_inputs ≡ s.section_inputs) × (s'.section_outputs ≡ s.section_outputs)
    pub gains : (k : ℕ) → s'.mixer_gain k row ≡ s.mixer_gain k row
    pub shows : (k : ℕ) → k < c.n_lout → s'.mixer_adj k ≡ invert (s.mixer_gain k row)

  focused :
      (row column : ℕ) (s s1 : Console)
      → Selected row s1.output s s1
      → Selected row column s
          (if column == s1.output then s1 else monitor_volume_clicked a c column s1)
  unfolding monitor_volume_clicked
  focused row column s s1 done = elim (==_cases column s1.output) [
    | inl e ↦ rw (e, ==_refl s1.output) done
    | inr ne ↦ rw (==_ne column s1.output ne) (record {
      input = done.input;
      output = refl;
      sections = done.sections;
      gains = done.gains;
      shows = done.shows;
    })
  ]

  pub select_cell-Selected :
      (row column : ℕ) (s : Console)
      → Shows c s
      → ((k : ℕ) → IsOutGain (s.mixer_gain k row))
      → Selected row column s (select_cell a c g row column s)
  unfolding select_cell mixer_input_selector_clicked
  select_cell-Selected row column s showing sound = elim (==_cases row s.input) [
    | inl e ↦ rw (ap (λ r. r == s.input) e ∙ ==_refl s.input) (
        focused row column s s (record {
          input = sym e;
          output = refl;
          sections = (refl, refl);
          gains = λ k. refl;
          shows = λ k low.
              subst (λ i. s.mixer_adj k ≡ invert (s.mixer_gain k i)) (sym e) (showing k low);
        }))
    | inr ne ↦
        let s0 = record s { input = row } in
        let did = show_input-Shown 0 c.n_lout s0 sound in
        rw (==_ne row s.input ne, ==_ne s.input row (λ e. ne (sym e)))
          (focused row column s (show_input a c g 0 c.n_lout s0) (record {
            input = did.input;
            output = refl;
            sections = did.sections;
            gains = did.gains;
            shows = λ k low. did.shows k (omega arith) (omega arith);
          }))
  ]
