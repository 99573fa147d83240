-- ===== src/Echomixer/Volumes/Ganged.antt =====
-- A line-out slider of a ganged pair: the two handlers call each other, and come to an end.
use dreamscape.Base.{
  ℕ, suc, ◌≡◌, ◌≢◌, refl, sym, ap, ◌∙◌, subst, inl, inr, Bool, true, false, Option, none, some,
  ◌==◌, if◌then◌else◌, arith, ==_cases, ==_ne, ==_refl, Bool-cases,
}
use dreamscape.Base.Int.{ℤ, eq_ℤ, eq_ℤ_iff, eq_ℤ_refl}
use dreamscape.Echomixer.{set_at, set_at_self, set_at_ne, partner, Alsa, Card, Console, Gtk}
use dreamscape.Echomixer.Gain.{invert, IsOutGain}
use dreamscape.Echomixer.Volumes.{
  line_out_applied, update_mixer_volume, update_vmixer_volume, update_pcm_volume,
  line_out_volume_changed, then_line_out,
}

pub partner-partner : (ch : ℕ) → partner (partner ch) ≡ ch
partner-partner ch = ground arith

pub partner_ne : (ch : ℕ) → ch ≢ partner ch
partner_ne ch e = ground arith

-- As GTK documents it: a value within the bounds of the adjustment is taken as it is, and the handler
-- is called if it is a new one.
abbrev pub SetsValue : Gtk → Type 0
SetsValue g = (p v : ℤ) → IsOutGain v → g p v ≡ (if eq_ℤ p v then none else some v)

-- What the handler does of its own: the gain that the slider shows; the rest is the log.
pub record Applied (ch : ℕ) (s s1 : Console) : Type 0 where
  pub gang : s1.gang ≡ s.gang
  pub position : (k : ℕ) → s1.line_out_adj k ≡ s.line_out_adj k
  pub own : s1.line_out ch ≡ invert (s.line_out_adj ch)
  pub others : (k : ℕ) → k ≢ ch → s1.line_out k ≡ s.line_out k

gain_set :
    (ch : ℕ) (s s1 : Console)
    → s1.gang ≡ s.gang
    → s1.line_out_adj ≡ s.line_out_adj
    → s1.line_out ≡ set_at s.line_out ch (invert (s.line_out_adj ch))
    → Applied ch s s1
gain_set ch s s1 gang position gain = record {
  gang = gang;
  position = λ k. ap (λ row. row k) position;
  own = ap (λ row. row ch) gain ∙ rw (==_refl ch) refl;
  others = λ k ne. ap (λ row. row k) gain ∙ rw (==_ne ch k (λ e. ne (sym e))) refl;
}

line_out_applied-Applied :
    (a : Alsa) (c : Card) (ch : ℕ) (s : Console) → Applied ch s (line_out_applied a c ch s)
unfolding line_out_applied update_mixer_volume update_vmixer_volume update_pcm_volume
line_out_applied-Applied a c ch s = elim (Bool-cases (c.lineout_id == 0)) [
  | inl emulating ↦ elim (Bool-cases (c.vmixer_id == 0)) [
    | inl plain ↦ rw (emulating, plain) (gain_set ch s _ refl refl refl)
    | inr virtual ↦ rw (emulating, virtual) (gain_set ch s _ refl refl refl)
  ]
  | inr own ↦ rw own (gain_set ch s _ refl refl refl)
]

-- Every slider shows the gain of its output, save perhaps that of one.
abbrev pub InStep : (ch : ℕ) → Console → Type 0
InStep ch s = (k : ℕ) → k ≢ ch → s.line_out k ≡ invert (s.line_out_adj k)

-- The pair's sliders and gains are equal, every slider shows its gain, and nothing else has moved.
pub record Paired (ch : ℕ) (s s' : Console) : Type 0 where
  pub position : s'.line_out_adj (partner ch) ≡ s.line_out_adj ch
  pub own_position : s'.line_out_adj ch ≡ s.line_out_adj ch
  pub in_step : (k : ℕ) → s'.line_out k ≡ invert (s'.line_out_adj k)
  pub others : (k : ℕ) → k ≢ ch → k ≢ partner ch → s'.line_out_adj k ≡ s.line_out_adj k

-- The end of the handler, on what is known of the button and of the partner's slider.
silent_end :
    (a : Alsa) (c : Card) (handler : Console → Option Console) (other : ℕ) (s : Console)
    → {gang : Bool} {moved : Option ℤ} → gang ≡ true
    → moved ≡ none
    → (if gang then then_line_out a c handler other s moved else some s) ≡ some s
silent_end a c handler other s ganged silent = rw (ganged, silent) refl

moving_end :
    (a : Alsa) (c : Card) (handler : Console → Option Console) (other : ℕ) (s : Console) (v : ℤ)
    → {gang : Bool} {moved : Option ℤ} → gang ≡ true
    → moved ≡ some v
    → (if gang then then_line_out a c handler other s moved else some s)
      ≡ handler (record s { line_out_adj = set_at s.line_out_adj other v })
moving_end a c handler other s v ganged moves = rw (ganged, moves) refl

Applied-InStep :
    (ch : ℕ) (s s1 : Console)
    → Applied ch s s1
    → InStep ch s
    → (k : ℕ) → s1.line_out k ≡ invert (s1.line_out_adj k)
Applied-InStep ch s s1 did in_step k = elim (==_cases k ch) [
  | inl e ↦
      subst (λ x. s1.line_out x ≡ invert (s1.line_out_adj x)) (sym e)
        (did.own ∙ ap invert (sym (did.position ch)))
  | inr ne ↦ did.others k ne ∙ in_step k ne ∙ ap invert (sym (did.position k))
]

module _ (a : Alsa) (c : Card) (g : Gtk) (gtk : SetsValue g) where
  -- The handler where the partner's slider is at the same position already.
  quiet_handler :
      (fuel ch : ℕ) (s : Console)
      → s.gang ≡ true
      → IsOutGain (s.line_out_adj ch)
      → s.line_out_adj (partner ch) ≡ s.line_out_adj ch
      → line_out_volume_changed a c g (suc fuel) ch s ≡ some (line_out_applied a c ch s)
  unfolding line_out_volume_changed
  quiet_handler fuel ch s ganged within same =
      let s1 = line_out_applied a c ch s in
      let did = line_out_applied-Applied a c ch s in
      let silent : g (s1.line_out_adj (partner ch)) (s1.line_out_adj ch) ≡ none =
        rw (did.position (partner ch), did.position ch, same)
          (gtk (s.line_out_adj ch) (s.line_out_adj ch) within
            ∙ rw (eq_ℤ_refl (s.line_out_adj ch)) refl) in
      silent_end a c (line_out_volume_changed a c g fuel (partner ch)) (partner ch) s1
        (did.gang ∙ ganged) silent

  -- What the partner's handler starts from.
  abbrev partner_set : (ch : ℕ) → Console → Console
  partner_set ch s =
      let s1 = line_out_applied a c ch s in
      record s1 { line_out_adj = set_at s1.line_out_adj (partner ch) (s.line_out_adj ch) }

  louder_handler :
      (ch : ℕ) (s : Console)
      → s.gang ≡ true
      → IsOutGain (s.line_out_adj ch)
      → eq_ℤ (s.line_out_adj (partner ch)) (s.line_out_adj ch) ≡ false
      → line_out_volume_changed a c g 2 ch s
        ≡ some (line_out_applied a c (partner ch) (partner_set ch s))
  unfolding line_out_volume_changed
  louder_handler ch s ganged within differ =
      let other = partner ch in
      let v = s.line_out_adj ch in
      let s1 = line_out_applied a c ch s in
      let did = line_out_applied-Applied a c ch s in
      let moves : g (s1.line_out_adj other) (s1.line_out_adj ch) ≡ some v =
        rw (did.position other, did.position ch)
          (gtk (s.line_out_adj other) v within ∙ rw differ refl) in
      let set : set_at s1.line_out_adj other v other ≡ v = set_at_self s1.line_out_adj other v in
      let same : set_at s1.line_out_adj other v (partner other)
          ≡ set_at s1.line_out_adj other v other =
        ap (set_at s1.line_out_adj other v) (partner-partner ch)
        ∙ set_at_ne s1.line_out_adj other ch v (λ e. partner_ne ch (sym e))
        ∙ did.position ch
        ∙ sym set in
      moving_end a c (line_out_volume_changed a c g 1 other) other s1 v (did.gang ∙ ganged) moves
      ∙ quiet_handler 0 other (partner_set ch s) (did.gang ∙ ganged)
          (subst IsOutGain (sym set) within) same

  -- The two ways: the partner's slider stays, or it moves.
  stays-Paired :
      (ch : ℕ) (s : Console)
      → InStep ch s
      → s.line_out_adj (partner ch) ≡ s.line_out_adj ch
      → Paired ch s (line_out_applied a c ch s)
  stays-Paired ch s in_step same =
      let did = line_out_applied-Applied a c ch s in
      record {
        position = did.position (partner ch) ∙ same;
        own_position = did.position ch;
        in_step = Applied-InStep ch s (line_out_applied a c ch s) did in_step;
        others = λ k _ _. did.position k;
      }

  moves-Paired :
      (ch : ℕ) (s : Console)
      → InStep ch s
      → Paired ch s (line_out_applied a c (partner ch) (partner_set ch s))
  moves-Paired ch s in_step =
      let other = partner ch in
      let v = s.line_out_adj ch in
      let s1 = line_out_applied a c ch s in
      let did = line_out_applied-Applied a c ch s in
      let did2 = line_out_applied-Applied a c other (partner_set ch s) in
      let still : (k : ℕ) → k ≢ other → set_at s1.line_out_adj other v k ≡ s1.line_out_adj k =
        λ k ne. set_at_ne s1.line_out_adj other k v (λ e. ne (sym e)) in
      record {
        position = did2.position other ∙ set_at_self s1.line_out_adj other v;
        own_position = did2.position ch ∙ still ch (partner_ne ch) ∙ did.position ch;
        in_step =
            Applied-InStep other (partner_set ch s) (line_out_applied a c other (partner_set ch s))
              did2 (λ k ne. Applied-InStep ch s s1 did in_step k ∙ ap invert (sym (still k ne)));
        others = λ k _ ne. did2.position k ∙ still k ne ∙ did.position k;
      }

  -- Once its slider was moved within its bounds, with the button on and every other slider showing
  -- its gain, the handler of a line-out slider comes to an end, with at most one call of the
  -- partner's inside it: the two sliders of the pair are equal then, each slider shows its gain,
  -- and no other slider has moved. GTK sets a slider as it is documented to.
  pub line_out_volume_changed-Paired :
      (ch : ℕ) (s : Console)
      → s.gang ≡ true
      → IsOutGain (s.line_out_adj ch)
      → InStep ch s
      → (s' : Console) × (line_out_volume_changed a c g 2 ch s ≡ some s') × Paired ch s s'
  line_out_volume_changed-Paired ch s ganged within in_step =
      let v = s.line_out_adj ch in
      let other = partner ch in
      let s1 = line_out_applied a c ch s in
      let did = line_out_applied-Applied a c ch s in
      elim (Bool-cases (eq_ℤ (s.line_out_adj other) v)) [
        | inl same ↦
            let equal = (eq_ℤ_iff (s.line_out_adj other) v).0 same in
            (s1, quiet_handler 1 ch s ganged within equal, stays-Paired ch s in_step equal)
        | inr differ ↦ (
          line_out_applied a c other (partner_set ch s),
          louder_handler ch s ganged within differ,
          moves-Paired ch s in_step,
        )
      ]
