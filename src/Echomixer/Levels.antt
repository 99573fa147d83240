-- ===== src/Echomixer/Levels.antt =====
-- The buttons of echomixer.c for the nominal levels, of the inputs and of the outputs.
use dreamscape.Base.{
  ℕ, zero, suc, ◌-◌, ◌≡◌, ◌≢◌, inl, inr, refl, sym, ap, ◌∙◌, subst, Bool, true, false, not, ◌&&◌,
  Option, none, some, ltb, ◌==◌, if◌then◌else◌, Bool-cases, ==_cases, ==_refl, ==_ne,
}
use dreamscape.Base.Int.{ℤ, pos}
use dreamscape.Echomixer.{Row, set_at, set_at_self, set_at_ne, partner, Log, Alsa, Card}
use dreamscape.Echomixer.Volumes.{write_channel}
use dreamscape.Echomixer.Volumes.Ganged.{partner-partner, partner_ne}

-- `id` and `level` of a struct NominalLevelControl_s, and whether each of its buttons is active.
pub record Nominal : Type 0 where
  pub numid : ℕ
  pub level : Row
  pub active : ℕ → Bool

abbrev pub level_of : (active : Bool) → ℤ
level_of true = pos 0
level_of false = pos 1

abbrev pub set_active : (ℕ → Bool) → ℕ → Bool → ℕ → Bool
set_active active i b j = if i == j then b else active j

abbrev pub differ : Bool → Bool → Bool
differ true b = not b
differ false b = b

module _ (a : Alsa) (c : Card) (gang : Bool) where
  -- What the handler does of its own.
  pub level_applied : (channel : ℕ) → Nominal × Log → Nominal × Log
  level_applied channel (n, t) =
      let value = level_of (n.active channel) in
      (record n { level = set_at n.level channel value }, write_channel a c n.numid channel value t)

  -- `gtk_toggle_button_set_active` calls the handler where it changes the button.
  pub side_toggled : (fuel channel : ℕ) → Nominal × Log → Option (Nominal × Log)
  unfolding level_applied
  side_toggled zero channel (n, t) = none
  side_toggled (suc fuel) channel (n, t) =
      let other = partner channel in
      let (n1, t1) = level_applied channel (n, t) in
      let rest =
        side_toggled fuel other
          (record n1 { active = set_active n1.active other (n1.active channel) }, t1) in
      if gang && differ (n1.active other) (n1.active channel) then rest else some (n1, t1)

  abbrev pub back_in : Nominal → Option (Nominal × Log) → Option (Nominal × Nominal × Log)
  back_in outs none = none
  back_in outs (some (ins, t)) = some (ins, outs, t)

  abbrev pub back_out : Nominal → Option (Nominal × Log) → Option (Nominal × Nominal × Log)
  back_out ins none = none
  back_out ins (some (outs, t)) = some (ins, outs, t)

  pub nominal_level_toggled :
      (fuel ch : ℕ) → Nominal × Nominal × Log → Option (Nominal × Nominal × Log)
  unfolding side_toggled
  nominal_level_toggled fuel ch (ins, outs, t) =
      if ltb ch 32
      then back_in outs (side_toggled fuel ch (ins, t))
      else back_out ins (side_toggled fuel (ch - 32) (outs, t))

-- Every level is what its button says, save perhaps that of one channel.
abbrev pub Agrees : (channel : ℕ) → Nominal → Type 0
Agrees channel n = (k : ℕ) → channel ≢ k → n.level k ≡ level_of (n.active k)

pub record Toggled (channel : ℕ) (n n' : Nominal) : Type 0 where
  pub agrees : (k : ℕ) → n'.level k ≡ level_of (n'.active k)
  pub paired : n'.active (partner channel) ≡ n.active channel
  pub own : n'.active channel ≡ n.active channel

differ_self : (b : Bool) → differ b b ≡ false
differ_self true = refl
differ_self false = refl

same_of_differ : (x y : Bool) → differ x y ≡ false → x ≡ y
same_of_differ true true e = refl
same_of_differ true false e = absurd (cc)
same_of_differ false true e = absurd (cc)
same_of_differ false false e = refl

module _ (a : Alsa) (c : Card) where
  applied-Agrees :
      (gang : Bool) (channel : ℕ) (n : Nominal) (t : Log)
      → Agrees channel n
      → (k : ℕ) → (level_applied a c gang channel (n, t)).0.level k ≡ level_of (n.active k)
  unfolding level_applied
  applied-Agrees gang channel n t agrees k = elim (==_cases channel k) [
    | inl e ↦
        subst (λ x. set_at n.level channel (level_of (n.active channel)) x ≡ level_of (n.active x))
          e (set_at_self n.level channel _)
    | inr ne ↦ set_at_ne n.level channel k _ ne ∙ agrees k ne
  ]

  -- With Gang on, the two handlers of a pair come to an end, and both buttons are then as the one that
  -- was pressed, each level being what its button says.
  pub side_toggled-Toggled :
      (fuel channel : ℕ) (n : Nominal) (t : Log)
      → Agrees channel n
      → (n' : Nominal) × (t' : Log) × (side_toggled a c true (suc (suc fuel)) channel (n, t)
          ≡ some (n', t'))
        × Toggled channel n n'
  unfolding side_toggled level_applied
  side_toggled-Toggled fuel channel n t agrees =
      let p = partner channel in
      let v = n.active channel in
      let active1 = set_active n.active p v in
      let n1 = (level_applied a c true channel (n, t)).0 in
      let at_partner : active1 p ≡ v = rw (==_refl p) refl in
      let at_channel : active1 channel ≡ v =
        rw (==_ne p channel (λ e. partner_ne channel (sym e))) refl in
      let at_back : active1 (partner p) ≡ v = ap active1 (partner-partner channel) ∙ at_channel in
      let quiet : differ (active1 (partner p)) (active1 p) ≡ false =
        rw (at_back, at_partner, differ_self v) refl in
      let agrees1 = applied-Agrees true channel n t agrees in
      elim (Bool-cases (differ (n.active p) v)) [
        | inl apart ↦
            rw (apart, quiet)
              (
                _,
                _,
                refl,
                record {
                  agrees =
                      applied-Agrees true p (record n1 { active = active1 }) t
                        (λ k ne. agrees1 k ∙ ap level_of (sym (rw (==_ne p k ne) refl)));
                  paired = at_partner;
                  own = at_channel;
                },
              )
        | inr same ↦ rw same (
          _,
          _,
          refl,
          record { agrees = agrees1; paired = same_of_differ (n.active p) v same; own = refl },
        )
      ]
