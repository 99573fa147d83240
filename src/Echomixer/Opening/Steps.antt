-- ===== src/Echomixer/Opening/Steps.antt =====
-- One element in OpenControls: what it sets, and why the scan does not go on.
use dreamscape.Base.{
  ℕ, zero, suc, ◌+◌, ◌≤◌, ◌<◌, ◌≡◌, ◌⊎◌, inl, inr, refl, ap, ◌∙◌, subst, Bool, true, false, not,
  ◌&&◌, Option, none, some, leb, ◌==◌, if◌then◌else◌, arith, Bool-cases, ==_cases, ==_refl, ==_ne,
}
use dreamscape.Echomixer.Elements.{
  Element, Control, control_of, index, monitor_mixer, virtual_mixer, pcm_playback, line_playback,
  line_capture, nominal_playback, nominal_capture, digital_mode, clock_source, spdif_mode,
  phantom_power, automute, meters_switch, meters, channels_info, index-injective,
}
use dreamscape.Echomixer.Opening.Endings.{Ends, and_then-Ends, convert}
use dreamscape.Echomixer.Opening.{
  set_id, Scan, done, and_then, read_items, add_control, add_element, Names,
}

-- Of the mixers the first element is taken, of all else the last.
abbrev pub keeps_first : Control → Bool
keeps_first monitor_mixer = true
keeps_first virtual_mixer = true
keeps_first _ = false

abbrev pub is_known : Control → Option Control → Bool
is_known k none = false
is_known k (some j) = index j == index k

-- An active element of that control.
abbrev pub is_control : Control → Element → Bool
is_control k e = not e.inactive && is_known k (control_of e.name)

-- The id after an element that is the control's.
abbrev pub taken_id : (first : Bool) → (old numid : ℕ) → ℕ
taken_id first old numid = if first && not (old == 0) then old else numid

-- What is known of the scan after an element of the control k.
abbrev Taken : Control → Element → Scan → Scan → Type 0
Taken k e r r' =
    (j : Control)
    → r'.ids j
      ≡ (if index k == index j then taken_id (keeps_first k) (r.ids k) e.numid else r.ids j)

-- An element whose id is kept, in what the source writes as a test around the assignments.
kept_first :
    (k : Control) (r r' : Scan) (numid : ℕ)
    → r'.ids ≡ set_id r.ids k numid
    → (j : Control)
    → (if r.ids k == 0 then r' else r).ids j
      ≡ (if index k == index j then taken_id true (r.ids k) numid else r.ids j)
kept_first k r r' numid puts j = elim (Bool-cases (r.ids k == 0)) [
  | inl unset ↦ rw unset (ap (λ ids. ids j) puts)
  | inr known ↦ rw known (elim (==_cases (index k) (index j)) [
    | inl e ↦ rw (index-injective k j e, ==_refl (index j)) refl
    | inr ne ↦ rw (==_ne (index k) (index j) ne) refl
  ])
]

-- The controls whose items are read, and those of which each item has to have a name.
abbrev pub has_items : Control → Bool
has_items digital_mode = true
has_items clock_source = true
has_items spdif_mode = true
has_items _ = false

abbrev pub is_strict : Control → Bool
is_strict digital_mode = true
is_strict clock_source = true
is_strict _ = false

-- ALSA gives no name for one of the items.
abbrev pub BadItem : Element → (items : ℕ) → Type 0
BadItem e items = (item : ℕ) × (item < items) × (e.item_fails item ≡ true)

-- Why the scan ends at an element, which is active and of a control whose items are read: an item
-- without a name, or too many of them.
abbrev pub IsUnnamed : Element → Type 0
IsUnnamed e = (k : Control) × (is_control k e ≡ true) × (is_strict k ≡ true) × BadItem e e.items

abbrev pub IsCrowded : Element → Type 0
IsCrowded e = (k : Control) × (is_control k e ≡ true) × (has_items k ≡ true) × (16 < e.items)

and_true : (a b : Bool) → (a && b) ≡ true → (a ≡ true) × (b ≡ true)
and_true true b e = (refl, e)
and_true false b e = absurd (cc)

read_items-Ends :
    (strict : Bool) (e : Element) (item rounds total : ℕ) (names : Names)
    → item + rounds ≡ total
    → item ≤ 16
    → Ends
        (λ names'. total ≤ 16)
        ⊥
        ((strict ≡ true) × BadItem e total)
        (16 < total)
        (read_items strict e item rounds names)
unfolding read_items
read_items-Ends strict e item zero total names sum within = omega arith
read_items-Ends strict e item (suc rounds) total names sum within =
    elim (Bool-cases (strict && e.item_fails item)) [
      | inl fails ↦
          let (named, failed) = and_true strict (e.item_fails item) fails in
          rw fails (named, (item, omega arith, failed))
      | inr fine ↦ elim (Bool-cases (leb 16 item)) [
        | inl full ↦ rw (fine, full) (ground arith)
        | inr room ↦
            rw (fine, room)
              (read_items-Ends strict e (item + 1) rounds total _ (omega arith) (ground arith))
      ]
    ]

-- An element with items.
items-Taken :
    (strict : Bool) (k : Control) (e : Element) (r : Scan) (names : Names) (f : Names → Scan)
    → keeps_first k ≡ false
    → has_items k ≡ true
    → ((n : Names) → (f n).ids ≡ set_id r.ids k e.numid)
    → Ends
        (Taken k e r)
        ⊥
        ((strict ≡ true) × BadItem e e.items)
        ((has_items k ≡ true) × (16 < e.items))
        (and_then (read_items strict e 0 e.items names) (λ n. done (f n)))
items-Taken strict k e r names f other listed puts =
    and_then-Ends _ _ _ _ (read_items strict e 0 e.items names) (λ n. done (f n))
      (convert _ _ _ _ (read_items strict e 0 e.items names)
        (read_items-Ends strict e 0 e.items e.items names (omega arith) (omega arith))
        (λ n fits. fits) (λ never. never) (λ bad. bad) (λ many. (listed, many)))
      (λ n fits j. rw other (ap (λ ids. ids j) (puts n)))

add_control-Taken :
    (k : Control) (e : Element) (r : Scan)
    → Ends
        (Taken k e r)
        ⊥
        ((is_strict k ≡ true) × BadItem e e.items)
        ((has_items k ≡ true) × (16 < e.items))
        (add_control k e r)
unfolding add_control
add_control-Taken monitor_mixer e r = kept_first monitor_mixer r _ e.numid refl
add_control-Taken virtual_mixer e r = kept_first virtual_mixer r _ e.numid refl
add_control-Taken pcm_playback e r = λ j. refl
add_control-Taken line_playback e r = λ j. refl
add_control-Taken line_capture e r = λ j. refl
add_control-Taken nominal_playback e r = λ j. refl
add_control-Taken nominal_capture e r = λ j. refl
add_control-Taken digital_mode e r =
    items-Taken true digital_mode e r r.dmode_names _ refl refl (λ n. refl)
add_control-Taken clock_source e r =
    items-Taken true clock_source e r r.clocksrc_names _ refl refl (λ n. refl)
add_control-Taken spdif_mode e r =
    items-Taken false spdif_mode e r r.spdifmode_names _ refl refl (λ n. refl)
add_control-Taken phantom_power e r = λ j. refl
add_control-Taken automute e r = λ j. refl
add_control-Taken meters_switch e r = λ j. refl
add_control-Taken meters e r = λ j. refl
add_control-Taken channels_info e r = λ j. refl

-- The id of a control after an element.
abbrev pub next_id : Control → Element → ℕ → ℕ
next_id j e old = if is_control j e then taken_id (keeps_first j) old e.numid else old

abbrev pub Stepped : Element → Scan → Scan → Type 0
Stepped e r r' = (j : Control) → r'.ids j ≡ next_id j e (r.ids j)

-- `taken` is on the id of k; where the indices are equal that is the control itself.
stepped :
    (k j : Control) (r r' : Scan) (numid : ℕ)
    → r'.ids j ≡ (if index k == index j then taken_id (keeps_first k) (r.ids k) numid else r.ids j)
    → r'.ids j ≡ (if index k == index j then taken_id (keeps_first j) (r.ids j) numid else r.ids j)
stepped k j r r' numid taken = elim (==_cases (index k) (index j)) [
  | inl e ↦
      subst
        (λ i.
          r'.ids j
          ≡ (if index k == index j then taken_id (keeps_first i) (r.ids i) numid else r.ids j))
        (index-injective k j e) taken
  | inr ne ↦ taken ∙ rw (==_ne (index k) (index j) ne) refl
]

unknown_or : (control : Option Control) → (control ≡ none) ⊎ ((k : Control) × (control ≡ some k))
unknown_or none = inl refl
unknown_or (some k) = inr (k, refl)

pub add_element-Stepped :
    (e : Element) (r : Scan)
    → Ends (Stepped e r) (e.info_fails ≡ true) (IsUnnamed e) (IsCrowded e) (add_element e r)
add_element-Stepped e r = elim (Bool-cases e.info_fails) [
  | inl fails ↦ rw fails refl
  | inr fine ↦ elim (Bool-cases e.inactive) [
    | inl off ↦ rw (fine, off) (λ j. refl)
    | inr on ↦ elim (unknown_or (control_of e.name)) [
      | inl unknown ↦ rw (fine, on, unknown) (λ j. rw unknown refl)
      | inr (k, known) ↦
          simp (fine, on, known)
            (convert _ _ _ _ (add_control k e r) (add_control-Taken k e r)
              (λ r' taken j. rw (on, known) (stepped k j r r' e.numid (taken j)))
              (λ never. absurd never) (λ (named, bad). (k, ==_refl (index k), named, bad))
              (λ (listed, many). (k, ==_refl (index k), listed, many)))
    ]
  ]
]
