-- ===== src/Echomixer/Opening/Chosen.antt =====
-- The sizes through the whole scan of OpenControls: those of the first or the last element of a name.
use dreamscape.Base.{
  ℕ, ◌≡◌, ◌≢◌, inl, inr, refl, ◌∙◌, subst, List, [], ◌∷◌, ◌==◌, if◌then◌else◌, Bool-cases,
  Option-cases, ==_cases, ==_ne,
}
use dreamscape.Echomixer.{Card}
use dreamscape.Echomixer.Elements.{Element, Control, control_of, index, index-injective}
use dreamscape.Echomixer.Opening.Endings.{convert, Gives}
use dreamscape.Echomixer.Opening.{Scan, initial_scan, set_nominal, add_control, add_element}
use dreamscape.Echomixer.Opening.Steps.{keeps_first, is_control, next_id}
use dreamscape.Echomixer.Opening.Sizes.{
  Size, owner, dimension_of, size_of, first_element, last_element, dimension_or, wanted_size,
  taken_size, each_size, add_control-SizesTaken,
}

-- A size after an element; `id` is what its owner's id is before.
abbrev next_size : Size → Element → (id old : ℕ) → ℕ
next_size q e id old =
    taken_size (keeps_first (owner q)) (is_control (owner q) e) id old (dimension_of q e)

abbrev pub Resized : Element → Scan → Scan → Type 0
Resized e r r' = (q : Size) → size_of q r' ≡ next_size q e (r.ids (owner q)) (size_of q r)

-- `taken` speaks of the control k; where the indices are equal that is the owner itself.
resized :
    (k j : Control) (r : Scan) (x old new : ℕ)
    → x ≡ taken_size (keeps_first k) (index k == index j) (r.ids k) old new
    → x ≡ taken_size (keeps_first j) (index k == index j) (r.ids j) old new
resized k j r x old new taken = elim (==_cases (index k) (index j)) [
  | inl e ↦
      subst (λ i. x ≡ taken_size (keeps_first i) (index k == index j) (r.ids i) old new)
        (index-injective k j e) taken
  | inr ne ↦ taken ∙ rw (==_ne (index k) (index j) ne) refl
]

pub add_element-Resized : (e : Element) (r : Scan) → Gives (Resized e r) (add_element e r)
add_element-Resized e r = elim (Bool-cases e.info_fails) [
  | inl fails ↦ rw fails _
  | inr fine ↦ elim (Bool-cases e.inactive) [
    | inl off ↦ rw (fine, off) (λ q. refl)
    | inr on ↦ elim (Option-cases (control_of e.name)) [
      | inl unknown ↦ rw (fine, on, unknown) (λ q. rw unknown refl)
      | inr (k, known) ↦
          simp (fine, on, known)
            (convert _ _ _ _ (add_control k e r) (add_control-SizesTaken k e r)
              (λ r' taken q.
                simp (on, known)
                  (resized k (owner q) r (size_of q r') (size_of q r) (dimension_of q e) (taken q)))
              (λ u. u) (λ u. u) (λ u. u))
    ]
  ]
]

-- A size after some elements, from what its owner's id and the size itself are before.
abbrev pub size_after : Size → List Element → (id old : ℕ) → ℕ
size_after q es id old =
    if keeps_first (owner q)
    then (if id == 0 then dimension_or q (first_element (owner q) es) old else old)
    else dimension_or q (last_element (owner q) es) old

pub size_after-next :
    (q : Size) (e : Element) (es : List Element) (id old : ℕ)
    → e.numid ≢ 0
    → size_after q es (next_id (owner q) e id) (next_size q e id old) ≡ size_after q (e ∷ es) id old
unfolding first_element last_element
size_after-next q e es id old numbered = elim (Bool-cases (keeps_first (owner q))) [
  | inl first ↦ elim (Bool-cases (is_control (owner q) e)) [
    | inl own ↦ elim (==_cases id 0) [
      | inl unset ↦ rw (first, own, unset, ==_ne e.numid 0 numbered) refl
      | inr set ↦ rw (first, own, ==_ne id 0 set, ==_ne id 0 set) refl
    ]
    | inr other ↦ rw (first, other) refl
  ]
  | inr last ↦ elim (Bool-cases (is_control (owner q) e)) [
    | inl own ↦ elim (Option-cases (last_element (owner q) es)) [
      | inl nothing ↦ rw (last, own, nothing) refl
      | inr (d, later) ↦ rw (last, own, later) refl
    ]
    | inr other ↦ elim (Option-cases (last_element (owner q) es)) [
      | inl nothing ↦ rw (last, other, nothing) refl
      | inr (d, later) ↦ rw (last, other, later) refl
    ]
  ]
]

pub no_sizes : (q : Size) (id old : ℕ) → old ≡ size_after q [] id old
unfolding first_element last_element
no_sizes q id old = elim (Bool-cases (keeps_first (owner q))) [
  | inl first ↦
      rw first (elim (Bool-cases (id == 0)) [ inl unset ↦ rw unset refl | inr set ↦ rw set refl ])
  | inr last ↦ rw last refl
]

pub first_sizes :
    (q : Size) (es : List Element)
    → size_after q es (initial_scan.ids (owner q)) (size_of q initial_scan) ≡ wanted_size q es
unfolding initial_scan
first_sizes q es =
    each_size (λ q. size_after q es 0 (size_of q initial_scan) ≡ wanted_size q es) refl refl refl
      refl refl refl refl q

pub size_of-set_nominal :
    (q : Size) (c : Card) (r : Scan) → size_of q (set_nominal c r) ≡ size_of q r
size_of-set_nominal q c r =
    each_size (λ q. size_of q (set_nominal c r) ≡ size_of q r) refl refl refl refl refl refl refl q
