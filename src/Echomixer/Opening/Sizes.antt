-- ===== src/Echomixer/Opening/Sizes.antt =====
-- The sizes that OpenControls takes from the dimensions of an element: of the two mixer tables and of
-- the meters.
use dreamscape.Base.{
  ℕ, ◌≡◌, inl, inr, refl, Bool, true, false, not, ◌&&◌, Option, none, some, List, [], ◌∷◌, ◌==◌,
  if◌then◌else◌, Bool-cases,
}
use dreamscape.Echomixer.Elements.{
  Element, Control, index, monitor_mixer, virtual_mixer, pcm_playback, line_playback, line_capture,
  nominal_playback, nominal_capture, digital_mode, clock_source, spdif_mode, phantom_power,
  automute, meters_switch, meters, channels_info,
}
use dreamscape.Echomixer.Opening.Endings.{Gives, read-Gives}
use dreamscape.Echomixer.Opening.{Scan, read_items, add_control}
use dreamscape.Echomixer.Opening.Steps.{keeps_first, is_control}

pub data Size : Type 0 where
  mixer_rows mixer_columns vmixer_rows vmixer_columns streams numbers types : Size

-- The element that a size is of, and which of its dimensions it is: outputs come before inputs.
abbrev pub owner : Size → Control
owner mixer_rows = monitor_mixer
owner mixer_columns = monitor_mixer
owner vmixer_rows = virtual_mixer
owner vmixer_columns = virtual_mixer
owner streams = meters
owner numbers = meters
owner types = meters

abbrev pub dimension_of : Size → Element → ℕ
dimension_of mixer_rows e = e.dimension 0
dimension_of mixer_columns e = e.dimension 1
dimension_of vmixer_rows e = e.dimension 0
dimension_of vmixer_columns e = e.dimension 1
dimension_of streams e = e.dimension 0
dimension_of numbers e = e.dimension 1
dimension_of types e = e.dimension 2

-- The variable of the scan that holds it.
abbrev pub size_of : Size → Scan → ℕ
size_of mixer_rows r = r.mixer_outputs
size_of mixer_columns r = r.mixer_inputs
size_of vmixer_rows r = r.vmixer_outputs
size_of vmixer_columns r = r.vmixer_inputs
size_of streams r = r.meters_streams
size_of numbers r = r.meters_number
size_of types r = r.meters_types

unfoldable pub first_element : Control → List Element → Option Element
first_element k [] = none
first_element k (e ∷ es) = if is_control k e then some e else first_element k es

abbrev pub later_or : Option Element → Option Element → Option Element
later_or none earlier = earlier
later_or (some e) earlier = some e

unfoldable pub last_element : Control → List Element → Option Element
last_element k [] = none
last_element k (e ∷ es) = later_or (last_element k es) (if is_control k e then some e else none)

abbrev pub dimension_or : Size → Option Element → ℕ → ℕ
dimension_or q none old = old
dimension_or q (some e) old = dimension_of q e

-- A dimension of the first or the last active element of the size's name; 0 if there is none.
abbrev pub wanted_size : Size → List Element → ℕ
wanted_size q es =
    dimension_or q
      (if keeps_first (owner q) then first_element (owner q) es else last_element (owner q) es) 0

-- A size after an element of the control k, the id of that control being `id`.
abbrev pub taken_size : (first own : Bool) (id old new : ℕ) → ℕ
taken_size first own id old new = if own then (if first && not (id == 0) then old else new) else old

abbrev pub SizesTaken : Control → Element → Scan → Scan → Type 0
SizesTaken k e r r' =
    (q : Size)
    → size_of q r'
      ≡ taken_size (keeps_first k) (index k == index (owner q)) (r.ids k) (size_of q r)
          (dimension_of q e)

pub each_size :
    (P : Size → Type 0)
    → P mixer_rows
    → P mixer_columns
    → P vmixer_rows
    → P vmixer_columns
    → P streams
    → P numbers
    → P types
    → (q : Size) → P q
each_size P a b c d f g h mixer_rows = a
each_size P a b c d f g h mixer_columns = b
each_size P a b c d f g h vmixer_rows = c
each_size P a b c d f g h vmixer_columns = d
each_size P a b c d f g h streams = f
each_size P a b c d f g h numbers = g
each_size P a b c d f g h types = h

pub add_control-SizesTaken :
    (k : Control) (e : Element) (r : Scan) → Gives (SizesTaken k e r) (add_control k e r)
unfolding add_control index
add_control-SizesTaken monitor_mixer e r = elim (Bool-cases (r.ids monitor_mixer == 0)) [
  | inl unset ↦ rw unset (each_size _ refl refl refl refl refl refl refl)
  | inr known ↦ rw known (each_size _ refl refl refl refl refl refl refl)
]
add_control-SizesTaken virtual_mixer e r = elim (Bool-cases (r.ids virtual_mixer == 0)) [
  | inl unset ↦ rw unset (each_size _ refl refl refl refl refl refl refl)
  | inr known ↦ rw known (each_size _ refl refl refl refl refl refl refl)
]
add_control-SizesTaken pcm_playback e r = each_size _ refl refl refl refl refl refl refl
add_control-SizesTaken line_playback e r = each_size _ refl refl refl refl refl refl refl
add_control-SizesTaken line_capture e r = each_size _ refl refl refl refl refl refl refl
add_control-SizesTaken nominal_playback e r = each_size _ refl refl refl refl refl refl refl
add_control-SizesTaken nominal_capture e r = each_size _ refl refl refl refl refl refl refl
add_control-SizesTaken digital_mode e r =
    read-Gives _ (read_items true e 0 e.items r.dmode_names) _
      (λ n. each_size _ refl refl refl refl refl refl refl)
add_control-SizesTaken clock_source e r =
    read-Gives _ (read_items true e 0 e.items r.clocksrc_names) _
      (λ n. each_size _ refl refl refl refl refl refl refl)
add_control-SizesTaken spdif_mode e r =
    read-Gives _ (read_items false e 0 e.items r.spdifmode_names) _
      (λ n. each_size _ refl refl refl refl refl refl refl)
add_control-SizesTaken phantom_power e r = each_size _ refl refl refl refl refl refl refl
add_control-SizesTaken automute e r = each_size _ refl refl refl refl refl refl refl
add_control-SizesTaken meters_switch e r = each_size _ refl refl refl refl refl refl refl
add_control-SizesTaken meters e r = each_size _ refl refl refl refl refl refl refl
add_control-SizesTaken channels_info e r = each_size _ refl refl refl refl refl refl refl
