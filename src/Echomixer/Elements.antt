-- ===== src/Echomixer/Elements.antt =====
-- The elements of a card that OpenControls of echomixer.c knows, by their names.
use dreamscape.Base.{
  ℕ, Bool, Option, none, some, List, codes, ◌==◌, ◌≡◌, refl, sym, ap, ◌∙◌, if◌then◌else◌,
}
use dreamscape.Base.Scan.{same}

-- `item_fails` and `item_name` are what the call for an item returns and what the name is after it;
-- the inner arrays of the program have place for 16 items.
pub record Element : Type 0 where
  pub name : List ℕ
  pub numid : ℕ
  pub info_fails : Bool
  pub inactive : Bool
  pub dimension : ℕ → ℕ
  pub items : ℕ
  pub item_fails : ℕ → Bool
  pub item_name : ℕ → List ℕ

-- The elements that the program knows, in the order of its tests.
pub data Control : Type 0 where
  monitor_mixer virtual_mixer pcm_playback line_playback line_capture nominal_playback : Control
  nominal_capture digital_mode clock_source spdif_mode phantom_power automute : Control
  meters_switch meters channels_info : Control

unfoldable pub control_of : (name : List ℕ) → Option Control
control_of name =
    if same name (codes "Monitor Mixer Volume")
    then some monitor_mixer
    else if same name (codes "VMixer Volume")
    then some virtual_mixer
    else if same name (codes "PCM Playback Volume")
    then some pcm_playback
    else if same name (codes "Line Playback Volume")
    then some line_playback
    else if same name (codes "Line Capture Volume")
    then some line_capture
    else if same name (codes "Line Playback Switch (-10dBV)")
    then some nominal_playback
    else if same name (codes "Line Capture Switch (-10dBV)")
    then some nominal_capture
    else if same name (codes "Digital mode Switch")
    then some digital_mode
    else if same name (codes "Sample Clock Source")
    then some clock_source
    else if same name (codes "S/PDIF mode Switch")
    then some spdif_mode
    else if same name (codes "Phantom power Switch")
    then some phantom_power
    else if same name (codes "Digital Capture Switch (automute)")
    then some automute
    else if same name (codes "VU-meters Switch")
    then some meters_switch
    else if same name (codes "VU-meters")
    then some meters
    else if same name (codes "Channels info")
    then some channels_info
    else none

unfoldable pub index : Control → ℕ
index monitor_mixer = 0
index virtual_mixer = 1
index pcm_playback = 2
index line_playback = 3
index line_capture = 4
index nominal_playback = 5
index nominal_capture = 6
index digital_mode = 7
index clock_source = 8
index spdif_mode = 9
index phantom_power = 10
index automute = 11
index meters_switch = 12
index meters = 13
index channels_info = 14

abbrev control_at : ℕ → Control
control_at n =
    if n == 0
    then monitor_mixer
    else if n == 1
    then virtual_mixer
    else if n == 2
    then pcm_playback
    else if n == 3
    then line_playback
    else if n == 4
    then line_capture
    else if n == 5
    then nominal_playback
    else if n == 6
    then nominal_capture
    else if n == 7
    then digital_mode
    else if n == 8
    then clock_source
    else if n == 9
    then spdif_mode
    else if n == 10
    then phantom_power
    else if n == 11
    then automute
    else if n == 12
    then meters_switch
    else if n == 13
    then meters
    else channels_info

control_at-index : (k : Control) → control_at (index k) ≡ k
unfolding index
control_at-index monitor_mixer = refl
control_at-index virtual_mixer = refl
control_at-index pcm_playback = refl
control_at-index line_playback = refl
control_at-index line_capture = refl
control_at-index nominal_playback = refl
control_at-index nominal_capture = refl
control_at-index digital_mode = refl
control_at-index clock_source = refl
control_at-index spdif_mode = refl
control_at-index phantom_power = refl
control_at-index automute = refl
control_at-index meters_switch = refl
control_at-index meters = refl
control_at-index channels_info = refl

pub index-injective : (k j : Control) → index k ≡ index j → k ≡ j
index-injective k j e = sym (control_at-index k) ∙ (ap control_at e ∙ control_at-index j)
