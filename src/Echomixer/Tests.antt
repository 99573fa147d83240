-- ===== src/Echomixer/Tests.antt =====
-- The theorems on echomixer.c at a small card: four inputs and outputs, no line-out control.
use Prim.Native.String.{String}
use dreamscape.Base.{
  ℕ, zero, suc, ==_ne, ◌≡◌, refl, List, true, false, none, some, [], ◌∷◌, codes, ◌==◌,
  if◌then◌else◌, arith,
}
use dreamscape.Base.Int.{pos, negsuc, eq_ℤ, ◌+ℤ◌, ◌-ℤ◌}
use dreamscape.Echomixer.{Iface, Alsa, Card, Console, Gtk, cell_id, elem_write, zeros}
use dreamscape.Echomixer.Gain.{invert, clamp_output_volume, add_db}
use dreamscape.Echomixer.Volumes.{line_out_volume_changed, monitor_volume_changed, emulated}
use dreamscape.Echomixer.Volumes.Ganged.{InStep, Paired}
use dreamscape.Echomixer.Volumes.Heard.{InLine, monitor_volume_changed-InLine}
use dreamscape.Echomixer.Volumes.Emulation.{Apart, line_out_volume_changed-Settled}
use dreamscape.Echomixer.Meters.Windows.{
  start, later, vu_toggled, gm_toggled, vu_deleted, Metered, Closed, Reach-Metered, step,
}
use dreamscape.Echomixer.Meters.{initial_meters, mainwindow_delete}
use dreamscape.Echomixer.Controls.{set_enum}
use dreamscape.Echomixer.Switches.{check_inputs, digital_mode_activate}
use dreamscape.Echomixer.Switches.Clock.{inputs_wanted, check_inputs-wanted}
use dreamscape.Echomixer.Switches.Sections.{IsSelected, digital_mode_activate-IsSelected}
use dreamscape.Echomixer.Elements.{Element}
use dreamscape.Echomixer.Mouse.{Mouse}
use dreamscape.Echomixer.Settings.{
  Settings, Section, line_out, line_in, pcm_out, nominal_out, nominal_in, mixer, vmixer, value_of,
  load_lines, save_lines,
}
use dreamscape.Echomixer.Settings.Lines.{IsKey, IsValue}
use dreamscape.Echomixer.Settings.Restored.{load_lines-save_lines}

abbrev small_card : Card
small_card = record {
  n_in = 2;
  fd_in = 0;
  n_lout = 2;
  fd_out = 0;
  n_pout = 2;
  mixer_id = 10;
  vmixer_id = 0;
  lineout_id = 0;
  pcmout_id = 1;
  linein_id = 2;
  dmode_id = 3;
  clocksrc_id = 4;
  spdifmode_id = 5;
  vuswitch_id = 6;
  vumeters_id = 7;
  channels_id = 8;
  meters_streams = 2;
  meters_number = 4;
  meters_types = 2;
}

-- Every read gives ones, and every write is taken.
abbrev willing : Alsa
willing = record { read_reply = λ t n. some (λ _. pos 1); write_reply = λ t n row. pos 0 }

abbrev gtk : Gtk
gtk p v = if eq_ℤ p v then none else some v

-- All gains 0, and each cell written so.
abbrev told : Console
told = record {
  gang = true;
  auto_clock = pos 0;
  auto_button = true;
  clock_mask = 1;
  clocksrc_val = 3;
  dmode_val = 0;
  spdifmode_val = 0;
  section_inputs = 2;
  section_outputs = 2;
  input = 0;
  output = 1;
  vinput = 0;
  voutput = 0;
  mixer_gain = λ o i. pos 0;
  vmixer_gain = λ o i. pos 0;
  line_out = λ o. pos 0;
  line_in = λ o. pos 0;
  pcm_out = λ o. pos 0;
  mixer_adj = λ o. negsuc 121;
  vmixer_adj = λ o. negsuc 121;
  line_out_adj = λ o. if o == 0 then negsuc 99 else negsuc 121;
  line_in_adj = λ o. pos 0;
  pcm_out_adj = λ o. negsuc 121;
  log =
      elem_write Iface.mixer 10 zeros (pos 0)
      ∷ elem_write Iface.mixer 11 zeros (pos 0)
      ∷ elem_write Iface.mixer 12 zeros (pos 0)
      ∷ elem_write Iface.mixer 13 zeros (pos 0)
      ∷ [];
}

told_InLine : InLine small_card told.line_out told.mixer_gain told.log
unfolding cell_id emulated clamp_output_volume add_db ◌+ℤ◌
told_InLine zero zero h k = refl
told_InLine zero (suc zero) h k = refl
told_InLine zero (suc (suc i)) h k = absurd (omega arith)
told_InLine (suc zero) zero h k = refl
told_InLine (suc zero) (suc zero) h k = refl
told_InLine (suc zero) (suc (suc i)) h k = absurd (omega arith)
told_InLine (suc (suc o)) i h k = absurd (omega arith)

small_card-Apart : Apart small_card
unfolding cell_id
small_card-Apart = record {
  table = omega arith;
  line_out = λ o i h k. omega arith;
  pcm_out = λ o i h k. omega arith;
  vmixer = λ p v o i a b h k. omega arith;
}

told-InStep : InStep 0 told
unfolding invert ◌+ℤ◌ ◌-ℤ◌
told-InStep k ne = rw (==_ne k 0 ne) refl

monitor_volume_changed-InLine_example :
    let s' = monitor_volume_changed willing small_card 0 told in
    InLine small_card s'.line_out s'.mixer_gain s'.log
monitor_volume_changed-InLine_example =
    monitor_volume_changed-InLine willing small_card 0 told (λ t n row. refl) (omega arith)
      (omega arith) (λ on. (omega arith, refl)) told_InLine

line_out_volume_changed-Settled_example :
    (s' : Console) × (line_out_volume_changed willing small_card gtk 2 0 told ≡ some s')
    × Paired 0 told s'
    × InLine small_card s'.line_out s'.mixer_gain s'.log
line_out_volume_changed-Settled_example =
    line_out_volume_changed-Settled willing small_card gtk 0 told (λ t n row. refl) small_card-Apart
      (λ p v h. refl) (omega arith) (omega arith) refl (omega arith, omega arith) told-InStep
      told_InLine

Reach-Metered_example :
    let s =
      step willing small_card vu_deleted
        (step willing small_card gm_toggled (step willing small_card vu_toggled initial_meters)) in
    Metered small_card s × Closed small_card (mainwindow_delete willing small_card s)
Reach-Metered_example =
    Reach-Metered willing small_card (later (later (later start vu_toggled) gm_toggled) vu_deleted)

check_inputs-wanted_example :
    check_inputs willing small_card 5 told
    ≡ inputs_wanted willing small_card 5 told (some (λ _. pos 1))
check_inputs-wanted_example = check_inputs-wanted willing small_card 5 told (omega arith)

digital_mode_activate-IsSelected_example :
    let s' = digital_mode_activate willing small_card gtk (λ _. codes "S/PDIF RCA") 1 told in
    IsSelected willing small_card gtk s'.section_inputs s'.section_outputs s'
unfolding set_enum
digital_mode_activate-IsSelected_example =
    digital_mode_activate-IsSelected willing small_card gtk (λ _. codes "S/PDIF RCA") 1 told
      (omega arith) (omega arith)

abbrev quiet_settings : Settings
quiet_settings = record {
  line_out = λ o. negsuc 11;
  line_in = λ o. pos 3;
  pcm_out = λ o. pos 0;
  nominal_out = λ o. pos 1;
  nominal_in = λ o. pos 0;
  mixer = λ o i. negsuc 127;
  vmixer = λ o i. pos 0;
}

quiet_values :
    (section : Section) (o i : ℕ)
    → IsKey small_card section o i
    → IsValue section (value_of quiet_settings section o i)
quiet_values line_out o i h = omega arith
quiet_values line_in o i h = omega arith
quiet_values pcm_out o i h = omega arith
quiet_values nominal_out o i h = (omega arith, refl)
quiet_values nominal_in o i h = (omega arith, refl)
quiet_values mixer o i h = omega arith
quiet_values vmixer o i h = omega arith

load_lines-save_lines_example :
    (load_lines small_card
        (save_lines small_card true true quiet_settings)
        (record { o = pos 0; i = pos 0; n = pos 0 }, quiet_settings)).1.mixer
      1 0
    ≡ negsuc 127
load_lines-save_lines_example =
    load_lines-save_lines small_card true true quiet_settings quiet_settings
      (record { o = pos 0; i = pos 0; n = pos 0 }) mixer 1 0
      (record {
        inputs = omega arith;
        outputs = omega arith;
        virtual = omega arith;
        digital_in = omega arith;
        digital_out = omega arith;
      })
      quiet_values (omega arith, omega arith, omega arith)

abbrev element : String → (numid size : ℕ) → Element
element name numid size = record {
  name = codes name;
  numid = numid;
  info_fails = false;
  inactive = false;
  dimension = λ d. size;
  items = size;
  item_fails = λ item. false;
  item_name = λ item. codes "ADAT";
}

-- A mixer of two cells, the menu of the digital mode, and the channels.
abbrev four_elements : List Element
four_elements =
    element "Monitor Mixer Volume" 10 1
    ∷ element "Monitor Mixer Volume" 11 1
    ∷ element "Digital mode Switch" 3 1
    ∷ element "Channels info" 8 1
    ∷ []

abbrev idle_mouse : Mouse
idle_mouse = record { row = 0; column = pos 0; y = pos 0; held = false; pixmap = true }
