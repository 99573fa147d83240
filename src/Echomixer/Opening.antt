-- ===== src/Echomixer/Opening.antt =====
-- OpenControls of echomixer.c: the scan of the card's elements. What ALSA says of them is a list of
-- elements, which is a parameter.

pub mod Endings
pub mod Steps
pub mod Sizes
pub mod Chosen
pub mod Outcomes
use dreamscape.Base.{
  ℕ, zero, suc, ◌+◌, Bool, true, false, not, ◌&&◌, ◌||◌, Option, none, some, List, [], ◌∷◌, codes,
  take, leb, ◌==◌, if◌then◌else◌,
}
use dreamscape.Base.Scan.{same}
use dreamscape.Echomixer.{Alsa, Card, Console}
use dreamscape.Echomixer.Switches.{get_channels}
use dreamscape.Echomixer.Elements.{
  Element, Control, index, control_of, monitor_mixer, virtual_mixer, pcm_playback, line_playback,
  line_capture, nominal_playback, nominal_capture, digital_mode, clock_source, spdif_mode,
  phantom_power, automute, meters_switch, meters, channels_info,
}

-- The variables mixerId, vmixerId, pcmoutId and so on, by the control.
abbrev pub Ids : Type 0
Ids = Control → ℕ

abbrev pub set_id : Ids → Control → ℕ → Ids
set_id ids k numid j = if index k == index j then numid else ids j

abbrev pub Names : Type 0
Names = ℕ → List ℕ

pub record Scan : Type 0 where
  pub ids : Ids
  pub mixer_outputs : ℕ
  pub mixer_inputs : ℕ
  pub vmixer_outputs : ℕ
  pub vmixer_inputs : ℕ
  pub ndmodes : ℕ
  pub nclocksrc : ℕ
  pub nspdifmodes : ℕ
  pub dmode_names : Names
  pub clocksrc_names : Names
  pub spdifmode_names : Names
  pub meters_streams : ℕ
  pub meters_number : ℕ
  pub meters_types : ℕ
  pub nominal_in_channels : ℕ
  pub nominal_out_channels : ℕ

pub initial_scan : Scan
initial_scan = record {
  ids = λ k. 0;
  mixer_outputs = 0;
  mixer_inputs = 0;
  vmixer_outputs = 0;
  vmixer_inputs = 0;
  ndmodes = 0;
  nclocksrc = 0;
  nspdifmodes = 0;
  dmode_names = λ item. [];
  clocksrc_names = λ item. [];
  spdifmode_names = λ item. [];
  meters_streams = 0;
  meters_number = 0;
  meters_types = 0;
  nominal_in_channels = 0;
  nominal_out_channels = 0;
}

-- How it goes on: with a result, by a return that is not 0, by `exit`, or by a write behind an array.
pub data Ending (A : Type 0) : Type 0 where
  done : A → Ending A
  refused exited overrun : Ending A

abbrev pub and_then : {A B : Type 0} → Ending A → (A → Ending B) → Ending B
and_then (done x) f = f x
and_then refused f = refused
and_then exited f = exited
and_then overrun f = overrun

abbrev pub set_name : Names → ℕ → List ℕ → Names
set_name names item name k = if item == k then name else names k

-- The loop over the items of an element, from `item` on; an error is an `exit` but for S/PDIF modes.
unfoldable pub read_items : (strict : Bool) → Element → (item rounds : ℕ) → Names → Ending Names
read_items strict e item zero names = done names
read_items strict e item (suc rounds) names =
    if strict && e.item_fails item
    then exited
    else if leb 16 item
    then overrun
    else read_items strict e (item + 1) rounds (set_name names item (take 63 (e.item_name item)))

abbrev pub put_id : Control → Element → Scan → Scan
put_id k e r = record r { ids = set_id r.ids k e.numid }

unfoldable pub add_control : Control → Element → Scan → Ending Scan
add_control monitor_mixer e r = done (
    if r.ids monitor_mixer == 0
    then record (put_id monitor_mixer e r) {
      mixer_outputs = e.dimension 0;
      mixer_inputs = e.dimension 1;
    }
    else r)
add_control virtual_mixer e r = done (
    if r.ids virtual_mixer == 0
    then record (put_id virtual_mixer e r) {
      vmixer_outputs = e.dimension 0;
      vmixer_inputs = e.dimension 1;
    }
    else r)
add_control pcm_playback e r = done (put_id pcm_playback e r)
add_control line_playback e r = done (put_id line_playback e r)
add_control line_capture e r = done (put_id line_capture e r)
add_control nominal_playback e r = done (put_id nominal_playback e r)
add_control nominal_capture e r = done (put_id nominal_capture e r)
add_control digital_mode e r =
    and_then (read_items true e 0 e.items r.dmode_names)
      (λ names. done (record (put_id digital_mode e r) { ndmodes = e.items; dmode_names = names }))
add_control clock_source e r = and_then (read_items true e 0 e.items r.clocksrc_names) (λ names.
    done (record (put_id clock_source e r) { nclocksrc = e.items; clocksrc_names = names }))
add_control spdif_mode e r = and_then (read_items false e 0 e.items r.spdifmode_names) (λ names.
    done (record (put_id spdif_mode e r) { nspdifmodes = e.items; spdifmode_names = names }))
add_control phantom_power e r = done (put_id phantom_power e r)
add_control automute e r = done (put_id automute e r)
add_control meters_switch e r = done (put_id meters_switch e r)
add_control meters e r = done (record (put_id meters e r) {
  meters_streams = e.dimension 0;
  meters_number = e.dimension 1;
  meters_types = e.dimension 2;
})
add_control channels_info e r = done (put_id channels_info e r)

abbrev pub add_known : Option Control → Element → Scan → Ending Scan
add_known none e r = done r
add_known (some k) e r = add_control k e r

abbrev pub add_element : Element → Scan → Ending Scan
add_element e r =
    if e.info_fails
    then refused
    else if e.inactive
    then done r
    else add_known (control_of e.name) e r

unfoldable pub scan_elements : List Element → Scan → Ending Scan
scan_elements [] r = done r
scan_elements (e ∷ es) r = and_then (add_element e r) (scan_elements es)

-- The card as GetChannels finds it: no channel is known yet.
unfoldable pub card_of : Scan → Card
card_of r = record {
  n_in = 0;
  fd_in = 0;
  n_lout = 0;
  fd_out = 0;
  n_pout = 0;
  mixer_id = r.ids monitor_mixer;
  vmixer_id = r.ids virtual_mixer;
  lineout_id = r.ids line_playback;
  pcmout_id = r.ids pcm_playback;
  linein_id = r.ids line_capture;
  dmode_id = r.ids digital_mode;
  clocksrc_id = r.ids clock_source;
  spdifmode_id = r.ids spdif_mode;
  vuswitch_id = r.ids meters_switch;
  vumeters_id = r.ids meters;
  channels_id = r.ids channels_info;
  meters_streams = r.meters_streams;
  meters_number = r.meters_number;
  meters_types = r.meters_types;
}

-- The two tests behind GetChannels.
abbrev pub fits_table : (numid outputs inputs n_out n_in : ℕ) → Bool
fits_table numid outputs inputs n_out n_in = numid == 0 || (inputs == n_in && outputs == n_out)

abbrev pub matches : Scan → Card → Bool
matches r c =
    fits_table c.mixer_id r.mixer_outputs r.mixer_inputs c.n_lout c.n_in
    && fits_table c.vmixer_id r.vmixer_outputs r.vmixer_inputs c.n_lout c.n_pout

abbrev pub set_nominal : Card → Scan → Scan
set_nominal c r = record r {
  nominal_in_channels = if r.ids nominal_capture == 0 then r.nominal_in_channels else c.fd_in;
  nominal_out_channels = if r.ids nominal_playback == 0 then r.nominal_out_channels else c.fd_out;
}

abbrev pub with_channels : Scan → Option (Card × Console) → Ending (Scan × Card × Console)
with_channels r none = exited
with_channels r (some (c, s)) = if matches r c then done (set_nominal c r, c, s) else refused

-- `none` for the elements is an error of ALSA at the opening. The ids of the cells are `cell_id`.
pub open_controls : Alsa → Option (List Element) → Console → Ending (Scan × Card × Console)
unfolding control_of read_items add_control scan_elements
open_controls a none s = refused
open_controls a (some es) s =
    and_then (scan_elements es initial_scan) (λ r. with_channels r (get_channels a (card_of r) s))
