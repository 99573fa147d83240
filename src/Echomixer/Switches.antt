-- ===== src/Echomixer/Switches.antt =====
-- The clock source, the digital mode and the other switches of echomixer.c.
pub mod Clock
pub mod Sections
use dreamscape.Base.{
  ℕ, zero, suc, ◌+◌, ◌-◌, ◌/◌, ◌%◌, ◌^◌, Bool, true, false, not, ◌&&◌, Option, none, some, List, [],
  ◌∷◌, codes, take, leb, ◌==◌, if◌then◌else◌,
}
use dreamscape.Base.Int.{ℤ, pos, negsuc, neg, is_neg, eq_ℤ, pos_part}
use dreamscape.Base.Scan.{same}
use dreamscape.Echomixer.{
  Row, set_at, zeros, partner, card, mixer, hwdep, Log, Alsa, Card, Console, Gtk, write_elem,
  read_elem, read_or_zeros,
}
use dreamscape.Echomixer.Controls.{set_enum, get_enum}
use dreamscape.Echomixer.Volumes.{mixer_input_selector_clicked}

abbrev pub has_bit : (mask k : ℕ) → Bool
has_bit mask k = mask / 2 ^ k % 2 == 1

-- The counts are taken the first time alone.
abbrev pub counts_of : Row → Card → Card
counts_of row c =
    if c.n_in == 0
    then record c {
      n_in = pos_part (row 0);
      fd_in = pos_part (row 1);
      n_lout = pos_part (row 2);
      fd_out = pos_part (row 3);
      n_pout = pos_part (row 4);
    }
    else c

abbrev pub channels_read : Card → Console → Option Row → Option (Card × Console)
channels_read c s none = none
channels_read c s (some row) = some (counts_of row c, record s { clock_mask = pos_part (row 5) })

-- `none` is `exit(1)`.
unfoldable pub get_channels : Alsa → Card → Console → Option (Card × Console)
get_channels a c s =
    let (reply, t) = read_elem a hwdep c.channels_id s.log in
    channels_read c (record s { log = t }) reply

-- The label of the button is left out.
unfoldable pub autoclock_toggled : Console → Console
autoclock_toggled s =
    if s.auto_button
    then record s { auto_clock = pos s.clocksrc_val }
    else record s { auto_clock = neg 1 }

-- `clk` is the source with DONT_CHANGE as a flag beside it.
unfoldable pub clock_source_activate :
    Alsa → Card → (clk : ℕ) → (dont_change : Bool) → Console → Console
clock_source_activate a c clk dont_change s =
    let source = clk % 256 in
    let (err, t) = set_enum a c c.clocksrc_id source s.log in
    let s1 = record s { log = t } in
    let s2 = record s1 { clocksrc_val = source } in
    if is_neg err
    then s1
    else if not dont_change && not (is_neg s2.auto_clock)
    then autoclock_toggled (record s2 { auto_clock = pos source })
    else s2

-- The loop over the sources, from `clk` on.
unfoldable pub choose_source : (mask : ℕ) → (auto_clock : ℤ) → (clk rounds : ℕ) → (source : ℤ) → ℤ
choose_source mask auto_clock clk zero source = source
choose_source mask auto_clock clk (suc rounds) source =
    choose_source mask auto_clock (clk + 1) rounds
      (if eq_ℤ (pos clk) auto_clock && has_bit mask clk then auto_clock else source)

abbrev pub switch_source : Alsa → Card → (source : ℤ) → Console → Console
switch_source a c source s =
    if not (is_neg source) && not (eq_ℤ source (pos s.clocksrc_val))
    then clock_source_activate a c (pos_part source) true s
    else s

abbrev pub inputs_checked :
    Alsa → (nclocksrc : ℕ) → Option (Card × Console) → Option (Card × Console)
inputs_checked a nclocksrc none = none
inputs_checked a nclocksrc (some (c, s)) =
    let fallback =
      if not (is_neg s.auto_clock) && not (has_bit s.clock_mask s.clocksrc_val)
      then pos 0
      else neg 1 in
    let source = choose_source s.clock_mask s.auto_clock 0 nclocksrc fallback in
    some (c, switch_source a c source s)

pub check_inputs : Alsa → Card → (nclocksrc : ℕ) → Console → Option (Card × Console)
check_inputs a c nclocksrc s = inputs_checked a nclocksrc (get_channels a c s)

module _ (a : Alsa) (c : Card) (g : Gtk) where
  -- The first loop of SetSensitivity, from input i on. That a widget can be used is left out; of the
  -- selectors the one of the selected input is active.
  unfoldable pub leave_inputs : (i rounds : ℕ) → Console → Console
  leave_inputs i zero s = s
  leave_inputs i (suc rounds) s =
      leave_inputs (i + 1) rounds
        (if s.input == i then mixer_input_selector_clicked a c g 0 s else s)

  unfoldable pub set_sensitivity : (enable : Bool) → Console → Console
  set_sensitivity enable s =
      let first_in = c.fd_in + 2 in
      let first_out = c.fd_out + 2 in
      let s1 = if enable then s else leave_inputs first_in (c.n_in - first_in) s in
      let s2 = if not enable && leb first_out s1.output then record s1 { output = 0 } else s1 in
      if not (c.vmixer_id == 0) && (not enable && leb first_out s2.voutput)
      then record s2 { voutput = 0 }
      else s2

  abbrev pub set_sections : (adat : Bool) → Console → Console
  set_sections true s = record s { section_inputs = c.n_in; section_outputs = c.n_lout }
  set_sections false s = record s { section_inputs = c.fd_in + 2; section_outputs = c.fd_out + 2 }

  abbrev pub is_adat : (name : List ℕ) → Bool
  is_adat name = same (take 4 name) (codes "ADAT")

  -- `names` are those of the modes.
  pub digital_mode_activate : (names : ℕ → List ℕ) → (mode : ℕ) → Console → Console
  digital_mode_activate names mode s =
      let (err, t1) = set_enum a c c.dmode_id mode s.log in
      let (source, t2) = get_enum a c c.clocksrc_id t1 in
      let adat = is_adat (names mode) in
      if is_neg err
      then record s { log = t1 }
      else set_sections adat
          (set_sensitivity adat (record s { dmode_val = mode; clocksrc_val = source; log = t2 }))

pub spdif_mode_activate : Alsa → Card → (mode : ℕ) → Console → Console
spdif_mode_activate a c mode s =
    let (_, t) = set_enum a c c.spdifmode_id mode s.log in
    record s { spdifmode_val = mode; log = t }

-- A switch with one value: it keeps its value whatever the write returns.
pub switch_toggled : Alsa → (id : ℕ) → (active : Bool) → Log → Bool × Log
switch_toggled a id active t =
    let (_, t') = write_elem a card id (set_at zeros 0 (if active then pos 1 else pos 0)) t in
    (active, t')
