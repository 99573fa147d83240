-- ===== src/Echomixer/Volumes.antt =====
-- The handlers of echomixer.c's sliders. A card without a line-out control has its volume emulated:
-- what is written to the mixers is the gain shown and the line-out gain in series.
pub mod Ganged
pub mod Heard
pub mod Emulation
use dreamscape.Base.{
  ℕ, zero, suc, ◌+◌, ◌-◌, ltb, Bool, true, false, Option, none, some, List, [], ◌∷◌, ◌==◌,
  if◌then◌else◌,
}
use dreamscape.Base.Int.{ℤ, pos, is_neg}
use dreamscape.Echomixer.{
  Row, Table, set_at, set_cell, partner, mixer, Log, Alsa, Card, Console, Gtk, mixer_cell,
  vmixer_cell, zeros, read_or_zeros, write_elem, read_elem,
}
use dreamscape.Echomixer.Gain.{invert, in_invert, clamp_output_volume, add_db}
use dreamscape.Echomixer.Controls.{set_mixer_gain}

-- What is written for a gain of output `o`.
unfoldable pub emulated : Card → (line_out : Row) → (o : ℕ) → ℤ → ℤ
emulated c line_out o val =
    if c.lineout_id == 0 then clamp_output_volume (add_db val (line_out o)) else val

module _ (a : Alsa) (c : Card) where
  -- Called where the slider of output `ch` was moved. The cell is written whatever the write returns.
  unfoldable pub monitor_volume_changed : (ch : ℕ) → Console → Console
  monitor_volume_changed ch s =
      let val = invert (s.mixer_adj ch) in
      let rval = emulated c s.line_out ch val in
      let (_, t1) = set_mixer_gain a (mixer_cell c ch s.input) rval s.log in
      let s1 = record s { mixer_gain = set_cell s.mixer_gain ch s.input val; log = t1 } in
      let o = partner ch in
      let i = partner s.input in
      let (_, t2) = set_mixer_gain a (mixer_cell c o i) rval s1.log in
      if s.gang then record s1 { mixer_gain = set_cell s1.mixer_gain o i val; log = t2 } else s1

  unfoldable pub monitor_volume_clicked : (ch : ℕ) → Console → Console
  monitor_volume_clicked ch s = record s { output = ch }

  unfoldable pub vmixer_volume_changed : (ch : ℕ) → Console → Console
  vmixer_volume_changed ch s =
      let val = invert (s.vmixer_adj ch) in
      let rval = emulated c s.line_out ch val in
      let (_, t1) = set_mixer_gain a (vmixer_cell c ch s.vinput) rval s.log in
      let s1 = record s { vmixer_gain = set_cell s.vmixer_gain ch s.vinput val; log = t1 } in
      let o = partner ch in
      let i = partner s.vinput in
      let (_, t2) = set_mixer_gain a (vmixer_cell c o i) rval s1.log in
      if s.gang then record s1 { vmixer_gain = set_cell s1.vmixer_gain o i val; log = t2 } else s1

  pub vmixer_volume_clicked : (ch : ℕ) → Console → Console
  vmixer_volume_clicked ch s = record s { voutput = ch }

  -- One channel of a control with several: it is read, changed and written.
  unfoldable pub write_channel : (numid ch : ℕ) → ℤ → Log → Log
  write_channel numid ch val t =
      let (reply, t1) = read_elem a mixer numid t in
      let (_, t2) = write_elem a mixer numid (set_at (read_or_zeros reply) ch val) t1 in t2

  unfoldable pub update_pcm_volume : (outchannel : ℕ) → Console → Console
  update_pcm_volume o s = record s {
    log =
        write_channel c.pcmout_id o (clamp_output_volume (add_db (s.pcm_out o) (s.line_out o)))
          s.log;
  }

  -- The loop over the cells of one output, from input `ch` on.
  unfoldable pub write_cells :
      (cell : ℕ → ℕ) → (gain : Row) → (line : ℤ) → (ch rounds : ℕ) → Log → Log
  write_cells cell gain line ch zero t = t
  write_cells cell gain line ch (suc rounds) t =
      let (_, t') =
        write_elem a mixer (cell ch) (set_at zeros 0 (clamp_output_volume (add_db (gain ch) line)))
          t in
      write_cells cell gain line (ch + 1) rounds t'

  unfoldable pub update_mixer_volume : (outchannel : ℕ) → Console → Console
  update_mixer_volume o s = record s {
    log = write_cells (mixer_cell c o) (s.mixer_gain o) (s.line_out o) 0 c.n_in s.log;
  }

  unfoldable pub update_vmixer_volume : (outchannel : ℕ) → Console → Console
  update_vmixer_volume o s = record s {
    log = write_cells (vmixer_cell c o) (s.vmixer_gain o) (s.line_out o) 0 c.n_pout s.log;
  }

  -- LineOut_volume_changed up to the partner.
  unfoldable pub line_out_applied : (ch : ℕ) → Console → Console
  line_out_applied ch s =
      let val = invert (s.line_out_adj ch) in
      let s1 = record s { line_out = set_at s.line_out ch val } in
      if c.lineout_id == 0
      then (if c.vmixer_id == 0
          then update_mixer_volume ch (update_pcm_volume ch s1)
          else update_mixer_volume ch (update_vmixer_volume ch s1))
      else record s1 { log = write_channel c.lineout_id ch val s1.log }

  -- The partner's slider is set to this one's position; where that moves it, its handler runs.
  abbrev pub then_line_out :
      (Console → Option Console) → (other : ℕ) → Console → Option ℤ → Option Console
  then_line_out handler other s none = some s
  then_line_out handler other s (some v) =
      handler (record s { line_out_adj = set_at s.line_out_adj other v })

  -- Where the partner's slider moves, its handler runs inside this one: `none` says that the calls
  -- went deeper than the fuel.
  pub line_out_volume_changed : Gtk → (fuel ch : ℕ) → Console → Option Console
  line_out_volume_changed g zero ch s = none
  line_out_volume_changed g (suc fuel) ch s =
      let s1 = line_out_applied ch s in
      let other = partner ch in
      let moved = g (s1.line_out_adj other) (s1.line_out_adj ch) in
      if s1.gang
      then then_line_out (line_out_volume_changed g fuel other) other s1 moved
      else some s1

  -- PCM_volume_changed on an input. Only what could be written is kept, and an error of the read is
  -- the end of the handler.
  abbrev pub line_in_written : (ch : ℕ) → ℤ → Console → Option Row → Option Console
  line_in_written ch val s none = none
  line_in_written ch val s (some row) =
      let (err, t) = write_elem a mixer c.linein_id (set_at row ch val) s.log in
      some (
        if is_neg err
        then record s { log = t }
        else record s { line_in = set_at s.line_in ch val; log = t })

  abbrev pub then_line_in :
      (Console → Option Console) → (other : ℕ) → Console → Option ℤ → Option Console
  then_line_in handler other s none = some s
  then_line_in handler other s (some v) =
      handler (record s { line_in_adj = set_at s.line_in_adj other v })

  abbrev pub gang_line_in :
      Gtk → (Console → Option Console) → (ch : ℕ) → Console → Option Console → Option Console
  gang_line_in g handler ch s none = some s
  gang_line_in g handler ch s (some s1) =
      if s1.gang
      then then_line_in handler (partner ch) s1
          (g (s1.line_in_adj (partner ch)) (s1.line_in_adj ch))
      else some s1

  pub line_in_changed : Gtk → (fuel ch : ℕ) → Console → Option Console
  line_in_changed g zero ch s = none
  line_in_changed g (suc fuel) ch s =
      let (reply, t) = read_elem a mixer c.linein_id s.log in
      let s1 = record s { log = t } in
      gang_line_in g (line_in_changed g fuel (partner ch)) ch s1
        (line_in_written ch (in_invert (s.line_in_adj ch)) s1 reply)

  -- On an output. Its gain is kept at once.
  abbrev pub pcm_out_written : (ch : ℕ) → ℤ → Console → Option Row → Option Console
  pcm_out_written ch rval s none = none
  pcm_out_written ch rval s (some row) =
      let (_, t) = write_elem a mixer c.pcmout_id (set_at row ch rval) s.log in
      some (record s { log = t })

  abbrev pub then_pcm_out :
      (Console → Option Console) → (other : ℕ) → Console → Option ℤ → Option Console
  then_pcm_out handler other s none = some s
  then_pcm_out handler other s (some v) =
      handler (record s { pcm_out_adj = set_at s.pcm_out_adj other v })

  abbrev pub gang_pcm_out :
      Gtk → (Console → Option Console) → (ch : ℕ) → Console → Option Console → Option Console
  gang_pcm_out g handler ch s none = some s
  gang_pcm_out g handler ch s (some s1) =
      if s1.gang
      then then_pcm_out handler (partner ch) s1
          (g (s1.pcm_out_adj (partner ch)) (s1.pcm_out_adj ch))
      else some s1

  pub pcm_out_changed : Gtk → (fuel ch : ℕ) → Console → Option Console
  pcm_out_changed g zero ch s = none
  pcm_out_changed g (suc fuel) ch s =
      let val = invert (s.pcm_out_adj ch) in
      let (reply, t) = read_elem a mixer c.pcmout_id s.log in
      let s1 = record s { pcm_out = set_at s.pcm_out ch val; log = t } in
      gang_pcm_out g (pcm_out_changed g fuel (partner ch)) ch s1
        (pcm_out_written ch (emulated c s.line_out ch val) s1 reply)

  -- The outputs are numbered from ECHO_MAXAUDIOINPUTS on.
  pub pcm_volume_changed : Gtk → (fuel ch : ℕ) → Console → Option Console
  pcm_volume_changed g fuel ch s =
      if ltb ch 32 then line_in_changed g fuel ch s else pcm_out_changed g fuel (ch - 32) s

  -- The slider of output `ch` is set to what the selected input has there; where that moves it, its
  -- handler runs.
  abbrev pub show_moved : Option ℤ → (ch : ℕ) → Console → Console
  show_moved none ch s = s
  show_moved (some v) ch s =
      monitor_volume_changed ch (record s { mixer_adj = set_at s.mixer_adj ch v })

  abbrev pub show_gain : Gtk → (ch : ℕ) → Console → Console
  show_gain g ch s = show_moved (g (s.mixer_adj ch) (invert (s.mixer_gain ch s.input))) ch s

  unfoldable pub show_input : Gtk → (ch rounds : ℕ) → Console → Console
  show_input g ch zero s = s
  show_input g ch (suc rounds) s = show_input g (ch + 1) rounds (show_gain g ch s)

  unfoldable pub mixer_input_selector_clicked : Gtk → (ich : ℕ) → Console → Console
  mixer_input_selector_clicked g ich s =
      if s.input == ich then s else show_input g 0 c.n_lout (record s { input = ich })

  abbrev pub vshow_moved : Option ℤ → (ch : ℕ) → Console → Console
  vshow_moved none ch s = s
  vshow_moved (some v) ch s =
      vmixer_volume_changed ch (record s { vmixer_adj = set_at s.vmixer_adj ch v })

  abbrev pub vshow_gain : Gtk → (ch : ℕ) → Console → Console
  vshow_gain g ch s = vshow_moved (g (s.vmixer_adj ch) (invert (s.vmixer_gain ch s.vinput))) ch s

  -- From the last output down.
  pub vshow_input : Gtk → (rounds : ℕ) → Console → Console
  vshow_input g zero s = s
  vshow_input g (suc ch) s = vshow_input g ch (vshow_gain g ch s)

  pub vmixer_vchannel_selector_clicked : Gtk → (ch : ℕ) → Console → Console
  vmixer_vchannel_selector_clicked g ch s =
      if s.vinput == ch then s else vshow_input g c.n_lout (record s { vinput = ch })

pub gang_button_toggled : (active : Bool) → Console → Console
gang_button_toggled active s = record s { gang = active }
