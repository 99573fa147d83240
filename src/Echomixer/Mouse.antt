-- ===== src/Echomixer/Mouse.antt =====
-- The mouse in the graphic mixer of echomixer.c: one row of cells for each input, for each virtual
-- channel and for the line out, and one column for each output.
pub mod Shown
pub mod Dragged
use dreamscape.Base.{
  ℕ, zero, suc, ◌+◌, ◌-◌, ◌*◌, ◌/◌, Bool, true, false, not, ◌&&◌, ◌||◌, Option, none, some, ltb,
  leb, ◌==◌, if◌then◌else◌,
}
use dreamscape.Base.Int.{ℤ, pos, negsuc, is_neg, pos_part, ◌+ℤ◌, ◌-ℤ◌}
use dreamscape.Echomixer.{Alsa, Card, Console, Gtk}
use dreamscape.Echomixer.Gain.{invert}
use dreamscape.Echomixer.Volumes.{
  monitor_volume_clicked, vmixer_volume_clicked, mixer_input_selector_clicked,
  vmixer_vchannel_selector_clicked, show_moved, vshow_moved, then_line_out, line_out_volume_changed,
}

-- GMixerRow, GMixerColumn, mouseY, mouseButton, and whether there is a pixmap.
pub record Mouse : Type 0 where
  pub row : ℕ
  pub column : ℤ
  pub y : ℤ
  pub held : Bool
  pub pixmap : Bool

-- The size of a cell: the line, the borders and what is between them.
abbrev pub x_cell_tot : ℕ
x_cell_tot = 1 + 2 * 2 + 20

abbrev pub y_cell_tot : ℕ
y_cell_tot = 1 + 2 * 2 + 32

-- GMixerSection, as main sets it: LineOut is the row behind VmixerLast.
abbrev pub vmixer_first : Card → ℕ
vmixer_first c = c.n_in

abbrev pub vmixer_inputs : Card → ℕ
vmixer_inputs c = if c.vmixer_id == 0 then 0 else c.n_pout

abbrev pub line_out_row : Card → ℕ
line_out_row c = c.n_in + vmixer_inputs c

abbrev pub is_outside : (column : ℤ) → Console → Bool
is_outside column s = is_neg column || leb s.section_outputs (pos_part column)

abbrev pub column_of : (x : ℕ) → ℤ
column_of x = pos (x / x_cell_tot) -ℤ pos 1

-- The slider's new position: that of the gain, moved by as many steps as the mouse by pixels.
abbrev pub dragged : (gain from to : ℤ) → ℤ
dragged gain from to = invert gain +ℤ (to -ℤ from)

module _ (a : Alsa) (c : Card) (g : Gtk) where
  -- `grab_focus` calls the handler of the slider's own.
  unfoldable pub select_cell : (row column : ℕ) → Console → Console
  select_cell row column s =
      let s1 = if row == s.input then s else mixer_input_selector_clicked a c g row s in
      if column == s1.output then s1 else monitor_volume_clicked a c column s1

  unfoldable pub select_vcell : (row column : ℕ) → Console → Console
  select_vcell row column s =
      let first = vmixer_first c in
      let s1 =
        if row == s.vinput + first
        then s
        else vmixer_vchannel_selector_clicked a c g (row - first) s in
      if column == s1.voutput then s1 else vmixer_volume_clicked a c column s1

  abbrev pub select : (row column : ℕ) → Console → Console
  select row column s =
      if ltb row (vmixer_first c)
      then select_cell row column s
      else if ltb row (line_out_row c)
      then select_vcell row column s
      else s

  unfoldable pub gmixer_button_press : (x y button : ℕ) → Mouse × Console → Mouse × Console
  gmixer_button_press x y button (m, s) =
      let row = y / y_cell_tot in
      let column = column_of x in
      let m1 = record m { row = row; column = column } in
      if is_outside column s then (m1, s) else (
        (if button == 1 then record m1 { y = pos y; held = true } else m1),
        select row (pos_part column) s,
      )

  pub gmixer_button_release : (button_one : Bool) → Mouse → Mouse
  gmixer_button_release button_one m = if button_one then record m { held = false } else m

  -- `none` says that the line-out handlers called each other deeper than the fuel.
  abbrev pub drag : (fuel : ℕ) → Mouse → (y : ℤ) → Console → Option Console
  drag fuel m y s =
      let o = s.output in
      let v = s.voutput in
      let column = pos_part m.column in
      if ltb m.row s.section_inputs
      then some (show_moved a c (g (s.mixer_adj o) (dragged (s.mixer_gain o s.input) m.y y)) o s)
      else if leb (vmixer_first c) m.row && ltb m.row (line_out_row c)
      then some
          (vshow_moved a c (g (s.vmixer_adj v) (dragged (s.vmixer_gain v s.vinput) m.y y)) v s)
      else if m.row == line_out_row c
      then then_line_out a c (line_out_volume_changed a c g fuel column) column s
          (g (s.line_out_adj column) (dragged (s.line_out column) m.y y))
      else some s

  -- A row that is in no section keeps mouseY.
  abbrev pub is_drawn : (row : ℕ) → Console → Bool
  is_drawn row s =
      ltb row s.section_inputs || (leb (vmixer_first c) row && leb row (line_out_row c))

  unfoldable pub gmixer_motion_notify :
      (fuel : ℕ) → (button_one : Bool) → (y : ℤ) → Mouse × Console → Mouse × Option Console
  gmixer_motion_notify fuel button_one y (m, s) =
      if not button_one || (not m.held || (not m.pixmap || is_outside m.column s))
      then (record m { held = false }, some s)
      else ((if is_drawn m.row s then record m { y = y } else m), drag fuel m y s)
