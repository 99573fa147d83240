-- ===== src/Echomixer/Meters.antt =====
-- The two windows of echomixer.c that show the meters, and the switch that turns the card's meters on.
-- The places of the windows are left out.
pub mod Windows
use dreamscape.Base.{ℕ, Bool, true, false, not, ◌&&◌, List, [], ◌∷◌, if◌then◌else◌}
use dreamscape.Base.Int.{ℤ, pos, negsuc, eq_ℤ, is_neg, ◌+ℤ◌, ◌-ℤ◌}
use dreamscape.Echomixer.{Row, set_at, zeros, card, Log, Alsa, Card, write_elem}

-- `oncount` of SetVUmeters, the windows, the buttons that open them, and the log.
pub record Meters : Type 0 where
  pub oncount : ℤ
  pub vu_window : Bool
  pub gm_window : Bool
  pub vu_button : Bool
  pub gm_button : Bool
  pub log : Log

-- A `signed char` wraps.
unfoldable pub next_char : ℤ → ℤ
next_char n = if eq_ℤ n (pos 127) then negsuc 127 else n +ℤ pos 1

unfoldable pub previous_char : ℤ → ℤ
previous_char n = if eq_ℤ n (negsuc 127) then pos 127 else n -ℤ pos 1

abbrev pub counted : (onoff : Bool) → ℤ → ℤ
counted true n = next_char n
counted false n = if is_neg (previous_char n) then pos 0 else previous_char n

abbrev pub switch_value : ℤ → ℤ
switch_value n = if eq_ℤ n (pos 0) then pos 0 else pos 1

module _ (a : Alsa) (c : Card) where
  unfoldable pub set_vumeters : (onoff : Bool) → Meters → Meters
  unfolding next_char previous_char
  set_vumeters onoff s =
      let n = counted onoff s.oncount in
      let (_, t) = write_elem a card c.vuswitch_id (set_at zeros 0 (switch_value n)) s.log in
      record s { oncount = n; log = t }

  unfoldable pub vuwindow_destroy : Meters → Meters
  vuwindow_destroy s = record (set_vumeters false s) { vu_window = false }

  unfoldable pub gmwindow_destroy : Meters → Meters
  gmwindow_destroy s = record (set_vumeters false s) { gm_window = false }

  -- `gtk_widget_destroy` calls the handler of "destroy".
  unfoldable pub vumeters_button_click : Meters → Meters
  vumeters_button_click s =
      if s.vu_window && not s.vu_button
      then vuwindow_destroy s
      else if not s.vu_window && s.vu_button
      then record (set_vumeters true s) { vu_window = true }
      else s

  unfoldable pub gmixer_button_click : Meters → Meters
  gmixer_button_click s =
      if s.gm_window && not s.gm_button
      then gmwindow_destroy s
      else if not s.gm_window && s.gm_button
      then record (set_vumeters true s) { gm_window = true }
      else s

  -- The button is made inactive, which calls the handler of "toggled" where it was active; then, as
  -- the result is FALSE, GTK destroys the window if it is still there.
  unfoldable pub vuwindow_delete : Meters → Meters
  vuwindow_delete s =
      let s1 = if s.vu_button then vumeters_button_click (record s { vu_button = false }) else s in
      if s1.vu_window then vuwindow_destroy s1 else s1

  unfoldable pub gmwindow_delete : Meters → Meters
  gmwindow_delete s =
      let s1 = if s.gm_button then gmixer_button_click (record s { gm_button = false }) else s in
      if s1.gm_window then gmwindow_destroy s1 else s1

  unfoldable pub mainwindow_delete : Meters → Meters
  mainwindow_delete s =
      let s1 = if s.vu_window then vuwindow_destroy s else s in
      if s1.gm_window then gmwindow_destroy s1 else s1

pub initial_meters : Meters
initial_meters = record {
  oncount = pos 0;
  vu_window = false;
  gm_window = false;
  vu_button = false;
  gm_button = false;
  log = [];
}
