-- ===== src/Echomixer.antt =====
-- allstar_bins/echomixer.c, without REVERSE: the console's own state and what it asks of ALSA and GTK,
-- which are parameters. Messages and labels are left out, save where a label's text is computed.
pub mod Gain
pub mod Bits
pub mod Controls
pub mod Volumes
pub mod Meters
pub mod Switches
pub mod Settings
pub mod Elements
pub mod Opening
pub mod Mouse
pub mod Levels
mod Tests
use dreamscape.Base.{
  ℕ, ◌+◌, ◌-◌, ◌*◌, ◌%◌, ◌≡◌, ◌≢◌, refl, ==_refl, ==_ne, Bool, true, false, Option, none, some,
  List, [], ◌∷◌, ◌==◌, if◌then◌else◌,
}
use dreamscape.Base.Int.{ℤ, pos, eq_ℤ}

-- An array of the program, or the values of a control, by the index.
abbrev pub Row : Type 0
Row = ℕ → ℤ

abbrev pub Table : Type 0
Table = ℕ → ℕ → ℤ

abbrev pub set_at : Row → ℕ → ℤ → Row
set_at row i v j = if i == j then v else row j

abbrev pub set_cell : Table → (o i : ℕ) → ℤ → Table
set_cell table o i v p j = if o == p then set_at (table p) i v j else table p j

-- `ch ^ 1`: the other channel of a pair.
abbrev pub partner : ℕ → ℕ
partner ch = if ch % 2 == 0 then ch + 1 else ch - 1

-- The interface of an element is part of its identity.
pub data Iface : Type 0 where
  card pcm mixer hwdep : Iface

-- What is asked of ALSA, the newest first; `none` is an error of a read, and a write's error is below 0.
pub data Request : Type 0 where
  elem_read : Iface → (numid : ℕ) → Option Row → Request
  elem_write : Iface → (numid : ℕ) → Row → (err : ℤ) → Request

abbrev pub Log : Type 0
Log = List Request

pub record Alsa : Type 0 where
  pub read_reply : Log → (numid : ℕ) → Option Row
  pub write_reply : Log → (numid : ℕ) → Row → ℤ

-- A value of `snd_ctl_elem_value_alloca` starts as zeros, and is so still after a read that failed.
abbrev pub zeros : Row
zeros _ = pos 0

abbrev pub read_or_zeros : Option Row → Row
read_or_zeros none = zeros
read_or_zeros (some row) = row

-- What OpenControls finds out about the card; an id of 0 says that the card has no such control.
pub record Card : Type 0 where
  pub n_in : ℕ
  pub fd_in : ℕ
  pub n_lout : ℕ
  pub fd_out : ℕ
  pub n_pout : ℕ
  pub mixer_id : ℕ
  pub vmixer_id : ℕ
  pub lineout_id : ℕ
  pub pcmout_id : ℕ
  pub linein_id : ℕ
  pub dmode_id : ℕ
  pub clocksrc_id : ℕ
  pub spdifmode_id : ℕ
  pub vuswitch_id : ℕ
  pub vumeters_id : ℕ
  pub channels_id : ℕ
  pub meters_streams : ℕ
  pub meters_number : ℕ
  pub meters_types : ℕ

-- OpenControls gives the cells of a table consecutive ids, from that of its first; without a table
-- they are 0.
unfoldable pub cell_id : (first inputs o i : ℕ) → ℕ
cell_id first inputs o i = if first == 0 then 0 else first + (o * inputs + i)

abbrev pub mixer_cell : Card → (o i : ℕ) → ℕ
mixer_cell c = cell_id c.mixer_id c.n_in

abbrev pub vmixer_cell : Card → (o i : ℕ) → ℕ
vmixer_cell c = cell_id c.vmixer_id c.n_pout

-- One element written, in a value that is else `row`.
abbrev pub write_elem : Alsa → Iface → (numid : ℕ) → Row → Log → ℤ × Log
write_elem a iface numid row t =
    let err = a.write_reply t numid row in (err, elem_write iface numid row err ∷ t)

abbrev pub read_elem : Alsa → Iface → (numid : ℕ) → Log → Option Row × Log
read_elem a iface numid t =
    let reply = a.read_reply t numid in (reply, elem_read iface numid reply ∷ t)

-- The program's variables that change. A slider's position is that of its adjustment; the program
-- reads it as an `int`. `window` says whether a window is there.
pub record Console : Type 0 where
  pub gang : Bool
  pub auto_clock : ℤ
  pub auto_button : Bool
  pub clock_mask : ℕ
  pub clocksrc_val : ℕ
  pub dmode_val : ℕ
  pub spdifmode_val : ℕ
  pub section_inputs : ℕ
  pub section_outputs : ℕ
  pub input : ℕ
  pub output : ℕ
  pub vinput : ℕ
  pub voutput : ℕ
  pub mixer_gain : Table
  pub vmixer_gain : Table
  pub line_out : Row
  pub line_in : Row
  pub pcm_out : Row
  pub mixer_adj : Row
  pub vmixer_adj : Row
  pub line_out_adj : Row
  pub line_in_adj : Row
  pub pcm_out_adj : Row
  pub log : Log

-- `gtk_adjustment_set_value` on an adjustment at a position: the new position, where it changes and
-- the handler is called.
abbrev pub Gtk : Type 0
Gtk = (position value : ℤ) → Option ℤ

pub set_at_self : (row : Row) (i : ℕ) (v : ℤ) → set_at row i v i ≡ v
set_at_self row i v = rw (==_refl i) refl

pub set_at_ne : (row : Row) (i j : ℕ) (v : ℤ) → i ≢ j → set_at row i v j ≡ row j
set_at_ne row i j v ne = rw (==_ne i j ne) refl
