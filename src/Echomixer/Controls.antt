-- ===== src/Echomixer/Controls.antt =====
-- The functions of echomixer.c that read and write one element of ALSA.
use dreamscape.Base.{ℕ, zero, suc, ◌+◌, ◌*◌, Option, none, some, List, [], ◌∷◌, ◌==◌, if◌then◌else◌}
use dreamscape.Base.Int.{ℤ, pos, negsuc, is_neg, pos_part}
use dreamscape.Echomixer.{
  Row, Table, set_at, Iface, card, pcm, mixer, Log, Alsa, Card, zeros, read_or_zeros, write_elem,
  read_elem,
}

-- The interface is PCM for the clock source alone.
abbrev pub enum_iface : Card → (numid : ℕ) → Iface
enum_iface c numid = if numid == c.clocksrc_id then pcm else card

unfoldable pub set_enum : Alsa → Card → (numid val : ℕ) → Log → ℤ × Log
set_enum a c numid val t = write_elem a (enum_iface c numid) numid (set_at zeros 0 (pos val)) t

-- After an error the value is that of an empty element.
pub get_enum : Alsa → Card → (numid : ℕ) → Log → ℕ × Log
get_enum a c numid t =
    let (reply, t') = read_elem a (enum_iface c numid) numid t in
    (pos_part (read_or_zeros reply 0), t')

unfoldable pub set_mixer_gain : Alsa → (numid : ℕ) → (gain : ℤ) → Log → ℤ × Log
set_mixer_gain a numid gain t =
    let (err, t') = write_elem a mixer numid (set_at zeros 0 gain) t in
    (if is_neg err then err else pos 0, t')

-- The first `channels` values of `row`, in front of what the array holds from there on.
abbrev pub copy_values : (channels : ℕ) → Row → Row → Row
copy_values zero row vol = vol
copy_values (suc ch) row vol = set_at (copy_values ch row vol) ch (row ch)

-- The error is -1 for any; no caller looks at it.
pub read_control : Alsa → (vol : Row) → (channels numid : ℕ) → Iface → Log → ℤ × Row × Log
read_control a vol channels numid iface t =
    let (reply, t') = read_elem a iface numid t in
    elim reply [ none ↦ (negsuc 0, vol, t') | some row ↦ (pos 0, copy_values channels row vol, t') ]

-- An error is not an end here: the levels are then those of an empty element.
pub read_nominal_levels : Alsa → (level : Row) → (channels numid : ℕ) → Log → Row × Log
read_nominal_levels a level channels numid t =
    let (reply, t') = read_elem a mixer numid t in
    (copy_values channels (read_or_zeros reply) level, t')

-- A level and a peak, from index m on.
pub meter_pairs : Row → (m rounds : ℕ) → List (ℤ × ℤ)
meter_pairs row m zero = []
meter_pairs row m (suc rounds) = (row m, row (m + 1)) ∷ meter_pairs row (m + 2) rounds

-- The pairs of the outputs, the inputs and, where the card has them, the virtual outputs; `none`
-- where the read fails and the arrays are left as they were.
pub get_vumeters : Alsa → Card → Log → Option (List (ℤ × ℤ) × List (ℤ × ℤ) × List (ℤ × ℤ)) × Log
unfolding meter_pairs
get_vumeters a c t =
    let (reply, t') = read_elem a mixer c.vumeters_id t in
    elim reply [
      | none ↦ (none, t')
      | some row ↦ (
        some (
          meter_pairs row 0 c.n_lout,
          meter_pairs row (1 * c.meters_number * c.meters_types) c.n_in,
          if c.meters_streams == 3
              then meter_pairs row (2 * c.meters_number * c.meters_types) c.n_pout
              else [],
        ),
        t',
      )
    ]

abbrev pub reply_or : Row → Option Row → Row
reply_or control none = control
reply_or control (some row) = row

-- The inner loop of ReadMixer, on the row of one output: an element that cannot be read gives what
-- the one before left in `control`.
pub read_mixer_row :
    Alsa → (cell : ℕ → ℕ) → (control : Row) → (input rounds : ℕ) → Row → Log → Row × Row × Log
read_mixer_row a cell control input zero row t = (control, row, t)
read_mixer_row a cell control input (suc rounds) row t =
    let (reply, t') = read_elem a mixer (cell input) t in
    let control' = reply_or control reply in
    read_mixer_row a cell control' (input + 1) rounds (set_at row input (control' 0)) t'

pub read_mixer :
    Alsa
    → (cell : ℕ → ℕ → ℕ) → (inputs : ℕ) → (control : Row) → (out rounds : ℕ) → Table
    → Log
    → Table × Log
unfolding read_mixer_row
read_mixer a cell inputs control out zero table t = (table, t)
read_mixer a cell inputs control out (suc rounds) table t =
    let (control', row, t') = read_mixer_row a (cell out) control 0 inputs (table out) t in
    read_mixer a cell inputs control' (out + 1) rounds
      (λ p j. if out == p then row j else table p j) t'
