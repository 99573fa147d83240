-- ===== src/Echomixer/Volumes/Emulation.antt =====
-- Moving a line-out slider: the hardware stays in line with the gains of the monitor mixer.
use dreamscape.Base.{
  ℕ, zero, suc, ◌+◌, ◌≤◌, ◌<◌, ◌≡◌, ◌≢◌, ◌⊎◌, refl, sym, ap, ◌∙◌, subst, inl, inr, Bool, true,
  false, Option, none, some, ◌∷◌, ◌==◌, if◌then◌else◌, arith, ==_cases, Bool-cases,
}
use mathlib.Core.Option.{some_inj}
use dreamscape.Base.Int.{ℤ}
use dreamscape.Echomixer.{
  Row, Table, set_at, set_at_ne, zeros, partner, mixer, Log, elem_read, elem_write, Alsa, Card,
  Console, Gtk, read_or_zeros, mixer_cell, vmixer_cell,
}
use dreamscape.Echomixer.Gain.{invert, IsOutGain, clamp_output_volume, add_db}
use dreamscape.Echomixer.Volumes.{
  emulated, line_out_applied, line_out_volume_changed, then_line_out, update_mixer_volume,
  update_vmixer_volume, update_pcm_volume, write_cells, write_channel,
}
use dreamscape.Echomixer.Volumes.Heard.{
  heard, heard_self, heard_other, InLine, Writable, cell_id-injective,
}
use dreamscape.Echomixer.Volumes.Ganged.{
  partner-partner, SetsValue, InStep, Paired, line_out_volume_changed-Paired,
}

-- The cells of the monitor mixer are no other control's.
pub record Apart (c : Card) : Type 0 where
  pub table : c.mixer_id ≢ 0
  pub line_out : (o i : ℕ) → o < c.n_lout → i < c.n_in → c.lineout_id ≢ mixer_cell c o i
  pub pcm_out : (o i : ℕ) → o < c.n_lout → i < c.n_in → c.pcmout_id ≢ mixer_cell c o i
  pub vmixer :
      (p v o i : ℕ)
      → p < c.n_lout
      → v < c.n_pout
      → o < c.n_lout
      → i < c.n_in
      → vmixer_cell c p v ≢ mixer_cell c o i

module _ (a : Alsa) (c : Card) where
  write_channel-heard :
      (numid ch : ℕ) (val : ℤ) (t : Log) (k : ℕ)
      → numid ≢ k
      → heard k (write_channel a c numid ch val t) ≡ heard k t
  unfolding write_channel
  write_channel-heard numid ch val t k ne =
      let reply = a.read_reply t numid in
      let t1 = elem_read mixer numid reply ∷ t in
      let row = set_at (read_or_zeros reply) ch val in
      heard_other mixer numid k row (a.write_reply t1 numid row) t1 ne

  -- What the loop writes to a cell, and the log after it.
  abbrev cell_row : (gain : Row) → (line : ℤ) → (ch : ℕ) → Row
  cell_row gain line ch = set_at zeros 0 (clamp_output_volume (add_db (gain ch) line))

  abbrev cell_written : (cell : ℕ → ℕ) → (gain : Row) → (line : ℤ) → (ch : ℕ) → Log → Log
  cell_written cell gain line ch t =
      let row = cell_row gain line ch in
      elem_write mixer (cell ch) row (a.write_reply t (cell ch) row) ∷ t

  write_cells-other :
      (cell : ℕ → ℕ) (gain : Row) (line : ℤ) (ch rounds : ℕ) (t : Log) (k : ℕ)
      → ((x : ℕ) → ch ≤ x → x < ch + rounds → cell x ≢ k)
      → heard k (write_cells a c cell gain line ch rounds t) ≡ heard k t
  unfolding write_cells
  write_cells-other cell gain line ch zero t k apart = refl
  write_cells-other cell gain line ch (suc rounds) t k apart =
      let row = cell_row gain line ch in
      write_cells-other cell gain line (ch + 1) rounds (cell_written cell gain line ch t) k
        (λ x low high. apart x (omega arith) (omega arith))
      ∙ heard_other mixer (cell ch) k row (a.write_reply t (cell ch) row) t
          (apart ch (omega arith) (omega arith))

  write_cells-own :
      Writable a
      → (cell : ℕ → ℕ) (gain : Row) (line : ℤ) (ch rounds : ℕ) (t : Log) (j : ℕ) → ch ≤ j
      → j < ch + rounds
      → ((x : ℕ) → x ≢ j → x < ch + rounds → cell x ≢ cell j)
      → heard (cell j) (write_cells a c cell gain line ch rounds t)
        ≡ some (clamp_output_volume (add_db (gain j) line))
  unfolding write_cells
  write_cells-own writable cell gain line ch zero t j low high apart = absurd (omega arith)
  write_cells-own writable cell gain line ch (suc rounds) t j low high apart =
      elim (==_cases ch j) [
        | inl here ↦
            let row = cell_row gain line ch in
            let later : (x : ℕ) → ch + 1 ≤ x → x < ch + 1 + rounds → cell x ≢ cell j =
              λ x above below. apart x (λ e. omega arith) (omega arith) in
            write_cells-other cell gain line (ch + 1) rounds (cell_written cell gain line ch t)
              (cell j) later
            ∙ subst
                (λ x.
                  heard (cell x) (cell_written cell gain line ch t)
                  ≡ some (clamp_output_volume (add_db (gain x) line)))
                here
                (heard_self mixer (cell ch) row (a.write_reply t (cell ch) row) t
                  (writable t (cell ch) row))
        | inr later ↦
            write_cells-own writable cell gain line (ch + 1) rounds
              (cell_written cell gain line ch t) j (omega arith) (omega arith)
              (λ x ne below. apart x ne (omega arith))
      ]

  -- UpdateMixerVolume brings the cells of one output in line with its new line-out gain; `t1` is the
  -- log to which nothing of the monitor mixer was added since `t`.
  row-InLine :
      Writable a
      → c.mixer_id ≢ 0
      → (line_out : Row) (gain : Table) (ch : ℕ) (val : ℤ) (t t1 : Log) → (c.lineout_id == 0) ≡ true
      → ((p j : ℕ)
          → p < c.n_lout
          → j < c.n_in
          → heard (mixer_cell c p j) t1 ≡ heard (mixer_cell c p j) t)
      → InLine c line_out gain t
      → InLine c
          (set_at line_out ch val)
          gain
          (write_cells a c (mixer_cell c ch) (gain ch) (set_at line_out ch val ch) 0 c.n_in t1)
  unfolding emulated
  row-InLine writable there line_out gain ch val t t1 emulating same told p j hp hj =
      let line' = set_at line_out ch val in
      let apart : (q x y : ℕ)
          → x < c.n_in
          → y < c.n_in
          → ¬ ((ch ≡ q) × (x ≡ y))
          → mixer_cell c ch x ≢ mixer_cell c q y =
        λ q x y hx hy ne e. ne (cell_id-injective c.mixer_id c.n_in ch q x y there hx hy e) in
      elim (==_cases ch p) [
        | inl own ↦ rw emulating (
            subst
              (λ q.
                heard (mixer_cell c q j)
                  (write_cells a c (mixer_cell c ch) (gain ch) (line' ch) 0 c.n_in t1)
                ≡ some (clamp_output_volume (add_db (gain q j) (line' q))))
              own
              (write_cells-own writable (mixer_cell c ch) (gain ch) (line' ch) 0 c.n_in t1 j
                (omega arith) (omega arith)
                (λ x ne below. apart ch x j (omega arith) hj (λ both. ne both.1))))
        | inr other ↦
            write_cells-other (mixer_cell c ch) (gain ch) (line' ch) 0 c.n_in t1 (mixer_cell c p j)
              (λ x low high. apart p x j (omega arith) hj (λ both. other both.0))
            ∙ same p j hp hj
            ∙ told p j hp hj
            ∙ ap
                (λ l. some (
                  if c.lineout_id == 0
                  then clamp_output_volume (add_db (gain p j) l)
                  else gain p j))
                (sym (set_at_ne line_out ch p val other))
      ]

  emulated_own :
      (c.lineout_id == 0) ≡ false
      → (line_out line' : Row) (o : ℕ) (val : ℤ)
      → emulated c line_out o val ≡ emulated c line' o val
  unfolding emulated
  emulated_own own line_out line' o val = rw own refl

  -- The handler's own part, on every kind of card.
  line_out_applied-InLine :
      Writable a
      → Apart c
      → (ch : ℕ) (s : Console) → ch < c.n_lout
      → InLine c s.line_out s.mixer_gain s.log
      → let s' = line_out_applied a c ch s in InLine c s'.line_out s'.mixer_gain s'.log
  unfolding line_out_applied update_mixer_volume update_vmixer_volume update_pcm_volume
  line_out_applied-InLine writable apart ch s known told =
      let val = invert (s.line_out_adj ch) in
      let line' = set_at s.line_out ch val in
      elim (Bool-cases (c.lineout_id == 0)) [
        | inl emulating ↦ elim (Bool-cases (c.vmixer_id == 0)) [
          | inl plain ↦
              rw (emulating, plain)
                (row-InLine writable apart.table s.line_out s.mixer_gain ch val s.log _ emulating
                  (λ p j hp hj.
                    write_channel-heard c.pcmout_id ch _ s.log (mixer_cell c p j)
                      (apart.pcm_out p j hp hj))
                  told)
          | inr virtual ↦
              rw (emulating, virtual)
                (row-InLine writable apart.table s.line_out s.mixer_gain ch val s.log _ emulating
                  (λ p j hp hj.
                    write_cells-other (vmixer_cell c ch) (s.vmixer_gain ch) (line' ch) 0 c.n_pout
                      s.log (mixer_cell c p j)
                      (λ x _ high. apart.vmixer ch x p j known (omega arith) hp hj))
                  told)
        ]
        | inr own ↦ rw own (λ p j hp hj.
            write_channel-heard c.lineout_id ch val s.log (mixer_cell c p j)
              (apart.line_out p j hp hj)
            ∙ told p j hp hj
            ∙ ap some (emulated_own own s.line_out line' p (s.mixer_gain p j)))
      ]

  -- How a call that returned ended: here, or with what the partner's handler returned.
  handler_ended :
      (handler : Console → Option Console) (other : ℕ) (s s' : Console) (gang : Bool)
      (moved : Option ℤ)
      → (if gang then then_line_out a c handler other s moved else some s) ≡ some s'
      → (s ≡ s')
        ⊎ ((v : ℤ) × (handler (record s { line_out_adj = set_at s.line_out_adj other v })
              ≡ some s'))
  handler_ended handler other s s' false moved e = inl ((some_inj).0 e)
  handler_ended handler other s s' true none e = inl ((some_inj).0 e)
  handler_ended handler other s s' true (some v) e = inr (v, e)

  line_out_volume_changed-InLine :
      Writable a
      → Apart c
      → (g : Gtk) (fuel ch : ℕ) (s s' : Console) → ch < c.n_lout
      → partner ch < c.n_lout
      → InLine c s.line_out s.mixer_gain s.log
      → line_out_volume_changed a c g fuel ch s ≡ some s'
      → InLine c s'.line_out s'.mixer_gain s'.log
  unfolding line_out_volume_changed
  line_out_volume_changed-InLine writable apart g zero ch s s' known pair told e = absurd (cc)
  line_out_volume_changed-InLine writable apart g (suc fuel) ch s s' known pair told e =
      let s1 = line_out_applied a c ch s in
      let told1 = line_out_applied-InLine writable apart ch s known told in
      elim (handler_ended (line_out_volume_changed a c g fuel (partner ch)) (partner ch) s1 s'
        s1.gang (g (s1.line_out_adj (partner ch)) (s1.line_out_adj ch)) e) [
          | inl same ↦ subst (λ r. InLine c r.line_out r.mixer_gain r.log) same told1
          | inr (v, more) ↦
              line_out_volume_changed-InLine writable apart g fuel (partner ch)
                (record s1 { line_out_adj = set_at s1.line_out_adj (partner ch) v }) s' pair
                (subst (λ x. x < c.n_lout) (sym (partner-partner ch)) known) told1 more
        ]

-- A line-out slider was moved to a position within the bounds of an output, with the button on, and
-- every other line-out slider shows its gain. Then the handler comes to an end, two calls deep at
-- most, the pair's sliders and gains are equal, this slider and its partner's show their gains too, no
-- other slider has moved, and the hardware, if it was in line with the gains of the monitor mixer,
-- still is. This is so on a card with a line-out control of its own and on one where it is emulated,
-- if both channels of the pair are outputs of the card, ALSA takes the writes, the card has a monitor
-- mixer whose cells are no other control's, and GTK sets a slider as it is documented to.
pub line_out_volume_changed-Settled :
    (a : Alsa) (c : Card) (g : Gtk) (ch : ℕ) (s : Console)
    → Writable a
    → Apart c
    → SetsValue g
    → ch < c.n_lout
    → partner ch < c.n_lout
    → s.gang ≡ true
    → IsOutGain (s.line_out_adj ch)
    → InStep ch s
    → InLine c s.line_out s.mixer_gain s.log
    → (s' : Console) × (line_out_volume_changed a c g 2 ch s ≡ some s')
      × Paired ch s s'
      × InLine c s'.line_out s'.mixer_gain s'.log
line_out_volume_changed-Settled a c g ch s writable apart gtk known pair ganged within in_step
      told =
    let (s', run, paired) = line_out_volume_changed-Paired a c g gtk ch s ganged within in_step in
    (
      s',
      run,
      paired,
      line_out_volume_changed-InLine a c writable apart g 2 ch s s' known pair told run,
    )
