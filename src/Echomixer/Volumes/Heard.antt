-- ===== src/Echomixer/Volumes/Heard.antt =====
-- What the hardware has been told: the last value written to each cell of the monitor mixer, and that
-- the handlers keep it in line with the gains shown.
use dreamscape.Base.{
  true, ℕ, suc, ◌+◌, ◌*◌, ◌<◌, ◌≡◌, ◌≢◌, ◌⊎◌, refl, sym, ap, ◌∙◌, subst, inl, inr, false, ◌&&◌, not,
  Option, none, some, [], ◌∷◌, ◌==◌, if◌then◌else◌, arith, ==_cases, ==_ne, ==_refl, Bool-cases,
  lt_cases,
}
use native.Mathlib.Nat
use dreamscape.Base.Int.{ℤ, is_neg}
use dreamscape.Echomixer.{
  Row, Table, set_at, set_cell, set_at_self, set_at_ne, partner, mixer, zeros, Iface, Log,
  elem_read, elem_write, Alsa, Card, Console, cell_id, mixer_cell,
}
use dreamscape.Echomixer.Gain.{invert}
use dreamscape.Echomixer.Controls.{set_mixer_gain}
use dreamscape.Echomixer.Volumes.{emulated, monitor_volume_changed}

-- The first value of an element, as it was last written without an error.
abbrev pub heard : (numid : ℕ) → Log → Option ℤ
heard numid [] = none
heard numid (elem_read iface n reply ∷ t) = heard numid t
heard numid (elem_write iface n row err ∷ t) =
    if n == numid && not (is_neg err) then some (row 0) else heard numid t

row_before : (n o p i j : ℕ) → o < p → i < n → o * n + i < p * n + j
row_before n o p i j before inside = omega (arith, Nat.mul-le-mul_right n before, grow)
  where
    grow : suc o * n ≡ o * n + n
    grow = grind arith

pub cell_id-injective :
    (first n o p i j : ℕ)
    → first ≢ 0
    → i < n
    → j < n
    → cell_id first n o i ≡ cell_id first n p j
    → (o ≡ p) × (i ≡ j)
unfolding cell_id
cell_id-injective first n o p i j there hi hj e = elim (lt_cases o p) [
  | inl before ↦ absurd (omega (arith, sums, row_before n o p i j before hi))
  | inr not_before ↦ elim (lt_cases p o) [
    | inl after ↦ absurd (omega (arith, sums, row_before n p o j i after hj))
    | inr not_after ↦
        let same : o ≡ p = omega arith in (same, omega (arith, sums, ap (λ x. x * n) same))
  ]
]
  where
    sums : o * n + i ≡ p * n + j
    sums = ground (arith, e, ==_ne first 0 there)

pub set_cell_self : (gain : Table) (o i : ℕ) (v : ℤ) → set_cell gain o i v o i ≡ v
set_cell_self gain o i v = rw (==_refl o) (set_at_self (gain o) i v)

cell_cases : (o p i j : ℕ) → ((o ≡ p) × (i ≡ j)) ⊎ (¬ ((o ≡ p) × (i ≡ j)))
cell_cases o p i j = elim (==_cases o p) [
  | inl e ↦ elim (==_cases i j) [ inl f ↦ inl (e, f) | inr ne ↦ inr (λ both. ne both.1) ]
  | inr ne ↦ inr (λ both. ne both.0)
]

pub set_cell_other :
    (gain : Table) (o i p j : ℕ) (v : ℤ)
    → ¬ ((o ≡ p) × (i ≡ j))
    → set_cell gain o i v p j ≡ gain p j
set_cell_other gain o i p j v apart = elim (==_cases o p) [
  | inl e ↦ rw (e, ==_refl p) (set_at_ne (gain p) i j v (λ f. apart (e, f)))
  | inr ne ↦ rw (==_ne o p ne) refl
]

pub heard_self :
    (iface : Iface) (n : ℕ) (row : Row) (err : ℤ) (t : Log)
    → is_neg err ≡ false
    → heard n (elem_write iface n row err ∷ t) ≡ some (row 0)
heard_self iface n row err t good = rw (==_refl n, good) refl

pub heard_other :
    (iface : Iface) (n k : ℕ) (row : Row) (err : ℤ) (t : Log)
    → n ≢ k
    → heard k (elem_write iface n row err ∷ t) ≡ heard k t
heard_other iface n k row err t ne = rw (==_ne n k ne) refl

-- The hardware plays each cell at the gain shown, in series with the line-out gain where that is
-- emulated.
abbrev pub InLine : Card → (line_out : Row) → (gain : Table) → Log → Type 0
InLine c line_out gain t =
    (o i : ℕ)
    → o < c.n_lout
    → i < c.n_in
    → heard (mixer_cell c o i) t ≡ some (emulated c line_out o (gain o i))

-- One cell set, and written without an error.
InLine-write :
    (c : Card) (line_out : Row) (gain : Table) (t : Log) (o i : ℕ) (val rval err : ℤ)
    → c.mixer_id ≢ 0
    → i < c.n_in
    → is_neg err ≡ false
    → rval ≡ emulated c line_out o val
    → InLine c line_out gain t
    → InLine c line_out
        (set_cell gain o i val)
        (elem_write mixer (mixer_cell c o i) (set_at zeros 0 rval) err ∷ t)
InLine-write c line_out gain t o i val rval err there hi good is told p j hp hj =
    let entry = elem_write mixer (mixer_cell c o i) (set_at zeros 0 rval) err ∷ t in
    let gain' = set_cell gain o i val in
    let own : heard (mixer_cell c o i) entry ≡ some (emulated c line_out o (gain' o i)) =
      heard_self mixer (mixer_cell c o i) (set_at zeros 0 rval) err t good
      ∙ ap some (is ∙ ap (emulated c line_out o) (sym (set_cell_self gain o i val))) in
    elim (cell_cases o p i j) [
      | inl same ↦
          subst (λ x. heard (mixer_cell c x j) entry ≡ some (emulated c line_out x (gain' x j)))
            same.0
            (subst (λ y. heard (mixer_cell c o y) entry ≡ some (emulated c line_out o (gain' o y)))
              same.1 own)
      | inr apart ↦
          heard_other mixer (mixer_cell c o i) (mixer_cell c p j) (set_at zeros 0 rval) err t
            (λ e. apart (cell_id-injective c.mixer_id c.n_in o p i j there hi hj e))
          ∙ told p j hp hj
          ∙ ap (λ x. some (emulated c line_out p x)) (sym (set_cell_other gain o i p j val apart))
    ]

-- ALSA takes every write.
abbrev pub Writable : Alsa → Type 0
Writable a = (t : Log) (n : ℕ) (row : Row) → is_neg (a.write_reply t n row) ≡ false

emulated_same :
    (c : Card) (line_out : Row) (o p : ℕ) (val : ℤ)
    → line_out o ≡ line_out p
    → emulated c line_out o val ≡ emulated c line_out p val
unfolding emulated
emulated_same c line_out o p val e = rw e refl

-- Moving a slider of the monitor mixer keeps the hardware in line with all the gains shown, the
-- partner's included, if ALSA takes the writes, the card has a monitor mixer and the selected input is
-- one of its inputs, and if, where the button is on, the input's partner is one too and the line-out
-- gains of the output and its partner are equal.
pub monitor_volume_changed-InLine :
    (a : Alsa) (c : Card) (ch : ℕ) (s : Console)
    → Writable a
    → c.mixer_id ≢ 0
    → s.input < c.n_in
    → (s.gang ≡ true → (partner s.input < c.n_in) × (s.line_out ch ≡ s.line_out (partner ch)))
    → InLine c s.line_out s.mixer_gain s.log
    → let s' = monitor_volume_changed a c ch s in InLine c s'.line_out s'.mixer_gain s'.log
unfolding monitor_volume_changed set_mixer_gain
monitor_volume_changed-InLine a c ch s writable there inside pair told =
    let val = invert (s.mixer_adj ch) in
    let rval = emulated c s.line_out ch val in
    let row = set_at zeros 0 rval in
    let err = a.write_reply s.log (mixer_cell c ch s.input) row in
    let t1 = elem_write mixer (mixer_cell c ch s.input) row err ∷ s.log in
    let gain1 = set_cell s.mixer_gain ch s.input val in
    let first =
      InLine-write c s.line_out s.mixer_gain s.log ch s.input val rval err there inside
        (writable s.log (mixer_cell c ch s.input) row) refl told in
    elim (Bool-cases s.gang) [
      | inl ganged ↦
          let (partner_inside, same) = pair ganged in
          rw ganged (
            InLine-write c s.line_out gain1 t1 (partner ch) (partner s.input) val rval
              (a.write_reply t1 (mixer_cell c (partner ch) (partner s.input)) row) there
              partner_inside (writable t1 (mixer_cell c (partner ch) (partner s.input)) row)
              (emulated_same c s.line_out ch (partner ch) val same) first)
      | inr single ↦ rw single first
    ]
