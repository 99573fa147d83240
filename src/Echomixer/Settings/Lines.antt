-- ===== src/Echomixer/Settings/Lines.antt =====
-- A line that was saved is read back as the value that it was made from.
use dreamscape.Base.{
  ℕ, ◌+◌, ◌^◌, ◌≤◌, ◌<◌, ◌≡◌, refl, ap, ◌∙◌, inl, inr, false, some, List, [], ◌∷◌, ◌++◌, codes,
  length, ltb, ◌==◌, arith, Bool-cases, lt→ltb,
}
use dreamscape.Base.Int.{ℤ, pos, negsuc}
use dreamscape.Base.Decimal.{print_int, print_u64, digits}
use dreamscape.Base.Scan.{
  skip_spaces, span_digits, drop_digits, read_signed-print_int, IsInt, AllDigits, digits-AllDigits,
  some_digits, drop_digits-append, skip_spaces-digits,
}
use dreamscape.Echomixer.{set_at, set_cell, Card}
use dreamscape.Echomixer.Settings.{
  Settings, Section, line_out, line_in, pcm_out, nominal_out, nominal_in, mixer, vmixer, Scanned,
  after, section_of, behind_number, scan_number, scan_pair, scan_triple, truth, print_index,
  line_of, load_line,
}

-- A text that ends the number in front of it.
abbrev Ends : List ℕ → Type 0
Ends t = (span_digits t ≡ []) × (drop_digits t ≡ t)

behind_number-digits :
    (s t : List ℕ) → AllDigits s → 0 < length s → Ends t → behind_number (s ++ t) ≡ t
unfolding drop_digits
behind_number-digits [] t h some_of ends = absurd (omega arith)
behind_number-digits (c ∷ s) t h some_of ends =
    let unsigned : (c == b'-') ≡ false = ground (arith, h.0) in
    rw unsigned (drop_digits-append (c ∷ s) t h ends.0 ∙ ends.1)

skip_spaces-print_int : (n : ℤ) (t : List ℕ) → skip_spaces (print_int n ++ t) ≡ print_int n ++ t
unfolding print_int print_u64 skip_spaces
skip_spaces-print_int (pos n) t =
    skip_spaces-digits (digits 20 n) t (digits-AllDigits 20 n) (some_digits 19 n)
skip_spaces-print_int (negsuc n) t = refl

behind_number-print_int : (n : ℤ) (t : List ℕ) → Ends t → behind_number (print_int n ++ t) ≡ t
unfolding print_int print_u64
behind_number-print_int (pos n) t ends =
    behind_number-digits (digits 20 n) t (digits-AllDigits 20 n) (some_digits 19 n) ends
behind_number-print_int (negsuc n) t ends =
    drop_digits-append (digits 20 (n + 1)) t (digits-AllDigits 20 (n + 1)) ends.0 ∙ ends.1

scan_number-print_int :
    (n : ℤ) (t : List ℕ) → IsInt n → Ends t → scan_number (print_int n ++ t) ≡ (some n, t)
unfolding scan_number
scan_number-print_int n t fits ends = λ k. (
  read_signed-print_int n t fits ends.0 k,
  (ap behind_number (skip_spaces-print_int n t) ∙ behind_number-print_int n t ends) k,
)

scan_number-print_index :
    (n : ℕ) (t : List ℕ)
    → n < 2 ^ 31
    → Ends t
    → scan_number (print_index n ++ t) ≡ (some (pos n), t)
unfolding scan_number skip_spaces
scan_number-print_index n t fits ends = elim (Bool-cases (ltb n 10)) [
  | inl short ↦ rw short (scan_number-print_int (pos n) t fits ends)
  | inr long ↦ rw long (scan_number-print_int (pos n) t fits ends)
]

newline_ends : Ends (10 ∷ [])
unfolding span_digits drop_digits
newline_ends = (refl, refl)

space_ends : (t : List ℕ) → Ends (32 ∷ t)
unfolding span_digits drop_digits
space_ends t = (refl, refl)

-- A value behind a space.
scan_number-space : (t : List ℕ) → scan_number (32 ∷ t) ≡ scan_number t
unfolding scan_number skip_spaces
scan_number-space t = refl

scan_pair-print_index :
    (o : ℕ) (w t : List ℕ) (m x y : ℤ)
    → o < 2 ^ 31
    → scan_number w ≡ (some m, t)
    → scan_pair (print_index o ++ (32 ∷ w)) x y ≡ (pos o, m, some t)
unfolding scan_pair
scan_pair-print_index o w t m x y fits e =
    rw (scan_number-print_index o (32 ∷ w) fits (space_ends w))
      (rw (scan_number-space w) (rw e refl))

-- The section, from the name in front.
section_of-names :
    (t : List ℕ)
    → (section_of (codes "LineOut " ++ t) ≡ some (line_out, t))
      × (section_of (codes "LineIn " ++ t) ≡ some (line_in, t))
      × (section_of (codes "PcmOut " ++ t) ≡ some (pcm_out, t))
      × (section_of (codes "NominalOut " ++ t) ≡ some (nominal_out, t))
      × (section_of (codes "NominalIn " ++ t) ≡ some (nominal_in, t))
      × (section_of (codes "Mixer " ++ t) ≡ some (mixer, t))
      × (section_of (codes "Vmixer " ++ t) ≡ some (vmixer, t))
unfolding section_of after
section_of-names t = (refl, refl, refl, refl, refl, refl, refl)

-- The arrays of the program have 32 elements.
pub record Fits (c : Card) : Type 0 where
  pub inputs : c.n_in ≤ 32
  pub outputs : c.n_lout ≤ 32
  pub virtual : c.n_pout ≤ 32
  pub digital_in : c.fd_in ≤ 32
  pub digital_out : c.fd_out ≤ 32

-- The indices of a section, on this card.
abbrev pub IsKey : Card → Section → (o i : ℕ) → Type 0
IsKey c line_out o i = o < c.n_lout
IsKey c line_in o i = o < c.n_in
IsKey c pcm_out o i = o < c.n_pout
IsKey c nominal_out o i = o < c.fd_out
IsKey c nominal_in o i = o < c.fd_in
IsKey c mixer o i = (o < c.n_lout) × (i < c.n_in)
IsKey c vmixer o i = (o < c.n_lout) × (i < c.n_pout)

-- A gain is an `int`, and a level 0 or 1.
abbrev pub IsValue : Section → ℤ → Type 0
IsValue nominal_out n = IsInt n × (truth n ≡ n)
IsValue nominal_in n = IsInt n × (truth n ≡ n)
IsValue _ n = IsInt n

abbrev pub put : Section → (o i : ℕ) → ℤ → Settings → Settings
put line_out o i n s = record s { line_out = set_at s.line_out o n }
put line_in o i n s = record s { line_in = set_at s.line_in o n }
put pcm_out o i n s = record s { pcm_out = set_at s.pcm_out o n }
put nominal_out o i n s = record s { nominal_out = set_at s.nominal_out o n }
put nominal_in o i n s = record s { nominal_in = set_at s.nominal_in o n }
put mixer o i n s = record s { mixer = set_cell s.mixer o i n }
put vmixer o i n s = record s { vmixer = set_cell s.vmixer o i n }

-- What `sscanf` makes of the two forms of a line.
pair_read :
    (o : ℕ) (n x y : ℤ)
    → o < 2 ^ 31
    → IsInt n
    → scan_pair (print_index o ++ (32 ∷ (print_int n ++ 10 ∷ []))) x y ≡ (pos o, n, some (10 ∷ []))
pair_read o n x y small fits =
    scan_pair-print_index o (print_int n ++ 10 ∷ []) (10 ∷ []) n x y small
      (scan_number-print_int n (10 ∷ []) fits newline_ends)

triple_read :
    (o i : ℕ) (n : ℤ) (v : Scanned)
    → o < 2 ^ 31
    → i < 2 ^ 31
    → IsInt n
    → scan_triple (print_index o ++ (32 ∷ (print_index i ++ (32 ∷ (print_int n ++ 10 ∷ []))))) v
      ≡ record { o = pos o; i = pos i; n = n }
unfolding scan_triple
triple_read o i n v small_o small_i fits =
    let last = 32 ∷ (print_int n ++ 10 ∷ []) in
    rw
      (scan_pair-print_index o (print_index i ++ last) last (pos i) v.o v.i small_o
        (scan_number-print_index i last small_i (space_ends (print_int n ++ 10 ∷ []))))
      (rw (scan_number-space (print_int n ++ 10 ∷ []))
        (rw (scan_number-print_int n (10 ∷ []) fits newline_ends) refl))

-- The variables after such a line.
abbrev pub filled : Section → (o i : ℕ) → ℤ → Scanned → Scanned
filled line_in o i n v = record v { i = pos o; n = n }
filled nominal_in o i n v = record v { i = pos o; n = n }
filled mixer o i n v = record { o = pos o; i = pos i; n = n }
filled vmixer o i n v = record { o = pos o; i = pos i; n = n }
filled _ o i n v = record v { o = pos o; n = n }

-- Reading a line that was saved stores its value at its place.
pub load_line-line_of :
    (c : Card) (section : Section) (o i : ℕ) (n : ℤ) (v : Scanned) (s : Settings)
    → Fits c
    → IsKey c section o i
    → IsValue section n
    → load_line c (line_of section o i n) (v, s) ≡ (filled section o i n v, put section o i n s)
unfolding load_line line_of
load_line-line_of c line_out o i n v s f key fits =
    rw ((section_of-names (print_index o ++ (32 ∷ (print_int n ++ 10 ∷ [])))).0) (
      rw (pair_read o n v.o v.n (omega (arith, f.outputs, key)) fits)
        (rw (lt→ltb o c.n_lout key) refl))
load_line-line_of c line_in o i n v s f key fits =
    rw ((section_of-names (print_index o ++ (32 ∷ (print_int n ++ 10 ∷ [])))).1) (
      rw (pair_read o n v.i v.n (omega (arith, f.inputs, key)) fits)
        (rw (lt→ltb o c.n_in key) refl))
load_line-line_of c pcm_out o i n v s f key fits =
    rw ((section_of-names (print_index o ++ (32 ∷ (print_int n ++ 10 ∷ [])))).2) (
      rw (pair_read o n v.o v.n (omega (arith, f.virtual, key)) fits)
        (rw (lt→ltb o c.n_pout key) refl))
load_line-line_of c nominal_out o i n v s f key fits =
    rw ((section_of-names (print_index o ++ (32 ∷ (print_int n ++ 10 ∷ [])))).3) (
      rw (pair_read o n v.o v.n (omega (arith, f.digital_out, key)) fits.0)
        (rw (lt→ltb o c.fd_out key, fits.1) refl))
load_line-line_of c nominal_in o i n v s f key fits =
    rw ((section_of-names (print_index o ++ (32 ∷ (print_int n ++ 10 ∷ [])))).4) (
      rw (pair_read o n v.i v.n (omega (arith, f.digital_in, key)) fits.0)
        (rw (lt→ltb o c.fd_in key, fits.1) refl))
load_line-line_of c mixer o i n v s f key fits =
    rw
      ((section_of-names
        (print_index o ++ (32 ∷ (print_index i ++ (32 ∷ (print_int n ++ 10 ∷ [])))))).5)
      (rw
        (triple_read o i n v (omega (arith, f.outputs, key.0)) (omega (arith, f.inputs, key.1))
          fits)
        (rw (lt→ltb o c.n_lout key.0, lt→ltb i c.n_in key.1) refl))
load_line-line_of c vmixer o i n v s f key fits =
    rw
      ((section_of-names
        (print_index o ++ (32 ∷ (print_index i ++ (32 ∷ (print_int n ++ 10 ∷ [])))))).6)
      (rw
        (triple_read o i n v (omega (arith, f.outputs, key.0)) (omega (arith, f.virtual, key.1))
          fits)
        (rw (lt→ltb o c.n_lout key.0, lt→ltb i c.n_pout key.1) refl))
