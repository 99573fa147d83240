-- ===== src/Echomixer/Settings.antt =====
-- The file in which echomixer.c keeps its gains and levels from one run to the next. The lines on the
-- windows are left out. `fgets` gives whole lines: none is longer than its buffer.
pub mod Lines
pub mod Loads
pub mod Restored
use dreamscape.Base.{
  ℕ, zero, suc, ◌+◌, Bool, true, false, not, ◌&&◌, Option, none, some, List, [], ◌∷◌, ◌++◌, codes,
  ltb, ◌==◌, if◌then◌else◌,
}
use dreamscape.Base.Int.{ℤ, pos, is_neg, eq_ℤ, pos_part}
use dreamscape.Base.Decimal.{print_int}
use dreamscape.Base.Scan.{skip_spaces, span_digits, drop_digits, read_signed}
use dreamscape.Echomixer.{Row, Table, set_at, set_cell, Card}

-- The arrays that are kept.
pub record Settings : Type 0 where
  pub line_out : Row
  pub line_in : Row
  pub pcm_out : Row
  pub nominal_out : Row
  pub nominal_in : Row
  pub mixer : Table
  pub vmixer : Table

pub data Section : Type 0 where
  line_out line_in pcm_out nominal_out nominal_in mixer vmixer : Section

-- The local variables that `sscanf` fills; what it does not fill keeps its value from line to line.
pub record Scanned : Type 0 where
  pub o : ℤ
  pub i : ℤ
  pub n : ℤ

-- `strncmp(name, str, strlen(name)) == 0`, and what is behind the name.
unfoldable pub after : (name str : List ℕ) → Option (List ℕ)
after [] str = some str
after (a ∷ name) [] = none
after (a ∷ name) (b ∷ str) = if a == b then after name str else none

abbrev pub or_else :
    Section → Option (List ℕ) → Option (Section × List ℕ) → Option (Section × List ℕ)
or_else section (some rest) next = some (section, rest)
or_else section none next = next

pub section_of : (str : List ℕ) → Option (Section × List ℕ)
section_of str = or_else line_out (after (codes "LineOut ") str) (
    or_else line_in (after (codes "LineIn ") str) (
      or_else pcm_out (after (codes "PcmOut ") str) (
        or_else nominal_out (after (codes "NominalOut ") str) (
          or_else nominal_in (after (codes "NominalIn ") str) (
            or_else mixer (after (codes "Mixer ") str)
              (or_else vmixer (after (codes "Vmixer ") str) none))))))

-- "%d": the number, if there is one, and what is behind it.
abbrev pub behind_number : List ℕ → List ℕ
behind_number [] = []
behind_number (c ∷ s) = if c == b'-' then drop_digits s else drop_digits (c ∷ s)

unfoldable pub scan_number : List ℕ → Option ℤ × List ℕ
scan_number str = let s = skip_spaces str in (read_signed s, behind_number s)

-- "%d %d", with what the two variables held before.
abbrev pub second_of : (first second : ℤ) → Option ℤ × List ℕ → ℤ × ℤ × Option (List ℕ)
second_of first second (none, rest) = (first, second, none)
second_of first second (some n, rest) = (first, n, some rest)

abbrev pub pair_of : (first second : ℤ) → Option ℤ × List ℕ → ℤ × ℤ × Option (List ℕ)
pair_of first second (none, rest) = (first, second, none)
pair_of first second (some o, rest) = second_of o second (scan_number rest)

unfoldable pub scan_pair : (str : List ℕ) → (first second : ℤ) → ℤ × ℤ × Option (List ℕ)
scan_pair str first second = pair_of first second (scan_number str)

-- "%d %d %d"
abbrev pub triple_of : (third : ℤ) → ℤ × ℤ × Option (List ℕ) → Scanned
triple_of third (o, i, none) = record { o = o; i = i; n = third }
triple_of third (o, i, some rest) = record {
  o = o;
  i = i;
  n = (second_of (pos 0) third (scan_number rest)).1;
}

unfoldable pub scan_triple : (str : List ℕ) → Scanned → Scanned
scan_triple str v = triple_of v.n (scan_pair str v.o v.i)

-- `!!n`
abbrev pub truth : ℤ → ℤ
truth n = if eq_ℤ n (pos 0) then pos 0 else pos 1

abbrev pub is_index : ℤ → (limit : ℕ) → Bool
is_index i limit = not (is_neg i) && ltb (pos_part i) limit

abbrev pub set_row : (limit : ℕ) → Row → (i n : ℤ) → Row
set_row limit row i n = if is_index i limit then set_at row (pos_part i) n else row

abbrev pub set_table : (outputs inputs : ℕ) → Table → (o i n : ℤ) → Table
set_table outputs inputs table o i n =
    if is_index o outputs && is_index i inputs
    then set_cell table (pos_part o) (pos_part i) n
    else table

-- One line of the file: the sections on outputs scan into `o`, those on inputs into `i`.
abbrev pub scan_section : Section → (str : List ℕ) → Scanned → Scanned
scan_section line_out str v = let (o, n, _) = scan_pair str v.o v.n in record v { o = o; n = n }
scan_section line_in str v = let (i, n, _) = scan_pair str v.i v.n in record v { i = i; n = n }
scan_section pcm_out str v = let (o, n, _) = scan_pair str v.o v.n in record v { o = o; n = n }
scan_section nominal_out str v = let (o, n, _) = scan_pair str v.o v.n in record v { o = o; n = n }
scan_section nominal_in str v = let (i, n, _) = scan_pair str v.i v.n in record v { i = i; n = n }
scan_section mixer str v = scan_triple str v
scan_section vmixer str v = scan_triple str v

abbrev pub store_section : Card → Section → Scanned → Settings → Settings
store_section c line_out v s = record s { line_out = set_row c.n_lout s.line_out v.o v.n }
store_section c line_in v s = record s { line_in = set_row c.n_in s.line_in v.i v.n }
store_section c pcm_out v s = record s { pcm_out = set_row c.n_pout s.pcm_out v.o v.n }
store_section c nominal_out v s = record s {
  nominal_out = set_row c.fd_out s.nominal_out v.o (truth v.n);
}
store_section c nominal_in v s = record s {
  nominal_in = set_row c.fd_in s.nominal_in v.i (truth v.n);
}
store_section c mixer v s = record s { mixer = set_table c.n_lout c.n_in s.mixer v.o v.i v.n }
store_section c vmixer v s = record s { vmixer = set_table c.n_lout c.n_pout s.vmixer v.o v.i v.n }

abbrev pub load_found : Card → Option (Section × List ℕ) → Scanned × Settings → Scanned × Settings
load_found c none (v, s) = (v, s)
load_found c (some (section, str)) (v, s) =
    let v' = scan_section section str v in (v', store_section c section v' s)

unfoldable pub load_line : Card → (line : List ℕ) → Scanned × Settings → Scanned × Settings
load_line c line state = load_found c (section_of line) state

unfoldable pub load_lines : Card → (lines : List (List ℕ)) → Scanned × Settings → Scanned × Settings
load_lines c [] state = state
load_lines c (line ∷ lines) state = load_lines c lines (load_line c line state)

-- "%2d" for an index.
abbrev pub print_index : ℕ → List ℕ
print_index n = if ltb n 10 then 32 ∷ print_int (pos n) else print_int (pos n)

-- "<name> %2d %d\n" and "<name> %2d %2d %d\n"
abbrev pub pair_line : (name : List ℕ) → (i : ℕ) → ℤ → List ℕ
pair_line name i n = name ++ (print_index i ++ (32 ∷ (print_int n ++ 10 ∷ [])))

abbrev pub triple_line : (name : List ℕ) → (o i : ℕ) → ℤ → List ℕ
triple_line name o i n =
    name ++ (print_index o ++ (32 ∷ (print_index i ++ (32 ∷ (print_int n ++ 10 ∷ [])))))

-- A value of the settings, by its section and its indices; a row has one.
abbrev pub value_of : Settings → Section → (o i : ℕ) → ℤ
value_of s line_out o i = s.line_out o
value_of s line_in o i = s.line_in o
value_of s pcm_out o i = s.pcm_out o
value_of s nominal_out o i = s.nominal_out o
value_of s nominal_in o i = s.nominal_in o
value_of s mixer o i = s.mixer o i
value_of s vmixer o i = s.vmixer o i

unfoldable pub line_of : Section → (o i : ℕ) → ℤ → List ℕ
line_of line_out o i n = pair_line (codes "LineOut ") o n
line_of line_in o i n = pair_line (codes "LineIn ") o n
line_of pcm_out o i n = pair_line (codes "PcmOut ") o n
line_of nominal_out o i n = pair_line (codes "NominalOut ") o n
line_of nominal_in o i n = pair_line (codes "NominalIn ") o n
line_of mixer o i n = triple_line (codes "Mixer ") o i n
line_of vmixer o i n = triple_line (codes "Vmixer ") o i n

-- The loops of the saving, over one row from index `o` on, and over the rows of a table.
unfoldable pub save_row : Settings → Section → (o rounds : ℕ) → List (List ℕ)
save_row s section o zero = []
save_row s section o (suc rounds) =
    line_of section o 0 (value_of s section o 0) ∷ save_row s section (o + 1) rounds

unfoldable pub save_inputs : Settings → Section → (o i rounds : ℕ) → List (List ℕ)
save_inputs s section o i zero = []
save_inputs s section o i (suc rounds) =
    line_of section o i (value_of s section o i) ∷ save_inputs s section o (i + 1) rounds

unfoldable pub save_table : Settings → Section → (inputs o rounds : ℕ) → List (List ℕ)
save_table s section inputs o zero = []
save_table s section inputs o (suc rounds) =
    save_inputs s section o 0 inputs ++ save_table s section inputs (o + 1) rounds

-- `p4_in` and `p4_out` say whether the card has nominal levels.
unfoldable pub save_lines : Card → (p4_in p4_out : Bool) → Settings → List (List ℕ)
save_lines c p4_in p4_out s =
    (codes "-- LineOut <channel> <gain>\n" ∷ save_row s line_out 0 c.n_lout)
    ++ ((codes "-- LineIn <channel> <gain>\n" ∷ save_row s line_in 0 c.n_in)
        ++ ((codes "-- PcmOut <channel> <gain>\n" ∷ save_row s pcm_out 0 c.n_pout)
            ++ ((if p4_in
                  then codes "-- NominalIn <channel> <consumer level enabled>\n"
                    ∷ save_row s nominal_in 0 c.fd_in
                  else [])
                ++ ((if p4_out
                      then codes "-- NominalOut <channel> <consumer level enabled>\n"
                        ∷ save_row s nominal_out 0 c.fd_out
                      else [])
                    ++ ((if c.mixer_id == 0
                          then []
                          else codes "-- Mixer <output> <input> <gain>\n"
                            ∷ save_table s mixer c.n_in 0 c.n_lout)
                        ++ (if c.vmixer_id == 0
                            then []
                            else codes "-- Vmixer <output> <vchannel> <gain>\n"
                              ∷ save_table s vmixer c.n_pout 0 c.n_lout))))))
