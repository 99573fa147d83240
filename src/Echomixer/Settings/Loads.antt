-- ===== src/Echomixer/Settings/Loads.antt =====
-- What a part of the file restores, and what it keeps: the lines, and the loops that write them.
use dreamscape.Base.{
  ℕ, zero, suc, ◌+◌, ◌≤◌, ◌<◌, ◌≡◌, ◌⊎◌, refl, sym, ◌∙◌, subst, inl, inr, List, [], ◌∷◌, ◌++◌,
  arith, ==_cases, ==_ne, ==_refl,
}
use dreamscape.Base.Int.{ℤ}
use dreamscape.Echomixer.{Row, Table, set_at, set_cell, set_at_self, set_at_ne, Card}
use dreamscape.Echomixer.Settings.{
  Settings, Section, line_out, line_in, pcm_out, nominal_out, nominal_in, mixer, vmixer, Scanned,
  value_of, line_of, load_line, load_lines, save_row, save_inputs, save_table,
}
use dreamscape.Echomixer.Settings.Lines.{Fits, IsKey, IsValue, put, filled, load_line-line_of}

-- Writing a value that is wanted disturbs no value that is as wanted.
row_kept : (row wanted : Row) (o p : ℕ) → row p ≡ wanted p → set_at row o (wanted o) p ≡ wanted p
row_kept row wanted o p h = elim (==_cases o p) [
  | inl e ↦ subst (λ x. set_at row o (wanted o) x ≡ wanted x) e (set_at_self row o (wanted o))
  | inr ne ↦ set_at_ne row o p (wanted o) ne ∙ h
]

table_kept :
    (table wanted : Table) (o i p j : ℕ)
    → table p j ≡ wanted p j
    → set_cell table o i (wanted o i) p j ≡ wanted p j
table_kept table wanted o i p j h = elim (==_cases o p) [
  | inl e ↦
      subst (λ x. table x j ≡ wanted x j → set_cell table o i (wanted o i) x j ≡ wanted x j) e
        (λ k. rw (==_refl o) (row_kept (table o) (wanted o) i j k)) h
  | inr ne ↦ rw (==_ne o p ne) h
]

put-kept :
    (s0 s : Settings) (section : Section) (o i : ℕ) (other : Section) (p j : ℕ)
    → value_of s other p j ≡ value_of s0 other p j
    → value_of (put section o i (value_of s0 section o i) s) other p j ≡ value_of s0 other p j
put-kept s0 s line_out o i line_out p j h = row_kept s.line_out s0.line_out o p h
put-kept s0 s line_in o i line_in p j h = row_kept s.line_in s0.line_in o p h
put-kept s0 s pcm_out o i pcm_out p j h = row_kept s.pcm_out s0.pcm_out o p h
put-kept s0 s nominal_out o i nominal_out p j h = row_kept s.nominal_out s0.nominal_out o p h
put-kept s0 s nominal_in o i nominal_in p j h = row_kept s.nominal_in s0.nominal_in o p h
put-kept s0 s mixer o i mixer p j h = table_kept s.mixer s0.mixer o i p j h
put-kept s0 s vmixer o i vmixer p j h = table_kept s.vmixer s0.vmixer o i p j h
put-kept s0 s _ o i _ p j h = h

put-set :
    (section : Section) (o i : ℕ) (n : ℤ) (s : Settings)
    → value_of (put section o i n s) section o i ≡ n
put-set line_out o i n s = set_at_self s.line_out o n
put-set line_in o i n s = set_at_self s.line_in o n
put-set pcm_out o i n s = set_at_self s.pcm_out o n
put-set nominal_out o i n s = set_at_self s.nominal_out o n
put-set nominal_in o i n s = set_at_self s.nominal_in o n
put-set mixer o i n s = rw (==_refl o) (set_at_self (s.mixer o) i n)
put-set vmixer o i n s = rw (==_refl o) (set_at_self (s.vmixer o) i n)

-- Every value is an `int`, and the levels are 0 and 1.
abbrev pub AreValues : Card → Settings → Type 0
AreValues c s =
    (section : Section) (o i : ℕ) → IsKey c section o i → IsValue section (value_of s section o i)

load_lines-append :
    (c : Card) (xs ys : List (List ℕ)) (state : Scanned × Settings)
    → load_lines c (xs ++ ys) state ≡ load_lines c ys (load_lines c xs state)
unfolding load_lines
load_lines-append c [] ys state = refl
load_lines-append c (x ∷ xs) ys state = load_lines-append c xs ys (load_line c x state)

module _ (c : Card) (s0 : Settings) where
  abbrev Reads : (lines : List (List ℕ)) → Scanned × Settings → Section → (p j : ℕ) → Type 0
  Reads lines state section p j =
      value_of (load_lines c lines state).1 section p j ≡ value_of s0 section p j

  -- Reading these lines brings the values of `K` to those of `s0`, and moves no value away from that.
  pub record Loads (lines : List (List ℕ)) (K : Section → (o i : ℕ) → Type 0) : Type 0 where
    pub kept :
        (v : Scanned) (s : Settings) (section : Section) (p j : ℕ)
        → value_of s section p j ≡ value_of s0 section p j
        → value_of (load_lines c lines (v, s)).1 section p j ≡ value_of s0 section p j
    pub restored :
        (v : Scanned) (s : Settings) (section : Section) (p j : ℕ)
        → K section p j
        → value_of (load_lines c lines (v, s)).1 section p j ≡ value_of s0 section p j

  pub nothing : Loads [] (λ _ _ _. ⊥)
  unfolding load_lines
  nothing = record { kept = λ v s section p j h. h; restored = λ v s section p j k. elim k [ ] }

  pub narrow :
      {lines : List (List ℕ)} {K J : Section → (o i : ℕ) → Type 0}
      → ((section : Section) (o i : ℕ) → J section o i → K section o i)
      → Loads lines K
      → Loads lines J
  narrow {lines} {K} {J} fewer l = record {
    kept = l.kept;
    restored = λ v s section p j k. l.restored v s section p j (fewer section p j k);
  }

  pub both :
      {xs ys : List (List ℕ)} {K J : Section → (o i : ℕ) → Type 0}
      → Loads xs K
      → Loads ys J
      → Loads (xs ++ ys) (λ section o i. K section o i ⊎ J section o i)
  both {xs} {ys} {K} {J} k j = record {
    kept = λ v s section p q h. rw (load_lines-append c xs ys (v, s)) (
        j.kept (load_lines c xs (v, s)).0 (load_lines c xs (v, s)).1 section p q
          (k.kept v s section p q h));
    restored = λ v s section p q h. rw (load_lines-append c xs ys (v, s)) (elim h [
      | inl first ↦
          j.kept (load_lines c xs (v, s)).0 (load_lines c xs (v, s)).1 section p q
            (k.restored v s section p q first)
      | inr second ↦
          j.restored (load_lines c xs (v, s)).0 (load_lines c xs (v, s)).1 section p q second
    ]);
  }

  -- A line with a text that names no section.
  pub remark :
      (line : List ℕ) {lines : List (List ℕ)} {K : Section → (o i : ℕ) → Type 0}
      → ((state : Scanned × Settings) → load_line c line state ≡ state)
      → Loads lines K
      → Loads (line ∷ lines) K
  unfolding load_lines
  remark line {lines} {K} idle l = record {
    kept = λ v s section p j h.
        subst (λ r. Reads lines r section p j) (sym (idle (v, s))) (l.kept v s section p j h);
    restored = λ v s section p j h.
        subst (λ r. Reads lines r section p j) (sym (idle (v, s))) (l.restored v s section p j h);
  }

  abbrev Only : Section → (o i : ℕ) → Section → (p j : ℕ) → Type 0
  Only section o i other p j = (section ≡ other) × (o ≡ p) × (i ≡ j)

  module _ (fits : Fits c) (values : AreValues c s0) where
    entry :
        (section : Section) (o i : ℕ) {lines : List (List ℕ)} {K : Section → (p j : ℕ) → Type 0}
        → IsKey c section o i
        → Loads lines K
        → Loads
            (line_of section o i (value_of s0 section o i) ∷ lines)
            (λ other p j. Only section o i other p j ⊎ K other p j)
    unfolding load_lines
    entry section o i {lines} {K} key l = record {
      kept = λ v s other p j h.
          subst (λ r. Reads lines r other p j) (sym (stored v s))
            (l.kept (v' v) (put_in s) other p j (put-kept s0 s section o i other p j h));
      restored = λ v s other p j h.
          subst (λ r. Reads lines r other p j) (sym (stored v s))
            (elim h [
              | inl (e, f, g) ↦ l.kept (v' v) (put_in s) other p j (own s e f g)
              | inr later ↦ l.restored (v' v) (put_in s) other p j later
            ]);
    }
      where
        n : ℤ
        n = value_of s0 section o i

        v' : Scanned → Scanned
        v' v = filled section o i n v

        put_in : Settings → Settings
        put_in s = put section o i n s

        stored :
            (v : Scanned) (s : Settings)
            → load_line c (line_of section o i n) (v, s) ≡ (v' v, put_in s)
        stored v s = load_line-line_of c section o i n v s fits key (values section o i key)

        own :
            {other : Section} {p j : ℕ} (s : Settings)
            → section ≡ other
            → o ≡ p
            → i ≡ j
            → value_of (put_in s) other p j ≡ value_of s0 other p j
        own {other} {p} {j} s e f g =
            subst (λ x. value_of (put_in s) x p j ≡ value_of s0 x p j) e
              (subst (λ x. value_of (put_in s) section x j ≡ value_of s0 section x j) f
                (subst (λ x. value_of (put_in s) section o x ≡ value_of s0 section o x) g
                  (put-set section o i n s)))

    -- The loops of the saving.
    pub save_row-Loads :
        (section : Section) (o rounds : ℕ)
        → ((p : ℕ) → o ≤ p → p < o + rounds → IsKey c section p 0)
        → Loads
            (save_row s0 section o rounds)
            (λ other p j. (section ≡ other) × (o ≤ p) × (p < o + rounds) × (0 ≡ j))
    unfolding save_row
    save_row-Loads section o zero keys =
        narrow (λ other p j h. absurd (omega (arith, h.1, h.2))) nothing
    save_row-Loads section o (suc rounds) keys =
        narrow
          (λ other p j (e, low, high, first). elim (==_cases o p) [
            | inl here ↦ inl (e, here, first)
            | inr later ↦ inr (e, omega arith, omega arith, first)
          ])
          (entry section o 0 (keys o (omega arith) (omega arith)) (
            save_row-Loads section (o + 1) rounds
              (λ p low high. keys p (omega arith) (omega arith))))

    save_inputs-Loads :
        (section : Section) (o i rounds : ℕ)
        → ((j : ℕ) → i ≤ j → j < i + rounds → IsKey c section o j)
        → Loads
            (save_inputs s0 section o i rounds)
            (λ other p j. (section ≡ other) × (o ≡ p) × (i ≤ j) × (j < i + rounds))
    unfolding save_inputs
    save_inputs-Loads section o i zero keys =
        narrow (λ other p j h. absurd (omega (arith, h.2, h.3))) nothing
    save_inputs-Loads section o i (suc rounds) keys =
        narrow
          (λ other p j (e, row, low, high). elim (==_cases i j) [
            | inl here ↦ inl (e, row, here)
            | inr later ↦ inr (e, row, omega arith, omega arith)
          ])
          (entry section o i (keys i (omega arith) (omega arith)) (
            save_inputs-Loads section o (i + 1) rounds
              (λ j low high. keys j (omega arith) (omega arith))))

    pub save_table-Loads :
        (section : Section) (inputs o rounds : ℕ)
        → ((p j : ℕ) → o ≤ p → p < o + rounds → j < inputs → IsKey c section p j)
        → Loads
            (save_table s0 section inputs o rounds)
            (λ other p j. (section ≡ other) × (o ≤ p) × (p < o + rounds) × (j < inputs))
    unfolding save_table
    save_table-Loads section inputs o zero keys =
        narrow (λ other p j h. absurd (omega (arith, h.1, h.2))) nothing
    save_table-Loads section inputs o (suc rounds) keys =
        narrow
          (λ other p j (e, low, high, inside). elim (==_cases o p) [
            | inl here ↦ inl (e, here, omega arith, omega arith)
            | inr later ↦ inr (e, omega arith, omega arith, inside)
          ])
          (both
            (save_inputs-Loads section o 0 inputs
              (λ j low high. keys o j (omega arith) (omega arith) (omega arith)))
            (save_table-Loads section inputs (o + 1) rounds
              (λ p j low high inside. keys p j (omega arith) (omega arith) inside)))
