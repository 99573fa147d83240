-- ===== src/Echomixer/Settings/Restored.antt =====
-- What was saved is restored.
use dreamscape.Base.{
  ℕ, ◌+◌, ◌≤◌, ◌<◌, ◌≡◌, ◌≢◌, ◌⊎◌, refl, inl, inr, Bool, true, false, List, [], ◌==◌, if◌then◌else◌,
  arith, ==_ne,
}
use dreamscape.Echomixer.{Card}
use dreamscape.Echomixer.Settings.{
  Settings, Section, line_out, line_in, pcm_out, nominal_out, nominal_in, mixer, vmixer, Scanned,
  after, section_of, value_of, load_line, load_lines, save_row, save_table, save_lines,
}
use dreamscape.Echomixer.Settings.Lines.{Fits, IsKey}
use dreamscape.Echomixer.Settings.Loads.{
  AreValues, Loads, nothing, narrow, both, remark, save_row-Loads, save_table-Loads,
}

module _ (c : Card) (s0 : Settings) where
  -- A part of the file that is left out in one case.
  part_if :
      (b : Bool) {lines : List (List ℕ)} {K : Section → (o i : ℕ) → Type 0}
      → Loads c s0 lines K
      → Loads c s0 (if b then lines else []) (λ section o i. (b ≡ true) × K section o i)
  part_if true l = narrow c s0 (λ section o i k. k.1) l
  part_if false l = narrow c s0 (λ section o i k. cc) (nothing c s0)

  part_unless :
      (b : Bool) {lines : List (List ℕ)} {K : Section → (o i : ℕ) → Type 0}
      → Loads c s0 lines K
      → Loads c s0 (if b then [] else lines) (λ section o i. (b ≡ false) × K section o i)
  part_unless true l = narrow c s0 (λ section o i k. cc) (nothing c s0)
  part_unless false l = narrow c s0 (λ section o i k. k.1) l

-- The values that are saved: those of the rows, the levels where the card has them, and the tables
-- that it has. A row's second index is 0.
abbrev pub IsSaved : Card → (p4_in p4_out : Bool) → Section → (o i : ℕ) → Type 0
IsSaved c p4_in p4_out line_out o i = (o < c.n_lout) × (0 ≡ i)
IsSaved c p4_in p4_out line_in o i = (o < c.n_in) × (0 ≡ i)
IsSaved c p4_in p4_out pcm_out o i = (o < c.n_pout) × (0 ≡ i)
IsSaved c p4_in p4_out nominal_in o i = (p4_in ≡ true) × (o < c.fd_in) × (0 ≡ i)
IsSaved c p4_in p4_out nominal_out o i = (p4_out ≡ true) × (o < c.fd_out) × (0 ≡ i)
IsSaved c p4_in p4_out mixer o i = (c.mixer_id ≢ 0) × (o < c.n_lout) × (i < c.n_in)
IsSaved c p4_in p4_out vmixer o i = (c.vmixer_id ≢ 0) × (o < c.n_lout) × (i < c.n_pout)

-- The same by the places in the file.
abbrev RowKeys : Section → (count : ℕ) → Section → (p j : ℕ) → Type 0
RowKeys section count other p j = (section ≡ other) × (0 ≤ p) × (p < 0 + count) × (0 ≡ j)

abbrev TableKeys : Section → (inputs count : ℕ) → Section → (p j : ℕ) → Type 0
TableKeys section inputs count other p j =
    (section ≡ other) × (0 ≤ p) × (p < 0 + count) × (j < inputs)

abbrev Placed : Card → (p4_in p4_out : Bool) → Section → (o i : ℕ) → Type 0
Placed c p4_in p4_out section o i =
    RowKeys line_out c.n_lout section o i
    ⊎ (RowKeys line_in c.n_in section o i
        ⊎ (RowKeys pcm_out c.n_pout section o i
            ⊎ (((p4_in ≡ true) × RowKeys nominal_in c.fd_in section o i)
                ⊎ (((p4_out ≡ true) × RowKeys nominal_out c.fd_out section o i)
                    ⊎ ((((c.mixer_id == 0) ≡ false) × TableKeys mixer c.n_in c.n_lout section o i)
                        ⊎ (((c.vmixer_id == 0) ≡ false)
                            × TableKeys vmixer c.n_pout c.n_lout section o i))))))

placed :
    (c : Card) (p4_in p4_out : Bool) (section : Section) (o i : ℕ)
    → IsSaved c p4_in p4_out section o i
    → Placed c p4_in p4_out section o i
placed c p4_in p4_out line_out o i k = inl (refl, omega arith, omega (arith, k.0), k.1)
placed c p4_in p4_out line_in o i k = inr (inl (refl, omega arith, omega (arith, k.0), k.1))
placed c p4_in p4_out pcm_out o i k = inr (inr (inl (refl, omega arith, omega (arith, k.0), k.1)))
placed c p4_in p4_out nominal_in o i k =
    inr (inr (inr (inl (k.0, (refl, omega arith, omega (arith, k.1), k.2)))))
placed c p4_in p4_out nominal_out o i k =
    inr (inr (inr (inr (inl (k.0, (refl, omega arith, omega (arith, k.1), k.2))))))
placed c p4_in p4_out mixer o i k = inr (
    inr (
      inr (inr (inr (inl (==_ne c.mixer_id 0 k.0, (refl, omega arith, omega (arith, k.1), k.2)))))))
placed c p4_in p4_out vmixer o i k = inr (
    inr (
      inr
        (inr (inr (inr (==_ne c.vmixer_id 0 k.0, (refl, omega arith, omega (arith, k.1), k.2)))))))

save_lines-Loads :
    (c : Card) (s0 : Settings) (p4_in p4_out : Bool)
    → Fits c
    → AreValues c s0
    → Loads c s0 (save_lines c p4_in p4_out s0) (IsSaved c p4_in p4_out)
unfolding save_lines load_line section_of after
save_lines-Loads c s0 p4_in p4_out fits values =
    narrow c s0 {K = Placed c p4_in p4_out} (placed c p4_in p4_out) (
      both c s0 (remark c s0 _ (λ _. refl) (row line_out c.n_lout (λ p _ h. omega arith))) (
        both c s0 (remark c s0 _ (λ _. refl) (row line_in c.n_in (λ p _ h. omega arith))) (
          both c s0 (remark c s0 _ (λ _. refl) (row pcm_out c.n_pout (λ p _ h. omega arith))) (
            both c s0
              (part_if c s0 p4_in
                (remark c s0 _ (λ _. refl) (row nominal_in c.fd_in (λ p _ h. omega arith))))
              (both c s0
                (part_if c s0 p4_out
                  (remark c s0 _ (λ _. refl) (row nominal_out c.fd_out (λ p _ h. omega arith))))
                (both c s0
                  (part_unless c s0 (c.mixer_id == 0) (
                    remark c s0 _ (λ _. refl)
                      (table mixer c.n_in c.n_lout (λ p j _ h k. (omega arith, k)))))
                  (part_unless c s0 (c.vmixer_id == 0) (
                    remark c s0 _ (λ _. refl)
                      (table vmixer c.n_pout c.n_lout (λ p j _ h k. (omega arith, k)))))))))))
  where
    row :
        (section : Section) (count : ℕ)
        → ((p : ℕ) → 0 ≤ p → p < 0 + count → IsKey c section p 0)
        → Loads c s0 (save_row s0 section 0 count) (RowKeys section count)
    row section count keys = save_row-Loads c s0 fits values section 0 count keys

    table :
        (section : Section) (inputs count : ℕ)
        → ((p j : ℕ) → 0 ≤ p → p < 0 + count → j < inputs → IsKey c section p j)
        → Loads c s0 (save_table s0 section inputs 0 count) (TableKeys section inputs count)
    table section inputs count keys = save_table-Loads c s0 fits values section inputs 0 count keys

-- What was saved is restored: on a card within the bounds of the program's arrays, if every gain is an
-- `int` and every level 0 or 1, reading the file that was written from some settings brings every
-- value in it, in whatever state the program is, to what it was at the saving.
pub load_lines-save_lines :
    (c : Card) (p4_in p4_out : Bool) (s0 s : Settings) (v : Scanned) (section : Section) (o i : ℕ)
    → Fits c
    → AreValues c s0
    → IsSaved c p4_in p4_out section o i
    → value_of (load_lines c (save_lines c p4_in p4_out s0) (v, s)).1 section o i
      ≡ value_of s0 section o i
load_lines-save_lines c p4_in p4_out s0 s v section o i fits values saved =
    (save_lines-Loads c s0 p4_in p4_out fits values).restored v s section o i saved
