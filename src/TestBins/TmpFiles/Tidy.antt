-- ===== src/TestBins/TmpFiles/Tidy.antt =====
-- tmp_file_activity.c closes what it opens and stays within its buffer.
use dreamscape.Base.{ℕ, ◌+◌, ◌≤◌, ◌≡◌, [], ◌∷◌, ◌==◌, if◌then◌else◌}
use dreamscape.PerfTools.{Log, Run, value, exited, segfault, fopen, fread, fclose}

-- Files opened, and files closed.
abbrev pub opens : Log → ℕ
opens [] = 0
opens (fopen name mode p ∷ t) = (if p == 0 then 0 else 1) + opens t
opens (_ ∷ t) = opens t

abbrev pub closes : Log → ℕ
closes [] = 0
closes (fclose p reply ∷ t) = 1 + closes t
closes (_ ∷ t) = closes t

-- Every read into the buffer stays within its size.
abbrev pub ReadsFit : ℕ → Log → Type 0
ReadsFit size [] = Unit
ReadsFit size (fread fp offset room n ∷ t) = (offset + room ≤ size) × ReadsFit size t
ReadsFit size (_ ∷ t) = ReadsFit size t

-- All files are closed and all reads fit.
pub record IsTidy (size : ℕ) (t : Log) : Type 0 where
  pub closed : opens t ≡ closes t
  pub fit : ReadsFit size t

-- A part of the program ends with a value and tidy, or by `exit(1)` and tidy.
abbrev pub EndsTidy : {A : Type 0} → ℕ → Run A → Type 0
EndsTidy size (value a t) = IsTidy size t
EndsTidy size (exited n t) = (n ≡ 1) × IsTidy size t
EndsTidy size (segfault t) = ⊥
