-- ===== src/TestBins/TmpFiles.antt =====
-- tmp_file_activity.c: five files are written, read into one buffer, and deleted.
pub mod Tidy
use dreamscape.Base.{
  ℕ, zero, suc, ◌+◌, ◌*◌, ◌%◌, ◌≤◌, ◌≡◌, ◌≢◌, refl, inl, inr, Bool, true, false, List, [], ◌∷◌,
  ◌++◌, codes, ◌==◌, if◌then◌else◌, arith, ==_ne, ==_cases, Bool-cases,
}
use dreamscape.Base.Int.{ℤ, neg, eq_ℤ}
use dreamscape.Base.Decimal.{print_u64}
use dreamscape.Kernel.{Ptr, null}
use dreamscape.PerfTools.{
  System, Log, Syscall, Run, value, exited, segfault, Program, fopen, fputc, fread, fclose, unlink,
  fprintf_stderr, pure, ◌>>=◌, ◌>>◌, ask, call, exit,
}

-- "/tmp/file%d.txt"
abbrev pub filename : ℕ → List ℕ
filename i = codes "/tmp/file" ++ (print_u64 i ++ codes ".txt")

abbrev pub failed : {A : Type 0} → List ℕ → Program A
failed message = do call (fprintf_stderr message); exit 1

module _ (m : System) (buf_size : ℕ) where
  abbrev pub open_file : List ℕ → List ℕ → Program Ptr
  open_file name mode = ask (λ t. m.fopen_reply t name) (λ r. fopen name mode r)

  -- What `fclose` returns is not looked at.
  abbrev pub close_file : Ptr → Program ℤ
  close_file fp = ask (λ t. m.fclose_reply t fp) (fclose fp)

  pub put_bytes : Ptr → ℕ → Program (Unit {0})
  put_bytes fp zero = pure tt
  put_bytes fp (suc rounds) = do r ← ask m.rand (λ r. fputc fp (r % 256)); put_bytes fp rounds

  -- The three loops, from file `i` on, with the rounds left.
  pub write_files : (i rounds : ℕ) → Program (Unit {0})
  unfolding put_bytes
  write_files i zero = pure tt
  write_files i (suc rounds) = do
    fp ← open_file (filename i) (codes "w")
    if fp == 0
        then failed (codes "Failed to create file")
        else (do put_bytes fp buf_size; closed ← close_file fp; write_files (i + 1) rounds)

  pub read_files : (i rounds total_bytes : ℕ) → Program ℕ
  read_files i zero total_bytes = pure total_bytes
  read_files i (suc rounds) total_bytes = do
    fp ← open_file (filename i) (codes "r")
    if fp == 0 then failed (codes "Failed to open file") else do
      n ← ask (λ t. m.fread_reply t buf_size) (λ n. fread fp total_bytes buf_size n)
      closed ← close_file fp
      read_files (i + 1) rounds (total_bytes + n)

  pub delete_files : (i rounds : ℕ) → Program (Unit {0})
  delete_files i zero = pure tt
  delete_files i (suc rounds) = do
    r ← ask (λ t. m.unlink_reply t (filename i)) (λ r. unlink (filename i) r)
    if eq_ℤ r (neg 1) then failed (codes "Failed to delete file") else delete_files (i + 1) rounds

  pub tmp_file_activity_main : Program ℕ
  unfolding write_files read_files delete_files
  tmp_file_activity_main = do
    write_files 0 5
    total_bytes ← read_files 0 5 0
    delete_files 0 5
    pure 0
