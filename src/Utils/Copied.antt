-- ===== src/Utils/Copied.antt =====
-- What read_proc_message.c writes, and that nothing is left open.
use dreamscape.Base.{
  ℕ, ◌≡◌, refl, ◌⊎◌, inl, inr, true, none, List, [], ◌∷◌, Option, some, ◌==◌, ==_cases, ==_ne,
  Bool-cases, Option-cases, if◌then◌else◌,
}
use dreamscape.Base.Int.{ℤ, is_neg}
use dreamscape.Kernel.{Ptr}
use dreamscape.PerfTools.{
  System, Log, Run, value, exited, segfault, open_file, read, fopen, fwrite, fclose, close,
}
use dreamscape.Utils.{proc_file, output_filename, room, read_proc_message_main}

-- The descriptors that were opened and those that were closed, and the same for files, the newest
-- first.
abbrev pub opened_descriptors : Log → List ℤ
opened_descriptors [] = []
opened_descriptors (open_file name fd ∷ t) =
    if is_neg fd then opened_descriptors t else fd ∷ opened_descriptors t
opened_descriptors (_ ∷ t) = opened_descriptors t

abbrev pub closed_descriptors : Log → List ℤ
closed_descriptors [] = []
closed_descriptors (close fd ∷ t) = fd ∷ closed_descriptors t
closed_descriptors (_ ∷ t) = closed_descriptors t

abbrev pub opened_files : Log → List Ptr
opened_files [] = []
opened_files (fopen name mode p ∷ t) = if p == 0 then opened_files t else p ∷ opened_files t
opened_files (_ ∷ t) = opened_files t

abbrev pub closed_files : Log → List Ptr
closed_files [] = []
closed_files (fclose p reply ∷ t) = p ∷ closed_files t
closed_files (_ ∷ t) = closed_files t

pub record AllClosed (t : Log) : Type 0 where
  pub descriptors : closed_descriptors t ≡ opened_descriptors t
  pub files : closed_files t ≡ opened_files t

-- The writes: the file, what it was handed, and how much it took of that.
abbrev pub writes : Log → List (Ptr × List ℕ × ℕ)
writes [] = []
writes (fwrite p bytes taken ∷ t) = (p, bytes, taken) ∷ writes t
writes (_ ∷ t) = writes t

-- The bytes that the program gets, where the entry opens and can be read, and the file that it opens
-- for them.
abbrev pub asked : System → Log
asked m = open_file proc_file (m.open_file_reply [] proc_file) ∷ []

abbrev pub got : System → Option (List ℕ)
got m = m.read_bytes_reply (asked m) (m.open_file_reply [] proc_file) room

-- The entry does not open, it cannot be read, or there is no file for the bytes.
abbrev pub IsRefused : System → Type 0
IsRefused m =
    (is_neg (m.open_file_reply [] proc_file) ≡ true)
    ⊎ ((got m ≡ none)
        ⊎ ((bytes : List ℕ) × (got m ≡ some bytes)
            × (m.fopen_reply (read (m.open_file_reply [] proc_file) room (some bytes) ∷ asked m)
                  output_filename
                ≡ 0)))

abbrev pub CopyDone : System → Run ℕ → Type 0
CopyDone m (value n t) =
    (n ≡ 0)
    × AllClosed t
    × ((bytes : List ℕ) × (taken : ℕ) × (output_file : Ptr) × (got m ≡ some bytes)
        × (opened_files t ≡ output_file ∷ [])
        × (writes t ≡ (output_file, bytes, taken) ∷ []))
CopyDone m (exited n t) = (n ≡ 1) × AllClosed t × (writes t ≡ []) × IsRefused m
CopyDone m (segfault t) = ⊥

-- Whatever the system answers, the program ends by `return 0`, and has called `fwrite` once, on the
-- output file, with exactly the bytes that were read from the entry; or by `exit(1)`, and has not
-- called it, and only where the entry does not open or cannot be read or the output file does not open.
-- It returns 0 however few of the bytes `fwrite` takes and whatever `fclose` answers.
-- Either way each descriptor and each file that it opened has been closed, once.
pub read_proc_message_main-CopyDone : (m : System) → CopyDone m (read_proc_message_main m [])
unfolding read_proc_message_main
read_proc_message_main-CopyDone m =
    let fd = m.open_file_reply [] proc_file in
    elim (Bool-cases (is_neg fd)) [
      | inl bad ↦ rw bad (refl, record { descriptors = rw bad refl; files = refl }, refl, inl bad)
      | inr good ↦ elim (Option-cases (got m)) [
        | inl failed ↦ rw good (
            rw failed
              (refl, record { descriptors = rw good refl; files = refl }, refl, inr (inl failed)))
        | inr (bytes, is) ↦
            let p = m.fopen_reply (read fd room (some bytes) ∷ asked m) output_filename in
            elim (==_cases p 0) [
              | inl e ↦ rw good (
                  rw is (
                    rw e (
                      refl,
                      record { descriptors = rw good refl; files = refl },
                      refl,
                      inr (inr (bytes, is, e)),
                    )))
              | inr ne ↦
                  let shut = ==_ne p 0 ne in
                  rw good (
                    rw is (
                      rw shut (
                        refl,
                        record { descriptors = rw good refl; files = rw shut refl },
                        (bytes, _, p, is, rw shut refl, refl),
                      )))
            ]
      ]
    ]
