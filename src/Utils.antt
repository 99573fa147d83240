-- ===== src/Utils.antt =====
-- utils/read_proc_message.c: copies what /proc/hello_switch_message gives into a file.
pub mod Copied
mod Tests
use dreamscape.Base.{ℕ, List, ◌++◌, Option, some, none, codes, ◌==◌, if◌then◌else◌}
use dreamscape.Base.Int.{ℤ, is_neg}
use dreamscape.Kernel.{Ptr}
use dreamscape.PerfTools.{
  System, Program, open_file, read, fopen, fwrite, fclose, close, printf, fprintf_stderr, pure,
  ◌>>=◌, ◌>>◌, ask, call, exit,
}

abbrev pub proc_file : List ℕ
proc_file = codes "/proc/hello_switch_message"

abbrev pub output_filename : List ℕ
output_filename = codes "/tmp/hello_switch_output.txt"

-- One less than BUF_SIZE.
abbrev pub room : ℕ
room = 511

module _ (m : System) where
  abbrev pub give_up : ℤ → List ℕ → Program ℕ
  give_up fd message = do call (fprintf_stderr message); call (close fd); exit 1

  -- What `fwrite` and `fclose` return is not looked at.
  abbrev pub write_output : ℤ → List ℕ → Ptr → Program ℕ
  write_output fd bytes output_file = do
    taken ← ask (λ t. m.fwrite_reply t bytes) (fwrite output_file bytes)
    closed ← ask (λ t. m.fclose_reply t output_file) (fclose output_file)
    call (close fd)
    call (
        printf (
          codes "Contents of "
          ++ (proc_file ++ (codes " written to " ++ (output_filename ++ codes "\n")))))
    pure 0

  pub read_proc_message_main : Program ℕ
  read_proc_message_main = do
    fd ← ask (λ t. m.open_file_reply t proc_file) (open_file proc_file)
    if is_neg fd then (do call (fprintf_stderr (codes "Error opening proc file")); exit 1) else (do
      buffer ← ask (λ t. m.read_bytes_reply t fd room) (read fd room)
      elim buffer [
        | none ↦ give_up fd (codes "Error reading proc file")
        | some bytes ↦ (do
          output_file ←
              ask (λ t. m.fopen_reply t output_filename) (fopen output_filename (codes "w"))
          if output_file == 0
              then give_up fd (codes "Error opening output file")
              else write_output fd bytes output_file)
      ])
