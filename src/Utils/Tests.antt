-- ===== src/Utils/Tests.antt =====
-- The theorem on read_proc_message.c, and what the program writes under a sample system.
use dreamscape.Base.{ℕ, List, ◌≡◌, refl, [], ◌∷◌, codes}
use dreamscape.Kernel.{Ptr}
use dreamscape.PerfTools.{Run, value, exited, segfault}
use dreamscape.PerfTools.Sample.{board}
use dreamscape.Utils.{read_proc_message_main}
use dreamscape.Utils.Copied.{CopyDone, writes, read_proc_message_main-CopyDone}

read_proc_message_main-CopyDone_example : CopyDone board (read_proc_message_main board [])
read_proc_message_main-CopyDone_example = read_proc_message_main-CopyDone board

abbrev written_by : Run ℕ → List (Ptr × List ℕ × ℕ)
written_by (value n t) = writes t
written_by (exited n t) = writes t
written_by (segfault t) = writes t

copies : written_by (read_proc_message_main board []) ≡ (5, codes "hello world 42\n", 15) ∷ []
unfolding read_proc_message_main
copies = refl
