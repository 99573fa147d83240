-- ===== src/PerfTools/Sample.antt =====
-- A system that answers, for the tests: every call succeeds.
use dreamscape.Base.{some, take, codes, false, [], length, ◌+◌}
use dreamscape.Base.Int.{pos}
use dreamscape.PerfTools.{System}

abbrev pub board : System
board = record {
  sizeof_perf_event_attr = 112;
  strtoul = λ s. 4;
  open_reply = λ t attr. pos 3;
  enosys = λ t. false;
  strerror = λ t. [];
  read_reply = λ t fd. pos (length t);
  malloc_reply = λ t n. length t + 1;
  fork_reply = λ t. pos 100;
  fopen_reply = λ t name. 5;
  rand = λ t. length t;
  open_file_reply = λ t name. pos 3;
  read_bytes_reply = λ t fd room. some (take room (codes "hello world 42\n"));
  fread_reply = λ t room. room;
  fwrite_reply = λ t bytes. length bytes;
  fclose_reply = λ t p. pos 0;
  unlink_reply = λ t name. pos 0;
  getpid_reply = λ t. pos 99;
  execvp_reply = λ t args. some 0;
  kill_reply = λ t pid. pos 0;
  waitpid_reply = λ t pid. pid;
}
