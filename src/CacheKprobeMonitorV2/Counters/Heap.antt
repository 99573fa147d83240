-- ===== src/CacheKprobeMonitorV2/Counters/Heap.antt =====
-- Reading back what was stored in a block of the heap.
use mathlib.Core.Path.{fun_ext}
use dreamscape.Base.{◌≡◌, ap, none, some, Option, arith}
use dreamscape.Kernel.{Ptr, Trace, ok, fault, null_deref}
use dreamscape.CacheKprobeMonitorV2.{Globals, PerfCounterData, put, st, load}

pub load-some :
    (p : Ptr) (d : PerfCounterData) (g : Globals) (t : Trace)
    → g.heap p ≡ some d
    → load p (st g t) ≡ ok d (st g t)
unfolding load
load-some p d g t h = rw h

pub load-put :
    (p : Ptr) (d : PerfCounterData) (g : Globals) (t : Trace)
    → load p (st (put p (some d) g) t) ≡ ok d (st (put p (some d) g) t)
load-put p d g t = load-some p d (put p (some d) g) t (ground arith)

pub load_null :
    (g : Globals) (t : Trace) → g.heap 0 ≡ none → load 0 (st g t) ≡ fault null_deref (st g t)
unfolding load
load_null g t h = rw h

pub put-put :
    (p : Ptr) (d e : Option PerfCounterData) (g : Globals) → put p d (put p e g) ≡ put p d g
put-put p d e g = ap (λ h. record g { heap = h }) (fun_ext λ q. ground arith)
