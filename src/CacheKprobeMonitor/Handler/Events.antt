-- ===== src/CacheKprobeMonitor/Handler/Events.antt =====
-- The two loops of `pre_handler`: the events that the first opens, and the values that the second
-- reads from them before it releases them.
use dreamscape.Base.{
  ℕ, zero, suc, ◌+◌, ◌%◌, ◌^◌, ◌<◌, ◌≡◌, refl, ◌∙◌, inl, inr, ap, false, List, [], ◌∷◌, ◌++◌, Bool,
  arith, length, get_or, if◌then◌else◌, sym,
}
use mathlib.Core.List.{append-nil, append_assoc}
use dreamscape.Base.Int.{ℤ}
use dreamscape.Kernel.{
  ptr, err_ptr, ErrPtr, ErrPtr-cases, PerfEventAttr, EventPtr, event, no_event, bad_event, Call,
  Trace, Kernel, ok, Ends, ◌>>=◌,
}
use dreamscape.Kernel.Counts.{count, is_event, creates, releases, releases_junk}
use dreamscape.CacheKprobeMonitor.{Globals, State, st}
use dreamscape.CacheKprobeMonitor.Counters.Update.{readings}
use dreamscape.CacheKprobeMonitor.Handler.{
  Opened, opened, refused, also, configure_perf_event, read_perf_counter, open_events, read_events,
}

-- How often an event stands in a list.
abbrev pub occurs : ℕ → List EventPtr → ℕ
occurs p [] = 0
occurs p (ev ∷ evs) = (if is_event p ev then 1 else 0) + occurs p evs

abbrev pub AreEvents : List EventPtr → Type 0
AreEvents [] = Unit
AreEvents (event p ∷ evs) = AreEvents evs
AreEvents (_ ∷ evs) = ⊥

-- A test that sees no call on perf events.
pub record IsBlind (test : Call → Bool) : Type 0 where
  pub create :
      (attr : PerfEventAttr) (cpu : ℤ) (r : ErrPtr)
      → test (Call.perf_event_create attr cpu r) ≡ false
  pub release : (ev : EventPtr) → test (Call.perf_event_release ev) ≡ false
  pub read : (ev : EventPtr) (v : ℕ) → test (Call.perf_event_read ev v) ≡ false

-- Between two traces these events were opened, none was released, and nothing was read.
pub record Opening (evs : List EventPtr) (t t' : Trace) : Type 0 where
  pub creates : (p : ℕ) → count (creates p) t' ≡ count (creates p) t + occurs p evs
  pub releases : (p : ℕ) → count (releases p) t' ≡ count (releases p) t
  pub junk : count releases_junk t' ≡ count releases_junk t
  pub others : (test : Call → Bool) → IsBlind test → count test t' ≡ count test t
  pub read : readings t' ≡ readings t

-- Either all events were opened, one for each code, or some and the next was refused.
pub data OpenEnd (k : Kernel) (pid : ℤ) (g : Globals) (t : Trace) (codes : List ℕ)
    : Opened → State → Type 0 where
  all_opened :
      {evs : List EventPtr} {t' : Trace}
      → AreEvents evs
      → length evs ≡ length codes
      → Opening evs t t'
      → OpenEnd k pid g t codes (opened evs) (st g t')
  one_refused :
      (e : ℕ) (evs : List EventPtr) {t' : Trace}
      → AreEvents evs
      → length evs < length codes
      → (before : Trace) × (attr : PerfEventAttr) × (k.create_reply before attr pid ≡ err_ptr e)
      → Opening evs t t'
      → OpenEnd k pid g t codes (refused e) (st g t')

module _ (k : Kernel) (pid : ℤ) (g : Globals) where
  OpenEnd-also :
      (c p : ℕ) (rest : List ℕ) (t : Trace) (attr : PerfEventAttr) {r : Opened} {s : State}
      → OpenEnd k pid g (Call.perf_event_create attr pid (ptr p) ∷ t) rest r s
      → OpenEnd k pid g t (c ∷ rest) (also (event p) r) s
  OpenEnd-also c p rest t attr (all_opened are size o) =
      all_opened are (omega (arith, size)) (record {
        creates = λ q. omega (arith, o.creates q);
        releases = λ q. omega (arith, o.releases q);
        junk = omega (arith, o.junk);
        others = λ test b. ground (arith, o.others test b, b.create attr pid (ptr p));
        read = o.read;
      })
  OpenEnd-also c p rest t attr (one_refused e evs are size why o) =
      one_refused e (event p ∷ evs) are (omega (arith, size)) why (record {
        creates = λ q. omega (arith, o.creates q);
        releases = λ q. omega (arith, o.releases q);
        junk = omega (arith, o.junk);
        others = λ test b. ground (arith, o.others test b, b.create attr pid (ptr p));
        read = o.read;
      })

  pub open_events-OpenEnd :
      (codes : List ℕ) (t : Trace)
      → Ends (open_events k pid codes (st g t)) (OpenEnd k pid g t codes)
  unfolding open_events
  open_events-OpenEnd [] t = (
    opened [],
    st g t,
    refl,
    all_opened tt refl (record {
      creates = λ q. omega arith;
      releases = λ q. refl;
      junk = refl;
      others = λ test b. refl;
      read = refl;
    }),
  )
  open_events-OpenEnd (c ∷ rest) t =
      let attr = configure_perf_event k c in
      elim (ErrPtr-cases (k.create_reply t attr pid)) [
        | inl (p, e) ↦
            let (r, s, run, end) =
              open_events-OpenEnd rest (Call.perf_event_create attr pid (ptr p) ∷ t) in
            rw e (rw (run, ◌>>=◌) (also (event p) r, s, refl, OpenEnd-also c p rest t attr end))
        | inr (m, e) ↦ rw e (
          refused m,
          _,
          refl,
          one_refused m [] tt (omega arith) (t, attr, e)
              (record {
                creates = λ q. omega arith;
                releases = λ q. omega arith;
                junk = omega arith;
                others = λ test b. ground (arith, b.create attr pid (err_ptr m));
                read = refl;
              }),
        )
      ]

-- Between two traces these events were each read and released, with these values.
pub record Reading (evs : List EventPtr) (values : List ℕ) (t t' : Trace) : Type 0 where
  pub size : length values ≡ length evs
  pub bounds : (i : ℕ) → get_or values i 0 < 2 ^ 64
  pub creates : (p : ℕ) → count (creates p) t' ≡ count (creates p) t
  pub releases : (p : ℕ) → count (releases p) t' ≡ count (releases p) t + occurs p evs
  pub junk : count releases_junk t' ≡ count releases_junk t
  pub others : (test : Call → Bool) → IsBlind test → count test t' ≡ count test t
  pub read : readings t' ≡ readings t ++ values

Reading-step :
    (p v : ℕ) (evs : List EventPtr) (values : List ℕ) (t t' : Trace)
    → v < 2 ^ 64
    → Reading evs values
        (Call.perf_event_release (event p) ∷ Call.perf_event_read (event p) v ∷ t)
        t'
    → Reading (event p ∷ evs) (v ∷ values) t t'
Reading-step p v evs values t t' h r = record {
  size = ap suc r.size;
  bounds = bounds_of;
  creates = λ q. omega (arith, r.creates q);
  releases = λ q. omega (arith, r.releases q);
  junk = omega (arith, r.junk);
  others = λ test b. ground (arith, r.others test b, b.release (event p), b.read (event p) v);
  read = r.read ∙ append_assoc (readings t) (v ∷ []) values;
}
  where
    bounds_of : (i : ℕ) → get_or (v ∷ values) i 0 < 2 ^ 64
    bounds_of zero = h
    bounds_of (suc i) = r.bounds i

pub read_events-Reading :
    (k : Kernel) (evs : List EventPtr) (g : Globals) (t : Trace)
    → AreEvents evs
    → (values : List ℕ) × (t' : Trace) × (read_events k evs (st g t) ≡ ok values (st g t'))
      × Reading evs values t t'
unfolding read_events read_perf_counter
read_events-Reading k [] g t are = (
  [],
  t,
  refl,
  record {
    size = refl;
    bounds = λ i. omega arith;
    creates = λ q. refl;
    releases = λ q. omega arith;
    junk = refl;
    others = λ test b. refl;
    read = sym (append-nil _);
  },
)
read_events-Reading k (event p ∷ evs) g t are =
    let v = k.read_reply t (event p) % 2 ^ 64 in
    let t1 = Call.perf_event_release (event p) ∷ Call.perf_event_read (event p) v ∷ t in
    let (values, t', run, r) = read_events-Reading k evs g t1 are in
    rw (run, ◌>>=◌) (v ∷ values, t', refl, Reading-step p v evs values t t' (omega arith) r)
read_events-Reading k (no_event ∷ evs) g t are = elim are [ ]
read_events-Reading k (bad_event e ∷ evs) g t are = elim are [ ]
