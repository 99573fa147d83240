-- ===== src/CacheKprobeMonitor/Counters/Update.antt =====
-- `update_counters`: the totals, the blocks and the calls after it.
use dreamscape.Base.{
  ℕ, ◌+◌, ◌≡◌, refl, inl, inr, false, List, [], ◌∷◌, ◌++◌, Bool, arith, ==_cases, ==_ne,
  Option-cases, subst,
}
use dreamscape.Kernel.{Ptr, null, null_deref, Run, ok, fault, Call, Trace, Kernel}
use dreamscape.Kernel.Counts.{count, allocates}
use dreamscape.CacheKprobeMonitor.{Globals, CounterData, st, sizeof_counter_data}
use dreamscape.CacheKprobeMonitor.Counters.{add_to_entry, update_counters}
use dreamscape.CacheKprobeMonitor.Counters.Totals.{
  IsValues, IsCounters, Fresh, TotalsAdded, Added, WalkEnd, held, add_to_entry-WalkEnd, Added-new,
}

-- The values that were read, in order.
abbrev pub readings : Trace → List ℕ
readings [] = []
readings (Call.perf_event_read ev v ∷ t) = readings t ++ (v ∷ [])
readings (_ ∷ t) = readings t

-- Blocks are taken for what the list holds more, and nothing else is called.
pub record Grown (l l' : List CounterData) (t t' : Trace) : Type 0 where
  pub owned : (p : Ptr) → count (allocates p) t' + held p l ≡ count (allocates p) t + held p l'
  pub others :
      (test : Call → Bool)
      → ((size : ℕ) (p : Ptr) → test (Call.kmalloc size p) ≡ false)
      → count test t' ≡ count test t
  pub read : readings t' ≡ readings t

pub data Updated (k : Kernel) (pc : ℕ) (values : List ℕ) (g : Globals) (t : Trace)
    : Run Globals (Unit {0}) → Type 0 where
  updated :
      {l' : List CounterData} {t' : Trace}
      → IsCounters l'
      → TotalsAdded pc values g.counter_list l'
      → Grown g.counter_list l' t t'
      → Updated k pc values g t (ok tt (st (record g { counter_list = l' }) t'))
  no_memory :
      Fresh pc g.counter_list
      → k.kmalloc_reply t sizeof_counter_data ≡ null
      → Updated k pc values g t (fault null_deref (st g (Call.kmalloc sizeof_counter_data 0 ∷ t)))

module _ (k : Kernel) (pc : ℕ) (values : List ℕ) (g : Globals) (t : Trace) where
  -- On a list with one entry for each program counter, and thirteen values of 64 bits, the values
  -- are added, modulo 2^64, to the totals at `pc`; all other totals stay, and so does the form of
  -- the list. The update faults only where no entry is for `pc` and there is no memory for a new one.
  pub update_counters-Updated :
      IsCounters g.counter_list
      → IsValues values
      → Updated k pc values g t (update_counters k pc values (st g t))
  unfolding update_counters
  update_counters-Updated c v =
      let w = add_to_entry-WalkEnd pc values v g.counter_list c in
      elim (Option-cases (add_to_entry pc values g.counter_list)) [
        | inr (l', e) ↦
            let a : Added pc values g.counter_list l' =
              subst (WalkEnd pc values g.counter_list) e w in
            rw e (
              updated (a.counters) (a.totals) (record {
                owned = λ p. omega (arith, a.blocks p);
                others = λ test b. refl;
                read = refl;
              }))
        | inl e ↦
            let f = subst (WalkEnd pc values g.counter_list) e w in
            elim (==_cases (k.kmalloc_reply t sizeof_counter_data) null) [
              | inl z ↦ rw e (rw z (no_memory f z))
              | inr live ↦
                  let p = k.kmalloc_reply t sizeof_counter_data in
                  let (c', totals) = Added-new pc values v g.counter_list p c f in
                  rw e (
                    rw (==_ne p null live) (
                      updated c' totals (record {
                        owned = λ q. ground (arith, ==_ne p null live);
                        others = λ test b. rw (b sizeof_counter_data p) (omega arith);
                        read = refl;
                      })))
            ]
      ]
