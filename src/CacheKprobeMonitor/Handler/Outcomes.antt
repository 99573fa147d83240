-- ===== src/CacheKprobeMonitor/Handler/Outcomes.antt =====
-- `pre_handler` on each of its ways out.
use dreamscape.Base.{
  ℕ, ◌<◌, ◌≡◌, refl, ◌∙◌, inl, inr, ap, true, false, List, ◌∷◌, ◌++◌, length, some, Bool-cases,
  subst,
}
use dreamscape.Base.Int.{ℤ, pos, neg, eq_ℤ, is_neg}
use dreamscape.Kernel.{
  null, PerfEventAttr, err_ptr, Run, EventPtr, Call, Trace, Kernel, ok, fault, deadlock, null_deref,
  ◌>>=◌, pure,
}
use dreamscape.CacheKprobeMonitor.{
  Globals, CounterData, State, st, num_events, sizeof_counter_data, event_codes, mutex_unlock,
}
use dreamscape.CacheKprobeMonitor.Counters.Totals.{IsValues, IsCounters, TotalsAdded}
use dreamscape.CacheKprobeMonitor.Counters.Update.{
  readings, Updated, updated, no_memory, update_counters-Updated,
}
use dreamscape.CacheKprobeMonitor.Handler.{Opened, record_counters, monitor_switch, pre_handler}
use dreamscape.CacheKprobeMonitor.Handler.Settled.{Settled, entered, pc_of, Settled-recorded}
use dreamscape.CacheKprobeMonitor.Handler.Events.{
  Opening, OpenEnd, all_opened, one_refused, Reading, open_events-OpenEnd, read_events-Reading,
}

pub data Switched (k : Kernel) (pid : ℤ) (g : Globals) (t : Trace) : Run Globals ℤ → Type 0 where
  other :
      eq_ℤ pid g.target_pid ≡ false
      → Switched k pid g t (
          ok (pos 0) (
            st
              (record g { target_pid_mutex = false })
              (Call.unlock ∷ Call.lock ∷ Call.current (some pid) ∷ t)))
  recorded :
      (values : List ℕ) {l' : List CounterData} {t' : Trace}
      → eq_ℤ pid g.target_pid ≡ true
      → IsValues values
      → readings t' ≡ readings t ++ values
      → IsCounters l'
      → TotalsAdded (pc_of k pid t) values g.counter_list l'
      → Settled g.counter_list l' t t'
      → Switched k pid g t
          (ok (pos 0) (st (record g { counter_list = l'; target_pid_mutex = false }) t'))
  refused_event :
      (e : ℕ) (evs : List EventPtr) {t' : Trace}
      → eq_ℤ pid g.target_pid ≡ true
      → length evs < num_events
      → (before : Trace) × (attr : PerfEventAttr) × (k.create_reply before attr pid ≡ err_ptr e)
      → Opening evs (entered k pid t) t'
      → Switched k pid g t (ok (neg e) (st (record g { target_pid_mutex = true }) t'))
  out_of_memory :
      {s : State}
      → eq_ℤ pid g.target_pid ≡ true
      → (before : Trace) × (k.kmalloc_reply before sizeof_counter_data ≡ null)
      → Switched k pid g t (fault null_deref s)

module _ (k : Kernel) (pid : ℤ) (g : Globals) (t : Trace) where
  -- The state in which the target's part of the handler starts.
  abbrev inside : Globals
  inside = record g { target_pid_mutex = true }

  module _ (hit : eq_ℤ pid g.target_pid ≡ true) (c : IsCounters g.counter_list) where
    after_update :
        {evs : List EventPtr} {values : List ℕ} {t1 t2 : Trace} {r : Run Globals (Unit {0})}
        → IsValues values
        → Opening evs (entered k pid t) t1
        → Reading evs values t1 t2
        → Updated k (pc_of k pid t) values inside t2 r
        → Switched k pid g t
            (elim r [ ok a s ↦ (mutex_unlock >>= λ _. pure (pos 0)) s | fault e s ↦ fault e s ])
    after_update {values = values} v o r (updated c' totals u) =
        recorded values hit v (u.read ∙ r.read ∙ ap (λ x. x ++ values) o.read) c' totals
          (Settled-recorded k pid g t o r u)
    after_update v o r (no_memory new z) = out_of_memory hit (_, z)

    after_opening :
        {o : Opened} {s : State}
        → OpenEnd k pid inside (entered k pid t) event_codes o s
        → Switched k pid g t (record_counters k (pc_of k pid t) o s)
    unfolding record_counters event_codes
    after_opening (all_opened {evs = evs} {t' = t1} are size o) =
        let (values, t2, run, r) = read_events-Reading k evs inside t1 are in
        let v : IsValues values = record { size = r.size ∙ size; bounds = r.bounds } in
        rw (run, ◌>>=◌)
          (after_update v o r (update_counters-Updated k (pc_of k pid t) values inside t2 c v))
    after_opening (one_refused e evs are fewer why o) = refused_event e evs hit fewer why o

  module _ (now : k.current_pid t ≡ some pid) (free : g.target_pid_mutex ≡ false) where
    at_other :
        eq_ℤ pid g.target_pid ≡ false
        → pre_handler k (st g t)
          ≡ ok (pos 0) (
              st
                (record g { target_pid_mutex = false })
                (Call.unlock ∷ Call.lock ∷ Call.current (some pid) ∷ t))
    unfolding pre_handler
    at_other n = rw now (rw free (rw n refl))

    at_target :
        eq_ℤ pid g.target_pid ≡ true
        → pre_handler k (st g t)
          ≡ monitor_switch k pid (st inside (Call.lock ∷ Call.current (some pid) ∷ t))
    unfolding pre_handler
    at_target hit = rw now (rw free (rw hit refl))

  -- With the mutex free and the list well-formed, a switch to a task ends in one of four ways. For
  -- another task nothing changes. For the target, the thirteen values that were read are added to
  -- the totals at its program counter, the list stays well-formed, and all that was taken is given
  -- back save the list's blocks; or an event is refused, its error is returned, the events opened
  -- before it stay open and the mutex stays locked; or there is no memory, and the handler faults.
  pub pre_handler-Switched :
      k.current_pid t ≡ some pid
      → g.target_pid_mutex ≡ false
      → IsCounters g.counter_list
      → Switched k pid g t (pre_handler k (st g t))
  unfolding monitor_switch
  pre_handler-Switched now free c = elim (Bool-cases (eq_ℤ pid g.target_pid)) [
    | inr n ↦ rw (at_other now free n) (other n)
    | inl hit ↦
        let (o, s, run, end) = open_events-OpenEnd k pid inside event_codes (entered k pid t) in
        rw (at_target now free hit) (rw (run, ◌>>=◌) (after_opening hit c end))
  ]

-- After an error of the handler the mutex is held.
abbrev HeldIfFailed : Run Globals ℤ → Type 0
HeldIfFailed (ok r s) = is_neg r ≡ true → s.globals.target_pid_mutex ≡ true
HeldIfFailed (fault e s) = Unit

Switched-HeldIfFailed :
    (k : Kernel) (pid : ℤ) (g : Globals) (t : Trace) (run : Run Globals ℤ)
    → Switched k pid g t run
    → HeldIfFailed run
Switched-HeldIfFailed k pid g t run (other n) = λ neg. cc
Switched-HeldIfFailed k pid g t run (recorded values hit v read c totals settled) = λ neg. cc
Switched-HeldIfFailed k pid g t run (refused_event m evs hit fewer why o) = λ neg. refl
Switched-HeldIfFailed k pid g t run (out_of_memory hit why) = tt

module _ (k : Kernel) (pid next : ℤ) (g : Globals) (t : Trace) (r : ℤ) (s : State) where
  -- Once the handler has returned an error, the next context switch deadlocks on the mutex that it
  -- left locked, whatever task it is to.
  pub pre_handler-deadlock :
      k.current_pid t ≡ some pid
      → g.target_pid_mutex ≡ false
      → IsCounters g.counter_list
      → pre_handler k (st g t) ≡ ok r s
      → is_neg r ≡ true
      → k.current_pid s.trace ≡ some next
      → pre_handler k s ≡ fault deadlock (st s.globals (Call.current (some next) ∷ s.trace))
  unfolding pre_handler
  pre_handler-deadlock now free c run failed later =
      let held =
        subst HeldIfFailed run
          (Switched-HeldIfFailed k pid g t _ (pre_handler-Switched k pid g t now free c)) failed in
      rw later (rw held refl)
