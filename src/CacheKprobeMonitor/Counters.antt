-- ===== src/CacheKprobeMonitor/Counters.antt =====
-- `update_counters` of cache_kprobe_monitor.c: the counters of one program counter in the list.
pub mod Totals
pub mod Update
use dreamscape.Base.{ℕ, ◌+◌, ◌%◌, ◌^◌, List, [], ◌∷◌, Option, none, some, take, ◌==◌, if◌then◌else◌}
use mathlib.Core.Option
use dreamscape.Kernel.{Ptr, Call, Kernel, Cmd, null_deref, ◌>>=◌, gets, modify, ask, fail}
use dreamscape.CacheKprobeMonitor.{Globals, CounterData, num_events, sizeof_counter_data}

-- `entry->counters[i] += counter_values[i]` for each index of the entry's array.
pub add_counters : List ℕ → List ℕ → List ℕ
add_counters [] values = []
add_counters (c ∷ cs) [] = c ∷ cs
add_counters (c ∷ cs) (v ∷ values) = (c + v) % 2 ^ 64 ∷ add_counters cs values

-- The walk over the list: the first entry for `pc` is added to; `none` when there is none.
pub add_to_entry : ℕ → List ℕ → List CounterData → Option (List CounterData)
unfolding add_counters
add_to_entry pc values [] = none
add_to_entry pc values (entry ∷ rest) =
    let more = add_to_entry pc values rest in
    if entry.pc == pc
    then some (record entry { counters = add_counters entry.counters values } ∷ rest)
    else Option.map (λ l. entry ∷ l) more

-- A new entry at the head of the list. The result of `kmalloc` is not tested.
abbrev pub add_entry : Kernel → ℕ → List ℕ → Cmd Globals (Unit {0})
add_entry k pc values = do
  entry ← ask (λ t. k.kmalloc_reply t sizeof_counter_data) (λ r. Call.kmalloc sizeof_counter_data r)
  if entry == 0
      then fail null_deref
      else modify (λ g. record g {
        counter_list =
            record { block = entry; pc = pc; counters = take num_events values } ∷ g.counter_list;
      })

pub update_counters : Kernel → ℕ → List ℕ → Cmd Globals (Unit {0})
unfolding add_to_entry
update_counters k pc values = do
  l ← gets (λ g. g.counter_list)
  elim (add_to_entry pc values l) [
    | some l' ↦ modify (λ g. record g { counter_list = l' })
    | none ↦ add_entry k pc values
  ]
