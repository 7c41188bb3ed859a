-- ===== src/Proc/Eventset/Stale.antt =====
-- proc_monitor.c: the events that point into `values`, which no read writes.
use hierarchical_monitors.Prelude.{
  ◌≡◌, refl, ◌∙◌, Option, none, some, List, [], ◌∷◌, arith, Option-cases, inl, inr,
}
use hierarchical_monitors.Prelude.Int.{ℤ}
use hierarchical_monitors.Prelude.Floats.{Floats}
use hierarchical_monitors.Proc.Events.{
  Event, null, cpu_load_field, min_flt_field, maj_flt_field, cpu_value, mem_value, numa_value,
  stat_value,
}
use hierarchical_monitors.Proc.Eventset.{
  Eventset, Files, value_of, refresh, store_variations, eventset_read,
}

-- What a read leaves alone.
record SameValues {D : Type 0} (set after : Eventset D) : Type 0 where
  pub same_stat : after.stat_values ≡ set.stat_values
  pub same_cpu : after.cpu_values ≡ set.cpu_values
  pub same_mem : after.mem_values ≡ set.mem_values
  pub same_numa : after.numa_values ≡ set.numa_values
  pub same_events : after.events ≡ set.events

module _ {D : Type 0} (F : Floats D) where
  store_same : (set after : Eventset D) → store_variations F set ≡ some after → SameValues set after
  unfolding store_variations
  store_same set after h = record {
    same_stat = ground arith;
    same_cpu = ground arith;
    same_mem = ground arith;
    same_numa = ground arith;
    same_events = ground arith;
  }

  keep :
      (files : Files) (set after : Eventset D)
      → SameValues (refresh files set) after
      → SameValues set after
  unfolding refresh
  keep files set after s = record {
    same_stat = s.same_stat;
    same_cpu = s.same_cpu;
    same_mem = s.same_mem;
    same_numa = s.same_numa;
    same_events = s.same_events;
  }

  read_same :
      (absent : D) (files : Files) (set after : Eventset D) (status : ℤ) (values : List D)
      → eventset_read F absent files set ≡ some (status, after, values)
      → SameValues set after
  unfolding eventset_read
  read_same absent files set after status values h =
      elim (Option-cases (store_variations F (refresh files set))) [
        | inl e ↦ ground (arith, e)
        | inr (loaded, e) ↦
            let same : loaded ≡ after = ground (arith, e) in
            let s = store_same (refresh files set) loaded e in rw same at (keep files set loaded s)
      ]

  -- Reads at different times, one after the other.
  unfoldable pub read_all : D → List Files → Eventset D → Option (Eventset D)
  read_all absent [] set = some set
  read_all absent (files ∷ times) set = elim (eventset_read F absent files set) [
    | none ↦ none
    | some result ↦ read_all absent times result.1
  ]

-- The events that point into the `values` of a struct.
abbrev pub IsStored : Event → Type 0
IsStored null = ⊥
IsStored cpu_load_field = ⊥
IsStored min_flt_field = ⊥
IsStored maj_flt_field = ⊥
IsStored _ = Unit

module _ {D : Type 0} (F : Floats D) (absent : D) where
  same_value :
      (set after : Eventset D) (e : Event)
      → SameValues set after
      → IsStored e
      → value_of absent after e ≡ value_of absent set e
  unfolding value_of
  same_value set after null s h = absurd h
  same_value set after cpu_load_field s h = absurd h
  same_value set after min_flt_field s h = absurd h
  same_value set after maj_flt_field s h = absurd h
  same_value set after (cpu_value k) s h = rw s.same_cpu
  same_value set after (mem_value k) s h = rw s.same_mem
  same_value set after (numa_value k) s h = rw s.same_numa
  same_value set after (stat_value k) s h = rw s.same_stat

  -- Reads of an eventset of the proc plugin, however many, never change an event that points into
  -- the values of a struct, as do iowait, irq, softirq, vsize, rss, blkio_ticks and all events of a
  -- node.
  pub read_all_stale :
      (times : List Files) (set after : Eventset D) (e : Event)
      → IsStored e
      → read_all F absent times set ≡ some after
      → (value_of absent after e ≡ value_of absent set e) × (after.events ≡ set.events)
  unfolding read_all
  read_all_stale [] set after e stored h =
      let same : set ≡ after = ground arith in rw same (refl, refl)
  read_all_stale (files ∷ times) set after e stored h =
      elim (Option-cases (eventset_read F absent files set)) [
        | inl k ↦ ground (arith, k)
        | inr ((status, next, values), k) ↦
            let s = read_same F absent files set next status values k in
            let more : read_all F absent times next ≡ some after = ground (arith, k) in
            let (value, events) = read_all_stale times next after e stored more in
            (value ∙ same_value set next e s stored, events ∙ s.same_events)
      ]
