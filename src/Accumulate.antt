-- ===== src/Accumulate.antt =====
-- plugins/accumulate/accumulate_monitor.c: a performance plugin whose events are the sums of the events of
-- monitors deeper in the topology. Monitors are shared, as for the hierarchical plugin, and a monitor is
-- brought up to date by the same calls.
pub mod Values
pub mod Sums
use hierarchical_monitors.Prelude.{
  ℕ, zero, suc, ◌+◌, ◌*◌, ◌≡◌, Bool, true, false, Option, none, some, List, [], ◌∷◌, ◌++◌, ◌==◌,
  ltb, length, get_or, if◌then◌else◌, take, same_string,
}
use hierarchical_monitors.Prelude.Int.{ℤ, pos, negsuc}
use hierarchical_monitors.Prelude.Floats.{Floats}
use hierarchical_monitors.HArray.{HArray, to_int, harray_get, harray_push}
use hierarchical_monitors.Hmonitor.{
  Hmon, PerfLib, Timespec, hmonitor_get_events, hmonitor_read, hmonitor_reduce, hmonitor_reset,
}
use hierarchical_monitors.Hierarchical.{update, refresh}

pub record AccumulateEventset : Type 0 where
  pub location : ℕ
  pub child_events : HArray

module _ {D E : Type 0} where
  -- The names of the monitors of an array from index `i` on, `n` of them.
  unfoldable pub names_from : (ℕ → Hmon D E) → HArray → ℕ → ℕ → List (List ℕ)
  names_from store found zero i = []
  names_from store found (suc n) i =
      (store (harray_get (some found) i)).id ∷ names_from store found n (i + 1)

  -- `firsts` are the first objects of each depth of the topology.
  unfoldable pub all_names : (ℕ → Hmon D E) → (ℕ → Option HArray) → List ℕ → List (List ℕ)
  all_names store userdata [] = []
  all_names store userdata (obj ∷ firsts) = elim (userdata obj) [
    | none ↦ all_names store userdata firsts
    | some found ↦ names_from store found found.length 0 ++ all_names store userdata firsts
  ]

  -- There is room for 100 names of each depth; `none` is a write behind it.
  unfoldable pub hmonitor_events_list :
      (ℕ → Hmon D E) → (ℕ → Option HArray) → List ℕ → Option (List (List ℕ))
  hmonitor_events_list store userdata firsts =
      let names = all_names store userdata firsts in
      if ltb (length firsts * 100) (length names) then none else some names

  -- The monitors of one location that bear the name, from index `i` on, `n` of them: pushed, with the
  -- number of samples of the last of them.
  unfoldable pub push_children :
      (ℕ → Hmon D E) → List ℕ → HArray → ℕ → ℕ → HArray → ℕ → Option (HArray × ℕ)
  push_children store event found zero i children n_events = some (children, n_events)
  push_children store event found (suc n) i children n_events =
      let m = harray_get (some found) i in
      let skipped = push_children store event found n (i + 1) children n_events in
      if same_string (store m).id event
      then elim (harray_push children m) [
        | none ↦ none
        | some pushed ↦ push_children store event found n (i + 1) pushed (store m).n_samples
      ]
      else skipped

  unfoldable pub push_objects :
      (ℕ → Hmon D E) → (ℕ → Option HArray) → List ℕ → List ℕ → HArray → ℕ → Option (HArray × ℕ)
  push_objects store userdata event [] children n_events = some (children, n_events)
  push_objects store userdata event (obj ∷ objs) children n_events = elim (userdata obj) [
    | none ↦ push_objects store userdata event objs children n_events
    | some found ↦ elim (push_children store event found found.length 0 children n_events) [
      | none ↦ none
      | some result ↦ push_objects store userdata event objs result.0 result.1
    ]
  ]

  -- `inside` gives the objects inside the cpuset of a location, depth by depth from its own.
  unfoldable pub add_named_event :
      (ℕ → Hmon D E)
      → (ℕ → Option HArray)
      → (ℕ → List ℕ)
      → AccumulateEventset
      → List ℕ
      → Option (ℤ × AccumulateEventset)
  add_named_event store userdata inside set event =
      elim (push_objects store userdata event (inside set.location) set.child_events 0) [
        | none ↦ none
        | some result ↦ some (
          if result.1 == 0 then negsuc 0 else to_int result.1,
          record set { child_events = result.0 },
        )
      ]

module _ {D : Type 0} where
  -- `n` values of `events` go to `values`; `none` is an access out of bounds.
  unfoldable pub copy_events : ℕ → List D → List D → Option (List D)
  copy_events zero events values = some values
  copy_events (suc n) (e ∷ events) (v ∷ values) = elim (copy_events n events values) [
    | none ↦ none
    | some rest ↦ some (e ∷ rest)
  ]
  copy_events (suc n) _ _ = none

module _ {D : Type 0} (F : Floats D) where
  unfoldable pub sum_events : ℕ → List D → List D → Option (List D)
  sum_events zero events values = some values
  sum_events (suc n) (e ∷ events) (v ∷ values) = elim (sum_events n events values) [
    | none ↦ none
    | some rest ↦ some (F.add v e ∷ rest)
  ]
  sum_events (suc n) _ _ = none

module _ {D E : Type 0} (F : Floats D) (lib : PerfLib D E) (call_model : ℕ → Hmon D E → Hmon D E)
    (others : Hmon D E → Hmon D E) (self : ℕ) where
  -- The loop of `hmonitor_eventset_reset` over `n` children from index `i` on.
  unfoldable pub reset_children : (ℕ → Timespec) → HArray → ℕ → ℕ → (ℕ → Hmon D E) → ℕ → Hmon D E
  reset_children clock children zero i store = store
  reset_children clock children (suc n) i store =
      let p = harray_get (some children) i in
      reset_children clock children n (i + 1)
        (update store p (hmonitor_reset F lib (clock i) (store p)))

  -- The calls on the first child, which is not locked.
  unfoldable pub read_first : Timespec → Hmon D E → Hmon D E
  read_first tp m = (hmonitor_reduce F lib call_model self (hmonitor_read F lib self tp m).1).1

  -- The loop over the other children: the store, and `values`.
  unfoldable pub sum_from :
      (ℕ → Timespec) → HArray → ℕ → ℕ → (ℕ → Hmon D E) → List D → Option ((ℕ → Hmon D E) × List D)
  sum_from clock children zero i store values = some (store, values)
  sum_from clock children (suc n) i store values =
      let p = harray_get (some children) i in
      let m = refresh F lib call_model others self (clock i) (store p) in
      elim (sum_events F m.n_events (hmonitor_get_events m m.last) values) [
        | none ↦ none
        | some sums ↦ sum_from clock children n (i + 1) (update store p m) sums
      ]

  -- A read of a number of children: `none` is an access out of bounds, or to a child where there is none.
  unfoldable pub read_children :
      (ℕ → Timespec) → HArray → (ℕ → Hmon D E) → List D → ℕ → Option (ℤ × (ℕ → Hmon D E) × List D)
  read_children clock children store values zero = none
  read_children clock children store values (suc n) =
      let p = harray_get (some children) 0 in
      let m = read_first (clock 0) (store p) in
      elim (copy_events m.n_events (hmonitor_get_events m m.last) values) [
        | none ↦ none
        | some copied ↦ elim (sum_from clock children n 1 (update store p m) copied) [
          | none ↦ none
          | some (after, sums) ↦ some (pos 0, after, sums)
        ]
      ]

  unfoldable pub hmonitor_eventset_read :
      (ℕ → Timespec)
      → AccumulateEventset
      → (ℕ → Hmon D E)
      → List D
      → Option (ℤ × (ℕ → Hmon D E) × List D)
  hmonitor_eventset_read clock set store values =
      read_children clock set.child_events store values set.child_events.length
