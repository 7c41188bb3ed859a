-- ===== src/Hierarchical.antt =====
-- plugins/hierarchical/hierarchical_monitor.c: a performance plugin whose events are the samples of
-- monitors deeper in the topology. Monitors are shared: a pointer to one is a number that a store maps
-- to its state. hwloc and what an object's `userdata` points to are parameters.
pub mod Read
use hierarchical_monitors.Prelude.{
  same_string, length, ltb, ◌*◌, ℕ, zero, suc, ◌+◌, ◌%◌, Bool, true, false, Option, none, some,
  List, [], ◌∷◌, ◌++◌, ◌==◌, if◌then◌else◌, take, drop,
}
use hierarchical_monitors.Prelude.Int.{ℤ, pos, negsuc}
use hierarchical_monitors.Prelude.Floats.{Floats}
use hierarchical_monitors.HArray.{HArray, to_int, new_harray, harray_get, harray_push}
use hierarchical_monitors.Hmonitor.{
  u32_mod, Hmon, PerfLib, Timespec, hmonitor_read, hmonitor_reduce, hmonitor_reset,
}
use hierarchical_monitors.Hmonitor.Lock.{hmonitor_trylock, hmonitor_release}

-- `struct hierarchical_eventset`
pub record Eventset : Type 0 where
  pub location : ℕ
  pub child_events : HArray

unfoldable pub eventset_init : ℕ → Option Eventset
unfolding new_harray
eventset_init location = elim (new_harray 8 4 false) [
  | none ↦ none
  | some array ↦ some (record { location = location; child_events = array })
]

module _ {D E : Type 0} where
  unfoldable pub update : (ℕ → Hmon D E) → ℕ → Hmon D E → ℕ → Hmon D E
  update store p m q = if q == p then m else store q

  -- The names of the monitors of an array from index `i` on, `n` of them.
  unfoldable pub names_from : (ℕ → Hmon D E) → HArray → ℕ → ℕ → List (List ℕ)
  names_from store found zero i = []
  names_from store found (suc n) i =
      (store (harray_get (some found) i)).id ∷ names_from store found n (i + 1)

  -- `firsts` are the first objects of each depth of the topology.
  unfoldable pub all_names : (ℕ → Hmon D E) → (ℕ → Option HArray) → List ℕ → List (List ℕ)
  all_names store userdata [] = []
  all_names store userdata (obj ∷ firsts) = elim (userdata obj) [
    | none ↦ all_names store userdata firsts
    | some found ↦ names_from store found found.length 0 ++ all_names store userdata firsts
  ]

  -- There is room for 100 names of each depth; `none` is a write behind it.
  unfoldable pub events_list :
      (ℕ → Hmon D E) → (ℕ → Option HArray) → List ℕ → Option (List (List ℕ))
  events_list store userdata firsts =
      let names = all_names store userdata firsts in
      if ltb (length firsts * 100) (length names) then none else some names

  -- The monitors of one location that bear the name, from index `i` on, `n` of them: pushed, and their
  -- samples counted in an `unsigned`.
  unfoldable pub add_from :
      (ℕ → Hmon D E) → List ℕ → HArray → ℕ → ℕ → HArray → ℕ → Option (HArray × ℕ)
  unfolding harray_get same_string harray_push
  add_from store event found zero i children n_events = some (children, n_events)
  add_from store event found (suc n) i children n_events =
      let m = harray_get (some found) i in
      let skipped = add_from store event found n (i + 1) children n_events in
      if same_string (store m).id event
      then elim (harray_push children m) [
        | none ↦ none
        | some pushed ↦
            add_from store event found n (i + 1) pushed ((n_events + (store m).n_samples) % u32_mod)
      ]
      else skipped

  -- The same for each object of a list, where it has monitors.
  unfoldable pub add_objects :
      (ℕ → Hmon D E) → (ℕ → Option HArray) → List ℕ → List ℕ → HArray → ℕ → Option (HArray × ℕ)
  unfolding add_from
  add_objects store userdata event [] children n_events = some (children, n_events)
  add_objects store userdata event (obj ∷ objs) children n_events = elim (userdata obj) [
    | none ↦ add_objects store userdata event objs children n_events
    | some found ↦ elim (add_from store event found found.length 0 children n_events) [
      | none ↦ none
      | some result ↦ add_objects store userdata event objs result.0 result.1
    ]
  ]

  -- `inside` gives the objects inside the cpuset of a location, depth by depth from its own.
  unfoldable pub eventset_add_named_event :
      (ℕ → Hmon D E)
      → (ℕ → Option HArray)
      → (ℕ → List ℕ)
      → Eventset
      → List ℕ
      → Option (ℤ × Eventset)
  unfolding add_objects
  eventset_add_named_event store userdata inside set event =
      elim (add_objects store userdata event (inside set.location) set.child_events 0) [
        | none ↦ none
        | some result ↦ some (
          if result.1 == 0 then negsuc 0 else to_int result.1,
          record set { child_events = result.0 },
        )
      ]

-- Whether `hmonitor_trylock` returned 1, so that the child is read.
unfoldable pub is_locked : ℤ → Bool
is_locked (pos n) = n == 1
is_locked (negsuc n) = false

module _ {D E : Type 0} (F : Floats D) (lib : PerfLib D E) (call_model : ℕ → Hmon D E → Hmon D E)
    (others : Hmon D E → Hmon D E) (self : ℕ) where
  -- `nested` is what the performance library of a child does to other monitors: a child may have children
  -- itself. It is handed the pointer to the child.
  -- The loop of `hmonitor_eventset_reset` over `n` children from index `i` on.
  unfoldable pub reset_from :
      (ℕ → (ℕ → Hmon D E) → ℕ → Hmon D E)
      → (ℕ → Timespec)
      → HArray
      → ℕ
      → ℕ
      → (ℕ → Hmon D E)
      → ℕ
      → Hmon D E
  unfolding hmonitor_reset update harray_get
  reset_from nested clock children zero i store = store
  reset_from nested clock children (suc n) i store =
      let p = harray_get (some children) i in
      reset_from nested clock children n (i + 1)
        (update (nested p store) p (hmonitor_reset F lib (clock i) (store p)))

  -- A child brought up to date, if it can be locked.
  unfoldable pub refresh_locked : Timespec → ℤ × Hmon D E → Hmon D E
  unfolding hmonitor_read hmonitor_reduce hmonitor_release
  refresh_locked tp (negsuc n, m) = m
  refresh_locked tp (pos n, m) =
      if n == 1
      then (hmonitor_release self
          (hmonitor_reduce F lib call_model self (hmonitor_read F lib self tp m).1).1).1
      else m

  unfoldable pub refresh : Timespec → Hmon D E → Hmon D E
  unfolding hmonitor_trylock refresh_locked
  refresh tp m = refresh_locked tp (hmonitor_trylock others self true m)

  -- The loop of `hmonitor_eventset_read` over `n` children from index `i` on: the store, and the values
  -- written, in order.
  unfoldable pub read_from :
      (ℕ → (ℕ → Hmon D E) → ℕ → Hmon D E)
      → (ℕ → Timespec)
      → HArray
      → ℕ
      → ℕ
      → (ℕ → Hmon D E)
      → (ℕ → Hmon D E) × List D
  unfolding refresh update harray_get
  read_from nested clock children zero i store = (store, [])
  read_from nested clock children (suc n) i store =
      let p = harray_get (some children) i in
      let m = refresh (clock i) (store p) in
      let others_after =
        if is_locked (hmonitor_trylock others self true (store p)).0
        then nested p store
        else store in
      let (after, values) = read_from nested clock children n (i + 1) (update others_after p m) in
      (after, take m.n_samples m.samples ++ values)

  -- The store after the read, and what is written from `values` on.
  unfoldable pub eventset_read :
      (ℕ → (ℕ → Hmon D E) → ℕ → Hmon D E)
      → (ℕ → Timespec)
      → Eventset
      → (ℕ → Hmon D E)
      → (ℕ → Hmon D E) × List D
  unfolding read_from
  eventset_read nested clock set store =
      read_from nested clock set.child_events set.child_events.length 0 store
