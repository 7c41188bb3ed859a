-- ===== src/Proc/Eventset/Valid.antt =====
-- proc_monitor.c: the events of an eventset are at most 16 and point to something.
use hierarchical_monitors.Prelude.{
  ℕ, suc, ◌+◌, ◌⊎◌, Option, none, refl, ◌≤◌, ◌<◌, ◌≡◌, some, List, [], ◌∷◌, ◌++◌, map, length,
  length-append, leb, arith, Option-cases, Bool-cases, inl, inr, same_string,
}
use hierarchical_monitors.Prelude.Int.{ℤ, pos, negsuc}
use hierarchical_monitors.Prelude.Floats.{Floats}
use mathlib.Core.Path.{subst}
use hierarchical_monitors.Proc.Events.{
  ObjType, pu, numanode, machine, other_type, Event, null, cpu_load_field, min_flt_field,
  maj_flt_field, cpu_value, mem_value, numa_value, stat_value, find_event, pu_events, node_events,
  machine_events, event_of,
}
use hierarchical_monitors.Proc.Eventset.{
  Place, Eventset, max_events, eventset_add_named_event, cleared, eventset_init,
}

same_some : {A : Type 0} {a b : A} → some a ≡ some b → a ≡ b
same_some h = cc h

module _ {D : Type 0} where
  -- An event points to a field, or into an array that is long enough.
  abbrev pub PointsInto : Eventset D → Event → Type 0
  PointsInto set null = ⊥
  PointsInto set cpu_load_field = Unit
  PointsInto set min_flt_field = Unit
  PointsInto set maj_flt_field = Unit
  PointsInto set (cpu_value k) = k < length set.cpu_values
  PointsInto set (mem_value k) = k < length set.mem_values
  PointsInto set (numa_value k) = k < length set.numa_values
  PointsInto set (stat_value k) = k < length set.stat_values

  abbrev pub AllPointInto : Eventset D → List Event → Type 0
  AllPointInto set [] = Unit
  AllPointInto set (e ∷ es) = PointsInto set e × AllPointInto set es

  -- The arrays of an object's structs.
  abbrev pub HasArrays : ObjType → Eventset D → Type 0
  HasArrays pu set = length set.cpu_values ≡ 8
  HasArrays numanode set = (length set.mem_values ≡ 4) × (length set.numa_values ≡ 4)
  HasArrays machine set = length set.stat_values ≡ 16
  HasArrays other_type set = ⊥

  pub record IsValid (set : Eventset D) : Type 0 where
    pub at_most : length set.events ≤ max_events
    pub pointing : AllPointInto set set.events
    pub arrays : HasArrays set.location.type set

  found_event :
      (set : Eventset D) (table : List (List ℕ × Event)) (counter : List ℕ) (e : Event)
      → find_event table counter ≡ some e
      → AllPointInto set (map (λ entry. entry.1) table)
      → PointsInto set e
  unfolding find_event
  found_event set [] counter e h k = cc h
  found_event set ((name, event) ∷ table) counter e h k =
      elim (Bool-cases (same_string counter name)) [
        | inl s ↦ let same : event ≡ e = ground (arith, s) in subst (PointsInto set) same k.0
        | inr s ↦
            let rest : find_event table counter ≡ some e = ground (arith, s) in
            found_event set table counter e rest k.1
      ]

  -- The event that a name gives points into the arrays of the object.
  event_points :
      (set : Eventset D) (type : ObjType) (counter : List ℕ) (e : Event)
      → event_of type counter ≡ some e
      → HasArrays type set
      → PointsInto set e
  unfolding event_of
  event_points set pu counter e h a =
      found_event set pu_events counter e h (tt, (omega arith, (omega arith, (omega arith, tt))))
  event_points set numanode counter e h a = found_event set node_events counter e h (
      let m = a.0 in
      let n = a.1 in (omega arith, (omega arith, (omega arith, (omega arith, (omega arith, tt))))))
  event_points set machine counter e h a =
      found_event set machine_events counter e h
        (tt, (tt, (tt, (omega arith, (omega arith, (omega arith, tt))))))
  event_points set other_type counter e h a = elim a [ ]

  points_append :
      (set : Eventset D) (es : List Event) (e : Event)
      → AllPointInto set es
      → PointsInto set e
      → AllPointInto set (es ++ e ∷ [])
  points_append set [] e a p = (p, tt)
  points_append set (x ∷ es) e a p = (a.0, points_append set es e a.1 p)

  -- Which events an eventset has does not change where they may point.
  points_with :
      (set : Eventset D) (events : List Event) (e : Event)
      → PointsInto set e
      → PointsInto (record set { events = events }) e
  points_with set events null p = p
  points_with set events cpu_load_field p = p
  points_with set events min_flt_field p = p
  points_with set events maj_flt_field p = p
  points_with set events (cpu_value k) p = p
  points_with set events (mem_value k) p = p
  points_with set events (numa_value k) p = p
  points_with set events (stat_value k) p = p

  all_with :
      (set : Eventset D) (events es : List Event)
      → AllPointInto set es
      → AllPointInto (record set { events = events }) es
  all_with set events [] a = tt
  all_with set events (e ∷ es) a = (points_with set events e a.0, all_with set events es a.1)

  arrays_with :
      (set : Eventset D) (events : List Event) (type : ObjType)
      → HasArrays type set
      → HasArrays type (record set { events = events })
  arrays_with set events pu a = a
  arrays_with set events numanode a = a
  arrays_with set events machine a = a
  arrays_with set events other_type a = a

  -- What adding a name leads to: it is undefined with 16 events, and else at most one event is added.
  abbrev Adds : Eventset D → Option (ℤ × Eventset D) → Type 0
  Adds set result =
      ((result ≡ none) × (max_events ≤ length set.events))
      ⊎ ((status : ℤ) × (after : Eventset D) × (result ≡ some (status, after))
          × IsValid after
          × (length after.events ≤ length set.events + 1))

  add-IsValid :
      (set : Eventset D) (counter : List ℕ)
      → IsValid set
      → Adds set (eventset_add_named_event set counter)
  unfolding eventset_add_named_event
  add-IsValid set counter v = elim (Bool-cases (leb max_events (length set.events))) [
    | inl full ↦ inl (ground (arith, full), ground (arith, full))
    | inr room ↦ elim (Option-cases (event_of set.location.type counter)) [
      | inl e ↦ inr (negsuc 0, set, ground (arith, room, e), v, omega arith)
      | inr (event, e) ↦
          let p = event_points set set.location.type counter event e v.arrays in
          let more = set.events ++ event ∷ [] in
          let len = length-append set.events (event ∷ []) in
          let new : IsValid (record set { events = more }) = record {
            at_most = rw length-append (ground (arith, room));
            pointing = all_with set more more (points_append set set.events event v.pointing p);
            arrays = arrays_with set more set.location.type v.arrays;
          } in
          inr
            (pos 1, record set { events = more }, ground (arith, room, e), new, omega (arith, len))
    ]
  ]

  -- Names added one after the other.
  abbrev pub add_all : Eventset D → List (List ℕ) → Option (Eventset D)
  add_all set [] = some set
  add_all set (counter ∷ counters) = elim (eventset_add_named_event set counter) [
    | none ↦ none
    | some (status, after) ↦ add_all after counters
  ]

  -- Either adding them is undefined, which takes more than 16 names, or a valid eventset results.
  abbrev pub AddsAll : ℕ → List (List ℕ) → Option (Eventset D) → Type 0
  AddsAll n counters result =
      ((result ≡ none) × (max_events < n + length counters))
      ⊎ ((after : Eventset D) × (result ≡ some after) × IsValid after)

  add_all-IsValid :
      (set : Eventset D) (counters : List (List ℕ))
      → IsValid set
      → AddsAll (length set.events) counters (add_all set counters)
  add_all-IsValid set [] v = inr (set, refl, v)
  add_all-IsValid set (counter ∷ counters) v = elim (add-IsValid set counter v) [
    | inl (undefined, full) ↦ inl (ground (arith, undefined), omega arith)
    | inr (status, after, e, w, few) ↦ elim (add_all-IsValid after counters w) [
      | inl (undefined, more) ↦ inl (ground (arith, e, undefined), omega (arith, more, few))
      | inr (last, f, u) ↦ inr (last, ground (arith, e, f), u)
    ]
  ]

  cleared-length :
      (F : Floats D) (values : List D) (n : ℕ)
      → length values ≡ suc n
      → length (cleared F values) ≡ suc n
  unfolding cleared
  cleared-length F [] n h = ground (arith, h)
  cleared-length F (v ∷ values) n h = h

  init_type :
      (F : Floats D) (fresh : ℕ → List D) (fresh_total pid : ℕ) (type : ObjType)
      (os_index logical_index : ℕ) (set : Eventset D)
      → ((n : ℕ) → length (fresh n) ≡ n)
      → eventset_init F fresh fresh_total pid
          (record { type = type; os_index = os_index; logical_index = logical_index })
        ≡ some set
      → IsValid set × (length set.events ≡ 0)
  unfolding eventset_init
  init_type F fresh fresh_total pid pu os_index logical_index set sized h =
      subst (λ s. IsValid s × (length s.events ≡ 0)) (same_some h)
        (
          record {
            at_most = omega arith;
            pointing = tt;
            arrays = cleared-length F (fresh 8) 7 (sized 8);
          },
          refl,
        )
  init_type F fresh fresh_total pid numanode os_index logical_index set sized h =
      subst (λ s. IsValid s × (length s.events ≡ 0)) (same_some h)
        (
          record {
            at_most = omega arith;
            pointing = tt;
            arrays =
                (cleared-length F (fresh 4) 3 (sized 4), cleared-length F (fresh 4) 3 (sized 4));
          },
          refl,
        )
  init_type F fresh fresh_total pid machine os_index logical_index set sized h =
      subst (λ s. IsValid s × (length s.events ≡ 0)) (same_some h)
        (
          record {
            at_most = omega arith;
            pointing = tt;
            arrays = cleared-length F (fresh 16) 15 (sized 16);
          },
          refl,
        )
  init_type F fresh fresh_total pid other_type os_index logical_index set sized h = ground arith

  init-IsValid :
      (F : Floats D) (fresh : ℕ → List D) (fresh_total pid : ℕ) (place : Place) (set : Eventset D)
      → ((n : ℕ) → length (fresh n) ≡ n)
      → eventset_init F fresh fresh_total pid place ≡ some set
      → IsValid set × (length set.events ≡ 0)
  init-IsValid F fresh fresh_total pid place set sized h =
      init_type F fresh fresh_total pid place.type place.os_index place.logical_index set sized h

  -- Any names added to an eventset that the proc plugin initialises either give an eventset with at
  -- most 16 events, each of which points to a field of the eventset or into the values of a struct
  -- that is there; or there are more than 16 names, and the message for the one that is too much is
  -- undefined.
  pub init-add_all-IsValid :
      (F : Floats D) (fresh : ℕ → List D) (fresh_total pid : ℕ) (place : Place) (set : Eventset D)
      (counters : List (List ℕ))
      → ((n : ℕ) → length (fresh n) ≡ n)
      → eventset_init F fresh fresh_total pid place ≡ some set
      → ((add_all set counters ≡ none) × (max_events < length counters))
        ⊎ ((after : Eventset D) × (add_all set counters ≡ some after) × IsValid after)
  init-add_all-IsValid F fresh fresh_total pid place set counters sized h =
      let (valid, empty) = init-IsValid F fresh fresh_total pid place set sized h in
      elim (add_all-IsValid set counters valid) [
        | inl (undefined, more) ↦ inl (undefined, omega (arith, more, empty))
        | inr result ↦ inr result
      ]
