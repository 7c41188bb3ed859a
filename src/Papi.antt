-- ===== src/Papi.antt =====
-- plugins/papi/PAPI_monitor.c: a performance plugin whose events are those of PAPI. The library's calls are
-- parameters; where one fails the plugin exits, which is `none` here.
pub mod Counts
pub mod Listing
use hierarchical_monitors.Prelude.{
  ℕ, zero, suc, ◌+◌, ◌%◌, ◌^◌, Bool, true, false, not, ◌&&◌, ◌||◌, Option, none, some, List, [],
  ◌∷◌, ◌++◌, ◌==◌, length, map, take, drop, codes, same_string, if◌then◌else◌,
}
use hierarchical_monitors.Prelude.Int.{ℤ, pos, negsuc}
use hierarchical_monitors.Prelude.Floats.{Floats}

-- `PAPI_component_info_t`, as far as it is read.
pub record Component : Type 0 where
  pub disabled : Bool
  pub short_name : List ℕ

-- The calls of PAPI on one of its eventsets. A read gives the counters.
pub record Papi (S : Type 0) : Type 0 where
  pub create : Option S
  pub assign_component : S → ℕ → Option S
  pub attach_cpu : S → ℕ → Option S
  pub set_multiplex : S → Option S
  pub add_event : S → List ℕ → Option S
  pub start : S → Option S
  pub stop : S → Option (S × List ℤ)
  pub clear : S → Option S
  pub read : S → Option (S × List ℤ)

pub record PapiEventset (S : Type 0) : Type 0 where
  pub evset : S
  pub n_events : ℕ
  pub values : List ℤ

-- The fields of a `hwloc_obj_t` that the plugin reads.
pub record Device : Type 0 where
  pub is_pu : Bool
  pub is_node : Bool
  pub os_index : ℕ

-- The loop over the components from index `i` on.
unfoldable pub match_from : Device → List Component → ℕ → Option ℕ
match_from location [] i = none
match_from location (info ∷ infos) i =
    let rest = match_from location infos (i + 1) in
    if not info.disabled
      && ((location.is_pu && same_string info.short_name (codes "perf"))
          || (location.is_node && same_string info.short_name (codes "peu")))
    then some i
    else rest

-- `none` is the result -1.
unfoldable pub hmonitor_match_location_component : Device → List Component → Option ℕ
hmonitor_match_location_component location infos = match_from location infos 0

module _ {S : Type 0} (papi : Papi S) where
  -- The component, and the cpu if it is the first one.
  unfoldable pub bind_to : Option ℕ → ℕ → S → Option S
  bind_to none os_index evset = some evset
  bind_to (some cidx) os_index evset = elim (papi.assign_component evset cidx) [
    | none ↦ none
    | some assigned ↦
        let attached = papi.attach_cpu assigned os_index in
        if cidx == 0 then attached else some assigned
  ]

  unfoldable pub init_eventset : Device → List Component → Option (ℤ × PapiEventset S)
  init_eventset location infos = elim papi.create [
    | none ↦ none
    | some created ↦
        elim (bind_to (hmonitor_match_location_component location infos) location.os_index
          created) [
            | none ↦ none
            | some bound ↦ elim (papi.set_multiplex bound) [
              | none ↦ none
              | some evset ↦ some (pos 0, record { evset = evset; n_events = 0; values = [] })
            ]
          ]
  ]

  unfoldable pub add_event : PapiEventset S → List ℕ → Option (ℤ × PapiEventset S)
  add_event set event = elim (papi.add_event set.evset event) [
    | none ↦ none
    | some evset ↦ some (
      pos 1,
      record {
        evset = evset;
        n_events = (set.n_events + 1) % 2 ^ 32;
        values = set.values ++ pos 0 ∷ [];
      },
    )
  ]

  unfoldable pub start_events : PapiEventset S → Option (ℤ × PapiEventset S)
  start_events set = elim (papi.start set.evset) [
    | none ↦ none
    | some evset ↦ some (pos 0, record set { evset = evset })
  ]

  -- Counters written to the start of the array.
  unfoldable pub store_counts : List ℤ → List ℤ → List ℤ
  store_counts counts values = counts ++ drop (length counts) values

  unfoldable pub stop_events : PapiEventset S → Option (ℤ × PapiEventset S)
  stop_events set = elim (papi.stop set.evset) [
    | none ↦ none
    | some (evset, counts) ↦
        some (pos 0, record set { evset = evset; values = store_counts counts set.values })
  ]

  unfoldable pub reset_events : PapiEventset S → Option (ℤ × PapiEventset S)
  reset_events set = elim (papi.clear set.evset) [
    | none ↦ none
    | some evset ↦ some (pos 0, record set { evset = evset })
  ]

  -- A read that fails does not exit, and leaves `values`.
  unfoldable pub read_events :
      {D : Type 0} → Floats D → PapiEventset S → List D → ℤ × PapiEventset S × List D
  read_events F set values = elim (papi.read set.evset) [
    | none ↦ (negsuc 0, set, values)
    | some (evset, counts) ↦
        let stored = store_counts counts set.values in
        (
          pos 0,
          record set { evset = evset; values = stored },
          map F.of_int (take set.n_events stored) ++ drop set.n_events values,
        )
  ]
