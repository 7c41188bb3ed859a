-- ===== src/Tests/Traces.antt =====
-- plugins/trace/ on a trace of two entries, for the core 1, with the second and the fifth field selected.
use hierarchical_monitors.Prelude.{
  ℕ, ◌+◌, ◌-◌, ◌*◌, ◌≡◌, refl, true, false, some, List, [], ◌∷◌, ◌++◌, map, drop, codes,
  tokens_from, same_string, arith,
}
use hierarchical_monitors.Prelude.Int.{ℤ, pos, negsuc}
use hierarchical_monitors.Trace.{
  TraceEventset, Entry, monitor_eventset_add_named_event, monitor_eventset_read,
  monitor_trace_parse_next_entry, monitor_trace_match_location_hwloc_obj, entry_of, real_tokens,
  field_values, match_location,
}
use hierarchical_monitors.Trace.Fields.{IsSelected, add_selects}
use hierarchical_monitors.Trace.Entries.{IsEntry, read_entries}
use hierarchical_monitors.Tests.Doubles.{whole}

-- A number of digits.
abbrev pub digits : ℕ → List ℕ → ℕ
digits n [] = n
digits n (c ∷ cs) = digits (10 * n + (c - 48)) cs

abbrev pub atoi : List ℕ → ℤ
atoi text = pos (digits 0 text)

abbrev evset : TraceEventset
evset = record {
  local_context = [];
  location_type = codes "Core";
  logical_index = 1;
  event_field_indexes = false ∷ true ∷ false ∷ false ∷ [];
  n_events = 1;
  allocated = 4;
  accumulate = false;
}

add_selects_example :
    (after : TraceEventset) × (monitor_eventset_add_named_event (pos 70) evset
      ≡ some (pos 1, after))
    × IsSelected 70 evset after
add_selects_example =
    add_selects 70 evset (omega arith) (record { sized = refl; positive = omega arith })

abbrev other : List ℕ
other = codes "m Core:0 5 10 20 30"

abbrev own : List ℕ
own = codes "m Core:1 6 11 21 31"

abbrev own_entry : Entry
own_entry = record {
  entry_location = codes "Core:1";
  timestamp = pos 6;
  entry_values = pos 21 ∷ [];
}

abbrev other_entry : Entry
other_entry = record {
  entry_location = codes "Core:0";
  timestamp = pos 5;
  entry_values = pos 20 ∷ [];
}

own-IsEntry : IsEntry atoi evset own own_entry true
unfolding monitor_trace_parse_next_entry monitor_trace_match_location_hwloc_obj entry_of real_tokens
    tokens_from field_values match_location same_string
own-IsEntry = record { parses = refl; located = refl }

other-IsEntry : IsEntry atoi evset other other_entry false
unfolding monitor_trace_parse_next_entry monitor_trace_match_location_hwloc_obj entry_of real_tokens
    tokens_from field_values match_location same_string
other-IsEntry = record { parses = refl; located = refl }

read_entries_example :
    let vals = map (λ v. whole.of_int v) own_entry.entry_values in
    (monitor_eventset_read whole atoi []
        (record evset { local_context = (other ∷ []) ++ own ∷ other ∷ [] })
        (pos 7 ∷ [])
      ≡ some (
        pos 0,
        record evset { local_context = other ∷ [] },
        vals ++ drop evset.n_events (pos 7 ∷ []),
      ))
    × (monitor_eventset_read whole atoi []
          (record evset { local_context = other ∷ [] })
          (pos 7 ∷ [])
        ≡ some (negsuc 0, record evset { local_context = [] }, pos 7 ∷ []))
read_entries_example =
    read_entries whole atoi evset (other ∷ []) (other ∷ []) own own_entry [] (pos 7 ∷ [])
      ((other_entry, other-IsEntry), tt) own-IsEntry refl (omega arith) refl
