-- ===== src/Trace.antt =====
-- plugins/trace/: a performance plugin that reads the values of its events from a trace. The lines of the
-- trace that are left are the state of its file; the C library's atoi is a parameter.
pub mod Fields
pub mod Entries
use hierarchical_monitors.Prelude.{
  ℕ, zero, suc, ◌+◌, ◌-◌, ◌*◌, ◌^◌, map, Bool, true, false, not, Option, none, some, List, [], ◌∷◌,
  ◌++◌, length, take, drop, replicate, set, leb, ◌==◌, if◌then◌else◌, same_string, words, tokens,
}
use hierarchical_monitors.Prelude.Int.{ℤ, pos, negsuc}
use hierarchical_monitors.Prelude.Floats.{Floats}

-- `struct monitor_trace_eventset`; the type of the location as a text, and its logical index.
pub record TraceEventset : Type 0 where
  pub local_context : List (List ℕ)
  pub location_type : List ℕ
  pub logical_index : ℕ
  pub event_field_indexes : List Bool
  pub n_events : ℕ
  pub allocated : ℕ
  pub accumulate : Bool

-- `lines` are those of the trace, if the environment names one and it opens.
unfoldable pub monitor_eventset_init :
    Option (List (List ℕ)) → List ℕ → ℕ → Bool → Option TraceEventset
monitor_eventset_init none location_type logical_index accumulate = none
monitor_eventset_init (some lines) location_type logical_index accumulate = some (record {
  local_context = lines;
  location_type = location_type;
  logical_index = logical_index;
  event_field_indexes = replicate 4 false;
  n_events = 0;
  allocated = 4;
  accumulate = accumulate;
})

-- The loop that doubles `allocated`, an `int`; `none` is an overflow, or the end of the fuel.
unfoldable pub double : ℕ → ℕ → ℕ → Option ℕ
double zero e allocated = none
double (suc fuel) e allocated =
    let again = double fuel e (allocated * 2) in
    if leb allocated e
    then (if leb (2 ^ 31) (allocated * 2) then none else again)
    else some allocated

abbrev pub double_fuel : ℕ
double_fuel = 32

-- The array with the field `e` set, after it has grown to `allocated`.
unfoldable pub select_field : ℕ → TraceEventset → ℕ → ℤ × TraceEventset
select_field e evset allocated = (
  pos 1,
  record evset {
    event_field_indexes =
        set
          (evset.event_field_indexes
            ++ replicate (allocated - length evset.event_field_indexes) false)
          e true;
    allocated = allocated;
    n_events = evset.n_events + 1;
  },
)

-- `e` is the number that the name spells; `none` is a write out of bounds.
unfoldable pub monitor_eventset_add_named_event : ℤ → TraceEventset → Option (ℤ × TraceEventset)
monitor_eventset_add_named_event (negsuc n) evset = none
monitor_eventset_add_named_event (pos e) evset = elim (double double_fuel e evset.allocated) [
  | none ↦ none
  | some allocated ↦ some (select_field e evset allocated)
]

-- What a line of a trace holds: the location and the values of the fields that are set.
pub record Entry : Type 0 where
  pub entry_location : List ℕ
  pub timestamp : ℤ
  pub entry_values : List ℤ

-- A token that begins with the end of the line is passed over.
unfoldable pub real_tokens : List (List ℕ) → List (List ℕ)
real_tokens [] = []
real_tokens ([] ∷ rest) = real_tokens rest
real_tokens ((c ∷ token) ∷ rest) =
    let others = real_tokens rest in if c == 10 then others else (c ∷ token) ∷ others

module _ (atoi : List ℕ → ℤ) where
  -- `none` is a field behind the end of the array.
  unfoldable pub field_values : List (List ℕ) → List Bool → Option (List ℤ)
  field_values [] fields = some []
  field_values (token ∷ rest) [] = none
  field_values (token ∷ rest) (field ∷ fields) = elim (field_values rest fields) [
    | none ↦ none
    | some values ↦ some (if field then atoi token ∷ values else values)
  ]

  -- The tokens behind the name; `none` is one that is read where there is none.
  unfoldable pub entry_of : List (List ℕ) → List Bool → Option Entry
  entry_of (location ∷ time ∷ fields_of) fields = elim (field_values fields_of fields) [
    | none ↦ none
    | some values ↦
        some (record {
          entry_location = take 31 location;
          timestamp = atoi time;
          entry_values = values;
        })
  ]
  entry_of _ fields = none

  -- The first token is the name, whatever it begins with.
  unfoldable pub monitor_trace_parse_next_entry : List ℕ → List Bool → Option Entry
  monitor_trace_parse_next_entry line fields = entry_of (real_tokens (drop 1 (words line))) fields

  -- Whether a location of a trace, "type:index", is the eventset's.
  unfoldable pub match_location : List (List ℕ) → List ℕ → ℕ → Option Bool
  match_location [] location_type logical_index = none
  match_location (type ∷ []) location_type logical_index =
      if same_string type location_type then none else some false
  match_location (type ∷ index ∷ rest) location_type logical_index = some (
      if same_string type location_type
      then elim (atoi index) [ pos n ↦ n == logical_index | negsuc n ↦ false ]
      else false)

  unfoldable pub monitor_trace_match_location_hwloc_obj : List ℕ → TraceEventset → Option Bool
  monitor_trace_match_location_hwloc_obj location evset =
      match_location (tokens 58 location) evset.location_type evset.logical_index

  -- The read calls itself until an entry is the eventset's or the trace ends: the lines that are left, and
  -- the entry if there is one.
  unfoldable pub next_entry : TraceEventset → List (List ℕ) → Option (List (List ℕ) × Option Entry)
  next_entry evset [] = some ([], none)
  next_entry evset (line ∷ lines) =
      elim (monitor_trace_parse_next_entry line evset.event_field_indexes) [
        | none ↦ none
        | some entry ↦ elim (monitor_trace_match_location_hwloc_obj entry.entry_location evset) [
          | none ↦ none
          | some true ↦ some (lines, some entry)
          | some false ↦ next_entry evset lines
        ]
      ]

module _ {D : Type 0} (F : Floats D) where
  -- `n` of the values read are added to `values`, or replace them.
  unfoldable pub put_values : Bool → ℕ → List D → List D → List D
  put_values accumulate zero vals values = values
  put_values accumulate (suc n) (v ∷ vals) (x ∷ values) =
      (if accumulate then F.add x v else v) ∷ put_values accumulate n vals values
  put_values accumulate (suc n) vals values = values

  -- `fresh` is what stands in `vals` before anything is read.
  unfoldable pub monitor_eventset_read :
      (List ℕ → ℤ) → List D → TraceEventset → List D → Option (ℤ × TraceEventset × List D)
  monitor_eventset_read atoi fresh evset values = elim (next_entry atoi evset evset.local_context) [
    | none ↦ none
    | some (lines, none) ↦ some (negsuc 0, record evset { local_context = lines }, values)
    | some (lines, some entry) ↦
        let vals = map (λ v. F.of_int v) entry.entry_values in
        some (
          pos 0,
          record evset { local_context = lines },
          put_values evset.accumulate evset.n_events (vals ++ drop (length vals) fresh) values,
        )
  ]
