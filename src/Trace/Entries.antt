-- ===== src/Trace/Entries.antt =====
-- monitor_trace_monitor.c: the entry that a read takes from the trace.
use hierarchical_monitors.Prelude.{
  ℕ, ◌≤◌, ◌≡◌, refl, ◌∙◌, Bool, true, false, none, some, List, [], ◌∷◌, ◌++◌, length, length-map,
  map, ap, drop, arith,
}
use hierarchical_monitors.Prelude.Int.{ℤ, pos, negsuc}
use hierarchical_monitors.Prelude.Floats.{Floats}
use hierarchical_monitors.Trace.{
  TraceEventset, Entry, monitor_trace_parse_next_entry, monitor_trace_match_location_hwloc_obj,
  next_entry, put_values, monitor_eventset_read,
}

module _ (atoi : List ℕ → ℤ) (evset : TraceEventset) where
  -- A line that parses to an entry, whose location is the eventset's or is not.
  pub record IsEntry (line : List ℕ) (entry : Entry) (own : Bool) : Type 0 where
    pub parses : monitor_trace_parse_next_entry atoi line evset.event_field_indexes ≡ some entry
    pub located : monitor_trace_match_location_hwloc_obj atoi entry.entry_location evset ≡ some own

  -- Lines of other locations.
  abbrev pub AllOther : List (List ℕ) → Type 0
  AllOther [] = Unit
  AllOther (line ∷ lines) = ((entry : Entry) × IsEntry line entry false) × AllOther lines

  next_entry_found :
      (others rest : List (List ℕ)) (line : List ℕ) (entry : Entry)
      → AllOther others
      → IsEntry line entry true
      → next_entry atoi evset (others ++ line ∷ rest) ≡ some (rest, some entry)
  unfolding next_entry
  next_entry_found [] rest line entry skipped own = ground (arith, own.parses, own.located)
  next_entry_found (other ∷ others) rest line entry ((e, is_entry), skipped) own = ground (
    arith,
    is_entry.parses,
    is_entry.located,
    next_entry_found others rest line entry skipped own,
  )

  next_entry_end :
      (others : List (List ℕ)) → AllOther others → next_entry atoi evset others ≡ some ([], none)
  unfolding next_entry
  next_entry_end [] skipped = refl
  next_entry_end (other ∷ others) ((e, is_entry), skipped) =
      ground (arith, is_entry.parses, is_entry.located, next_entry_end others skipped)

next_entry-context :
    (atoi : List ℕ → ℤ) (evset : TraceEventset) (context lines : List (List ℕ))
    → next_entry atoi (record evset { local_context = context }) lines ≡ next_entry atoi evset lines
unfolding next_entry monitor_trace_match_location_hwloc_obj
next_entry-context atoi evset context [] = refl
next_entry-context atoi evset context (line ∷ lines) =
    ground (arith, next_entry-context atoi evset context lines)

-- A read of the next own entry and of the entries after it; what is put among the values.
module _ {D : Type 0} (F : Floats D) (atoi : List ℕ → ℤ) where
  put_values-replace :
      (vals more values : List D)
      → length vals ≤ length values
      → put_values F false (length vals) (vals ++ more) values ≡ vals ++ drop (length vals) values
  unfolding put_values
  put_values-replace [] more values h = refl
  put_values-replace (v ∷ vals) more (x ∷ values) h =
      ap (λ t. v ∷ t) (put_values-replace vals more values (omega arith))
  put_values-replace (v ∷ vals) more [] h = absurd (omega arith)

  read_found :
      (evset : TraceEventset) (lines : List (List ℕ)) (entry : Entry) (fresh values : List D)
      → next_entry atoi evset evset.local_context ≡ some (lines, some entry)
      → length entry.entry_values ≡ evset.n_events
      → evset.n_events ≤ length values
      → evset.accumulate ≡ false
      → let vals = map (λ v. F.of_int v) entry.entry_values in
        monitor_eventset_read F atoi fresh evset values
        ≡ some (pos 0, record evset { local_context = lines }, vals ++ drop evset.n_events values)
  unfolding monitor_eventset_read
  read_found evset lines entry fresh values found full room replaced =
      let vals = map (λ v. F.of_int v) entry.entry_values in
      let len : length vals ≡ evset.n_events =
        length-map entry.entry_values (λ v. F.of_int v) ∙ full in
      let put = put_values-replace vals (drop (length vals) fresh) values (omega (arith, len)) in
      let putting : put_values F evset.accumulate evset.n_events (vals ++ drop (length vals) fresh)
            values
          ≡ vals ++ drop evset.n_events values =
        cc (len, put, replaced) in
      ground (arith, found, putting)

  read_end :
      (evset : TraceEventset) (lines : List (List ℕ)) (fresh values : List D)
      → next_entry atoi evset evset.local_context ≡ some (lines, none)
      → monitor_eventset_read F atoi fresh evset values
        ≡ some (negsuc 0, record evset { local_context = lines }, values)
  unfolding monitor_eventset_read
  read_end evset lines fresh values found = ground (arith, found)

  -- A read of the trace plugin that replaces values passes over the entries of other locations. The
  -- first one of its own gives its values, where it has as many as there are events and as there is
  -- room for, and the trace stands behind its line; if there is none, the read returns -1, leaves
  -- the values and has the trace at its end.
  pub read_entries :
      (evset : TraceEventset) (others rest : List (List ℕ)) (line : List ℕ) (entry : Entry)
      (fresh values : List D)
      → AllOther atoi evset others
      → IsEntry atoi evset line entry true
      → length entry.entry_values ≡ evset.n_events
      → evset.n_events ≤ length values
      → evset.accumulate ≡ false
      → let vals = map (λ v. F.of_int v) entry.entry_values in
        (monitor_eventset_read F atoi fresh
            (record evset { local_context = others ++ line ∷ rest })
            values
          ≡ some (pos 0, record evset { local_context = rest }, vals ++ drop evset.n_events values))
        × (monitor_eventset_read F atoi fresh (record evset { local_context = others }) values
            ≡ some (negsuc 0, record evset { local_context = [] }, values))
  read_entries evset others rest line entry fresh values skipped own full room replaced = (
    read_found (record evset { local_context = others ++ line ∷ rest }) rest entry fresh values
        (next_entry-context atoi evset (others ++ line ∷ rest) (others ++ line ∷ rest)
          ∙ next_entry_found atoi evset others rest line entry skipped own)
        full room replaced,
    read_end (record evset { local_context = others }) [] fresh values
        (next_entry-context atoi evset others others ∙ next_entry_end atoi evset others skipped),
  )
