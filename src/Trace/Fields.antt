-- ===== src/Trace/Fields.antt =====
-- monitor_trace_monitor.c: the array of the fields that are selected, and how it grows.
use native.Mathlib.Nat.{pow-suc}
use hierarchical_monitors.Prelude.{
  ℕ, zero, suc, ◌+◌, ◌-◌, ◌*◌, ◌^◌, ◌<◌, ◌≤◌, ◌≡◌, ◌≢◌, ◌⊎◌, refl, sym, Bool, true, false, some,
  List, [], ◌∷◌, ◌++◌, length, length-append, length-set, length-replicate, get_or, get_or-set_self,
  get_or-set_ne, replicate, leb, ap, ◌∙◌, arith, Bool-cases, inl, inr,
}
use hierarchical_monitors.Prelude.Int.{pos}
use hierarchical_monitors.Trace.{
  TraceEventset, double, double_fuel, monitor_eventset_add_named_event, select_field,
}

-- The array has the size that is recorded, which is positive.
pub record HasFields (evset : TraceEventset) : Type 0 where
  pub sized : length evset.event_field_indexes ≡ evset.allocated
  pub positive : 0 < evset.allocated

-- Enough room for the field, and not twice what is needed.
pub record IsRoom (e allocated room : ℕ) : Type 0 where
  pub above : e < room
  pub grown : allocated ≤ room
  pub close : (room ≡ allocated) ⊎ (room ≤ 2 * e)

double_step :
    (fuel e allocated : ℕ)
    → leb allocated e ≡ true
    → e < 2 ^ 30
    → double (suc fuel) e allocated ≡ double fuel e (allocated * 2)
unfolding double
double_step fuel e allocated less small = ground (arith, less)

doubled-IsRoom :
    (e allocated room : ℕ)
    → leb allocated e ≡ true
    → IsRoom e (allocated * 2) room
    → IsRoom e allocated room
doubled-IsRoom e allocated room less is_room =
    let grown = is_room.grown in
    record {
      above = is_room.above;
      grown = omega arith;
      close = elim is_room.close [
        | inl same ↦ inr (ground (arith, less, same))
        | inr close ↦ inr close
      ];
    }

double_end :
    (fuel e allocated : ℕ)
    → leb allocated e ≡ false
    → double (suc fuel) e allocated ≡ some allocated
unfolding double
double_end fuel e allocated fits = ground (arith, fits)

double_lem :
    (fuel e allocated : ℕ)
    → 0 < allocated
    → e < 2 ^ 30
    → e < allocated * 2 ^ fuel
    → (room : ℕ) × (double (suc fuel) e allocated ≡ some room) × IsRoom e allocated room
double_lem zero e allocated h small enough = (
  allocated,
  double_end 0 e allocated (ground arith),
  record { above = omega arith; grown = omega arith; close = inl refl },
)
double_lem (suc fuel) e allocated h small enough = elim (Bool-cases (leb allocated e)) [
  | inr fits ↦ (
    allocated,
    double_end (suc fuel) e allocated fits,
    record { above = ground (arith, fits); grown = omega arith; close = inl refl },
  )
  | inl less ↦
      let (room, found, is_room) =
        double_lem fuel e (allocated * 2) (omega arith) small
          (omega (arith, ap (λ t. allocated * t) (pow-suc 2 fuel))) in
      (
        room,
        double_step (suc fuel) e allocated less small ∙ found,
        doubled-IsRoom e allocated room less is_room,
      )
]

get_or-append :
    (xs ys : List Bool) (i : ℕ) → i < length xs → get_or (xs ++ ys) i false ≡ get_or xs i false
get_or-append [] ys i h = absurd (omega arith)
get_or-append (x ∷ xs) ys zero h = refl
get_or-append (x ∷ xs) ys (suc i) h = get_or-append xs ys i (omega arith)

-- What the eventset is after a field was selected.
pub record IsSelected (e : ℕ) (evset after : TraceEventset) : Type 0 where
  pub selected : get_or after.event_field_indexes e false ≡ true
  pub kept :
      (i : ℕ)
      → i ≢ e
      → i < evset.allocated
      → get_or after.event_field_indexes i false ≡ get_or evset.event_field_indexes i false
  pub counted : after.n_events ≡ evset.n_events + 1
  pub fields : HasFields after
  pub room : IsRoom e evset.allocated after.allocated

select_field-IsSelected :
    (e room : ℕ) (evset : TraceEventset)
    → HasFields evset
    → IsRoom e evset.allocated room
    → IsSelected e evset (select_field e evset room).1
unfolding select_field
select_field-IsSelected e room evset valid is_room =
    let grown = is_room.grown in
    let above = is_room.above in
    let positive = valid.positive in
    let more = replicate (room - length evset.event_field_indexes) false in
    let len : length (evset.event_field_indexes ++ more) ≡ room = omega (
      arith,
      length-append evset.event_field_indexes more,
      length-replicate (room - length evset.event_field_indexes) false,
      valid.sized,
    ) in
    record {
      selected =
          get_or-set_self (evset.event_field_indexes ++ more) e true false (omega (arith, len));
      kept = λ i other inside.
          get_or-set_ne (evset.event_field_indexes ++ more) e i true false
            (λ same. other (sym same))
          ∙ get_or-append evset.event_field_indexes more i (omega (arith, valid.sized));
      counted = refl;
      fields = record {
        sized = length-set (evset.event_field_indexes ++ more) e true ∙ len;
        positive = omega arith;
      };
      room = is_room;
    }

add_room :
    (e room : ℕ) (evset : TraceEventset)
    → double double_fuel e evset.allocated ≡ some room
    → monitor_eventset_add_named_event (pos e) evset ≡ some (pos 1, (select_field e evset room).1)
unfolding monitor_eventset_add_named_event select_field
add_room e room evset found = rw (found, monitor_eventset_add_named_event) refl

-- Adding a field below 2^30 to an eventset of the trace plugin whose array has its recorded size,
-- which is not 0: the loop that doubles the size ends, with room for the field and no more than
-- twice the field's number if it grew. The field is then selected, those from before keep what they
-- were, the events are one more, and the array has its recorded size.
pub add_selects :
    (e : ℕ) (evset : TraceEventset)
    → e < 2 ^ 30
    → HasFields evset
    → (after : TraceEventset) × (monitor_eventset_add_named_event (pos e) evset
        ≡ some (pos 1, after))
      × IsSelected e evset after
add_selects e evset small valid =
    let positive = valid.positive in
    let (room, found, is_room) = double_lem 31 e evset.allocated positive small (omega arith) in
    (
      (select_field e evset room).1,
      add_room e room evset found,
      select_field-IsSelected e room evset valid is_room,
    )
