-- ===== src/Papi/Listing.antt =====
-- PAPI_monitor.c: the list of the events that PAPI offers, in an array that grows.
use mathlib.Core.List.{append-nil, append_assoc}
use hierarchical_monitors.Prelude.{
  ℕ, ◌+◌, ◌-◌, ◌*◌, ◌%◌, ◌^◌, ◌<◌, ◌≡◌, refl, sym, ap, ◌∙◌, Bool, not, ◌&&◌, Option, none, some,
  List, [], ◌∷◌, ◌++◌, ◌==◌, ltb, length, length-append, if◌then◌else◌, arith,
}

-- A component: whether it is disabled, whether the enumeration of its events begins, and for each event
-- its name, if PAPI has information on it.
pub record Offer : Type 0 where
  pub disabled : Bool
  pub first_works : Bool
  pub names : List (Option (List ℕ))

-- The names written so far, and the size of the array.
pub record Listing : Type 0 where
  pub avail : List (List ℕ)
  pub max_count : ℕ

-- The size after `check_count`, which comes behind a write.
unfoldable pub check_count : ℕ → ℕ → ℕ
check_count count max_count =
    if count == (max_count + 2 ^ 32 - 1) % 2 ^ 32 then max_count * 2 % 2 ^ 32 else max_count

-- `none` is a write behind the array.
unfoldable pub push_name : Listing → Option (List ℕ) → Option Listing
push_name l none = some l
push_name l (some name) =
    let count = length l.avail in
    if ltb count l.max_count
    then some (record { avail = l.avail ++ name ∷ []; max_count = check_count count l.max_count })
    else none

unfoldable pub push_names : Listing → List (Option (List ℕ)) → Option Listing
push_names l [] = some l
push_names l (name ∷ names) = elim (push_name l name) [
  | none ↦ none
  | some more ↦ push_names more names
]

unfoldable pub list_components : Listing → List Offer → Option Listing
list_components l [] = some l
list_components l (offer ∷ offers) =
    elim (push_names l (if not offer.disabled && offer.first_works then offer.names else [])) [
      | none ↦ none
      | some more ↦ list_components more offers
    ]

-- `presets` are the names of the preset events that are enumerated, and `max_count` is
-- PAPI_MAX_HWCTRS + PAPI_MAX_PRESET_EVENTS.
unfoldable pub hmonitor_events_list :
    ℕ → List Offer → List (Option (List ℕ)) → Option (List (List ℕ))
hmonitor_events_list max_count offers presets =
    elim (list_components (record { avail = []; max_count = max_count }) offers) [
      | none ↦ none
      | some listed ↦ elim (push_names listed presets) [ none ↦ none | some all ↦ some all.avail ]
    ]

-- The names that are there, and those of the components that are used.
abbrev pub there : List (Option (List ℕ)) → List (List ℕ)
there [] = []
there (none ∷ names) = there names
there (some name ∷ names) = name ∷ there names

abbrev pub offered : List Offer → List (List ℕ)
offered [] = []
offered (offer ∷ offers) =
    there (if not offer.disabled && offer.first_works then offer.names else []) ++ offered offers

-- There is room for one more name.
abbrev HasRoom : Listing → Type 0
HasRoom l = (length l.avail < l.max_count) × (l.max_count < 2 ^ 32)

check_count_lem :
    (count max_count : ℕ)
    → count < max_count
    → max_count < 2 ^ 32
    → count + 1 < 2 ^ 31
    → (count + 1 < check_count count max_count) × (check_count count max_count < 2 ^ 32)
unfolding check_count
check_count_lem count max_count h k l =
    let wrapped : (max_count + 2 ^ 32 - 1) % 2 ^ 32 ≡ max_count - 1 = omega arith in
    ground (arith, wrapped)

push_names_lem :
    (l : Listing) (names : List (Option (List ℕ)))
    → HasRoom l
    → length l.avail + length (there names) < 2 ^ 31
    → (more : Listing) × (push_names l names ≡ some more)
      × (more.avail ≡ l.avail ++ there names)
      × HasRoom more
unfolding push_names push_name
push_names_lem l [] room few = (l, refl, sym (append-nil l.avail), room)
push_names_lem l (none ∷ names) room few = push_names_lem l names room few
push_names_lem l (some name ∷ names) room few =
    let count = length l.avail in
    let checked = check_count_lem count l.max_count room.0 room.1 (omega arith) in
    let next : Listing = record {
      avail = l.avail ++ name ∷ [];
      max_count = check_count count l.max_count;
    } in
    let len = length-append l.avail (name ∷ []) in
    let (more, e, all, kept) =
      push_names_lem next names (omega (arith, len, checked.0), checked.1) (omega (arith, len)) in
    (more, ground (arith, e, room.0), all ∙ append_assoc l.avail (name ∷ []) (there names), kept)

list_components_lem :
    (l : Listing) (offers : List Offer)
    → HasRoom l
    → length l.avail + length (offered offers) < 2 ^ 31
    → (more : Listing) × (list_components l offers ≡ some more)
      × (more.avail ≡ l.avail ++ offered offers)
      × HasRoom more
unfolding list_components
list_components_lem l [] room few = (l, refl, sym (append-nil l.avail), room)
list_components_lem l (offer ∷ offers) room few =
    let names = if not offer.disabled && offer.first_works then offer.names else [] in
    let len = length-append (there names) (offered offers) in
    let (pushed, e, some_more, has_room) = push_names_lem l names room (omega (arith, len)) in
    let len_pushed = ap length some_more ∙ length-append l.avail (there names) in
    let (more, f, all, kept) =
      list_components_lem pushed offers has_room (omega (arith, len, len_pushed)) in
    (
      more,
      ground (arith, e, f),
      all
          ∙ ap (λ t. t ++ offered offers) some_more
          ∙ append_assoc l.avail (there names) (offered offers),
      kept,
    )

-- Where fewer than 2^31 events have names, and the array begins with a size of at least 1 and less
-- than 2^32, the list of events of the PAPI plugin never writes behind its array, and holds the
-- names of the components that are used and those of the presets, in their order.
pub events_list_lem :
    (max_count : ℕ) (offers : List Offer) (presets : List (Option (List ℕ)))
    → 0 < max_count
    → max_count < 2 ^ 32
    → length (offered offers) + length (there presets) < 2 ^ 31
    → hmonitor_events_list max_count offers presets ≡ some (offered offers ++ there presets)
unfolding hmonitor_events_list
events_list_lem max_count offers presets some_room fits few =
    let (listed, e, native, room) =
      list_components_lem (record { avail = []; max_count = max_count }) offers (some_room, fits)
        (omega arith) in
    let len = ap length native in
    let (all, f, names, kept) = push_names_lem listed presets room (omega (arith, len)) in
    ground (arith, e, f, names ∙ ap (λ t. t ++ there presets) native)
