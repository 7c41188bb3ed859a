-- ===== src/Tests/PapiCounts.antt =====
-- PAPI_monitor.c with a library whose counters all hold 5.
use hierarchical_monitors.Papi.Listing.{
  Offer, hmonitor_events_list, there, offered, events_list_lem,
}
use hierarchical_monitors.Prelude.{
  none, true, false, ℕ, suc, ◌+◌, ◌≡◌, refl, sym, ap, ◌∙◌, some, List, [], ◌∷◌, ◌++◌, length, map,
  drop, replicate, length-replicate, arith, codes,
}
use hierarchical_monitors.Prelude.Int.{ℤ, pos}
use hierarchical_monitors.Papi.{Papi, PapiEventset, add_event, read_events}
use hierarchical_monitors.Papi.Counts.{IsPapi, add_names, read_counts}
use hierarchical_monitors.Tests.Doubles.{whole}

-- An eventset of the library is the number of its events.
abbrev fives : Papi ℕ
fives = record {
  create = some 0;
  assign_component = λ s c. some s;
  attach_cpu = λ s c. some s;
  set_multiplex = λ s. some s;
  add_event = λ s name. some (s + 1);
  start = λ s. some s;
  stop = λ s. some (s, replicate s (pos 5));
  clear = λ s. some s;
  read = λ s. some (s, replicate s (pos 5));
}

one_more : (s t : ℕ) → some (s + 1) ≡ some t → t ≡ suc s
one_more s t h = (let same : s + 1 ≡ t = cc h in omega (arith, same))

all_read : (s t : ℕ) (counts : List ℤ) → fives.read s ≡ some (t, counts) → length counts ≡ s
all_read s t counts h =
    let same : replicate s (pos 5) ≡ counts = cc h in
    sym (ap length same) ∙ length-replicate s (pos 5)

fives-IsPapi : IsPapi fives
fives-IsPapi = record {
  size = λ s. s;
  size_add = λ s t event. one_more s t;
  size_read = λ s t counts. all_read s t counts;
}

abbrev no_events : PapiEventset ℕ
no_events = record { evset = 0; n_events = 0; values = [] }

abbrev two_events : PapiEventset ℕ
two_events = record { evset = 2; n_events = 2; values = pos 0 ∷ pos 0 ∷ [] }

abbrev names : List (List ℕ)
names = codes "PAPI_TOT_CYC" ∷ codes "PAPI_L1_DCM" ∷ []

adds : add_names fives no_events names ≡ some two_events
unfolding add_event
adds = refl

read_counts_example :
    (2 ≡ length names)
    × (read_events fives whole two_events (pos 1 ∷ pos 1 ∷ pos 1 ∷ []) ≡ (
      pos 0,
      record { evset = 2; n_events = 2; values = pos 5 ∷ pos 5 ∷ [] },
      map whole.of_int (pos 5 ∷ pos 5 ∷ []) ++ drop (length names) (pos 1 ∷ pos 1 ∷ pos 1 ∷ []),
    ))
unfolding fives-IsPapi
read_counts_example =
    read_counts fives-IsPapi whole names no_events two_events 2 (pos 5 ∷ pos 5 ∷ [])
      (pos 1 ∷ pos 1 ∷ pos 1 ∷ []) (omega arith) refl refl refl adds refl

-- One component that is used, with an event that PAPI knows nothing of, and one that is disabled.
abbrev offers : List Offer
offers =
    record {
      disabled = false;
      first_works = true;
      names = some (codes "CYC") ∷ none ∷ some (codes "INS") ∷ [];
    }
    ∷ record { disabled = true; first_works = true; names = some (codes "GPU") ∷ [] }
    ∷ []

events_list_lem_example :
    hmonitor_events_list 2 offers (some (codes "L2") ∷ [])
    ≡ some (offered offers ++ there (some (codes "L2") ∷ []))
events_list_lem_example =
    events_list_lem 2 offers (some (codes "L2") ∷ []) (omega arith) (omega arith) (omega arith)
