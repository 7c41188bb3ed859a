-- ===== src/Tests/Callsites.antt =====
-- maqao_monitor.c with a library whose state is the call sites that are counted.
use hierarchical_monitors.Prelude.{
  List, ℕ, ◌≡◌, Bool, true, false, not, ◌&&◌, ◌||◌, [], ◌∷◌, ◌==◌, arith,
}
use hierarchical_monitors.Prelude.Int.{pos}
use hierarchical_monitors.Maqao.{Counting, MaqaoEventset, MaqaoState, reset_callsite}
use hierarchical_monitors.Maqao.Callsites.{init_all, eventsets, NoneHas, HaveOwn, reset_starts_none}

abbrev Sites : Type 0
Sites = ℕ → Bool

abbrev counting : Counting Sites
counting = record {
  add_hw_counters = λ event core thread l. (pos 0, l);
  start_counters = λ n l. l;
  start_counting = λ c l d. (c == d) || l d;
  stop_counting = λ c l d. not (c == d) && l d;
  stop_counting_dumb = λ c l d. not (c == d) && l d;
  counter_value = λ l c i. 0;
}

abbrev start_state : MaqaoState Sites
start_state = record { nb_callsite = 0; once_done = false; library = λ c. false }

abbrev first : MaqaoEventset
first = record { n_events = 0; core = pos 5; callsite = 0 }

abbrev locations : List (Bool × ℕ)
locations = (true, 5) ∷ (true, 6) ∷ []

reset_starts_none_example :
    let ready = init_all counting locations start_state in
    let sets = eventsets counting locations start_state in
    HaveOwn sets
    × ((site : ℕ) × NoneHas site sets
        × ((reset_callsite counting first ready).library
            ≡ counting.start_counting site
                (counting.stop_counting_dumb first.callsite ready.library)))
reset_starts_none_example = reset_starts_none counting locations start_state first (omega arith)
