-- ===== src/Maqao.antt =====
-- plugins/maqao/maqao_monitor.c: a performance plugin over the counting library of MAQAO, which is a
-- parameter. A call site is a number that the library counts for.
pub mod Callsites
use hierarchical_monitors.Prelude.{
  ℕ, zero, suc, ◌+◌, ◌%◌, ◌^◌, Bool, true, false, List, [], ◌∷◌, ◌==◌, if◌then◌else◌, codes, drop,
}
use hierarchical_monitors.Prelude.Int.{ℤ, pos, negsuc}
use hierarchical_monitors.Prelude.Floats.{Floats}

-- The calls of plugins/maqao/maqao.h, on the library's state.
pub record Counting (L : Type 0) : Type 0 where
  pub add_hw_counters : List ℕ → ℤ → ℤ → L → ℤ × L
  pub start_counters : ℕ → L → L
  pub start_counting : ℕ → L → L
  pub stop_counting : ℕ → L → L
  pub stop_counting_dumb : ℕ → L → L
  pub counter_value : L → ℕ → ℕ → ℕ

-- `struct maqao_eventset`
pub record MaqaoEventset : Type 0 where
  pub n_events : ℕ
  pub core : ℤ
  pub callsite : ℕ

-- The plugin's variables, whether the counters have been started, and the library.
pub record MaqaoState (L : Type 0) : Type 0 where
  pub nb_callsite : ℕ
  pub once_done : Bool
  pub library : L

-- MAQAO_THREAD_ANY
abbrev pub thread_any : ℤ
thread_any = negsuc 0

abbrev pub listed_events : List (List ℕ)
listed_events = codes "See maqao doc for event list" ∷ []

module _ {L : Type 0} (counting : Counting L) where
  -- The library's results -1 and -2 are errors.
  unfoldable pub counted : ℤ → MaqaoEventset → ℤ × MaqaoEventset
  counted (negsuc zero) set = (negsuc 0, set)
  counted (negsuc (suc zero)) set = (negsuc 0, set)
  counted _ set = (pos 1, record set { n_events = (set.n_events + 1) % 2 ^ 32 })

  unfoldable pub add_counter :
      MaqaoEventset → List ℕ → MaqaoState L → (ℤ × MaqaoEventset) × MaqaoState L
  add_counter set event s =
      let (status, library) = counting.add_hw_counters event set.core thread_any s.library in
      (counted status set, record s { library = library })

  -- `is_pu` and `os_index` are those of the location.
  unfoldable pub new_callsite : Bool → ℕ → MaqaoState L → MaqaoEventset × MaqaoState L
  new_callsite is_pu os_index s = (
    record {
      n_events = 0;
      core = if is_pu then pos os_index else thread_any;
      callsite = s.nb_callsite;
    },
    record s { nb_callsite = (s.nb_callsite + 1) % 2 ^ 32 },
  )

  -- The counters are started once, for as many call sites as there are then.
  unfoldable pub init_fini : MaqaoState L → MaqaoState L
  init_fini s =
      if s.once_done
      then s
      else record s { once_done = true; library = counting.start_counters s.nb_callsite s.library }

  unfoldable pub start_callsite : MaqaoEventset → MaqaoState L → MaqaoState L
  start_callsite set s = record s { library = counting.start_counting set.callsite s.library }

  unfoldable pub stop_callsite : MaqaoEventset → MaqaoState L → MaqaoState L
  stop_callsite set s = record s { library = counting.stop_counting set.callsite s.library }

  unfoldable pub reset_callsite : MaqaoEventset → MaqaoState L → MaqaoState L
  reset_callsite set s = record s {
    library =
        counting.start_counting s.nb_callsite (counting.stop_counting_dumb set.callsite s.library);
  }

  -- `n` values of a call site from index `i` on, written to what stands from `values` on.
  unfoldable pub read_values : {D : Type 0} → Floats D → MaqaoState L → ℕ → ℕ → ℕ → List D → List D
  read_values F s callsite zero i values = values
  read_values F s callsite (suc n) i values =
      F.of_int (pos (counting.counter_value s.library callsite i))
      ∷ read_values F s callsite n (i + 1) (drop 1 values)

  unfoldable pub read_callsite :
      {D : Type 0} → Floats D → MaqaoEventset → MaqaoState L → List D → List D
  read_callsite F set s values = read_values F s set.callsite set.n_events 0 values
