-- ===== src/Hmonitor/Create/Build.antt =====
-- hmonitor.c: the parts of `new_hmonitor`, the loop over the events and the outputs.
use hierarchical_monitors.Prelude.{
  ℕ, zero, suc, ◌+◌, ◌%◌, ◌≡◌, refl, ap, Option, none, some, List, [], ◌∷◌, length, arith, ltb,
  Bool-cases, inl, inr,
}
use hierarchical_monitors.Prelude.Int.{pos, negsuc, ℤ-cases}
use hierarchical_monitors.Prelude.Floats.{Floats}
use hierarchical_monitors.Hmonitor.{u32_mod, Hmon, PerfLib, Timespec, hmonitor_reset}
use hierarchical_monitors.Hmonitor.Ring.{ReadsRows, IsValid}
use hierarchical_monitors.Hmonitor.Reset.{length-fill}
use hierarchical_monitors.Hmonitor.Reduce.{HasOutputs}
use hierarchical_monitors.Hmonitor.Create.{
  PerfPlugin, add_int, labels_from, hmonitor_set_labels, add_events, initialize_output,
}

-- What `new_hmonitor` relies on in the functions that build an eventset: a new one is empty, adding a name
-- returns how many events it added or -1, and the rest leaves the events as they are. The plugins of the
-- repository return that number; performance_plugin.h says 0.
pub record CountsEvents {D E : Type 0} (plugin : PerfPlugin D E) {lib : PerfLib D E}
    (reads : ReadsRows lib) : Type 0 where
  pub starts_empty : (location : ℕ) → reads.events_in (plugin.eventset_init location).1 ≡ 0
  pub adds :
      (e : E) (name : List ℕ) (n : ℕ)
      → (plugin.add_named_event e name).0 ≡ pos n
      → reads.events_in (plugin.add_named_event e name).1 ≡ reads.events_in e + n
  pub errors :
      (e : E) (name : List ℕ) (n : ℕ) → (plugin.add_named_event e name).0 ≡ negsuc n → n ≡ 0
  pub fini_keeps : (e : E) → reads.events_in (plugin.eventset_init_fini e).1 ≡ reads.events_in e
  pub reset_keeps : (e : E) → reads.events_in (lib.eventset_reset e).1 ≡ reads.events_in e

length-labels_from : (labels : List (List ℕ)) (n k i : ℕ) → length (labels_from labels n k i) ≡ k
unfolding labels_from
length-labels_from labels n zero i = refl
length-labels_from labels n (suc k) i = ap suc (length-labels_from labels n k (i + 1))

module _ {D E : Type 0} where
  -- What `initialize_output` leaves alone, and what it sets.
  pub record OutputsSet (fresh : ℕ → List D) (m after : Hmon D E) : Type 0 where
    pub same_events : after.events ≡ m.events
    pub same_n_events : after.n_events ≡ m.n_events
    pub same_window : after.window ≡ m.window
    pub same_last : after.last ≡ m.last
    pub same_eventset : after.eventset ≡ m.eventset
    pub fresh_samples : after.samples ≡ fresh after.n_samples
    pub fresh_max : after.max ≡ fresh after.n_samples
    pub fresh_min : after.min ≡ fresh after.n_samples
    pub labelled : length after.labels ≡ after.n_samples

  pub initialize_output_lem :
      (fresh : ℕ → List D) (lookup_function : List ℕ → Option ℕ) (names : List (List ℕ))
      (labels : Option (List (List ℕ))) (n : ℕ) (model : Option (List ℕ)) (m : Hmon D E)
      → OutputsSet fresh m (initialize_output fresh lookup_function names labels n model m)
  unfolding initialize_output hmonitor_set_labels
  initialize_output_lem fresh lookup_function names none n (some model) m = record {
    same_events = refl;
    same_n_events = refl;
    same_window = refl;
    same_last = refl;
    same_eventset = refl;
    fresh_samples = refl;
    fresh_max = refl;
    fresh_min = refl;
    labelled = length-labels_from [] 0 n 0;
  }
  initialize_output_lem fresh lookup_function names (some given) n (some model) m = record {
    same_events = refl;
    same_n_events = refl;
    same_window = refl;
    same_last = refl;
    same_eventset = refl;
    fresh_samples = refl;
    fresh_max = refl;
    fresh_min = refl;
    labelled = length-labels_from given n n 0;
  }
  initialize_output_lem fresh lookup_function names (some given) n none m = record {
    same_events = refl;
    same_n_events = refl;
    same_window = refl;
    same_last = refl;
    same_eventset = refl;
    fresh_samples = refl;
    fresh_max = refl;
    fresh_min = refl;
    labelled = length-labels_from given n m.n_events 0;
  }
  initialize_output_lem fresh lookup_function names none n none m =
      elim (Bool-cases (ltb (length names) m.n_events)) [
        | inl h ↦ rw h (record {
          same_events = refl;
          same_n_events = refl;
          same_window = refl;
          same_last = refl;
          same_eventset = refl;
          fresh_samples = refl;
          fresh_max = refl;
          fresh_min = refl;
          labelled = length-labels_from [] 0 m.n_events 0;
        })
        | inr h ↦ rw h (record {
          same_events = refl;
          same_n_events = refl;
          same_window = refl;
          same_last = refl;
          same_eventset = refl;
          fresh_samples = refl;
          fresh_max = refl;
          fresh_min = refl;
          labelled = length-labels_from names (length names) m.n_events 0;
        })
      ]

  -- The events added are the ones that the eventset holds, counted in an `unsigned`.
  pub add_events_lem :
      (plugin : PerfPlugin D E) {lib : PerfLib D E} (reads : ReadsRows lib)
      → CountsEvents plugin reads
      → (names : List (List ℕ)) (added n : ℕ) (e after : E) → added ≡ reads.events_in e % u32_mod
      → add_events plugin names added e ≡ some (n, after)
      → n ≡ reads.events_in after % u32_mod
  unfolding add_events add_int
  add_events_lem plugin reads c [] added n e after h k = ground arith
  add_events_lem plugin reads c (name ∷ names) added n e after h k =
      let (err, next) = plugin.add_named_event e name in
      elim (ℤ-cases (plugin.add_named_event e name).0) [
        | inl (count, same) ↦
            let counted = c.adds e name count same in
            add_events_lem plugin reads c names ((added + count) % u32_mod) n
              (plugin.add_named_event e name).1 after (omega (arith, counted)) (rw same at k)
        | inr (count, same) ↦
            let zero_count = c.errors e name count same in
            let refused : add_events plugin (name ∷ names) added e ≡ none = rw (same, zero_count) in
            cc (refused, k)
      ]

pub reset_labels :
    {D E : Type 0} (F : Floats D) (lib : PerfLib D E) (tp : Timespec) (m : Hmon D E)
    → length m.labels ≡ m.n_samples
    → length (hmonitor_reset F lib tp m).labels ≡ (hmonitor_reset F lib tp m).n_samples
unfolding hmonitor_reset
reset_labels F lib tp m h = h

pub keeps_IsValid :
    {D E : Type 0} {lib : PerfLib D E} (reads : ReadsRows lib) {fresh : ℕ → List D}
    {before after : Hmon D E}
    → OutputsSet fresh before after
    → IsValid reads before
    → IsValid reads after
keeps_IsValid reads set v = record {
  rows = rw (set.same_events, set.same_window, set.same_n_events) v.rows;
  bounded = rw (set.same_window, set.same_n_events) v.bounded;
  room = rw set.same_window v.room;
  inside = rw (set.same_window, set.same_last) v.inside;
  counted = rw (set.same_eventset, set.same_n_events) v.counted;
}

pub reset_outputs :
    {D E : Type 0} (F : Floats D) (lib : PerfLib D E) (fresh : ℕ → List D) (tp : Timespec)
    (m : Hmon D E)
    → m.samples ≡ fresh m.n_samples
    → m.max ≡ fresh m.n_samples
    → m.min ≡ fresh m.n_samples
    → ((n : ℕ) → length (fresh n) ≡ n)
    → HasOutputs (hmonitor_reset F lib tp m)
unfolding hmonitor_reset
reset_outputs F lib fresh tp m a b c sized =
    let zero_double = F.of_int (pos 0) in
    record {
      samples_fit =
          omega
            (arith, length-fill m.n_samples zero_double m.samples, ap length a, sized m.n_samples);
      max_fit =
          omega (arith, length-fill m.n_samples F.dbl_min m.max, ap length b, sized m.n_samples);
      min_fit =
          omega (arith, length-fill m.n_samples F.dbl_max m.min, ap length c, sized m.n_samples);
    }
