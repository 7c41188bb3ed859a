-- ===== src/Fake/Events.antt =====
-- fake_monitor.c: the plugin keeps what a monitor relies on.
use hierarchical_monitors.Prelude.{
  same_string, ℕ, zero, suc, ◌+◌, ◌%◌, ◌<◌, ◌≡◌, refl, Bool, true, false, Bool-cases, inl, inr,
  none, some, List, [], ◌∷◌, ◌++◌, length, replicate, drop, length-replicate, drop-nil, arith,
  if◌then◌else◌,
}
use hierarchical_monitors.Prelude.Int.{pos, negsuc}
use hierarchical_monitors.Prelude.Floats.{Floats}
use hierarchical_monitors.Hmonitor.{u32_mod}
use hierarchical_monitors.Hmonitor.Ring.{ReadsRows}
use hierarchical_monitors.Hmonitor.Create.{add_events, add_int}
use hierarchical_monitors.Hmonitor.Create.Build.{CountsEvents}
use hierarchical_monitors.Fake.{
  fake_name, hmonitor_eventset_init, hmonitor_eventset_add_named_event, hmonitor_eventset_init_fini,
  hmonitor_eventset_reset, write_ones, hmonitor_eventset_read, fake_lib, fake_plugin,
}

module _ {D : Type 0} (F : Floats D) where
  -- The loop of the read puts as many values as the eventset counts in front of the rest.
  write_ones_lem :
      (n : ℕ) (values : List D)
      → write_ones F n values ≡ replicate n (F.of_int (pos 1)) ++ drop n values
  unfolding write_ones
  write_ones_lem zero values = refl
  write_ones_lem (suc n) [] = rw (write_ones_lem n [], drop-nil D n)
  write_ones_lem (suc n) (x ∷ values) = rw (write_ones_lem n values)

  pub read_writes :
      (e : ℕ) (values : List D)
      → (hmonitor_eventset_read F e values).2 ≡ replicate e (F.of_int (pos 1)) ++ drop e values
  unfolding hmonitor_eventset_read
  read_writes e values = write_ones_lem e values

  pub read_moves : (e : ℕ) (values : List D) → (hmonitor_eventset_read F e values).1 ≡ e
  unfolding hmonitor_eventset_read
  read_moves e values = refl

  -- The plugin as a monitor relies on it.
  abbrev pub fake_reads : ReadsRows (fake_lib F)
  fake_reads = record {
    events_in = λ e. e;
    row = λ e. replicate e (F.of_int (pos 1));
    next = λ e. e;
    length-row = λ e. length-replicate e (F.of_int (pos 1));
    writes = read_writes;
    moves = read_moves;
    keeps = λ e. refl;
  }

  adds_lem :
      (e : ℕ) (name : List ℕ) (n : ℕ)
      → (hmonitor_eventset_add_named_event e name).0 ≡ pos n
      → (hmonitor_eventset_add_named_event e name).1 ≡ e + n
  unfolding hmonitor_eventset_add_named_event
  adds_lem e name n h = ground arith

  errors_lem :
      (e : ℕ) (name : List ℕ) (n : ℕ)
      → (hmonitor_eventset_add_named_event e name).0 ≡ negsuc n
      → n ≡ 0
  unfolding hmonitor_eventset_add_named_event
  errors_lem e name n h = ground arith

  pub fake_counts : CountsEvents (fake_plugin F) fake_reads
  unfolding hmonitor_eventset_init hmonitor_eventset_init_fini hmonitor_eventset_reset
  fake_counts = record {
    starts_empty = λ location. refl;
    adds = adds_lem;
    errors = errors_lem;
    fini_keeps = λ e. refl;
    reset_keeps = λ e. refl;
  }

  -- Whether every name of a list is "FAKE".
  abbrev pub all_fake : List (List ℕ) → Bool
  all_fake [] = true
  all_fake (name ∷ names) = if same_string name fake_name then all_fake names else false

  -- Adding events by name to an eventset of the fake plugin, of fewer than 2^32 events in the end,
  -- succeeds where every name is "FAKE", with one event for each, and is refused for any other
  -- name.
  pub add_events_fake :
      (names : List (List ℕ)) (e : ℕ)
      → e + length names < u32_mod
      → add_events (fake_plugin F) names e e
        ≡ (if all_fake names then some (e + length names, e + length names) else none)
  unfolding add_events add_int hmonitor_eventset_add_named_event
  add_events_fake [] e h = ground arith
  add_events_fake (name ∷ names) e h = elim (Bool-cases (same_string name fake_name)) [
    | inl same ↦
        let small : (e + 1) % u32_mod ≡ e + 1 = omega arith in
        let shift : e + 1 + length names ≡ e + suc (length names) = omega arith in
        rw (same, small, add_events_fake names (e + 1) (omega arith), shift)
    | inr other ↦ rw other
  ]
