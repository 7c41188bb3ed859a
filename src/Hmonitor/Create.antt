-- ===== src/Hmonitor/Create.antt =====
-- hmonitor.c: `new_hmonitor`, and what it asks of a performance plugin.
pub mod Build
pub mod Valid
use hierarchical_monitors.Prelude.{
  ℕ, zero, suc, ◌+◌, ◌-◌, ◌*◌, ◌/◌, ◌%◌, ◌^◌, Bool, true, false, Option, none, some, List, [], ◌∷◌,
  ◌++◌, ◌==◌, ltb, if◌then◌else◌, get_or, length,
}
use hierarchical_monitors.Prelude.Int.{ℤ, pos, negsuc}
use hierarchical_monitors.Prelude.Floats.{Floats}
use hierarchical_monitors.Hmonitor.{unlocked, u32_mod, Hmon, PerfLib, Timespec, hmonitor_reset}

-- The functions that `new_hmonitor` loads from a plugin: `lib` is `none` if one of those that the
-- monitor keeps is missing.
pub record PerfPlugin (D E : Type 0) : Type 0 where
  pub lib : Option (PerfLib D E)
  pub eventset_init : ℕ → ℤ × E
  pub add_named_event : E → List ℕ → ℤ × E
  pub eventset_init_fini : E → ℤ × E

-- NULL, the end of the process, or a monitor.
pub data Created (D E : Type 0) : Type 0 where
  null : Created D E
  exit_failure : Created D E
  created : Hmon D E → Created D E

-- `%u`, for which ten digits are enough.
unfoldable pub decimal : ℕ → ℕ → List ℕ
decimal zero n = []
decimal (suc fuel) n =
    let higher = decimal fuel (n / 10) in (if ltb n 10 then [] else higher) ++ (48 + n % 10) ∷ []

-- The label of sample `i`: one of the `n` that are given, or "V" and the index.
unfoldable pub label : List (List ℕ) → ℕ → ℕ → List ℕ
unfolding decimal
label labels n i = if ltb i n then get_or labels i [] else 86 ∷ decimal 10 i

unfoldable pub labels_from : List (List ℕ) → ℕ → ℕ → ℕ → List (List ℕ)
unfolding label
labels_from labels n zero i = []
labels_from labels n (suc k) i = label labels n i ∷ labels_from labels n k (i + 1)

-- A return value of `int` added to an `unsigned`.
unfoldable pub add_int : ℕ → ℤ → ℕ
add_int n (pos err) = (n + err) % u32_mod
add_int n (negsuc err) = (n + (u32_mod - err - 1)) % u32_mod

-- `err == -1`
abbrev pub is_error : ℤ → Bool
is_error (pos n) = false
is_error (negsuc n) = n == 0

module _ {D E : Type 0} where
  unfoldable pub hmonitor_set_labels : Hmon D E → List (List ℕ) → ℕ → Hmon D E
  unfolding labels_from
  hmonitor_set_labels m labels n = record m { labels = labels_from labels n m.n_samples 0 }

  -- The loop that adds the events: their number and the eventset, or none where one is refused.
  unfoldable pub add_events : PerfPlugin D E → List (List ℕ) → ℕ → E → Option (ℕ × E)
  unfolding add_int
  add_events plugin [] added eventset = some (added, eventset)
  add_events plugin (name ∷ names) added eventset =
      let (err, next) = plugin.add_named_event eventset name in
      let rest = add_events plugin names (add_int added err) next in
      if is_error err then none else rest

  -- `fresh n` is what `malloc` returns for `n` doubles. The sizes are those of whole doubles in the
  -- `sizeof(double) * n + 1` bytes allocated.
  unfoldable pub initialize_output :
      (ℕ → List D)
      → (List ℕ → Option ℕ)
      → List (List ℕ)
      → Option (List (List ℕ))
      → ℕ
      → Option (List ℕ)
      → Hmon D E
      → Hmon D E
  unfolding hmonitor_set_labels
  initialize_output fresh lookup_function names labels n_samples (some model_plugin) m =
      let sized = record m {
        samples = fresh n_samples;
        max = fresh n_samples;
        min = fresh n_samples;
        n_samples = n_samples;
        model = lookup_function model_plugin;
      } in
      elim labels [
        | none ↦ hmonitor_set_labels sized [] 0
        | some given ↦ hmonitor_set_labels sized given n_samples
      ]
  initialize_output fresh lookup_function names labels n_samples none m =
      let sized = record m {
        samples = fresh m.n_events;
        max = fresh m.n_events;
        min = fresh m.n_events;
        n_samples = m.n_events;
        model = none;
      } in
      elim labels [
        | none ↦
            if ltb (length names) m.n_events
            then hmonitor_set_labels sized [] 0
            else hmonitor_set_labels sized names (length names)
        | some given ↦ hmonitor_set_labels sized given n_samples
      ]

-- The arguments of `new_hmonitor`; a pointer that may be NULL is an option.
pub record Request : Type 0 where
  pub id : Option (List ℕ)
  pub location : Option ℕ
  pub event_names : List (List ℕ)
  pub window : ℕ
  pub labels : Option (List (List ℕ))
  pub n_samples : ℕ
  pub perf_plugin : Option (List ℕ)
  pub model_plugin : Option (List ℕ)
  pub output : Option ℕ

module _ {D E : Type 0} (F : Floats D) (fresh : ℕ → List D)
    (lookup_plugin : List ℕ → Option (PerfPlugin D E)) (lookup_function : List ℕ → Option ℕ)
    (self : ℕ) (tp : Timespec) where
  -- The monitor before its outputs are set, with the eventset and the number of events in it. What
  -- `malloc` leaves undefined until the outputs are set and `hmonitor_reset` ran is 0, true or [] here.
  unfoldable pub with_events : List ℕ → ℕ → Request → ℕ → E → Hmon D E
  with_events id location request added eventset = record {
    id = id;
    location = location;
    ref_time = pos 0;
    eventset = eventset;
    events = fresh (request.window * (added + 1) % u32_mod);
    n_events = added;
    window = request.window;
    last = 0;
    total = 0;
    labels = [];
    samples = [];
    max = [];
    min = [];
    n_samples = 0;
    model = none;
    output = request.output;
    display = 0;
    stopped = true;
    owner = self;
    mutex = unlocked;
  }

  -- From the initialisation of the eventset on.
  unfoldable pub create_with : PerfPlugin D E → PerfLib D E → List ℕ → ℕ → Request → Created D E
  unfolding add_events initialize_output with_events
  create_with plugin lib id location request =
      let (err, eventset) = plugin.eventset_init location in
      elim err [
        | negsuc n ↦ null
        | pos n ↦
            if n == 0
            then elim (add_events plugin request.event_names 0 eventset) [
              | none ↦ null
              | some result ↦
                  let m =
                    with_events id location request result.0
                      (plugin.eventset_init_fini result.1).1 in
                  created (
                    hmonitor_reset F lib tp (
                      initialize_output fresh lookup_function request.event_names request.labels
                        request.n_samples request.model_plugin m))
            ]
            else null
      ]

  unfoldable pub create_from : PerfPlugin D E → List ℕ → ℕ → Request → Created D E
  unfolding create_with
  create_from plugin id location request = elim plugin.lib [
    | none ↦ exit_failure
    | some lib ↦ create_with plugin lib id location request
  ]

  unfoldable pub new_hmonitor : Request → Created D E
  unfolding create_from
  new_hmonitor request = elim request.id [
    | none ↦ null
    | some id ↦ elim request.location [
      | none ↦ null
      | some location ↦ elim request.perf_plugin [
        | none ↦ null
        | some perf_plugin ↦
            if request.window == 0 then null else elim (lookup_plugin perf_plugin) [
              | none ↦ exit_failure
              | some plugin ↦ create_from plugin id location request
            ]
      ]
    ]
  ]
