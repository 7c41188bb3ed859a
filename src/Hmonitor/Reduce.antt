-- ===== src/Hmonitor/Reduce.antt =====
-- hmonitor.c: the samples of a reduction and the extrema kept of them.
use native.Mathlib.Nat.{mod-eq_of_lt}
use hierarchical_monitors.Prelude.{
  ℕ, zero, suc, ◌+◌, ◌*◌, ◌%◌, ◌≤◌, ◌<◌, ◌≡◌, ◌⊎◌, refl, ap, sym, ◌∙◌, Bool, false, none,
  Option-cases, inl, inr, List, [], ◌∷◌, ◌++◌, length, take, drop, get_or, arith, if◌then◌else◌,
  get_or-append_left, get_or-take, get_or-drop, length-take, length-drop,
}
use hierarchical_monitors.Prelude.Floats.{Floats, IsOrdered, greater_bounds, smaller_bounds}
use hierarchical_monitors.Hmonitor.{
  u32_mod, Hmon, PerfLib, keep_better, zero_double, hmonitor_reduce, run_model, update_extrema,
  hmonitor_get_events, hmonitor_get_event,
}

get_or-keep_better :
    {D : Type 0} (better : D → D → Bool) (n i : ℕ) (old new : List D) (d : D)
    → i < n
    → i < length old
    → i < length new
    → get_or (keep_better better n old new) i d
      ≡ (if better (get_or old i d) (get_or new i d) then get_or old i d else get_or new i d)
unfolding keep_better
get_or-keep_better better zero i old new d h k l = absurd (omega arith)
get_or-keep_better better (suc n) i [] new d h k l = absurd (omega arith)
get_or-keep_better better (suc n) i (x ∷ old) [] d h k l = absurd (omega arith)
get_or-keep_better better (suc n) zero (x ∷ old) (y ∷ new) d h k l = refl
get_or-keep_better better (suc n) (suc i) (x ∷ old) (y ∷ new) d h k l =
    get_or-keep_better better n i old new d (omega arith) (omega arith) (omega arith)

-- The output arrays hold a value for each sample.
pub record HasOutputs {D E : Type 0} (m : Hmon D E) : Type 0 where
  pub samples_fit : m.n_samples ≤ length m.samples
  pub max_fit : m.n_samples ≤ length m.max
  pub min_fit : m.n_samples ≤ length m.min

-- Reduction functions leave the extrema and the number of samples alone.
pub record KeepsExtrema {D E : Type 0} (call_model : ℕ → Hmon D E → Hmon D E) : Type 0 where
  pub keeps_max : (f : ℕ) (m : Hmon D E) → (call_model f m).max ≡ m.max
  pub keeps_min : (f : ℕ) (m : Hmon D E) → (call_model f m).min ≡ m.min
  pub keeps_samples : (f : ℕ) (m : Hmon D E) → (call_model f m).n_samples ≡ m.n_samples

module _ {D E : Type 0} (F : Floats D) (lib : PerfLib D E)
    (call_model : ℕ → Hmon D E → Hmon D E) where
  abbrev reduced : ℕ → Hmon D E → Hmon D E
  reduced self m = (hmonitor_reduce F lib call_model self m).1

  owner_reduces :
      (self : ℕ) (m : Hmon D E)
      → m.owner ≡ self
      → reduced self m ≡ update_extrema F lib (run_model F lib call_model m)
  unfolding hmonitor_reduce
  owner_reduces self m o = ground arith

  run_model-none :
      (m : Hmon D E)
      → m.model ≡ none
      → run_model F lib call_model m ≡ record m {
        samples = take m.n_samples (hmonitor_get_events m m.last) ++ drop m.n_samples m.samples;
      }
  unfolding run_model
  run_model-none m h = ground arith

  -- Without a reduction function the owner's `hmonitor_reduce` copies the first events of the last
  -- row to the samples, where the buffer has the cells and fewer than 2^32.
  pub reduce_samples :
      (self i : ℕ) (m : Hmon D E)
      → m.owner ≡ self
      → m.model ≡ none
      → i < m.n_samples
      → m.last * (m.n_events + 1) + m.n_samples ≤ length m.events
      → length m.events < u32_mod
      → get_or (reduced self m).samples i (zero_double F lib) ≡ hmonitor_get_event F lib m m.last i
  unfolding update_extrema hmonitor_get_event hmonitor_get_events
  reduce_samples self i m o none_set h k l =
      let small : m.last * (m.n_events + 1) % u32_mod ≡ m.last * (m.n_events + 1) =
        mod-eq_of_lt (omega arith) in
      let cell : (m.last * (m.n_events + 1) + i) % u32_mod ≡ m.last * (m.n_events + 1) + i =
        mod-eq_of_lt (omega arith) in
      let row = drop (m.last * (m.n_events + 1)) m.events in
      ap (λ n. get_or n.samples i (zero_double F lib)) (owner_reduces self m o)
      ∙ ap (λ n. get_or n.samples i (zero_double F lib)) (run_model-none m none_set)
      ∙ rw (small, cell)
          (get_or-append_left (take m.n_samples row) (drop m.n_samples m.samples) i
              (zero_double F lib)
              (omega (
                arith,
                length-take m.n_samples row,
                length-drop (m.last * (m.n_events + 1)) m.events,
              ))
            ∙ get_or-take m.n_samples i row (zero_double F lib) h
            ∙ get_or-drop (m.last * (m.n_events + 1)) i m.events (zero_double F lib))

  module _ (ordered : IsOrdered F) (self i : ℕ) (m : Hmon D E) (o : m.owner ≡ self)
      (kept : KeepsExtrema call_model) (fits : HasOutputs (run_model F lib call_model m))
      (h : i < m.n_samples) where
    abbrev ran : Hmon D E
    ran = run_model F lib call_model m

    abbrev at : List D → D
    at xs = get_or xs i (zero_double F lib)

    ran_keeps : (ran.max ≡ m.max) × (ran.min ≡ m.min) × (ran.n_samples ≡ m.n_samples)
    unfolding run_model
    ran_keeps = elim (Option-cases m.model) [
      | inl e ↦ (ground (arith, e), ground (arith, e), ground (arith, e))
      | inr (f, e) ↦ (
        ground (arith, e, kept.keeps_max f m),
        ground (arith, e, kept.keeps_min f m),
        ground (arith, e, kept.keeps_samples f m),
      )
    ]

    same_samples : (reduced self m).samples ≡ ran.samples
    unfolding update_extrema
    same_samples = ap (λ n. n.samples) (owner_reduces self m o)

    max_lem : at (reduced self m).max ≡ (
        if F.gtb (at m.max) (at (reduced self m).samples)
        then at m.max
        else at (reduced self m).samples)
    unfolding update_extrema
    max_lem =
        let inside : i < ran.n_samples = omega (arith, ran_keeps.2, h) in
        ap (λ n. at n.max) (owner_reduces self m o)
        ∙ get_or-keep_better F.gtb ran.n_samples i ran.max ran.samples (zero_double F lib) inside
            (omega (arith, fits, inside)) (omega (arith, fits, inside))
        ∙ ap (λ x. if F.gtb x (at ran.samples) then x else at ran.samples) (ap at ran_keeps.0)
        ∙ ap (λ x. if F.gtb (at m.max) x then at m.max else x) (ap at (sym same_samples))

    min_lem : at (reduced self m).min ≡ (
        if F.ltb (at m.min) (at (reduced self m).samples)
        then at m.min
        else at (reduced self m).samples)
    unfolding update_extrema
    min_lem =
        let inside : i < ran.n_samples = omega (arith, ran_keeps.2, h) in
        ap (λ n. at n.min) (owner_reduces self m o)
        ∙ get_or-keep_better F.ltb ran.n_samples i ran.min ran.samples (zero_double F lib) inside
            (omega (arith, fits, inside)) (omega (arith, fits, inside))
        ∙ ap (λ x. if F.ltb x (at ran.samples) then x else at ran.samples) (ap at ran_keeps.1)
        ∙ ap (λ x. if F.ltb (at m.min) x then at m.min else x) (ap at (sym same_samples))

    -- Where the outputs have room, doubles are ordered, and reduction functions leave the extrema
    -- and the number of samples alone: after the owner's `hmonitor_reduce` the maximum kept for a
    -- sample is below neither the sample nor the maximum kept before the call, and is one of the
    -- two; the minimum is above neither the sample nor the minimum before, and is one of the two.
    pub reduce_bounds :
        (F.ltb (at (reduced self m).max) (at (reduced self m).samples) ≡ false)
        × (F.ltb (at (reduced self m).max) (at m.max) ≡ false)
        × ((at (reduced self m).max ≡ at m.max)
            ⊎ (at (reduced self m).max ≡ at (reduced self m).samples))
        × (F.ltb (at (reduced self m).samples) (at (reduced self m).min) ≡ false)
        × (F.ltb (at m.min) (at (reduced self m).min) ≡ false)
        × ((at (reduced self m).min ≡ at m.min)
            ⊎ (at (reduced self m).min ≡ at (reduced self m).samples))
    reduce_bounds =
        let (a, b, c) = greater_bounds ordered (at m.max) (at (reduced self m).samples) in
        let (d, e, f) = smaller_bounds ordered (at m.min) (at (reduced self m).samples) in
        rw (max_lem, min_lem) (a, b, c, d, e, f)
