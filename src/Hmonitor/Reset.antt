-- ===== src/Hmonitor/Reset.antt =====
-- hmonitor.c: what `hmonitor_reset` clears.
use native.Mathlib.Nat.{mod-eq_of_lt}
use hierarchical_monitors.Prelude.{
  ℕ, zero, suc, ◌+◌, ◌-◌, ◌*◌, ◌%◌, ◌<◌, ◌≡◌, refl, ap, ◌∙◌, true, List, [], ◌∷◌, length, get_or,
  arith, ltb, if◌then◌else◌,
}
use hierarchical_monitors.Prelude.Floats.{Floats}
use hierarchical_monitors.Hmonitor.{
  u32_mod, Hmon, PerfLib, Timespec, fill, zero_double, hmonitor_reset,
}
use hierarchical_monitors.Hmonitor.Ring.{ReadsRows, IsValid}

pub get_or-fill :
    {A : Type 0} (n i : ℕ) (v : A) (xs : List A) (d : A)
    → i < length xs
    → get_or (fill n v xs) i d ≡ (if ltb i n then v else get_or xs i d)
unfolding fill
get_or-fill n i v [] d h = absurd (omega arith)
get_or-fill zero i v (x ∷ xs) d h = ground arith
get_or-fill (suc n) zero v (x ∷ xs) d h = ground arith
get_or-fill (suc n) (suc i) v (x ∷ xs) d h = ground (arith, get_or-fill n i v xs d (omega arith))

pub length-fill : {A : Type 0} (n : ℕ) (v : A) (xs : List A) → length (fill n v xs) ≡ length xs
unfolding fill
length-fill zero v xs = refl
length-fill (suc n) v [] = refl
length-fill (suc n) v (x ∷ xs) = ap suc (length-fill n v xs)

module _ {D E : Type 0} (F : Floats D) {lib : PerfLib D E} (reads : ReadsRows lib) {m : Hmon D E}
    (v : IsValid reads m) where
  -- `hmonitor_reset` on a valid monitor gives 0 to the first `window * n_events + 1` cells of the
  -- buffer and leaves the ones behind them as they were.
  pub reset_cells :
      (i : ℕ) (tp : Timespec)
      → i < m.window * (m.n_events + 1)
      → get_or (hmonitor_reset F lib tp m).events i (zero_double F lib) ≡ (
          if ltb i (m.window * m.n_events + 1)
          then zero_double F lib
          else get_or m.events i (zero_double F lib))
  unfolding hmonitor_reset
  reset_cells i tp h =
      let small : (m.window * m.n_events + 1) % u32_mod ≡ m.window * m.n_events + 1 =
        mod-eq_of_lt (omega (arith, v)) in
      rw small (
        get_or-fill (m.window * m.n_events + 1) i (zero_double F lib) m.events (zero_double F lib)
          (omega (arith, v)))

  -- After `hmonitor_reset` a valid monitor is stopped and valid, if resetting keeps the number of
  -- events of the eventset, no read is counted, and the next read goes to the first place of the
  -- ring.
  pub reset-IsValid :
      (tp : Timespec)
      → reads.events_in (lib.eventset_reset m.eventset).1 ≡ reads.events_in m.eventset
      → let after = hmonitor_reset F lib tp m in
        IsValid reads after
        × (after.stopped ≡ true)
        × (after.total ≡ 0)
        × ((after.last + 1) % after.window ≡ 0)
  unfolding hmonitor_reset
  reset-IsValid tp h = (
    record {
      rows =
          length-fill ((m.window * m.n_events + 1) % u32_mod) (zero_double F lib) m.events ∙ v.rows;
      bounded = v.bounded;
      room = v.room;
      inside = omega (arith, last_lem);
      counted = h ∙ v.counted;
    },
    refl,
    refl,
    rw last_lem (ap (λ k. k % m.window) before_first ∙ grind arith),
  )
    where
      last_lem : (m.window + u32_mod - 1) % u32_mod ≡ m.window - 1
      last_lem = omega (arith, v)

      before_first : m.window - 1 + 1 ≡ m.window
      before_first = omega (arith, v)
