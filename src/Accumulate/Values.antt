-- ===== src/Accumulate/Values.antt =====
-- accumulate_monitor.c: copying events to values, and adding them.
use hierarchical_monitors.Prelude.{
  ℕ, zero, suc, ◌<◌, ◌≤◌, ◌≡◌, refl, ap, some, List, [], ◌∷◌, length, get_or, arith,
}
use hierarchical_monitors.Prelude.Floats.{Floats}
use hierarchical_monitors.Accumulate.{copy_events, sum_events}

-- The first `k` values come of a value and an event by `f`, and the others stay.
pub record Combined {D : Type 0} (f : D → D → D) (d : D) (k : ℕ) (events values sums : List D)
    : Type 0 where
  pub same_length : length sums ≡ length values
  pub low : (j : ℕ) → j < k → get_or sums j d ≡ f (get_or values j d) (get_or events j d)
  pub high : (j : ℕ) → k ≤ j → get_or sums j d ≡ get_or values j d

module _ {D : Type 0} (f : D → D → D) (d : D) where
  none-Combined : (events values : List D) → Combined f d 0 events values values
  none-Combined events values = record {
    same_length = refl;
    low = λ j b. absurd (omega arith);
    high = λ j b. refl;
  }

  cons_low :
      (k : ℕ) (e v : D) (events values sums : List D)
      → Combined f d k events values sums
      → (j : ℕ) → j < suc k
      → get_or (f v e ∷ sums) j d ≡ f (get_or (v ∷ values) j d) (get_or (e ∷ events) j d)
  cons_low k e v events values sums c zero b = refl
  cons_low k e v events values sums c (suc j) b = c.low j (omega arith)

  cons_high :
      (k : ℕ) (e v : D) (events values sums : List D)
      → Combined f d k events values sums
      → (j : ℕ) → suc k ≤ j
      → get_or (f v e ∷ sums) j d ≡ get_or (v ∷ values) j d
  cons_high k e v events values sums c zero b = absurd (omega arith)
  cons_high k e v events values sums c (suc j) b = c.high j (omega arith)

  cons-Combined :
      (k : ℕ) (e v : D) (events values sums : List D)
      → Combined f d k events values sums
      → Combined f d (suc k) (e ∷ events) (v ∷ values) (f v e ∷ sums)
  cons-Combined k e v events values sums c = record {
    same_length = ap suc c.same_length;
    low = cons_low k e v events values sums c;
    high = cons_high k e v events values sums c;
  }

pub copy_lem :
    {D : Type 0} (d : D) (k : ℕ) (events values : List D)
    → k ≤ length events
    → k ≤ length values
    → (sums : List D) × (copy_events k events values ≡ some sums)
      × Combined (λ v e. e) d k events values sums
unfolding copy_events
copy_lem d zero events values h l = (values, refl, none-Combined (λ v e. e) d events values)
copy_lem d (suc k) [] values h l = absurd (omega arith)
copy_lem d (suc k) (e ∷ events) [] h l = absurd (omega arith)
copy_lem d (suc k) (e ∷ events) (v ∷ values) h l =
    let (sums, eq, c) = copy_lem d k events values (omega arith) (omega arith) in
    (e ∷ sums, rw eq refl, cons-Combined (λ v e. e) d k e v events values sums c)

module _ {D : Type 0} (F : Floats D) where
  pub sum_lem :
      (d : D) (k : ℕ) (events values : List D)
      → k ≤ length events
      → k ≤ length values
      → (sums : List D) × (sum_events F k events values ≡ some sums)
        × Combined F.add d k events values sums
  unfolding sum_events
  sum_lem d zero events values h l = (values, refl, none-Combined F.add d events values)
  sum_lem d (suc k) [] values h l = absurd (omega arith)
  sum_lem d (suc k) (e ∷ events) [] h l = absurd (omega arith)
  sum_lem d (suc k) (e ∷ events) (v ∷ values) h l =
      let (sums, eq, c) = sum_lem d k events values (omega arith) (omega arith) in
      (F.add v e ∷ sums, rw eq refl, cons-Combined F.add d k e v events values sums c)
