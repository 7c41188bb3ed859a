-- ===== src/Synchronize/Registry/Restrict.antt =====
-- synchronize.c: what hmon_restrict removes.
use hierarchical_monitors.Prelude.{
  ℕ, ◌≡◌, refl, Bool, true, false, not, ◌&&◌, Option, none, some, List, [], Bool-cases, inl, inr,
}
use hierarchical_monitors.Prelude.Int.{ℤ}
use hierarchical_monitors.Synchronize.{Topology}
use hierarchical_monitors.Synchronize.Registry.{Hwloc, Registry, hmon_restrict, unregister_all}

-- What hwloc documents of its bitmaps and of the objects inside one: an object has a cpu, so none is
-- inside the empty bitmap.
pub record IsHwloc {C : Type 0} (hwloc : Hwloc C) : Type 0 where
  pub member : C → ℕ → Bool
  pub and_lem : (a b : C) (i : ℕ) → member (hwloc.bitmap_and a b) i ≡ (member a i && member b i)
  pub andnot_lem :
      (a b : C) (i : ℕ) → member (hwloc.bitmap_andnot a b) i ≡ (member a i && not (member b i))
  pub included_lem :
      (a b : C) (i : ℕ) → hwloc.isincluded a b ≡ true → member a i ≡ true → member b i ≡ true
  pub inside_empty : (c : C) → ((i : ℕ) → member c i ≡ false) → hwloc.objects_inside c ≡ []

module _ {C : Type 0} {hwloc : Hwloc C} (laws : IsHwloc hwloc) where
  removed_empty :
      (allowed domain : C) (i : ℕ)
      → hwloc.isincluded domain allowed ≡ true
      → laws.member (hwloc.bitmap_andnot domain (hwloc.bitmap_and allowed domain)) i ≡ false
  removed_empty allowed domain i inc = elim (Bool-cases (laws.member domain i)) [
    | inl h ↦ rw (laws.andnot_lem, laws.and_lem, h, laws.included_lem domain allowed i inc h) refl
    | inr h ↦ rw (laws.andnot_lem, h) refl
  ]

module _ {D E C : Type 0} {hwloc : Hwloc C} (laws : IsHwloc hwloc) where
  -- With bitmaps and objects as hwloc documents them, `hmon_restrict` removes no monitor, whatever
  -- the domain: the array of all monitors, those of the objects and the monitors themselves are as
  -- before.
  pub restrict_removes_nothing :
      (topology : Topology) (bsearch : (ℕ → ℕ → ℤ) → ℕ → List ℕ → Option ℕ) (domain : Option C)
      (r : Registry D E C)
      → let after = (hmon_restrict hwloc topology bsearch domain r).1 in
        (after.monitors ≡ r.monitors) × (after.userdata ≡ r.userdata) × (after.store ≡ r.store)
  unfolding hmon_restrict unregister_all
  restrict_removes_nothing topology bsearch none r = (refl, refl, refl)
  restrict_removes_nothing topology bsearch (some domain) r =
      elim (Bool-cases (hwloc.isincluded domain r.allowed_cpuset)) [
        | inl h ↦
            rw (h, laws.inside_empty _ (λ i. removed_empty laws r.allowed_cpuset domain i h))
              (refl, refl, refl)
        | inr h ↦ rw h (refl, refl, refl)
      ]
