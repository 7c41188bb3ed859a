-- ===== src/Synchronize/Registry/Register.antt =====
-- synchronize.c: what hmon_register_hmonitor leaves behind.
use mathlib.Core.Path.{subst}
use hierarchical_monitors.Prelude.{
  ℕ, suc, ◌^◌, ◌<◌, ◌≤◌, ◌≡◌, refl, ap, ◌∙◌, true, false, Option, none, some, List, [], ◌∷◌, ◌++◌,
  length, take, drop, arith, ◌==◌,
}
use hierarchical_monitors.Prelude.Int.{pos}
use hierarchical_monitors.HArray.{HArray}
use hierarchical_monitors.HArray.Inv.{IsValid, contents, length-contents, new_harray-IsValid}
use hierarchical_monitors.HArray.Sorted.Insert.{Placed, insert_sorted_refines}
use hierarchical_monitors.Synchronize.{Topology}
use hierarchical_monitors.Synchronize.Registry.{
  core, pu, other_type, Hwloc, Registry, put, array_at, compare_pointers, thread_owner,
  store_on_topology, hmon_register_hmonitor,
}

-- An array with room for one pointer more; where there is none it will be created.
abbrev pub HasRoom : Option HArray → Type 0
HasRoom none = Unit
HasRoom (some array) = IsValid array × (suc array.length < 2 ^ 31)

abbrev pub pointers : Option HArray → List ℕ
pointers none = []
pointers (some array) = contents array

-- `p` stands among the pointers `after`, and the rest is `before`.
abbrev pub Added : ℕ → List ℕ → List ℕ → Type 0
Added p before after = (k : ℕ) × (k ≤ length before) × (after ≡ take k before ++ p ∷ drop k before)

array_at_lem :
    (found : Option HArray)
    → HasRoom found
    → (array : HArray) × (array_at found ≡ some array)
      × IsValid array
      × (suc array.length < 2 ^ 31)
      × (contents array ≡ pointers found)
unfolding array_at
array_at_lem none h =
    let (array, e, v, c) = new_harray-IsValid 4 false (omega arith) (omega arith) in
    (array, e, v, omega (arith, length-contents v, ap length c), c)
array_at_lem (some array) h = (array, refl, h.0, h.1, refl)

same : (p : ℕ) → (p == p) ≡ true
same p = ground arith

contents-Added :
    {array placed : HArray} (p k : ℕ) (before : List ℕ)
    → IsValid array
    → contents array ≡ before
    → Placed array p k placed
    → Added p before (contents placed)
contents-Added {array} {placed} p k before v c (w, le, e) =
    (k, omega (arith, length-contents v, ap length c), e ∙ rw c)

module _ {D E C : Type 0} (hwloc : Hwloc C) (topology : Topology) where
  -- The second array, and the owner.
  abbrev Stored : ℕ → Registry D E C → ℕ → Type 0
  Stored p r location =
      (after : Registry D E C) × (store_on_topology hwloc topology r p ≡ some after)
      × (after.monitors ≡ r.monitors)
      × Added p (pointers (r.userdata location)) (pointers (after.userdata location))
      × ((after.store p).display ≡ (r.store p).display)
      × ((after.store p).owner ≡ thread_owner hwloc topology r.threads (r.store p))

  store_own :
      (p : ℕ) (r : Registry D E C)
      → HasRoom (r.userdata (r.store p).location)
      → Stored p r (r.store p).location
  unfolding store_on_topology
  store_own p r room =
      let location = (r.store p).location in
      let owned : Registry D E C = record r {
        store =
            put r.store p
              (record (r.store p) { owner = thread_owner hwloc topology r.threads (r.store p) });
      } in
      let (array, there, v, small, c) = array_at_lem (r.userdata location) room in
      let (k, placed, e, w) =
        insert_sorted_refines (compare_pointers topology owned.store) p v small in
      (
        record owned { userdata = put owned.userdata location (some placed) },
        ground (arith, there, e),
        refl,
        rw (same location) (contents-Added p k (pointers (r.userdata location)) v c w),
        rw (same p) refl,
        rw (same p) refl,
      )

  store_lem :
      (p : ℕ) (r : Registry D E C) (location : ℕ)
      → (r.store p).location ≡ location
      → HasRoom (r.userdata location)
      → Stored p r location
  store_lem p r location at = subst (λ l. HasRoom (r.userdata l) → Stored p r l) at (store_own p r)

  -- Registering a monitor inside the allowed cpuset, where the arrays of all monitors and of its
  -- object are valid and have fewer than 2^31 - 1 elements: it succeeds, the array of all monitors
  -- stays valid, both arrays hold the monitor in addition to what they held, in their order, and
  -- the monitor has the display given and, as owner, the thread of its core if it is on a core,
  -- that of the core above if it is on a processing unit, and its owner from before anywhere else.
  pub register_lem :
      (p display : ℕ) (r : Registry D E C)
      → hwloc.isincluded (hwloc.cpuset (r.store p).location) r.allowed_cpuset ≡ true
      → IsValid r.monitors
      → suc r.monitors.length < 2 ^ 31
      → HasRoom (r.userdata (r.store p).location)
      → (after : Registry D E C) × (hmon_register_hmonitor hwloc topology (some p) display r
          ≡ some (pos 0, after))
        × IsValid after.monitors
        × Added p (contents r.monitors) (contents after.monitors)
        × Added p
            (pointers (r.userdata (r.store p).location))
            (pointers (after.userdata (r.store p).location))
        × ((after.store p).display ≡ display)
        × ((after.store p).owner ≡ (elim (hwloc.type_of (r.store p).location) [
          | core ↦ r.threads (topology.logical_index (r.store p).location)
          | pu ↦ r.threads (topology.logical_index (hwloc.parent (r.store p).location))
          | other_type ↦ (r.store p).owner
        ]))
  unfolding hmon_register_hmonitor thread_owner
  register_lem p display r inc v small room =
      let location = (r.store p).location in
      let shown : Registry D E C = record r {
        store = put r.store p (record (r.store p) { display = display });
      } in
      let (k, placed, e, w) =
        insert_sorted_refines (compare_pointers topology shown.store) p v small in
      let shown_there : shown.store p ≡ record (r.store p) { display = display } = rw (same p) in
      let at : (shown.store p).location ≡ location = ap (λ m. m.location) shown_there in
      let (after, stored, kept, added, shows, owned) =
        store_lem p (record shown { monitors = placed }) location at room in
      (
        after,
        ground (arith, inc, e, stored),
        rw kept w.0,
        rw kept (contents-Added p k (contents r.monitors) v refl w),
        added,
        shows ∙ rw (same p),
        owned ∙ ap (thread_owner hwloc topology r.threads) shown_there,
      )
