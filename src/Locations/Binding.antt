-- ===== src/Locations/Binding.antt =====
-- hwloc_utils.c: binding memory to the node of an object.
use mathlib.Core.Path.{subst}
use hierarchical_monitors.Prelude.{
  ℕ, ◌≡◌, refl, Bool, true, false, some, Bool-cases, Option-cases, inl, inr, arith,
}
use hierarchical_monitors.Prelude.Int.{pos}
use hierarchical_monitors.Locations.{
  Chain, root, under, find_up, Binder, chk_mem_bind, location_membind,
}

-- `obj` is the first to pass the test on the way up.
pub data Nearest (test : ℕ → Bool) : Chain → ℕ → Type 0 where
  at_root : {obj : ℕ} → test obj ≡ true → Nearest test (root obj) obj
  at_object : {obj : ℕ} {parents : Chain} → test obj ≡ true → Nearest test (under obj parents) obj
  above :
      {obj above_obj : ℕ} {parents : Chain}
      → test obj ≡ false
      → Nearest test parents above_obj
      → Nearest test (under obj parents) above_obj

find_nearest :
    (test : ℕ → Bool) (chain : Chain) (obj : ℕ)
    → find_up test chain ≡ some obj
    → Nearest test chain obj
unfolding find_up
find_nearest test (root o) obj h = elim (Bool-cases (test o)) [
  | inl t ↦
      let same : o ≡ obj = ground (arith, h, t) in subst (Nearest test (root o)) same (at_root t)
  | inr t ↦ ground (arith, h, t)
]
find_nearest test (under o parents) obj h = elim (Bool-cases (test o)) [
  | inl t ↦
      let same : o ≡ obj = ground (arith, h, t) in
      subst (Nearest test (under o parents)) same (at_object t)
  | inr t ↦ above t (find_nearest test parents obj (ground (arith, h, t)))
]

nearest_found :
    (test : ℕ → Bool) {chain : Chain} {obj : ℕ}
    → Nearest test chain obj
    → find_up test chain ≡ some obj
unfolding find_up
nearest_found test (at_root t) = rw t refl
nearest_found test (at_object t) = rw t refl
nearest_found test (above f n) = rw f (nearest_found test n)

module _ {C : Type 0} (binder : Binder C) where
  -- Memory is bound to the node `obj`, and found to be.
  pub record Bound (obj : ℕ) : Type 0 where
    pub is_set : binder.set_membind (binder.nodeset obj) ≡ true
    pub checkset : C
    pub read_back : binder.get_membind ≡ some checkset
    pub same : binder.isequal (binder.nodeset obj) checkset ≡ true

  chk_lem :
      (set : C)
      → chk_mem_bind binder (some set) ≡ pos 0
      → (checkset : C) × (binder.get_membind ≡ some checkset) × (binder.isequal set checkset ≡ true)
  unfolding chk_mem_bind
  chk_lem set h = elim (Option-cases binder.get_membind) [
    | inl e ↦ ground (arith, e)
    | inr (c, e) ↦ (c, e, ground (arith, e))
  ]

  chk_back :
      (set checkset : C)
      → binder.get_membind ≡ some checkset
      → binder.isequal set checkset ≡ true
      → chk_mem_bind binder (some set) ≡ pos 0
  unfolding chk_mem_bind
  chk_back set checkset e s = ground (arith, e, s)

  membind_there :
      (location : Chain)
      → location_membind binder location ≡ pos 0
      → (obj : ℕ) × Nearest binder.is_node location obj × Bound obj
  unfolding location_membind
  membind_there location h = elim (Option-cases (find_up binder.is_node location)) [
    | inl e ↦ ground (arith, e)
    | inr (obj, e) ↦ elim (Bool-cases (binder.set_membind (binder.nodeset obj))) [
      | inr b ↦ ground (arith, e, b)
      | inl b ↦
          let (c, back, eq) = chk_lem (binder.nodeset obj) (ground (arith, e, b, h)) in
          (
            obj,
            find_nearest binder.is_node location obj e,
            record { is_set = b; checkset = c; read_back = back; same = eq },
          )
    ]
  ]

  -- `location_membind` returns 0 exactly if there is a node at the object or above it, the call
  -- that binds memory to the nearest one succeeds, and what is read back is its set.
  membind_lem :
      (location : Chain)
      → (location_membind binder location ≡ pos 0
          → (obj : ℕ) × Nearest binder.is_node location obj × Bound obj)
        × ((obj : ℕ)
            → Nearest binder.is_node location obj
            → Bound obj
            → location_membind binder location ≡ pos 0)
  unfolding location_membind
  membind_lem location = (
    membind_there location,
    λ obj n b.
        let e = nearest_found binder.is_node n in
        let c = chk_back (binder.nodeset obj) b.checkset b.read_back b.same in
        ground (arith, e, c, b.is_set),
  )
