-- ===== src/Locations.antt =====
-- hwloc_utils.c: objects of the topology by name, where threads and memory are bound, and an order of
-- objects. Objects are numbers; what the code calls of hwloc and of the C library is a parameter.
pub mod Order
pub mod Binding
pub mod Names
use hierarchical_monitors.Prelude.{
  ℕ, zero, suc, ◌+◌, Bool, true, false, Option, none, some, List, [], ◌∷◌, ◌==◌, ltb, if◌then◌else◌,
}
use hierarchical_monitors.Prelude.Int.{ℤ, pos, negsuc}
use hierarchical_monitors.Synchronize.{Topology}

-- On pointers to the objects `a` and `b`.
unfoldable pub location_compare : Topology → ℕ → ℕ → ℤ
location_compare topology a b =
    if ltb (topology.depth a) (topology.depth b)
    then pos 1
    else if ltb (topology.depth b) (topology.depth a)
    then negsuc 0
    else if topology.depth a == topology.depth b
    then (if ltb (topology.logical_index b) (topology.logical_index a)
        then pos 1
        else if ltb (topology.logical_index a) (topology.logical_index b)
        then negsuc 0
        else if topology.logical_index a == topology.logical_index b
        then pos 0
        else pos 0)
    else pos 0

-- An object with its parents up to the root: what `location->parent` leads to.
pub data Chain : Type 0 where
  root : ℕ → Chain
  under : ℕ → Chain → Chain

-- The loop over `parent` up to an object that passes the test.
unfoldable pub find_up : (ℕ → Bool) → Chain → Option ℕ
find_up test (root obj) = if test obj then some obj else none
find_up test (under obj parents) =
    let above = find_up test parents in if test obj then some obj else above

-- What `hwloc_get_type_depth` returns.
pub data TypeDepth : Type 0 where
  unknown : TypeDepth
  multiple : TypeDepth
  at : ℕ → TypeDepth

-- `deepest` is the first processing unit inside the cpuset, `is_type` tells the objects of the type, and
-- `nbobjs` how many objects of a depth are inside.
unfoldable pub get_max_objs_inside_cpuset_by_type :
    Topology → TypeDepth → Option Chain → (ℕ → Bool) → (ℕ → ℕ) → ℤ
get_max_objs_inside_cpuset_by_type topology unknown deepest is_type nbobjs = negsuc 0
get_max_objs_inside_cpuset_by_type topology (at depth) deepest is_type nbobjs = pos (nbobjs depth)
get_max_objs_inside_cpuset_by_type topology multiple deepest is_type nbobjs = elim deepest [
  | none ↦ negsuc 0
  | some chain ↦ elim (find_up is_type chain) [
    | none ↦ negsuc 0
    | some obj ↦ pos (nbobjs (topology.depth obj))
  ]
]

-- What hwloc gives of bindings: a call that fails gives no binding, or false.
pub record Binder (C : Type 0) : Type 0 where
  pub cpuset : ℕ → C
  pub nodeset : ℕ → C
  pub is_node : ℕ → Bool
  pub isequal : C → C → Bool
  pub set_cpubind : C → Bool
  pub get_cpubind : Option C
  pub set_membind : C → Bool
  pub get_membind : Option C

module _ {C : Type 0} (binder : Binder C) where
  unfoldable pub chk_cpu_bind : Option C → ℤ
  chk_cpu_bind cpuset = elim binder.get_cpubind [
    | none ↦ negsuc 0
    | some checkset ↦ elim cpuset [
      | none ↦ negsuc 0
      | some set ↦ if binder.isequal set checkset then pos 0 else negsuc 0
    ]
  ]

  unfoldable pub chk_mem_bind : Option C → ℤ
  chk_mem_bind nodeset = elim binder.get_membind [
    | none ↦ negsuc 0
    | some checkset ↦ elim nodeset [
      | none ↦ negsuc 0
      | some set ↦ if binder.isequal set checkset then pos 0 else negsuc 0
    ]
  ]

  unfoldable pub location_cpubind : ℕ → ℤ
  location_cpubind location =
      if binder.set_cpubind (binder.cpuset location)
      then chk_cpu_bind (some (binder.cpuset location))
      else negsuc 0

  unfoldable pub location_membind : Chain → ℤ
  location_membind location = elim (find_up binder.is_node location) [
    | none ↦ negsuc 0
    | some bind ↦
        if binder.set_membind (binder.nodeset bind)
        then chk_mem_bind (some (binder.nodeset bind))
        else negsuc 0
  ]
