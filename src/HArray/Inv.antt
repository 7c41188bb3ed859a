-- ===== src/HArray/Inv.antt =====
-- harray.c: the block an array owns and what the growing loop makes of it.
use hierarchical_monitors.Prelude.{
  ℕ, zero, suc, ◌-◌, ◌*◌, ◌≤◌, ◌<◌, ◌≡◌, refl, some, List, [], ◌++◌, Bool, take, replicate, length,
  length-append, length-take, length-replicate, arith, take-append_of_le, take-take, ◌∙◌,
}
use hierarchical_monitors.HArray.{HArray, u32_mod, new_harray, grow, harray_chk_length}

-- The block has the size recorded for it, is not empty, and holds the elements.
pub record IsValid (array : HArray) : Type 0 where
  pub block : length array.cell ≡ array.allocated_length
  pub room : 0 < array.allocated_length
  pub bounded : array.allocated_length < u32_mod
  pub filled : array.length ≤ array.allocated_length

-- The elements of an array: what the operations are specified on.
abbrev pub contents : HArray → List ℕ
contents array = take array.length array.cell

pub length-contents : {array : HArray} → IsValid array → length (contents array) ≡ array.length
length-contents {array} v = omega (arith, length-take array.length array.cell)

-- One doubling is enough where the new index is at most twice the old size.
pub grow_double : (fuel a n : ℕ) → n ≤ a * 2 → a * 2 < u32_mod → grow (suc fuel) a n ≡ some (a * 2)
unfolding grow
grow_double fuel a n h k = ground arith

-- The array with a block of `allocated` cells.
abbrev pub enlarged : HArray → ℕ → HArray
enlarged array allocated = record array {
  cell = take array.length array.cell ++ replicate (allocated - array.length) 0;
  allocated_length = allocated;
}

pub enlarged-IsValid :
    {array : HArray} (a : ℕ)
    → IsValid array
    → array.allocated_length < a
    → a < u32_mod
    → IsValid (enlarged array a)
enlarged-IsValid {array} a v h k = record {
  block = omega (
    arith,
    length-append (take array.length array.cell) (replicate (a - array.length) 0),
    length-replicate (a - array.length) (zero),
    length-take array.length array.cell,
    v,
  );
  room = omega arith;
  bounded = k;
  filled = omega arith;
}

pub contents-enlarged :
    {array : HArray} (a : ℕ) → IsValid array → contents (enlarged array a) ≡ contents array
contents-enlarged {array} a v =
    take-append_of_le array.length (contents array) (replicate (a - array.length) 0)
      (omega (arith, length-contents v))
    ∙ take-take array.length array.cell

-- Nothing happens while the index is inside the block.
pub chk_length_inside :
    (array : HArray) (n : ℕ) → n < array.allocated_length → harray_chk_length array n ≡ some array
unfolding harray_chk_length
chk_length_inside array n h = ground arith

pub chk_length_doubled :
    (array : HArray) (n : ℕ)
    → array.allocated_length ≤ n
    → n ≤ array.allocated_length * 2
    → array.allocated_length * 2 < u32_mod
    → harray_chk_length array n ≡ some (enlarged array (array.allocated_length * 2))
unfolding harray_chk_length
chk_length_doubled array n h k l = ground (arith, grow_double 32 array.allocated_length n k l)

-- `new_harray` for pointers, with at least one cell and fewer than 2^32, succeeds with an empty
-- array that is valid.
pub new_harray-IsValid :
    (max_elem : ℕ) (delete_element : Bool)
    → 0 < max_elem
    → max_elem < u32_mod
    → (array : HArray) × (new_harray 8 max_elem delete_element ≡ some array)
      × IsValid array
      × (contents array ≡ [])
unfolding new_harray
new_harray-IsValid max_elem delete_element h k = (
  record {
    cell = replicate max_elem 0;
    length = 0;
    allocated_length = max_elem;
    delete_element = delete_element;
  },
  ground arith,
  record { block = length-replicate max_elem 0; room = h; bounded = k; filled = omega arith },
  refl,
)
