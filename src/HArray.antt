-- ===== src/HArray.antt =====
-- harray.c: a growing array of pointers. A pointer is a number and NULL is 0. `none` is a fault: a
-- write outside the block `cell` points to, or the growing loop not ending.
pub mod Inv
pub mod Refine
pub mod Middle
pub mod Growth
pub mod Lookup
pub mod Sorted
use hierarchical_monitors.Prelude.{
  ℕ, zero, suc, ◌+◌, ◌-◌, ◌*◌, ◌%◌, ◌^◌, Bool, Option, none, some, List, [], ◌∷◌, ◌++◌, ltb, leb,
  ◌==◌, if◌then◌else◌, set, get_or, take, drop, replicate,
}
use hierarchical_monitors.Prelude.Int.{ℤ, pos, negsuc}

abbrev pub u32_mod : ℕ
u32_mod = 2 ^ 32

-- `struct hmon_array`; `cell` holds the whole block, and `delete_element` is whether the function
-- pointer is set.
pub record HArray : Type 0 where
  pub cell : List ℕ
  pub length : ℕ
  pub allocated_length : ℕ
  pub delete_element : Bool

-- The loop writes `max_elem` pointers of 8 bytes into `elem_size * max_elem` bytes.
unfoldable pub new_harray : ℕ → ℕ → Bool → Option HArray
new_harray elem_size max_elem delete_element =
    if leb (8 * max_elem) (elem_size * max_elem % 2 ^ 64)
    then some (record {
      cell = replicate max_elem 0;
      length = 0;
      allocated_length = max_elem;
      delete_element = delete_element;
    })
    else none

-- `memcpy` of the elements, then NULL up to the end of the block.
unfoldable pub harray_dup : HArray → Option HArray
unfolding new_harray
harray_dup array = elim (new_harray 8 array.allocated_length array.delete_element) [
  | none ↦ none
  | some copy ↦ some (record copy {
    cell = take array.length array.cell ++ replicate (array.allocated_length - array.length) 0;
    length = array.length;
  })
]

-- What `delete_element` is called on, in order.
unfoldable pub deleted_elements : Bool → List ℕ → List ℕ
deleted_elements called [] = []
deleted_elements called (x ∷ xs) =
    let rest = deleted_elements called xs in
    if called then (if x == 0 then rest else x ∷ rest) else []

-- The calls of `delete_element` that `delete_harray` makes before it frees the array.
unfoldable pub delete_harray : Option HArray → List ℕ
delete_harray none = []
delete_harray (some array) = deleted_elements array.delete_element (take array.length array.cell)

unfoldable pub empty_harray : HArray → List ℕ × HArray
empty_harray array = (
  deleted_elements array.delete_element (take array.length array.cell),
  record array { length = 0 },
)

-- `while((array->allocated_length*=2)<length);`
unfoldable pub grow : ℕ → ℕ → ℕ → Option ℕ
grow zero allocated length = none
grow (suc fuel) allocated length =
    let doubled = allocated * 2 % u32_mod in
    let rest = grow fuel doubled length in if ltb doubled length then rest else some doubled

-- After 32 rounds the product is 0 modulo 2^32 and stays so.
abbrev pub grow_fuel : ℕ
grow_fuel = 33

-- `realloc` keeps the elements, and `memset` clears the block behind them.
unfoldable pub harray_chk_length : HArray → ℕ → Option HArray
harray_chk_length array length =
    if leb array.allocated_length length
    then elim (grow grow_fuel array.allocated_length length) [
      | none ↦ none
      | some allocated ↦ some (record array {
        cell = take array.length array.cell ++ replicate (allocated - array.length) 0;
        allocated_length = allocated;
      })
    ]
    else some array

unfoldable pub harray_get : Option HArray → ℕ → ℕ
harray_get none i = 0
harray_get (some array) i = if leb array.length i then 0 else get_or array.cell i 0

unfoldable pub harray_length : HArray → ℕ
harray_length array = array.length

-- `array->cell[i] = element`, and the length that covers it.
unfoldable pub store_element : HArray → ℕ → ℕ → Option (ℕ × HArray)
store_element array i element =
    if ltb i array.allocated_length
    then some (
      get_or array.cell i 0,
      record array {
        cell = set array.cell i element;
        length = if leb array.length i then (i + 1) % u32_mod else array.length;
      },
    )
    else none

unfoldable pub harray_set : HArray → ℕ → ℕ → Option (ℕ × HArray)
harray_set array i element = elim (harray_chk_length array i) [
  | none ↦ none
  | some grown ↦ store_element grown i element
]

unfoldable pub harray_push : HArray → ℕ → Option HArray
harray_push array element = elim (harray_set array array.length element) [
  | none ↦ none
  | some (old, pushed) ↦ some pushed
]

unfoldable pub harray_pop : HArray → ℕ × HArray
harray_pop array =
    if array.length == 0
    then (0, array)
    else (get_or array.cell (array.length - 1) 0, record array { length = array.length - 1 })

-- memmove(&cells[to], &cells[from], n * sizeof(*cells))
unfoldable pub memmove : List ℕ → ℕ → ℕ → ℕ → List ℕ
memmove cells to from n = take to cells ++ (take n (drop from cells) ++ drop (to + n) cells)

-- The move fills the block up to `array->length`, so it is in bounds if that is.
unfoldable pub shift_insert : HArray → ℕ → ℕ → Option HArray
shift_insert array i element =
    let length = (array.length + 1) % u32_mod in
    if leb length array.allocated_length
    then some (record array {
      cell =
          set (memmove array.cell (i + 1) i ((length + 2 * u32_mod - i - 1) % u32_mod)) i element;
      length = length;
    })
    else none

unfoldable pub harray_insert : HArray → ℕ → ℕ → Option HArray
harray_insert array i element =
    if leb array.length i
    then some array
    else elim (harray_chk_length array ((array.length + 1) % u32_mod)) [
      | none ↦ none
      | some grown ↦ shift_insert grown i element
    ]

unfoldable pub harray_remove : HArray → ℤ → ℕ × HArray
harray_remove array (negsuc i) = (0, array)
harray_remove array (pos i) = if leb array.length i then (0, array) else (
  get_or array.cell i 0,
  record array {
    cell = memmove array.cell i (i + 1) (array.length - i - 1);
    length = array.length - 1;
  },
)

-- A cast of `unsigned` to `int`.
abbrev pub to_int : ℕ → ℤ
to_int i = if ltb i (2 ^ 31) then pos i else negsuc (u32_mod - i - 1)

-- The loop of `harray_find_unsorted` from index `i` on, over the elements that are left.
unfoldable pub find_from : ℕ → ℕ → List ℕ → ℤ
find_from key i [] = negsuc 0
find_from key i (x ∷ xs) = if x == key then to_int i else find_from key (i + 1) xs

unfoldable pub harray_find_unsorted : HArray → ℕ → ℤ
unfolding find_from
harray_find_unsorted array key = find_from key 0 (take array.length array.cell)

-- `ret[i] = (char*)harray_get(h,i)` for `n` indices from `i` on.
unfoldable pub to_char_from : HArray → ℕ → ℕ → List ℕ
unfolding harray_get
to_char_from array zero i = []
to_char_from array (suc n) i = harray_get (some array) i ∷ to_char_from array n (i + 1)

unfoldable pub harray_to_char : HArray → List ℕ
unfolding to_char_from
harray_to_char array = to_char_from array array.length 0
