-- ===== src/HArray/Refine.antt =====
-- harray.c: each operation as an operation on the sequence of elements.
use hierarchical_monitors.Prelude.{
  ℕ, suc, ◌-◌, ◌*◌, ◌^◌, ◌<◌, ◌≡◌, refl, some, List, [], ◌∷◌, ◌++◌, drop, set, get_or, length,
  length-append, length-set, arith, take-set, take-set_end, take_last, get_or-take_of_le,
  get_or-take, ◌∙◌, ap, sym,
}
use native.Mathlib.Decide.{dec_lt}
use hierarchical_monitors.HArray.{
  HArray, harray_get, store_element, harray_set, harray_push, harray_pop,
}
use hierarchical_monitors.HArray.Inv.{
  IsValid, contents, length-contents, enlarged-IsValid, contents-enlarged, chk_length_inside,
  chk_length_doubled,
}

append_end : (xs ys : List ℕ) (x y : ℕ) → xs ++ x ∷ [] ≡ ys ++ y ∷ [] → (xs ≡ ys) × (x ≡ y)
append_end [] [] x y h = (refl, ap (λ l. get_or l 0 x) h)
append_end [] (b ∷ ys) x y h =
    absurd (omega (arith, ap (λ l. length l) h, length-append ys (y ∷ [])))
append_end (a ∷ xs) [] x y h =
    absurd (omega (arith, ap (λ l. length l) h, length-append xs (x ∷ [])))
append_end (a ∷ xs) (b ∷ ys) x y h =
    let (same, last) = append_end xs ys x y (ap (λ l. drop 1 l) h) in
    (ground (arith, ap (λ l. get_or l 0 0) h, same), last)

-- A write at the end of the elements appends.
store_end :
    {array : HArray} (x : ℕ)
    → IsValid array
    → array.length < array.allocated_length
    → (stored : HArray) × (store_element array array.length x
        ≡ some (get_or array.cell array.length 0, stored))
      × IsValid stored
      × (contents stored ≡ contents array ++ x ∷ [])
unfolding store_element
store_end {array} x v h = (
  record array { cell = set array.cell array.length x; length = suc array.length },
  ground arith,
  record {
    block = omega (arith, length-set array.cell array.length x, v);
    room = v.room;
    bounded = v.bounded;
    filled = h;
  },
  take-set_end array.length array.cell x (omega (arith, v)),
)

-- On a valid array of fewer than 2^31 elements `harray_push` succeeds and appends, whether the
-- block has room or has to grow, and keeps the array valid.
pub push_refines :
    {array : HArray} (x : ℕ)
    → IsValid array
    → array.length < 2 ^ 31
    → (pushed : HArray) × (harray_push array x ≡ some pushed)
      × IsValid pushed
      × (contents pushed ≡ contents array ++ x ∷ [])
unfolding harray_push harray_set
push_refines {array} x v h = elim (dec_lt array.length array.allocated_length) [
  | yes inside ↦
      let (stored, e, w, c) = store_end x v inside in
      (stored, ground (arith, e, chk_length_inside array array.length inside), w, c)
  | no full ↦
      let a = array.allocated_length * 2 in
      let chk =
        chk_length_doubled array array.length (omega arith) (omega (arith, v)) (omega (arith, v)) in
      let (stored, e, w, c) =
        store_end x (enlarged-IsValid a v (omega (arith, v)) (omega (arith, v)))
          (omega (arith, v)) in
      (stored, ground (arith, e, chk), w, c ∙ ap (λ l. l ++ x ∷ []) (contents-enlarged a v))
]

pop_step :
    (array : HArray)
    → 0 < array.length
    → harray_pop array
      ≡ (get_or array.cell (array.length - 1) 0, record array { length = array.length - 1 })
unfolding harray_pop
pop_step array h = ground arith

-- On a valid array with elements `harray_pop` takes the last one off, returns it and keeps the
-- array valid.
pub pop_refines :
    {array : HArray}
    → IsValid array
    → 0 < array.length
    → IsValid (harray_pop array).1
      × (contents array ≡ contents (harray_pop array).1 ++ (harray_pop array).0 ∷ [])
pop_refines {array} v h = rw (pop_step array h) (
  record { block = v.block; room = v.room; bounded = v.bounded; filled = omega (arith, v) },
  take_last array.length array.cell 0 h (omega (arith, v)),
)

-- On a valid array of fewer than 2^31 elements a push succeeds, and a pop after it returns the
-- element pushed and leaves the elements from before.
pub push-pop :
    {array : HArray} (x : ℕ)
    → IsValid array
    → array.length < 2 ^ 31
    → (pushed : HArray) × (harray_push array x ≡ some pushed)
      × ((harray_pop pushed).0 ≡ x)
      × (contents (harray_pop pushed).1 ≡ contents array)
push-pop {array} x v h =
    let (pushed, e, w, c) = push_refines x v h in
    let grown : length (contents pushed) ≡ suc (length (contents array)) =
      omega (arith, ap (λ l. length l) c, length-append (contents array) (x ∷ [])) in
    let (kept, taken) = pop_refines w (omega (arith, length-contents w)) in
    let same =
      append_end (contents array) (contents (harray_pop pushed).1) x (harray_pop pushed).0
        (sym c ∙ taken) in
    (pushed, e, sym same.1, sym same.0)

-- `harray_get` reads the sequence, and NULL outside of it.
pub get_refines : (array : HArray) (i : ℕ) → harray_get (some array) i ≡ get_or (contents array) i 0
unfolding harray_get
get_refines array i =
    ground (
      arith,
      get_or-take array.length i array.cell 0,
      get_or-take_of_le array.length i array.cell 0,
    )

-- On a valid array, `harray_set` at the index of an element succeeds, replaces it, returns the old
-- one and keeps the array valid.
set_refines :
    {array : HArray} (i x : ℕ)
    → IsValid array
    → i < array.length
    → (written : HArray) × (harray_set array i x ≡ some (get_or (contents array) i 0, written))
      × IsValid written
      × (contents written ≡ set (contents array) i x)
unfolding harray_set store_element
set_refines {array} i x v h = (
  record array { cell = set array.cell i x },
  ground (
    arith,
    chk_length_inside array i (omega (arith, v)),
    get_or-take array.length i array.cell 0 h,
  ),
  record {
    block = omega (arith, length-set array.cell i x, v);
    room = v.room;
    bounded = v.bounded;
    filled = v.filled;
  },
  take-set array.length i array.cell x,
)
