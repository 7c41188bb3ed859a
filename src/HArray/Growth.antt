-- ===== src/HArray/Growth.antt =====
-- harray.c: growing the block, and the index for which the growth falls one cell short.
use native.Mathlib.Decide.{dec_lt}
use native.Mathlib.Nat.{pow-suc}
use mathlib.Core.List.{append_assoc}
use hierarchical_monitors.Prelude.{
  ℕ, zero, suc, ◌-◌, ◌*◌, ◌^◌, ◌≤◌, ◌<◌, ◌≡◌, ◌⊎◌, refl, none, some, [], ◌∷◌, ◌++◌, inl, inr, take,
  set, length, length-append, length-set, arith, replicate, length-replicate, Bool-cases,
  take-set_end, take-append_replicate, get_or-append_replicate, ◌∙◌, ltb, ap,
}
use hierarchical_monitors.HArray.{
  HArray, u32_mod, grow, grow_fuel, harray_chk_length, store_element, harray_set,
}
use hierarchical_monitors.HArray.Inv.{
  IsValid, contents, length-contents, enlarged, enlarged-IsValid,
}

-- The doubling loop ends for every index below 2^31, at the first size that is not below it.
grow_lem :
    (fuel a n : ℕ)
    → 0 < a
    → a ≤ n
    → n < 2 ^ 31
    → 2 ^ 31 ≤ a * 2 ^ fuel
    → (r : ℕ) × (grow fuel a n ≡ some r) × (n ≤ r) × (r < u32_mod) × (a < r)
unfolding grow
grow_lem zero a n o h k l = absurd (omega arith)
grow_lem (suc fuel) a n o h k l = elim (Bool-cases (ltb (a * 2) n)) [
  | inl more ↦
      let below : a * 2 ≤ n = ground arith in
      let enough : 2 ^ 31 ≤ a * 2 * 2 ^ fuel = omega (arith, ap (λ t. a * t) (pow-suc 2 fuel)) in
      let (r, e, p, q, s) = grow_lem fuel (a * 2) n (omega arith) below k enough in
      (r, ground (arith, e), p, q, omega arith)
  | inr done ↦ (a * 2, ground arith, ground arith, omega arith, omega arith)
]

le-mul_pow : (a k : ℕ) → a ≤ a * 2 ^ k
le-mul_pow a zero = omega arith
le-mul_pow a (suc k) = omega (arith, le-mul_pow a k, ap (λ t. a * t) (pow-suc 2 k))

-- The sizes the loop stops at: from `a`, an index `a * 2 ^ (k + 1)` gets a block of that very size.
grow_exact :
    (fuel k a n : ℕ) → k < fuel → 0 < a → n < 2 ^ 31 → n ≡ a * 2 ^ suc k → grow fuel a n ≡ some n
unfolding grow
grow_exact zero k a n h p l e = absurd (omega arith)
grow_exact (suc fuel) zero a n h p l e = ground (arith, e)
grow_exact (suc fuel) (suc k) a n h p l e =
    let regrouped : n ≡ a * 2 * 2 ^ suc k = omega (arith, ap (λ t. a * t) (pow-suc 2 (suc k)), e) in
    let more : a * 2 < n =
      omega (
        arith,
        le-mul_pow a k,
        ap (λ t. a * t) (pow-suc 2 (suc k)),
        ap (λ t. a * t) (pow-suc 2 k),
      ) in
    ground (arith, grow_exact fuel k (a * 2) n (omega arith) (omega arith) l regrouped)

grown_write :
    {array : HArray} (a i x : ℕ)
    → IsValid array
    → array.allocated_length ≤ i
    → i < a
    → take (suc i) (set (enlarged array a).cell i x)
      ≡ contents array ++ (replicate (i - array.length) 0 ++ x ∷ [])
grown_write {array} a i x v h k =
    take-set_end i (enlarged array a).cell x room
    ∙ rw
        (
          take-append_replicate i (a - array.length) (contents array) 0 (omega (arith, v, len))
              (omega (arith, v, len)),
          len,
        )
        (append_assoc (contents array) (replicate (i - array.length) 0) (x ∷ []))
  where
    len : length (contents array) ≡ array.length
    len = length-contents v

    room : i < length (enlarged array a).cell
    room = omega (
      arith,
      v,
      len,
      length-append (contents array) (replicate (a - array.length) 0),
      length-replicate {A = ℕ} (a - array.length) 0,
    )

out_of_block :
    (array : HArray) (i x : ℕ) → array.allocated_length ≤ i → store_element array i x ≡ none
unfolding store_element
out_of_block array i x h = ground arith

write_grown :
    {array : HArray} (a i x : ℕ)
    → IsValid array
    → array.allocated_length ≤ i
    → i < a
    → a < u32_mod
    → (written : HArray) × (store_element (enlarged array a) i x ≡ some (0, written))
      × IsValid written
      × (contents written ≡ contents array ++ (replicate (i - array.length) 0 ++ x ∷ []))
unfolding store_element
write_grown {array} a i x v h k l = (
  record (enlarged array a) { cell = set (enlarged array a).cell i x; length = suc i },
  ground (
    arith,
    get_or-append_replicate (contents array) (a - array.length) i 0,
    length-contents v,
    v,
  ),
  record {
    block = omega (arith, length-set (enlarged array a).cell i x, w);
    room = omega arith;
    bounded = l;
    filled = k;
  },
  grown_write a i x v h k,
)
  where
    w : IsValid (enlarged array a)
    w = enlarged-IsValid a v (omega arith) l

-- On a valid array, `harray_set` at an index below 2^31 and not below the block's size has one of
-- two results. Either the elements stay, NULL fills the gap, the element stands at the index, and
-- the array is valid; or the growing loop ends with a block whose size is the index, and the write
-- is out of bounds.
set_behind :
    {array : HArray} (i x : ℕ)
    → IsValid array
    → array.allocated_length ≤ i
    → i < 2 ^ 31
    → ((written : HArray) × (harray_set array i x ≡ some (0, written))
        × IsValid written
        × (contents written ≡ contents array ++ (replicate (i - array.length) 0 ++ x ∷ [])))
      ⊎ ((grow grow_fuel array.allocated_length i ≡ some i) × (harray_set array i x ≡ none))
unfolding harray_set harray_chk_length
set_behind {array} i x v h k =
    let (a, e, p, q, s) =
      grow_lem grow_fuel array.allocated_length i v.room h k (omega (arith, v)) in
    elim (dec_lt i a) [
      | yes above ↦
          let (written, f, w, c) = write_grown a i x v h above q in
          inl (written, ground (arith, e, f), w, c)
      | no at ↦
          inr (ground (arith, e, p), ground (arith, e, p, out_of_block (enlarged array a) i x))
    ]

-- On a valid array, `harray_set` writes outside the block at each index below 2^31 that is the
-- block's size times 2, 4, and so on up to 2^31.
pub set_out_of_bounds :
    {array : HArray} (k x : ℕ)
    → IsValid array
    → k < 31
    → array.allocated_length * 2 ^ suc k < 2 ^ 31
    → harray_set array (array.allocated_length * 2 ^ suc k) x ≡ none
unfolding harray_set harray_chk_length store_element
set_out_of_bounds {array} k x v h b = ground (
  arith,
  grow_exact grow_fuel k array.allocated_length (array.allocated_length * 2 ^ suc k) (omega arith)
      v.room b refl,
  le-mul_pow array.allocated_length (suc k),
)

-- With a block of no cells the loop never ends, whatever the fuel, unless the index is 0.
pub grow_zero : (fuel n : ℕ) → 0 < n → grow fuel 0 n ≡ none
unfolding grow
grow_zero zero n h = refl
grow_zero (suc fuel) n h = ground (arith, grow_zero fuel n h)
