-- ===== src/Locations/Names.antt =====
-- hwloc_utils.c: objects written as a text and read back.
use hierarchical_monitors.Prelude.{
  ℕ, zero, suc, ◌+◌, ◌/◌, ◌%◌, ◌≤◌, ◌≡◌, ◌≢◌, refl, ap, ◌∙◌, Bool, true, false, Option, none, some,
  List, [], ◌∷◌, ◌++◌, ltb, length, length-append, take, arith, tokens, tokens_from, same_string,
  emit, reverse_onto, if◌then◌else◌,
}
use hierarchical_monitors.Prelude.Int.{ℤ, pos}
use hierarchical_monitors.Hmonitor.Create.{decimal}
use hierarchical_monitors.Locations.{TypeDepth, unknown, multiple, at}

-- What the code calls of hwloc on types and objects, and the C library's atoi.
pub record Naming : Type 0 where
  pub type_name : ℕ → List ℕ
  pub sscanf_as_depth : List ℕ → TypeDepth
  pub obj_by_depth : ℕ → ℤ → Option ℕ
  pub atoi : List ℕ → ℤ

module _ (naming : Naming) where
  -- Of an object's type and logical index; there is room for 62 characters.
  unfoldable pub location_name : ℕ → ℕ → List ℕ
  location_name type logical_index =
      take 62 (naming.type_name type ++ 58 ∷ decimal 10 logical_index)

  unfoldable pub index_of : List (List ℕ) → ℤ
  index_of [] = pos 0
  index_of (idx ∷ rest) = naming.atoi idx

  unfoldable pub parse_tokens : List (List ℕ) → Option ℕ
  parse_tokens [] = none
  parse_tokens (name ∷ rest) = elim (naming.sscanf_as_depth name) [
    | unknown ↦ none
    | multiple ↦ none
    | at depth ↦ naming.obj_by_depth depth (index_of rest)
  ]

  unfoldable pub location_parse : List ℕ → Option ℕ
  location_parse location = parse_tokens (tokens 58 location)

-- The loop over the types found so far.
unfoldable pub is_listed : List ℕ → List (List ℕ) → Bool
is_listed type [] = false
is_listed type (found ∷ types) =
    let later = is_listed type types in if same_string type found then true else later

-- The texts of the types from the root to its first child, and so on, each one put behind those `found`
-- unless it is there.
unfoldable pub location_avail : List (List ℕ) → List (List ℕ) → List (List ℕ)
location_avail found [] = found
location_avail found (type ∷ types) =
    location_avail (if is_listed type found then found else found ++ type ∷ []) types

-- No character of a text is `sep`.
abbrev pub Without : ℕ → List ℕ → Type 0
Without sep [] = Unit
Without sep (c ∷ text) = (c ≢ sep) × Without sep text

emit-reverse_onto :
    (x : ℕ) (xs ys : List ℕ) (rest : List (List ℕ))
    → emit (reverse_onto xs (x ∷ ys)) rest ≡ reverse_onto ys (x ∷ xs) ∷ rest
emit-reverse_onto x [] ys rest = refl
emit-reverse_onto x (y ∷ xs) ys rest = emit-reverse_onto y xs (x ∷ ys) rest

tokens_from-append :
    (sep : ℕ) (word text rest : List ℕ)
    → Without sep text
    → tokens_from sep word (text ++ sep ∷ rest) ≡ emit (reverse_onto text word) (tokens sep rest)
unfolding tokens_from
tokens_from-append sep word [] rest without = ground arith
tokens_from-append sep word (c ∷ text) rest (other, without) =
    ground (arith, other, tokens_from-append sep (c ∷ word) text rest without)

tokens_from_end :
    (sep : ℕ) (word text : List ℕ)
    → Without sep text
    → tokens_from sep word text ≡ emit (reverse_onto text word) []
unfolding tokens_from
tokens_from_end sep word [] without = refl
tokens_from_end sep word (c ∷ text) (other, without) =
    ground (arith, other, tokens_from_end sep (c ∷ word) text without)

tokens_one : (sep : ℕ) (text : List ℕ) → Without sep text → text ≢ [] → tokens sep text ≡ text ∷ []
tokens_one sep [] without some_text = absurd (some_text refl)
tokens_one sep (c ∷ text) without some_text =
    tokens_from_end sep [] (c ∷ text) without ∙ emit-reverse_onto c text [] []

tokens_two :
    (sep : ℕ) (first second : List ℕ)
    → Without sep first
    → Without sep second
    → first ≢ []
    → second ≢ []
    → tokens sep (first ++ sep ∷ second) ≡ first ∷ second ∷ []
tokens_two sep [] second without last some_first some_second = absurd (some_first refl)
tokens_two sep (c ∷ first) second without last some_first some_second =
    tokens_from-append sep [] (c ∷ first) second without
    ∙ emit-reverse_onto c first [] (tokens sep second)
    ∙ ap (λ t. (c ∷ first) ∷ t) (tokens_one sep second last some_second)

Without-append :
    (sep : ℕ) (xs ys : List ℕ) → Without sep xs → Without sep ys → Without sep (xs ++ ys)
Without-append sep [] ys a b = b
Without-append sep (x ∷ xs) ys (other, a) b = (other, Without-append sep xs ys a b)

if-Without : (b : Bool) (xs : List ℕ) → Without 58 xs → Without 58 (if b then [] else xs)
if-Without true xs a = tt
if-Without false xs a = a

decimal-Without : (fuel n : ℕ) → Without 58 (decimal fuel n)
unfolding decimal
decimal-Without zero n = tt
decimal-Without (suc fuel) n =
    Without-append 58 _ ((48 + n % 10) ∷ [])
      (if-Without (ltb n 10) _ (decimal-Without fuel (n / 10))) (omega arith, tt)

if-length : (b : Bool) (xs : List ℕ) (k : ℕ) → length xs ≤ k → length (if b then [] else xs) ≤ k
if-length true xs k h = omega arith
if-length false xs k h = h

length-decimal : (fuel n : ℕ) → length (decimal fuel n) ≤ fuel
unfolding decimal
length-decimal zero n = omega arith
length-decimal (suc fuel) n =
    let higher = if ltb n 10 then [] else decimal fuel (n / 10) in
    omega (
      arith,
      length-append higher ((48 + n % 10) ∷ []),
      if-length (ltb n 10) (decimal fuel (n / 10)) fuel (length-decimal fuel (n / 10)),
    )

append_cons_ne : (xs ys : List ℕ) (y : ℕ) → xs ++ y ∷ ys ≢ []
append_cons_ne [] ys y h = cc h
append_cons_ne (x ∷ xs) ys y h = cc h

decimal_ne : (n : ℕ) → decimal 10 n ≢ []
unfolding decimal
decimal_ne n = append_cons_ne _ [] _

take_all : (n : ℕ) (xs : List ℕ) → length xs ≤ n → take n xs ≡ xs
take_all zero [] h = refl
take_all zero (x ∷ xs) h = absurd (omega arith)
take_all (suc n) [] h = refl
take_all (suc n) (x ∷ xs) h = ap (λ t. x ∷ t) (take_all n xs (omega arith))

-- The name that `location_name` gives to an object is read back as the object by `location_parse`,
-- and the name of its type alone as the first object of its depth: where hwloc reads the type's
-- name as the depth, has the object there, and atoi reads the number as printed, and where that
-- name is not empty, has no colon and at most 51 characters.
pub location_parse-name :
    (naming : Naming) (type depth logical_index obj : ℕ)
    → Without 58 (naming.type_name type)
    → naming.type_name type ≢ []
    → length (naming.type_name type) ≤ 51
    → naming.sscanf_as_depth (naming.type_name type) ≡ at depth
    → naming.atoi (decimal 10 logical_index) ≡ pos logical_index
    → naming.obj_by_depth depth (pos logical_index) ≡ some obj
    → (location_parse naming (location_name naming type logical_index) ≡ some obj)
      × (location_parse naming (naming.type_name type) ≡ naming.obj_by_depth depth (pos 0))
unfolding location_parse location_name parse_tokens index_of
location_parse-name naming type depth logical_index obj without some_name short scanned reads
      there =
    let name = naming.type_name type in
    let number = decimal 10 logical_index in
    let fits : take 62 (name ++ 58 ∷ number) ≡ name ++ 58 ∷ number =
      take_all 62 (name ++ 58 ∷ number)
        (omega (arith, length-append name (58 ∷ number), length-decimal 10 logical_index, short)) in
    let two =
      tokens_two 58 name number without (decimal-Without 10 logical_index) some_name
        (decimal_ne logical_index) in
    let one = tokens_one 58 name without some_name in
    (
      ap (λ text. parse_tokens naming (tokens 58 text)) fits
          ∙ ap (parse_tokens naming) two
          ∙ ground (arith, scanned, reads, there),
      ground (arith, one, scanned),
    )
