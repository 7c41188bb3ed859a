-- ===== src/Placement/Allowed.antt =====
-- proc.c: the line of the file `status` that is read.
use hierarchical_monitors.Prelude.{
  ℕ, ◌+◌, ◌-◌, ◌≡◌, refl, ap, ◌∙◌, false, some, none, List, [], ◌∷◌, ◌++◌, length, length-append,
  take, take-length, take-append_of_le, drop, arith, same_string,
}
use hierarchical_monitors.Placement.{
  Bitmaps, token, has_token, find_line, mask_of, proc_get_allowed_cpuset,
}

-- No line begins with the token.
abbrev pub AllOther : List (List ℕ) → Type 0
AllOther [] = Unit
AllOther (line ∷ lines) = (has_token line ≡ false) × AllOther lines

without_last : (xs : List ℕ) (e : ℕ) → take (length (xs ++ e ∷ []) - 1) (xs ++ e ∷ []) ≡ xs
without_last xs e =
    let n : length (xs ++ e ∷ []) - 1 ≡ length xs = omega (arith, length-append xs (e ∷ [])) in
    ap (λ k. take k (xs ++ e ∷ [])) n
    ∙ take-append_of_le (length xs) xs (e ∷ []) (omega arith)
    ∙ take-length xs

mask_lem : (c e : ℕ) (mask : List ℕ) → mask_of (token ++ c ∷ (mask ++ e ∷ [])) ≡ mask
unfolding mask_of
mask_lem c e mask = ap (drop (length token + 1)) (without_last (token ++ c ∷ mask) e)

find_other : (lines : List (List ℕ)) → AllOther lines → find_line lines ≡ none
unfolding find_line
find_other [] other = refl
find_other (line ∷ lines) other = rw other.0 (find_other lines other.1)

find_after :
    (before after : List (List ℕ)) (text : List ℕ)
    → AllOther before
    → find_line (before ++ (token ++ text) ∷ after) ≡ some (token ++ text)
unfolding find_line has_token same_string
find_after [] after text other = refl
find_after (line ∷ before) after text other = rw other.0 (find_after before after text other.1)

module _ {C : Type 0} (bitmaps : Bitmaps C) where
  -- `proc_get_allowed_cpuset` reads the mask in the first line that begins with "Cpus_allowed:",
  -- without the character after the token and the last one of the line, and allows every processing
  -- unit if no line begins so.
  allowed_lem :
      (before after : List (List ℕ)) (c e : ℕ) (mask : List ℕ)
      → AllOther before
      → (proc_get_allowed_cpuset bitmaps (some (before ++ (token ++ c ∷ (mask ++ e ∷ [])) ∷ after))
          ≡ bitmaps.bitmap_sscanf mask)
        × (proc_get_allowed_cpuset bitmaps (some before) ≡ bitmaps.bitmap_fill)
  unfolding proc_get_allowed_cpuset
  allowed_lem before after c e mask other = (
    rw (find_after before after (c ∷ (mask ++ e ∷ [])) other, proc_get_allowed_cpuset)
        (ap bitmaps.bitmap_sscanf (mask_lem c e mask)),
    rw (find_other before other, proc_get_allowed_cpuset) refl,
  )
