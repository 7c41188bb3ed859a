-- ===== src/Prelude/Strings.antt =====
-- Strings of C as the codes of their characters, without the final 0.
use Prim.Native.Nat.{ℕ}
use Prim.Native.Char.{code}
use Prim.Native.String.{String}
use mathlib.Core.Path.{◌≡◌, refl}
use mathlib.Core.Bool.{Bool, true, false}
use mathlib.Core.List.{List, [], ◌∷◌}
use native.Mathlib.Omega.{arith}
use hierarchical_monitors.Prelude.Tests.{◌==◌, if◌then◌else◌}

abbrev pub codes : String → List ℕ
codes String.[] = []
codes (String.◌∷◌ c s) = code c ∷ codes s

-- `strcmp(a, b) == 0`
unfoldable pub same_string : List ℕ → List ℕ → Bool
same_string [] [] = true
same_string [] (y ∷ b) = false
same_string (x ∷ a) [] = false
same_string (x ∷ a) (y ∷ b) = let rest = same_string a b in if x == y then rest else false

pub same_string_self : (a : List ℕ) → same_string a a ≡ true
unfolding same_string
same_string_self [] = refl
same_string_self (x ∷ a) = ground (arith, same_string_self a)

pub same_string_eq : (a b : List ℕ) → same_string a b ≡ true → a ≡ b
unfolding same_string
same_string_eq [] [] h = refl
same_string_eq [] (y ∷ b) h = cc h
same_string_eq (x ∷ a) [] h = cc h
same_string_eq (x ∷ a) (y ∷ b) h = ground (arith, same_string_eq a b)

abbrev pub reverse_onto : List ℕ → List ℕ → List ℕ
reverse_onto [] ys = ys
reverse_onto (x ∷ xs) ys = reverse_onto xs (x ∷ ys)

-- A word is put in front if it is not empty.
abbrev pub emit : List ℕ → List (List ℕ) → List (List ℕ)
emit [] rest = rest
emit (x ∷ word) rest = reverse_onto (x ∷ word) [] ∷ rest

-- The tokens of `strtok` with the separator `sep`; `word` is the one being read, backwards.
unfoldable pub tokens_from : ℕ → List ℕ → List ℕ → List (List ℕ)
tokens_from sep word [] = emit word []
tokens_from sep word (c ∷ text) =
    let ended = tokens_from sep [] text in
    let longer = tokens_from sep (c ∷ word) text in if c == sep then emit word ended else longer

abbrev pub tokens : ℕ → List ℕ → List (List ℕ)
tokens sep text = tokens_from sep [] text

-- `strtok(text, " ")`
abbrev pub words : List ℕ → List (List ℕ)
words text = tokens 32 text
