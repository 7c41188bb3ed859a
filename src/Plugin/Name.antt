-- ===== src/Plugin/Name.antt =====
-- plugin.c: the names of plugins and of their files.
use hierarchical_monitors.Prelude.{
  ℕ, ◌-◌, ◌≡◌, refl, ap, sym, ◌∙◌, false, List, [], ◌∷◌, ◌++◌, ltb, if◌then◌else◌, length,
  length-append, take, drop, same_string, same_string_self, arith, take-append-drop, same_string_eq,
  Bool-cases, inl, inr, ◌⊎◌, take-length, take-append_of_le,
}
use hierarchical_monitors.Plugin.{plugin_suffix, unsuffix_plugin_name}

drop-append : (xs ys : List ℕ) → drop (length xs) (xs ++ ys) ≡ ys
drop-append [] ys = refl
drop-append (x ∷ xs) ys = drop-append xs ys

take-append : (xs ys : List ℕ) → take (length xs) (xs ++ ys) ≡ xs
take-append xs ys = take-append_of_le (length xs) xs ys (omega arith) ∙ take-length xs

not_shorter : (xs ys : List ℕ) → ltb (length (xs ++ ys)) (length ys) ≡ false
not_shorter xs ys = ground (arith, length-append xs ys)

-- The function with any suffix.
abbrev cut : List ℕ → List ℕ → List ℕ
cut suffix name =
    if ltb (length name) (length suffix)
    then name
    else if same_string suffix (drop (length name - length suffix) name)
    then take (length name - length suffix) name
    else name

cut-append : (suffix name : List ℕ) → cut suffix (name ++ suffix) ≡ name
cut-append suffix name =
    let e : length (name ++ suffix) - length suffix ≡ length name =
      omega (arith, length-append name suffix) in
    rw (not_shorter name suffix, e, drop-append name suffix, same_string_self suffix)
      (take-append name suffix)

cut_cases : (suffix name : List ℕ) → (cut suffix name ≡ name) ⊎ (name ≡ cut suffix name ++ suffix)
cut_cases suffix name = elim (Bool-cases (ltb (length name) (length suffix))) [
  | inl short ↦ rw short (inl refl)
  | inr long ↦ elim (Bool-cases (same_string suffix (drop (length name - length suffix) name))) [
    | inl ends ↦
        rw (long, ends)
          (inr (
            sym (take-append-drop (length name - length suffix) name)
            ∙ ap (λ s. take (length name - length suffix) name ++ s)
                (sym (same_string_eq suffix (drop (length name - length suffix) name) ends))))
    | inr other ↦ rw (long, other) (inl refl)
  ]
]

-- `unsuffix_plugin_name` takes the suffix of plugin files off a name that it was put on, and
-- changes a name in no other way than by taking the suffix off.
unsuffix_lem :
    (name : List ℕ)
    → (unsuffix_plugin_name (name ++ plugin_suffix) ≡ name)
      × ((unsuffix_plugin_name name ≡ name) ⊎ (name ≡ unsuffix_plugin_name name ++ plugin_suffix))
unfolding unsuffix_plugin_name
unsuffix_lem name = (cut-append plugin_suffix name, cut_cases plugin_suffix name)
