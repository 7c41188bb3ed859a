-- ===== src/Synchronize/Walk/Passes.antt =====
-- synchronize.c: how often a pass comes to each monitor, and what a round makes of it.
use native.Mathlib.Decide.{ℕ_discrete}
use native.Mathlib.Numerals.{add-one}
use hierarchical_monitors.Prelude.{
  ℕ, zero, suc, ◌+◌, ◌≡◌, ◌≢◌, refl, ap, sym, ◌∙◌, true, false, List, [], ◌∷◌, ◌++◌, ◌==◌,
  if◌then◌else◌, arith,
}
use hierarchical_monitors.Prelude.Floats.{Floats}
use hierarchical_monitors.HArray.Lookup.{count}
use hierarchical_monitors.Hmonitor.{Hmon, PerfLib, Timespec}
use hierarchical_monitors.Synchronize.{
  Call, stop, read, reduce, start, perform, perform_all, thread_calls,
}
use hierarchical_monitors.Synchronize.Walk.{
  Location, location, Locations, nil, cons, hmonitors_do, update_down, update_children, update_up,
  hmon_update_location, perform_on, thread_round,
}

-- The monitors of an object and of all below it, and those of the objects above.
abbrev mutual
  pub below : Location → List ℕ
  below (location monitors children) = monitors ++ below_all children

  pub below_all : Locations → List ℕ
  below_all nil = []
  below_all (cons child children) = below child ++ below_all children

abbrev pub above : List (List ℕ) → List ℕ
above [] = []
above (monitors ∷ parents) = monitors ++ above parents

abbrev pub times : {A : Type 0} → ℕ → (A → A) → A → A
times zero f x = x
times (suc n) f x = times n f (f x)

same : (p : ℕ) → (p == p) ≡ true
same p = ground arith

differ : (p q : ℕ) → p ≢ q → (p == q) ≡ false
differ p q h = ground arith

module _ {A : Type 0} (call : ℕ → (ℕ → A) → ℕ → A) where
  do-append :
      (ps qs : List ℕ) (store : ℕ → A)
      → hmonitors_do call (ps ++ qs) store ≡ hmonitors_do call qs (hmonitors_do call ps store)
  unfolding hmonitors_do
  do-append [] qs store = refl
  do-append (p ∷ ps) qs store = do-append ps qs (call p store)

  mutual
    unfolding update_down hmonitors_do

    down_below :
        (l : Location) (store : ℕ → A)
        → update_down call l store ≡ hmonitors_do call (below l) store
    down_below (location monitors children) store =
        children_below children (hmonitors_do call monitors store)
        ∙ sym (do-append monitors (below_all children) store)

    children_below :
        (l : Locations) (store : ℕ → A)
        → update_children call l store ≡ hmonitors_do call (below_all l) store
    children_below nil store = refl
    children_below (cons child children) store =
        children_below children (update_down call child store)
        ∙ ap (hmonitors_do call (below_all children)) (down_below child store)
        ∙ sym (do-append (below child) (below_all children) store)

  up_above :
      (parents : List (List ℕ)) (store : ℕ → A)
      → update_up call parents store ≡ hmonitors_do call (above parents) store
  unfolding update_up hmonitors_do
  up_above [] store = refl
  up_above (monitors ∷ parents) store =
      up_above parents (hmonitors_do call monitors store)
      ∙ sym (do-append monitors (above parents) store)

  update_location_order :
      (l : Location) (parents : List (List ℕ)) (store : ℕ → A)
      → hmon_update_location call true true l parents store
        ≡ hmonitors_do call (below l ++ above parents) store
  unfolding hmon_update_location
  update_location_order (location monitors children) parents store =
      up_above parents (update_children call children (hmonitors_do call monitors store))
      ∙ ap (hmonitors_do call (above parents))
          (children_below children (hmonitors_do call monitors store))
      ∙ ap (hmonitors_do call (above parents)) (sym (do-append monitors (below_all children) store))
      ∙ sym (do-append (below (location monitors children)) (above parents) store)

  -- To the monitor `q` its own call does `f`, and the calls on other monitors do nothing.
  abbrev pub IsAlone : ℕ → (A → A) → Type 0
  IsAlone q f = (p : ℕ) (store : ℕ → A) → call p store q ≡ (if q == p then f (store q) else store q)

  module _ (q : ℕ) (f : A → A) (alone : IsAlone q f) where
    do_count :
        (ps : List ℕ) (store : ℕ → A)
        → hmonitors_do call ps store q ≡ times (count q ps) f (store q)
    unfolding hmonitors_do
    do_count [] store = refl
    do_count (p ∷ ps) store =
        do_count ps (call p store)
        ∙ ap (times (count q ps) f) (alone p store)
        ∙ stepped (count q ps)
      where
        stepped :
            (n : ℕ)
            → times n f (if q == p then f (store q) else store q)
              ≡ times (if p == q then n + 1 else n) f (store q)
        stepped n = elim (ℕ_discrete p q) [
          | yes e ↦ rw (e, same q, add-one)
          | no ne ↦ rw (differ p q ne, differ q p (λ e. ne (sym e)))
        ]

    -- A pass of `hmon_update_location` down and up from an object ends, with a monitor that no call
    -- on another changes called once for each time that it stands at the object, below it or above it.
    update_location_count :
        (l : Location) (parents : List (List ℕ)) (store : ℕ → A)
        → hmon_update_location call true true l parents store q
          ≡ times (count q (below l ++ above parents)) f (store q)
    update_location_count l parents store =
        ap (λ s. s q) (update_location_order l parents store)
        ∙ do_count (below l ++ above parents) store

module _ {D E : Type 0} (F : Floats D) (lib : PerfLib D E)
    (call_model : ℕ → Hmon D E → Hmon D E) where
  -- What the performance libraries do to other monitors leaves `q` as it is.
  abbrev pub LeavesAlone : (ℕ → Call → (ℕ → Hmon D E) → ℕ → Hmon D E) → ℕ → Type 0
  LeavesAlone nested q =
      (p : ℕ) (call : Call) (store : ℕ → Hmon D E) → nested p call store q ≡ store q

  perform_on-IsAlone :
      (nested : ℕ → Call → (ℕ → Hmon D E) → ℕ → Hmon D E) (self q : ℕ) (call : ℕ → Call)
      → LeavesAlone nested q
      → IsAlone
          (λ p. perform_on F lib call_model nested self (call p) p)
          q
          (perform F lib call_model self (call q))
  unfolding perform_on
  perform_on-IsAlone nested self q call leaves p store = elim (ℕ_discrete q p) [
    | yes e ↦ rw (sym e, same q, leaves q (call q) store) refl
    | no ne ↦ rw (differ q p ne) (leaves p (call p) store)
  ]

  pass_once :
      (nested : ℕ → Call → (ℕ → Hmon D E) → ℕ → Hmon D E) (self q : ℕ) (call : ℕ → Call)
      (core : Location) (parents : List (List ℕ)) (store : ℕ → Hmon D E)
      → LeavesAlone nested q
      → count q (below core ++ above parents) ≡ 1
      → hmon_update_location
          (λ p. perform_on F lib call_model nested self (call p) p)
          true
          true
          core
          parents
          store
          q
        ≡ perform F lib call_model self (call q) (store q)
  pass_once nested self q call core parents store leaves once =
      update_location_count (λ p. perform_on F lib call_model nested self (call p) p) q
        (perform F lib call_model self (call q)) (perform_on-IsAlone nested self q call leaves) core
        parents store
      ∙ ap (λ n. times n (perform F lib call_model self (call q)) (store q)) once

  -- One round of `hmonitor_thread` over the objects below and above its core does to each monitor
  -- that stands there once, and that no performance library changes as one of its children, exactly
  -- its four calls (stop, read, reduce, start), one after the other; the libraries of the monitors
  -- on the walk may change any others, as those of the hierarchical and the accumulating plugin do.
  pub thread_round_lem :
      (nested : ℕ → Call → (ℕ → Hmon D E) → ℕ → Hmon D E) (self : ℕ) (clock : ℕ → Timespec)
      (core : Location) (parents : List (List ℕ)) (q : ℕ) (store : ℕ → Hmon D E)
      → LeavesAlone nested q
      → count q (below core ++ above parents) ≡ 1
      → thread_round F lib call_model nested self clock core parents store q
        ≡ perform_all F lib call_model (thread_calls self (clock q)) (store q)
  unfolding thread_round perform_all thread_calls
  thread_round_lem nested self clock core parents q store leaves once =
      let act = perform F lib call_model self in
      let go = λ (call : ℕ → Call) (s : ℕ → Hmon D E).
        pass_once nested self q call core parents s leaves once in
      go (λ p. start) _
      ∙ ap (act start) (go (λ p. reduce) _)
      ∙ ap (λ m. act start (act reduce m)) (go (λ p. read (clock p)) _)
      ∙ ap (λ m. act start (act reduce (act (read (clock q)) m))) (go (λ p. stop) store)
