-- ===== src/Synchronize/Barrier/Rounds.antt =====
-- synchronize.c: without calls of hmon_is_uptodate the rounds of updates do not overlap.
use hierarchical_monitors.Prelude.{
  ℕ, zero, suc, ◌+◌, ◌≡◌, refl, ap, List, [], ◌∷◌, ◌++◌, length, length-append, length-replicate,
  replicate, arith,
}
use hierarchical_monitors.Prelude.Int.{pos, pos_part, neg_part, -ℤ_parts}
use hierarchical_monitors.Synchronize.Barrier.{
  Phase, at_first, at_second, updating, restarting, Main, idle, waiting_first, waiting_second,
  System, ncores, ◌⟶◌, trigger, pass_first, pass_second, signal, restart, ◌⟶*◌, here, then, initial,
}

abbrev pub is_updating : Phase → ℕ
is_updating updating = 1
is_updating _ = 0

-- The number of threads that have not signalled in the round.
abbrev pub pending : List Phase → ℕ
pending [] = 0
pending (p ∷ ps) = is_updating p + pending ps

pub pending-append :
    (before after : List Phase) → pending (before ++ after) ≡ pending before + pending after
pending-append [] after = omega arith
pending-append (p ∷ before) after = omega (arith, pending-append before after)

pub pending-replicate_first : (n : ℕ) → pending (replicate n at_first) ≡ 0
pending-replicate_first zero = refl
pending-replicate_first (suc n) = omega (arith, pending-replicate_first n)

pub pending-replicate_second : (n : ℕ) → pending (replicate n at_second) ≡ 0
pending-replicate_second zero = refl
pending-replicate_second (suc n) = omega (arith, pending-replicate_second n)

pub pending-replicate_updating : (n : ℕ) → pending (replicate n updating) ≡ n
pending-replicate_updating zero = refl
pending-replicate_updating (suc n) = omega (arith, pending-replicate_updating n)

pub same_length :
    (s : System) (p q : Phase) (before after : List Phase)
    → s.threads ≡ before ++ p ∷ after
    → length s.threads ≡ length (before ++ q ∷ after)
same_length s p q before after e =
    omega (arith, ap length e, length-append before (p ∷ after), length-append before (q ∷ after))

-- What the counter shows beside the threads pending: all threads, between the trigger and the second
-- barrier.
abbrev pub announced : Main → ℕ → ℕ
announced idle n = 0
announced waiting_first n = n
announced waiting_second n = n

-- The counter is `k` below what it should show.
abbrev pub Behind : ℕ → System → Type 0
Behind k s =
    pos_part s.uptodate + k ≡ neg_part s.uptodate + pending s.threads + announced s.main (ncores s)

-- Every step keeps how far the counter is behind.
pub ⟶_Behind : (k : ℕ) {s t : System} → s ⟶ t → Behind k s → Behind k t
⟶_Behind k {s} (trigger idle_main zero_left) b = omega (
  arith,
  b,
  ap pos_part zero_left,
  ap neg_part zero_left,
  ap (λ m. announced m (ncores s)) idle_main,
)
⟶_Behind k {s} (pass_first waiting all) b = omega (
  arith,
  b,
  ap (λ m. announced m (ncores s)) waiting,
  ap pending all,
  pending-replicate_first (ncores s),
  pending-replicate_second (ncores s),
  length-replicate (ncores s) at_second,
)
⟶_Behind k {s} (pass_second waiting all) b = omega (
  arith,
  b,
  ap (λ m. announced m (ncores s)) waiting,
  ap pending all,
  pending-replicate_second (ncores s),
  pending-replicate_updating (ncores s),
)
⟶_Behind k {s} (signal before after e) b = omega (
  arith,
  b,
  -ℤ_parts s.uptodate (pos 1),
  ap pending e,
  pending-append before (updating ∷ after),
  pending-append before (restarting ∷ after),
  ap (announced s.main) (same_length s updating restarting before after e),
)
⟶_Behind k {s} (restart before after e) b = omega (
  arith,
  b,
  ap pending e,
  pending-append before (restarting ∷ after),
  pending-append before (at_first ∷ after),
  ap (announced s.main) (same_length s restarting at_first before after e),
)

pub ⟶*_Behind : (k : ℕ) {s t : System} → s ⟶* t → Behind k s → Behind k t
⟶*_Behind k here b = b
⟶*_Behind k (then steps step) b = ⟶_Behind k step (⟶*_Behind k steps b)

pub initial-Behind : (n : ℕ) → Behind 0 (initial n)
unfolding initial
initial-Behind n = omega (arith, pending-replicate_first n)

-- In every run of `hmon_update` and `n` threads from `hmon_lib_init` on, in which nobody calls
-- `hmon_is_uptodate`: an update is triggered only when no thread still has to report the one
-- before, and it sets the counter of threads to report from 0 to their number.
pub trigger_after_round :
    (n : ℕ) {s t : System}
    → initial n ⟶* s
    → s ⟶ t
    → s.main ≡ idle
    → t.main ≡ waiting_first
    → (pending s.threads ≡ 0) × (t.uptodate ≡ pos (ncores s)) × (s.uptodate ≡ pos 0)
trigger_after_round n {s} steps (trigger idle_main zero_left) i w =
    let b = ⟶*_Behind 0 steps (initial-Behind n) in
    (
      omega (
        arith,
        b,
        ap pos_part zero_left,
        ap neg_part zero_left,
        ap (λ m. announced m (ncores s)) idle_main,
      ),
      refl,
      zero_left,
    )
trigger_after_round n steps (pass_first waiting all) i w = cc (i, waiting)
trigger_after_round n steps (pass_second waiting all) i w = cc (i, waiting)
trigger_after_round n steps (signal before after e) i w = cc (i, w)
trigger_after_round n steps (restart before after e) i w = cc (i, w)
