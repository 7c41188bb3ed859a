-- ===== src/Tests/Walks.antt =====
-- synchronize.c: a walk over a small topology.
use hierarchical_monitors.Prelude.{ℕ, ◌≡◌, refl, List, [], ◌∷◌, ◌==◌, if◌then◌else◌, arith}
use hierarchical_monitors.Prelude.Int.{ℤ}
use hierarchical_monitors.Hmonitor.{Hmon, hmonitor_reset}
use hierarchical_monitors.Synchronize.{Call, stop, read, reduce, start, perform_all, thread_calls}
use hierarchical_monitors.Synchronize.Walk.{Location, location, nil, cons, thread_round}
use hierarchical_monitors.Synchronize.Walk.Passes.{LeavesAlone, thread_round_lem}
use hierarchical_monitors.Fake.{fake_lib}
use hierarchical_monitors.Tests.Doubles.{whole}
use hierarchical_monitors.Tests.Monitors.{monitor, now}

-- A core with two processing units, in a machine: monitor 1 on the core, 2 and 3 below it, 4 above it.
abbrev core : Location
core = location (1 ∷ []) (cons (location (2 ∷ []) nil) (cons (location (3 ∷ []) nil) nil))

abbrev machine : List (List ℕ)
machine = (4 ∷ []) ∷ []

-- The monitor 4 resets the monitor 2 when it is read.
abbrev busy_children : ℕ → Call → (ℕ → Hmon ℤ ℕ) → ℕ → Hmon ℤ ℕ
busy_children p (read tp) store q =
    if p == 4
    then (if q == 2 then hmonitor_reset whole (fake_lib whole) tp (store q) else store q)
    else store q
busy_children p _ store q = store q

three_alone : LeavesAlone whole (fake_lib whole) (λ f m. m) busy_children 3
three_alone p (read tp) store = ground arith
three_alone p stop store = refl
three_alone p reduce store = refl
three_alone p start store = refl

thread_round_lem_example :
    thread_round whole
      (fake_lib whole)
      (λ f m. m)
      busy_children
      7
      (λ p. now)
      core
      machine
      (λ p. monitor)
      3
    ≡ perform_all whole (fake_lib whole) (λ f m. m) (thread_calls 7 now) monitor
thread_round_lem_example =
    thread_round_lem whole (fake_lib whole) (λ f m. m) busy_children 7 (λ p. now) core machine 3
      (λ p. monitor) three_alone refl
