-- ===== src/Tests/Locks.antt =====
-- hmonitor.c: two threads that take the example monitor.
use hierarchical_monitors.Prelude.{◌≡◌, refl, false, arith}
use hierarchical_monitors.Prelude.Int.{pos}
use hierarchical_monitors.Hmonitor.{hmonitor_read, hmonitor_reduce}
use hierarchical_monitors.Hmonitor.Lock.{hmonitor_trylock, hmonitor_release}
use hierarchical_monitors.Hmonitor.Lock.Owner.{trylock_twice}
use hierarchical_monitors.Fake.{fake_lib}
use hierarchical_monitors.Tests.Doubles.{whole}
use hierarchical_monitors.Tests.Monitors.{monitor, now}

trylock_twice_example :
    let taken = hmonitor_trylock (λ m. m) 3 false monitor in
    let again = hmonitor_trylock (λ m. m) 4 false taken.1 in
    (taken.0 ≡ pos 1)
    × (again.0 ≡ pos 1)
    × (hmonitor_read whole (fake_lib whole) 3 now again.1 ≡ (pos 0, again.1))
    × (hmonitor_reduce whole (fake_lib whole) (λ f m. m) 3 again.1 ≡ (pos 0, again.1))
    × (hmonitor_release 3 again.1 ≡ (pos 0, again.1))
    × (hmonitor_release 4 again.1 ≡ (pos 1, record monitor { owner = 4 }))
trylock_twice_example =
    trylock_twice whole (fake_lib whole) (λ f m. m) (λ m. m) 3 4 false now monitor refl
      (omega arith)
