-- ===== src/Tests/Threads.antt =====
-- synchronize.c on the example monitor.
use hierarchical_monitors.Prelude.{ℕ, ◌≡◌, refl, false, List, [], ◌∷◌, ◌++◌, arith}
use hierarchical_monitors.Prelude.Int.{ℤ}
use hierarchical_monitors.Hmonitor.{Hmon}
use hierarchical_monitors.Fake.{fake_lib, hmonitor_eventset_stop}
use hierarchical_monitors.Synchronize.{Call, stop, read, reduce, start, perform_all, thread_calls}
use hierarchical_monitors.Synchronize.Exclusion.{AllForeign, update_exclusive}
use hierarchical_monitors.Tests.Doubles.{whole}
use hierarchical_monitors.Tests.Monitors.{monitor, now}

abbrev running : Hmon ℤ ℕ
running = record monitor { stopped = false }

abbrev call_model : ℕ → Hmon ℤ ℕ → Hmon ℤ ℕ
call_model f m = m

abbrev others : List (ℕ × Call)
others = (3, stop) ∷ (4, read now) ∷ (3, start) ∷ []

others_foreign : AllForeign 7 others
others_foreign = (
  λ e. absurd (omega (arith, e)),
  (λ e. absurd (omega (arith, e)), (λ e. absurd (omega (arith, e)), tt)),
)

update_exclusive_example :
    perform_all whole
      (fake_lib whole)
      call_model
      ((7, stop)
        ∷ (others ++ (7, read now) ∷ (others ++ (7, reduce) ∷ (others ++ (7, start) ∷ []))))
      running
    ≡ perform_all whole (fake_lib whole) call_model (thread_calls 7 now) running
unfolding hmonitor_eventset_stop
update_exclusive_example =
    update_exclusive whole (fake_lib whole) call_model 7 now others others others running refl refl
      refl (λ f n. refl) (λ f n. refl) others_foreign others_foreign others_foreign
