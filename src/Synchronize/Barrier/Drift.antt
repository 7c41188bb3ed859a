-- ===== src/Synchronize/Barrier/Drift.antt =====
-- synchronize.c: what a call of hmon_is_uptodate during an update leads to.
use hierarchical_monitors.Prelude.{◌<◌, ◌≡◌, refl, ap, arith}
use hierarchical_monitors.Prelude.Int.{pos_part, neg_part}
use hierarchical_monitors.Synchronize.Barrier.{
  idle, System, ncores, ◌⟶◌, trigger, pass_first, pass_second, signal, restart, ◌⟶*◌,
  hmon_is_uptodate,
}
use hierarchical_monitors.Synchronize.Barrier.Rounds.{pending, announced, Behind, ⟶*_Behind}

-- A call sets the counter behind by what it showed.
is_uptodate-Behind :
    (s : System) → Behind 0 s → s.main ≡ idle → Behind (pending s.threads) (hmon_is_uptodate s).1
unfolding hmon_is_uptodate
is_uptodate-Behind s b i = omega (arith, b, ap (λ m. announced m (ncores s)) i)

-- A call of `hmon_is_uptodate` between two calls of `hmon_update`, in a state where the counter is
-- the number of threads that still have to report, and some have: once all have reported and nobody
-- asks again, no step triggers another update.
pub is_uptodate_blocks :
    (s : System) {t u : System}
    → Behind 0 s
    → s.main ≡ idle
    → 0 < pending s.threads
    → (hmon_is_uptodate s).1 ⟶* t
    → pending t.threads ≡ 0
    → t.main ≡ idle
    → t ⟶ u
    → u.main ≡ idle
is_uptodate_blocks s {t} b i some_pending steps done j (trigger idle_main zero_left) =
    let c = ⟶*_Behind (pending s.threads) steps (is_uptodate-Behind s b i) in
    absurd (
      omega (
        arith,
        c,
        ap pos_part zero_left,
        ap neg_part zero_left,
        ap (λ m. announced m (ncores t)) idle_main,
      ))
is_uptodate_blocks s b i some_pending steps done j (pass_first waiting all) = cc (j, waiting)
is_uptodate_blocks s b i some_pending steps done j (pass_second waiting all) = refl
is_uptodate_blocks s b i some_pending steps done j (signal before after e) = j
is_uptodate_blocks s b i some_pending steps done j (restart before after e) = j
