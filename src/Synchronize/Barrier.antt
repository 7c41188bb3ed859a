-- ===== src/Synchronize/Barrier.antt =====
-- synchronize.c: hmon_update, hmonitor_thread and hmon_is_uptodate, which meet at the barrier and share
-- the counter `uptodate`. `pthread_barrier_wait` lets nobody pass before all have come.
pub mod Rounds
pub mod Drift
pub mod Progress
use hierarchical_monitors.Prelude.{
  ℕ, zero, suc, ◌+◌, ◌≡◌, ◌≢◌, Bool, true, false, List, [], ◌∷◌, ◌++◌, length, replicate,
}
use hierarchical_monitors.Prelude.Int.{ℤ, pos, negsuc, ◌-ℤ◌}

-- Where a thread of `hmonitor_thread` is: at the first barrier, at the second, before it signals that it
-- is up to date, or between that and the next round.
pub data Phase : Type 0 where
  at_first at_second updating restarting : Phase

-- Where the thread of `hmon_update` is.
pub data Main : Type 0 where
  idle waiting_first waiting_second : Main

pub record System : Type 0 where
  pub uptodate : ℤ
  pub main : Main
  pub threads : List Phase

-- `ncores` is the number of threads.
abbrev pub ncores : System → ℕ
ncores s = length s.threads

abbrev pub AllAt : Phase → System → Type 0
AllAt p s = s.threads ≡ replicate (ncores s) p

-- `hmon_update` where the compare-and-swap of `uptodate` succeeds, the two barriers, and what a thread
-- does on its own. A compare-and-swap that fails changes nothing.
infix 40 ◌⟶◌
pub data ◌⟶◌ : System → System → Type 0 where
  trigger :
      {s : System}
      → s.main ≡ idle
      → s.uptodate ≡ pos 0
      → s ⟶ record s { uptodate = pos (ncores s); main = waiting_first }
  pass_first :
      {s : System}
      → s.main ≡ waiting_first
      → AllAt at_first s
      → s ⟶ record s { main = waiting_second; threads = replicate (ncores s) at_second }
  pass_second :
      {s : System}
      → s.main ≡ waiting_second
      → AllAt at_second s
      → s ⟶ record s { main = idle; threads = replicate (ncores s) updating }
  signal :
      {s : System} (before after : List Phase)
      → s.threads ≡ before ++ updating ∷ after
      → s ⟶ record s { uptodate = s.uptodate -ℤ pos 1; threads = before ++ restarting ∷ after }
  restart :
      {s : System} (before after : List Phase)
      → s.threads ≡ before ++ restarting ∷ after
      → s ⟶ record s { threads = before ++ at_first ∷ after }

-- `hmon_is_uptodate`: `__sync_fetch_and_and` with 0 clears the counter that it returns.
unfoldable pub hmon_is_uptodate : System → ℤ × System
hmon_is_uptodate s = (s.uptodate, record s { uptodate = pos 0 })

infix 40 ◌⟶*◌
pub data ◌⟶*◌ (s : System) : System → Type 0 where
  here : s ⟶* s
  then : {t u : System} → s ⟶* t → t ⟶ u → s ⟶* u

-- After `hmon_lib_init`.
unfoldable pub initial : ℕ → System
initial n = record { uptodate = pos 0; main = idle; threads = replicate n at_first }
