-- ===== src/Hmonitor/Lock.antt =====
-- hmonitor.c: who may touch a monitor, and starting and stopping it.
pub mod Owner
use hierarchical_monitors.Prelude.{ℕ, Bool, true, false, ◌==◌, if◌then◌else◌}
use hierarchical_monitors.Prelude.Int.{ℤ, pos, negsuc}
use hierarchical_monitors.Hmonitor.{Mutex, unlocked, locked, invalid, Hmon, PerfLib, failed}

-- What `pthread_mutex_trylock` returns: 0, EBUSY or another error.
pub data TryLock : Type 0 where
  acquired busy failure : TryLock

abbrev pub pthread_mutex_trylock : Mutex → TryLock × Mutex
pthread_mutex_trylock unlocked = (acquired, locked)
pthread_mutex_trylock locked = (busy, locked)
pthread_mutex_trylock invalid = (failure, invalid)

-- Whether `pthread_mutex_unlock` returns 0, and the mutex after it.
abbrev pub pthread_mutex_unlock : Mutex → Bool × Mutex
pthread_mutex_unlock unlocked = (true, unlocked)
pthread_mutex_unlock locked = (true, unlocked)
pthread_mutex_unlock invalid = (false, invalid)

module _ {D E : Type 0} where
  -- `wait` on a mutex held by another thread blocks: `others` is what the other threads do until the
  -- mutex is free and `pthread_mutex_lock` returns.
  unfoldable pub trylock_result :
      (Hmon D E → Hmon D E) → ℕ → Bool → TryLock → Hmon D E → ℤ × Hmon D E
  trylock_result others self wait acquired m = (pos 1, record m { owner = self })
  trylock_result others self wait failure m = (negsuc 0, m)
  trylock_result others self wait busy m =
      if m.owner == self
      then (pos 1, m)
      else if wait
      then (pos 0, record (others m) { mutex = unlocked })
      else (pos 1, record m { owner = self })

  unfoldable pub hmonitor_trylock : (Hmon D E → Hmon D E) → ℕ → Bool → Hmon D E → ℤ × Hmon D E
  unfolding trylock_result
  hmonitor_trylock others self wait m =
      let (err, mutex) = pthread_mutex_trylock m.mutex in
      trylock_result others self wait err (record m { mutex = mutex })

  -- `pthread_mutex_unlock` and the value returned after it.
  unfoldable pub unlock : Hmon D E → ℤ × Hmon D E
  unlock m =
      let (done, mutex) = pthread_mutex_unlock m.mutex in
      (if done then pos 1 else negsuc 0, record m { mutex = mutex })

  unfoldable pub hmonitor_release : ℕ → Hmon D E → ℤ × Hmon D E
  unfolding unlock
  hmonitor_release self m = if m.owner == self then unlock m else (pos 0, m)

module _ {D E : Type 0} (lib : PerfLib D E) where
  unfoldable pub start_eventset : Hmon D E → ℤ × Hmon D E
  unfolding unlock
  start_eventset m =
      let (status, eventset) = lib.eventset_start m.eventset in
      if failed status
      then (negsuc 0, record m { eventset = eventset })
      else unlock (record m { eventset = eventset; stopped = false })

  unfoldable pub hmonitor_start : ℕ → Hmon D E → ℤ × Hmon D E
  unfolding start_eventset
  hmonitor_start self m =
      if m.stopped then (if m.owner == self then start_eventset m else (pos 0, m)) else (pos 1, m)

  unfoldable pub stop_eventset : Hmon D E → ℤ × Hmon D E
  stop_eventset m =
      let (status, eventset) = lib.eventset_stop m.eventset in
      if failed status
      then (negsuc 0, record m { eventset = eventset })
      else (pos 1, record m { eventset = eventset; stopped = true })

  -- A call of `hmonitor_trylock` that does not wait, and what `hmonitor_stop` does on its result.
  unfoldable pub stop_if_locked : ℤ × Hmon D E → ℤ × Hmon D E
  unfolding stop_eventset
  stop_if_locked (pos n, m) = if n == 1 then stop_eventset m else (pos 0, m)
  stop_if_locked (negsuc n, m) = (pos 0, m)

  unfoldable pub hmonitor_stop : ℕ → Hmon D E → ℤ × Hmon D E
  unfolding stop_if_locked hmonitor_trylock
  hmonitor_stop self m =
      if m.stopped
      then (pos 1, m)
      else if m.owner == self
      then stop_eventset m
      else stop_if_locked (hmonitor_trylock (λ n. n) self false m)
