-- ===== src/Hmonitor/Lock/Owner.antt =====
-- hmonitor.c: what a call does for the owner of a monitor and for other threads.
use hierarchical_monitors.Prelude.{ℕ, Bool, true, false, ◌≡◌, ◌≢◌, refl, ap, if◌then◌else◌, arith}
use hierarchical_monitors.Prelude.Int.{pos, negsuc}
use hierarchical_monitors.Prelude.Floats.{Floats}
use hierarchical_monitors.Hmonitor.{
  unlocked, locked, invalid, Hmon, PerfLib, Timespec, failed, hmonitor_read, hmonitor_reduce,
}
use hierarchical_monitors.Hmonitor.Lock.{
  hmonitor_trylock, hmonitor_release, hmonitor_start, hmonitor_stop,
}

module _ {D E : Type 0} where
  -- `hmonitor_trylock` on a free mutex takes it and makes the caller the owner.
  pub trylock_free :
      (others : Hmon D E → Hmon D E) (self : ℕ) (wait : Bool) (m : Hmon D E)
      → m.mutex ≡ unlocked
      → hmonitor_trylock others self wait m ≡ (pos 1, record m { mutex = locked; owner = self })
  unfolding hmonitor_trylock
  trylock_free others self wait m h = ground arith

  -- On a mutex that another thread holds a waiting call returns 0 once the others have released it,
  -- and takes nothing.
  pub trylock_waits :
      (others : Hmon D E → Hmon D E) (self : ℕ) (m : Hmon D E)
      → m.mutex ≡ locked
      → m.owner ≢ self
      → hmonitor_trylock others self true m ≡ (pos 0, record (others m) { mutex = unlocked })
  unfolding hmonitor_trylock
  trylock_waits others self m h o = ground arith

  -- `hmonitor_trylock` called without waiting, on a mutex that another thread holds, makes the
  -- caller the owner and returns 1. The mutex stays locked.
  trylock_takes_over :
      (others : Hmon D E → Hmon D E) (self : ℕ) (m : Hmon D E)
      → m.mutex ≡ locked
      → m.owner ≢ self
      → hmonitor_trylock others self false m ≡ (pos 1, record m { owner = self })
  unfolding hmonitor_trylock
  trylock_takes_over others self m h o = ground arith

  -- Taking a monitor whose mutex is free and releasing it leaves the mutex free, with the caller as
  -- owner, and the release returns 1.
  pub trylock-release :
      (others : Hmon D E → Hmon D E) (self : ℕ) (wait : Bool) (m : Hmon D E)
      → m.mutex ≡ unlocked
      → hmonitor_release self (hmonitor_trylock others self wait m).1
        ≡ (pos 1, record m { owner = self })
  unfolding hmonitor_release hmonitor_trylock
  trylock-release others self wait m h = ground arith

module _ {D E : Type 0} (F : Floats D) (lib : PerfLib D E)
    (call_model : ℕ → Hmon D E → Hmon D E) where
  -- A thread that does not own the monitor cannot read, reduce, release or start it: the calls
  -- return 0 (1 for the start if it is started already) and leave it as it was.
  pub foreign_calls : (self : ℕ) (tp : Timespec) (m : Hmon D E) → m.owner ≢ self → record {
    read : hmonitor_read F lib self tp m ≡ (pos 0, m);
    reduce : hmonitor_reduce F lib call_model self m ≡ (pos 0, m);
    release : hmonitor_release self m ≡ (pos 0, m);
    start : hmonitor_start lib self m ≡ ((if m.stopped then pos 0 else pos 1), m);
  }
  unfolding hmonitor_read hmonitor_reduce hmonitor_release hmonitor_start
  foreign_calls self tp m h = record {
    read = ground arith;
    reduce = ground arith;
    release = ground arith;
    start = ground arith;
  }

  -- On a monitor whose mutex is free two threads can call `hmonitor_trylock` and both get 1, the
  -- second without waiting. The first one's read, reduction and release then return 0 and change
  -- nothing, and the second one's release frees the mutex.
  pub trylock_twice :
      (others : Hmon D E → Hmon D E) (first second : ℕ) (wait : Bool) (tp : Timespec) (m : Hmon D E)
      → m.mutex ≡ unlocked
      → first ≢ second
      → let taken = hmonitor_trylock others first wait m in
        let again = hmonitor_trylock others second false taken.1 in
        (taken.0 ≡ pos 1)
        × (again.0 ≡ pos 1)
        × (hmonitor_read F lib first tp again.1 ≡ (pos 0, again.1))
        × (hmonitor_reduce F lib call_model first again.1 ≡ (pos 0, again.1))
        × (hmonitor_release first again.1 ≡ (pos 0, again.1))
        × (hmonitor_release second again.1 ≡ (pos 1, record m { owner = second }))
  unfolding hmonitor_trylock hmonitor_read hmonitor_reduce hmonitor_release
  trylock_twice others first second wait tp m free apart =
      (ground arith, ground arith, ground arith, ground arith, ground arith, ground arith)

module _ {D E : Type 0} (lib : PerfLib D E) where
  -- The owner's `hmonitor_stop` takes no lock: another thread's `hmonitor_trylock` after it takes the
  -- monitor, and the owner from before cannot start it again.
  stop-trylock :
      (others : Hmon D E → Hmon D E) (self other : ℕ) (wait : Bool) (m : Hmon D E)
      → m.stopped ≡ false
      → m.owner ≡ self
      → m.mutex ≡ unlocked
      → self ≢ other
      → failed (lib.eventset_stop m.eventset).0 ≡ false
      → let taken = hmonitor_trylock others other wait (hmonitor_stop lib self m).1 in
        (taken.0 ≡ pos 1)
        × (taken.1.owner ≡ other)
        × (hmonitor_start lib self taken.1 ≡ (pos 0, taken.1))
  unfolding hmonitor_stop hmonitor_trylock hmonitor_start
  stop-trylock others self other wait m running mine free apart stops =
      (ground arith, ground arith, ground arith)

  -- `hmonitor_stop` on a running monitor whose mutex works, called by any thread, calls
  -- `eventset_stop`: if that fails it returns -1 and the monitor runs on, and else it returns 1 and
  -- the monitor is stopped. The caller owns the monitor afterwards.
  pub stop_lem :
      (self : ℕ) (m : Hmon D E)
      → m.stopped ≡ false
      → m.mutex ≢ invalid
      → let (result, after) = hmonitor_stop lib self m in
        (result ≡ (if failed (lib.eventset_stop m.eventset).0 then negsuc 0 else pos 1))
        × (after.stopped ≡ (if failed (lib.eventset_stop m.eventset).0 then false else true))
        × (after.eventset ≡ (lib.eventset_stop m.eventset).1)
        × (after.owner ≡ self)
  unfolding hmonitor_stop
  stop_lem self m running works = ground arith

  started_by_owner :
      (self : ℕ) (m : Hmon D E)
      → m.stopped ≡ true
      → m.owner ≡ self
      → m.mutex ≢ invalid
      → failed (lib.eventset_start m.eventset).0 ≡ false
      → hmonitor_start lib self m ≡ (
        pos 1,
        record m {
          eventset = (lib.eventset_start m.eventset).1;
          stopped = false;
          mutex = unlocked;
        },
      )
  unfolding hmonitor_start
  started_by_owner self m h o works s = ground arith

  stopped_by_owner :
      (self : ℕ) (m : Hmon D E)
      → m.stopped ≡ false
      → m.owner ≡ self
      → failed (lib.eventset_stop m.eventset).0 ≡ false
      → hmonitor_stop lib self m
        ≡ (pos 1, record m { eventset = (lib.eventset_stop m.eventset).1; stopped = true })
  unfolding hmonitor_stop
  stopped_by_owner self m h o s = ground arith

  -- The owner of a stopped monitor whose mutex works starts it and stops it again: both calls
  -- succeed where the performance library does, only the eventset changes, and the mutex is free.
  pub start-stop :
      (self : ℕ) (m : Hmon D E)
      → m.stopped ≡ true
      → m.owner ≡ self
      → m.mutex ≢ invalid
      → failed (lib.eventset_start m.eventset).0 ≡ false
      → failed (lib.eventset_stop (lib.eventset_start m.eventset).1).0 ≡ false
      → ((hmonitor_start lib self m).0 ≡ pos 1)
        × (hmonitor_stop lib self (hmonitor_start lib self m).1 ≡ (
          pos 1,
          record m {
            eventset = (lib.eventset_stop (lib.eventset_start m.eventset).1).1;
            stopped = true;
            mutex = unlocked;
          },
        ))
  start-stop self m h o works s t =
      (ap (λ r. r.0) started, rw started (stopped_by_owner self _ refl o t))
    where
      started : hmonitor_start lib self m ≡ (
        pos 1,
        record m {
          eventset = (lib.eventset_start m.eventset).1;
          stopped = false;
          mutex = unlocked;
        },
      )
      started = started_by_owner self m h o works s
