-- ===== src/Synchronize/Exclusion.antt =====
-- synchronize.c: while one thread updates a monitor the others' calls change nothing.
use hierarchical_monitors.Prelude.{
  ℕ, ◌+◌, ◌%◌, ◌≡◌, ◌≢◌, refl, ap, ◌∙◌, true, false, none, List, [], ◌∷◌, ◌++◌, arith,
}
use hierarchical_monitors.Prelude.Floats.{Floats}
use hierarchical_monitors.Hmonitor.{
  u32_mod, unlocked, Hmon, PerfLib, Timespec, failed, hmonitor_get_events, advance, read_row,
  run_model, update_extrema, hmonitor_read, hmonitor_reduce,
}
use hierarchical_monitors.Hmonitor.Lock.{hmonitor_start, hmonitor_stop}
use hierarchical_monitors.Synchronize.{
  Call, stop, read, reduce, start, perform, perform_all, thread_calls,
}

-- None of the calls is one of thread `self`.
abbrev pub AllForeign : ℕ → List (ℕ × Call) → Type 0
AllForeign self [] = Unit
AllForeign self ((thread, call) ∷ calls) = (self ≢ thread) × AllForeign self calls

module _ {D E : Type 0} (F : Floats D) (lib : PerfLib D E)
    (call_model : ℕ → Hmon D E → Hmon D E) where
  foreign_call :
      (thread : ℕ) (call : Call) (m : Hmon D E)
      → m.stopped ≡ true
      → m.owner ≢ thread
      → perform F lib call_model thread call m ≡ m
  unfolding perform hmonitor_stop hmonitor_read hmonitor_reduce hmonitor_start
  foreign_call thread stop m h o = ground arith
  foreign_call thread (read tp) m h o = ground arith
  foreign_call thread reduce m h o = ground arith
  foreign_call thread start m h o = ground arith

  -- A stopped monitor stays as it is through any calls, in any order, of threads that do not own
  -- it.
  pub perform_all_foreign :
      (calls : List (ℕ × Call)) (m : Hmon D E)
      → m.stopped ≡ true
      → AllForeign m.owner calls
      → perform_all F lib call_model calls m ≡ m
  unfolding perform_all
  perform_all_foreign [] m h o = refl
  perform_all_foreign ((thread, call) ∷ calls) m h o =
      let same = foreign_call thread call m h o.0 in rw same (perform_all_foreign calls m h o.1)

  perform_all-append :
      (before after : List (ℕ × Call)) (m : Hmon D E)
      → perform_all F lib call_model (before ++ after) m
        ≡ perform_all F lib call_model after (perform_all F lib call_model before m)
  unfolding perform_all
  perform_all-append [] after m = refl
  perform_all-append ((thread, call) ∷ before) after m =
      perform_all-append before after (perform F lib call_model thread call m)

  -- Calls of others between two calls of the owner of a stopped monitor can be left out.
  skip_foreign :
      (others calls : List (ℕ × Call)) (m : Hmon D E)
      → m.stopped ≡ true
      → AllForeign m.owner others
      → perform_all F lib call_model (others ++ calls) m ≡ perform_all F lib call_model calls m
  skip_foreign others calls m h o =
      perform_all-append others calls m
      ∙ ap (perform_all F lib call_model calls) (perform_all_foreign others m h o)

  stop_takes :
      (self : ℕ) (m : Hmon D E)
      → m.stopped ≡ false
      → m.mutex ≡ unlocked
      → failed (lib.eventset_stop m.eventset).0 ≡ false
      → ((perform F lib call_model self stop m).stopped ≡ true)
        × ((perform F lib call_model self stop m).owner ≡ self)
  unfolding perform hmonitor_stop
  stop_takes self m running free done = ground arith

  read_keeps :
      (self : ℕ) (tp : Timespec) (m : Hmon D E)
      → ((perform F lib call_model self (read tp) m).stopped ≡ m.stopped)
        × ((perform F lib call_model self (read tp) m).owner ≡ m.owner)
  unfolding perform hmonitor_read read_row advance
  read_keeps self tp m = ground arith

  reduce_keeps :
      (self : ℕ) (m : Hmon D E)
      → ((f : ℕ) (n : Hmon D E) → (call_model f n).stopped ≡ n.stopped)
      → ((f : ℕ) (n : Hmon D E) → (call_model f n).owner ≡ n.owner)
      → ((perform F lib call_model self reduce m).stopped ≡ m.stopped)
        × ((perform F lib call_model self reduce m).owner ≡ m.owner)
  unfolding perform hmonitor_reduce update_extrema run_model
  reduce_keeps self m s o = grind arith

  -- One thread's update of a running monitor whose mutex is free, with each of its four calls
  -- (stop, read, reduce, start) taken as one step: however many of these four calls other threads
  -- make on the monitor between them, in whatever order, the monitor ends as if it had been alone,
  -- where stopping the eventset succeeds and reduction functions keep the owner and whether the
  -- monitor is stopped.
  pub update_exclusive :
      (self : ℕ) (tp : Timespec) (first second third : List (ℕ × Call)) (m : Hmon D E)
      → m.stopped ≡ false
      → m.mutex ≡ unlocked
      → failed (lib.eventset_stop m.eventset).0 ≡ false
      → ((f : ℕ) (n : Hmon D E) → (call_model f n).stopped ≡ n.stopped)
      → ((f : ℕ) (n : Hmon D E) → (call_model f n).owner ≡ n.owner)
      → AllForeign self first
      → AllForeign self second
      → AllForeign self third
      → perform_all F lib call_model
          ((self, stop)
            ∷ (first
                ++ (self, read tp) ∷ (second ++ (self, reduce) ∷ (third ++ (self, start) ∷ []))))
          m
        ≡ perform_all F lib call_model (thread_calls self tp) m
  unfolding perform_all thread_calls
  update_exclusive self tp first second third m running free done s o a b c =
      let (stopped, mine) = stop_takes self m running free done in
      let m1 = perform F lib call_model self stop m in
      let m2 = perform F lib call_model self (read tp) m1 in
      let m3 = perform F lib call_model self reduce m2 in
      let (stopped2, mine2) = read_keeps self tp m1 in
      let (stopped3, mine3) = reduce_keeps self m2 s o in
      skip_foreign first
        ((self, read tp) ∷ (second ++ (self, reduce) ∷ (third ++ (self, start) ∷ []))) m1 stopped
        (rw mine a)
      ∙ skip_foreign second ((self, reduce) ∷ (third ++ (self, start) ∷ [])) m2 (stopped2 ∙ stopped)
          (rw (mine2, mine) b)
      ∙ skip_foreign third ((self, start) ∷ []) m3 (stopped3 ∙ stopped2 ∙ stopped)
          (rw (mine3, mine2, mine) c)

  -- A thread's update of a running monitor whose mutex is free, where stopping and starting the
  -- eventset succeed and no reduction function is set: `last` moves once, the read is counted once,
  -- and the monitor runs again, with its mutex free and the thread as owner.
  update_round :
      (self : ℕ) (tp : Timespec) (m : Hmon D E)
      → m.stopped ≡ false
      → m.mutex ≡ unlocked
      → m.model ≡ none
      → failed (lib.eventset_stop m.eventset).0 ≡ false
      → ((e : E) → failed (lib.eventset_start e).0 ≡ false)
      → let after = perform_all F lib call_model (thread_calls self tp) m in
        (after.stopped ≡ false)
        × (after.mutex ≡ unlocked)
        × (after.owner ≡ self)
        × (after.last ≡ (m.last + 1) % u32_mod % m.window)
        × (after.total ≡ (m.total + 1) % u32_mod)
  unfolding perform_all thread_calls perform hmonitor_stop hmonitor_read hmonitor_reduce
      hmonitor_start read_row advance update_extrema run_model
  update_round self tp m running free no_model stops starts = ground (
    arith,
    starts
        (lib.eventset_read (lib.eventset_stop m.eventset).1
          (hmonitor_get_events (advance F lib tp m) (advance F lib tp m).last)).1,
  )
