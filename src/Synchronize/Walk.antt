-- ===== src/Synchronize/Walk.antt =====
-- synchronize.c: the walk of hmon_update_location over the topology, and the passes of hmonitor_thread.
pub mod Passes
use hierarchical_monitors.Prelude.{
  ℕ, zero, suc, Bool, true, false, List, [], ◌∷◌, ◌==◌, if◌then◌else◌,
}
use hierarchical_monitors.Prelude.Floats.{Floats}
use hierarchical_monitors.Hmonitor.{Hmon, PerfLib, Timespec}
use hierarchical_monitors.Synchronize.{Call, stop, read, reduce, start, perform}

-- An object of the topology with the pointers in its `userdata`, none where that is NULL, and the objects
-- below it.
mutual
  pub data Location : Type 0 where
    location : List ℕ → Locations → Location

  pub data Locations : Type 0 where
    nil : Locations
    cons : Location → Locations → Locations

module _ {A : Type 0} where
  -- A call that changes the monitor alone that it is given.
  abbrev pub on_one : (ℕ → A → A) → ℕ → (ℕ → A) → ℕ → A
  on_one call p store q = if q == p then call p (store p) else store q

  -- `hmonitors_do(hmons, call)`, on a store of what the pointers point to; a call may change others too.
  unfoldable pub hmonitors_do : (ℕ → (ℕ → A) → ℕ → A) → List ℕ → (ℕ → A) → ℕ → A
  hmonitors_do call [] store = store
  hmonitors_do call (p ∷ ps) store = hmonitors_do call ps (call p store)

  -- The calls that go down, and those on the children of an object.
  unfoldable mutual
    unfolding hmonitors_do

    pub update_down : (ℕ → (ℕ → A) → ℕ → A) → Location → (ℕ → A) → ℕ → A
    update_down call (location monitors children) store =
        update_children call children (hmonitors_do call monitors store)

    pub update_children : (ℕ → (ℕ → A) → ℕ → A) → Locations → (ℕ → A) → ℕ → A
    update_children call nil store = store
    update_children call (cons child children) store =
        update_children call children (update_down call child store)

  -- The calls that go up: the monitors of the parent, of its parent and so on.
  unfoldable pub update_up : (ℕ → (ℕ → A) → ℕ → A) → List (List ℕ) → (ℕ → A) → ℕ → A
  unfolding hmonitors_do
  update_up call [] store = store
  update_up call (monitors ∷ parents) store =
      update_up call parents (hmonitors_do call monitors store)

  unfoldable pub hmon_update_location :
      (ℕ → (ℕ → A) → ℕ → A) → Bool → Bool → Location → List (List ℕ) → (ℕ → A) → ℕ → A
  unfolding hmonitors_do update_down update_up
  hmon_update_location call recurse_down recurse_up (location monitors children) parents store =
      let here = hmonitors_do call monitors store in
      let below = if recurse_down then update_children call children here else here in
      if recurse_up then update_up call parents below else below

module _ {D E : Type 0} (F : Floats D) (lib : PerfLib D E)
    (call_model : ℕ → Hmon D E → Hmon D E) where
  -- A call on the monitor `p`, of which `nested` is what its performance library does to other monitors:
  -- those of the hierarchical and the accumulating plugin read, reduce and reset their children.
  unfoldable pub perform_on :
      (ℕ → Call → (ℕ → Hmon D E) → ℕ → Hmon D E) → ℕ → Call → ℕ → (ℕ → Hmon D E) → ℕ → Hmon D E
  perform_on nested self call p store q =
      let after = nested p call store in
      if q == p then perform F lib call_model self call (after p) else after q

  -- One round of the loop of `hmonitor_thread` between two barriers; `clock` is when a monitor is read.
  unfoldable pub thread_round :
      (ℕ → Call → (ℕ → Hmon D E) → ℕ → Hmon D E)
      → ℕ
      → (ℕ → Timespec)
      → Location
      → List (List ℕ)
      → (ℕ → Hmon D E)
      → ℕ
      → Hmon D E
  unfolding hmon_update_location perform
  thread_round nested self clock core parents store =
      let pass = λ (call : ℕ → Call) (s : ℕ → Hmon D E).
        hmon_update_location (λ p. perform_on nested self (call p) p) true true core parents s in
      pass (λ p. start) (pass (λ p. reduce) (pass (λ p. read (clock p)) (pass (λ p. stop) store)))
