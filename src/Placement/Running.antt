-- ===== src/Placement/Running.antt =====
-- proc.c: the processing units of the running tasks.
use native.Mathlib.Decide.{ℕ_discrete}
use hierarchical_monitors.Prelude.{
  ℕ, ◌≡◌, Bool, true, false, ◌||◌, ◌==◌, Bool-cases, inl, inr, ◌⊎◌, arith,
}
use hierarchical_monitors.Prelude.Int.{ℤ}
use hierarchical_monitors.Placement.{
  Bitmaps, StatFile, ProcTask, running, read_proc_stats, Task, task, Tasks, nil, cons, is_true,
  less_one, set_running, running_cpuset_and, running_children, proc_get_running_cpuset,
}

-- What hwloc documents of its bitmaps.
pub record IsBitmaps {C : Type 0} (bitmaps : Bitmaps C) : Type 0 where
  pub member : C → ℕ → Bool
  pub zero_lem : (i : ℕ) → member bitmaps.bitmap_zero i ≡ false
  pub set_lem : (c : C) (p i : ℕ) → member (bitmaps.bitmap_set c p) i ≡ (p == i) || member c i

-- A task runs on the processing unit `i`, by what is read of it.
abbrev pub IsOn : ProcTask → ℕ → StatFile → Type 0
IsOn stack i stat =
    let info = (read_proc_stats stat stack).1 in (info.state ≡ running) × (info.pu_num ≡ i)

-- A task at most `recurse` levels below this one, itself among them, runs on `i`; a negative `recurse`
-- sets no limit.
mutual
  pub data RunsOn (stack : ProcTask) (i : ℕ) : ℤ → Task → Type 0 where
    itself :
        {recurse : ℤ} {stat : StatFile} {children : Tasks}
        → IsOn stack i stat
        → RunsOn stack i recurse (task stat children)
    below :
        {recurse : ℤ} {stat : StatFile} {children : Tasks}
        → is_true recurse ≡ true
        → OneRunsOn stack i (less_one recurse) children
        → RunsOn stack i recurse (task stat children)

  pub data OneRunsOn (stack : ProcTask) (i : ℕ) : ℤ → Tasks → Type 0 where
    first :
        {recurse : ℤ} {child : Task} {children : Tasks}
        → RunsOn stack i recurse child
        → OneRunsOn stack i recurse (cons child children)
    later :
        {recurse : ℤ} {child : Task} {children : Tasks}
        → OneRunsOn stack i recurse children
        → OneRunsOn stack i recurse (cons child children)

module _ {C : Type 0} {bitmaps : Bitmaps C} (laws : IsBitmaps bitmaps) (stack : ProcTask)
    (i : ℕ) where
  set_old :
      (stat : StatFile) (c : C)
      → laws.member c i ≡ true
      → laws.member (set_running bitmaps stack stat c) i ≡ true
  unfolding set_running
  set_old stat c h = ground (arith, laws.set_lem c (read_proc_stats stat stack).1.pu_num i)

  set_new :
      (stat : StatFile) (c : C)
      → IsOn stack i stat
      → laws.member (set_running bitmaps stack stat c) i ≡ true
  unfolding set_running
  set_new stat c h =
      ground (arith, laws.set_lem c (read_proc_stats stat stack).1.pu_num i, h.0, h.1)

  set_cases :
      (stat : StatFile) (c : C)
      → laws.member (set_running bitmaps stack stat c) i ≡ true
      → IsOn stack i stat ⊎ (laws.member c i ≡ true)
  unfolding set_running
  set_cases stat c h =
      let info = (read_proc_stats stat stack).1 in
      elim (ℕ_discrete info.state running) [
        | no s ↦ inr (ground (arith, h))
        | yes s ↦ elim (ℕ_discrete info.pu_num i) [
          | yes p ↦ inl (s, p)
          | no p ↦ inr (ground (arith, laws.set_lem c info.pu_num i, h))
        ]
      ]

  mutual
    unfolding running_cpuset_and running_children

    and_old :
        (t : Task) (c : C) (recurse : ℤ)
        → laws.member c i ≡ true
        → laws.member (running_cpuset_and bitmaps stack t c recurse) i ≡ true
    and_old (task stat children) c recurse h =
        let own = set_old stat c h in
        let all = children_old children (set_running bitmaps stack stat c) (less_one recurse) own in
        ground (arith, own, all)

    children_old :
        (ts : Tasks) (c : C) (recurse : ℤ)
        → laws.member c i ≡ true
        → laws.member (running_children bitmaps stack ts c recurse) i ≡ true
    children_old nil c recurse h = h
    children_old (cons t ts) c recurse h =
        children_old ts (running_cpuset_and bitmaps stack t c recurse) recurse
          (and_old t c recurse h)

  own_cases :
      (stat : StatFile) (children : Tasks) (c : C) (recurse : ℤ)
      → laws.member (set_running bitmaps stack stat c) i ≡ true
      → RunsOn stack i recurse (task stat children) ⊎ (laws.member c i ≡ true)
  own_cases stat children c recurse h = elim (set_cases stat c h) [
    | inl on ↦ inl (itself on)
    | inr old ↦ inr old
  ]

  mutual
    unfolding running_cpuset_and running_children

    and_cases :
        (t : Task) (c : C) (recurse : ℤ)
        → laws.member (running_cpuset_and bitmaps stack t c recurse) i ≡ true
        → RunsOn stack i recurse t ⊎ (laws.member c i ≡ true)
    and_cases (task stat children) c recurse h = elim (Bool-cases (is_true recurse)) [
      | inl r ↦
          elim (children_cases children (set_running bitmaps stack stat c) (less_one recurse)
            (ground (arith, h, r))) [
              | inl run ↦ inl (below r run)
              | inr own ↦ own_cases stat children c recurse own
            ]
      | inr r ↦ own_cases stat children c recurse (ground (arith, h, r))
    ]

    children_cases :
        (ts : Tasks) (c : C) (recurse : ℤ)
        → laws.member (running_children bitmaps stack ts c recurse) i ≡ true
        → OneRunsOn stack i recurse ts ⊎ (laws.member c i ≡ true)
    children_cases nil c recurse h = inr h
    children_cases (cons t ts) c recurse h =
        elim (children_cases ts (running_cpuset_and bitmaps stack t c recurse) recurse h) [
          | inl run ↦ inl (later run)
          | inr own ↦ elim (and_cases t c recurse own) [
            | inl run ↦ inl (first run)
            | inr old ↦ inr old
          ]
        ]

  mutual
    unfolding running_cpuset_and running_children

    and_new :
        (t : Task) (c : C) (recurse : ℤ)
        → RunsOn stack i recurse t
        → laws.member (running_cpuset_and bitmaps stack t c recurse) i ≡ true
    and_new (task stat children) c recurse (itself on) =
        let own = set_new stat c on in
        let all = children_old children (set_running bitmaps stack stat c) (less_one recurse) own in
        ground (arith, own, all)
    and_new (task stat children) c recurse (below r run) =
        let all = children_new children (set_running bitmaps stack stat c) (less_one recurse) run in
        ground (arith, r, all)

    children_new :
        (ts : Tasks) (c : C) (recurse : ℤ)
        → OneRunsOn stack i recurse ts
        → laws.member (running_children bitmaps stack ts c recurse) i ≡ true
    children_new nil c recurse run = elim run [ ]
    children_new (cons t ts) c recurse (first run) =
        children_old ts (running_cpuset_and bitmaps stack t c recurse) recurse
          (and_new t c recurse run)
    children_new (cons t ts) c recurse (later run) =
        children_new ts (running_cpuset_and bitmaps stack t c recurse) recurse run

  -- With bitmaps as hwloc documents them, a processing unit is in the running cpuset of a process
  -- exactly if the process, or a task at most `recurse` levels below it, runs there by what is read
  -- of it; a negative `recurse` sets no limit.
  pub running_lem :
      (process : Task) (recurse : ℤ)
      → (RunsOn stack i recurse process
          → laws.member (proc_get_running_cpuset bitmaps stack process recurse) i ≡ true)
        × (laws.member (proc_get_running_cpuset bitmaps stack process recurse) i ≡ true
            → RunsOn stack i recurse process)
  unfolding proc_get_running_cpuset
  running_lem process recurse = (
    and_new process bitmaps.bitmap_zero recurse,
    λ h. elim (and_cases process bitmaps.bitmap_zero recurse h) [
      | inl run ↦ run
      | inr old ↦ cc (old, laws.zero_lem i)
    ],
  )
