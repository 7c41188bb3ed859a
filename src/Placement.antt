-- ===== src/Placement.antt =====
-- proc.c: where the tasks of a process run, and where they may. hwloc's bitmaps and what /proc holds are
-- parameters; the paths built are those of the files read, where they fit in their buffer.
pub mod Running
pub mod Allowed
use hierarchical_monitors.Prelude.{
  ℕ, zero, suc, ◌-◌, ◌+◌, Bool, true, false, Option, none, some, List, [], ◌∷◌, ◌==◌, length, take,
  drop, codes, same_string, if◌then◌else◌,
}
use hierarchical_monitors.Prelude.Int.{ℤ, pos, negsuc}

-- What the code calls of hwloc's bitmaps.
pub record Bitmaps (C : Type 0) : Type 0 where
  pub bitmap_zero : C
  pub bitmap_fill : C
  pub bitmap_set : C → ℕ → C
  pub bitmap_sscanf : List ℕ → C

-- A file `stat`: it does not open, ends before anything is scanned, or gives state and processing unit.
pub data StatFile : Type 0 where
  not_opened : StatFile
  ends : StatFile
  scanned : ℕ → ℕ → StatFile

-- `struct proc_task`
pub record ProcTask : Type 0 where
  pub pu_num : ℕ
  pub state : ℕ

abbrev pub sleeping : ℕ
sleeping = 0

abbrev pub running : ℕ
running = 1

-- 'R'
abbrev pub state_running : ℕ
state_running = 82

unfoldable pub read_proc_stats : StatFile → ProcTask → ℤ × ProcTask
read_proc_stats not_opened info = (negsuc 0, record info { state = 0 })
read_proc_stats ends info = (negsuc 0, info)
read_proc_stats (scanned state pu_num) info = (
  pos 0,
  record { pu_num = pu_num; state = if state == state_running then running else sleeping },
)

-- The directory of a task: its file `stat`, and the tasks in its directory `task`, none where that does
-- not open.
mutual
  pub data Task : Type 0 where
    task : StatFile → Tasks → Task

  pub data Tasks : Type 0 where
    nil : Tasks
    cons : Task → Tasks → Tasks

-- Whether an `int` is true, and the one before it.
unfoldable pub is_true : ℤ → Bool
is_true (pos zero) = false
is_true (pos (suc n)) = true
is_true (negsuc n) = true

unfoldable pub less_one : ℤ → ℤ
less_one (pos zero) = negsuc 0
less_one (pos (suc n)) = pos n
less_one (negsuc n) = negsuc (n + 1)

module _ {C : Type 0} (bitmaps : Bitmaps C) (stack : ProcTask) where
  -- The bitmap with the processing unit of a running task; `stack` is what stands in `task_infos` before
  -- anything is read.
  unfoldable pub set_running : StatFile → C → C
  set_running stat cpuset =
      let info = (read_proc_stats stat stack).1 in
      if info.state == running then bitmaps.bitmap_set cpuset info.pu_num else cpuset

  unfoldable mutual
    pub running_cpuset_and : Task → C → ℤ → C
    running_cpuset_and (task stat children) cpuset recurse =
        let own = set_running stat cpuset in
        let all = running_children children own (less_one recurse) in
        if is_true recurse then all else own

    pub running_children : Tasks → C → ℤ → C
    running_children nil cpuset recurse = cpuset
    running_children (cons child children) cpuset recurse =
        running_children children (running_cpuset_and child cpuset recurse) recurse

  unfoldable pub proc_get_running_cpuset : Task → ℤ → C
  proc_get_running_cpuset process recurse = running_cpuset_and process bitmaps.bitmap_zero recurse

abbrev pub token : List ℕ
token = codes "Cpus_allowed:"

-- `!strncmp(line, token, token_length)`
unfoldable pub has_token : List ℕ → Bool
has_token line = same_string (take (length token) line) token

-- The loop over the lines of the file.
unfoldable pub find_line : List (List ℕ) → Option (List ℕ)
find_line [] = none
find_line (line ∷ lines) = let rest = find_line lines in if has_token line then some line else rest

-- The text behind the token and the character after it, without the last character of the line.
unfoldable pub mask_of : List ℕ → List ℕ
mask_of line = drop (length token + 1) (take (length line - 1) line)

module _ {C : Type 0} (bitmaps : Bitmaps C) where
  -- `lines` are those of the file `status`, if it opens.
  unfoldable pub proc_get_allowed_cpuset : Option (List (List ℕ)) → C
  proc_get_allowed_cpuset none = bitmaps.bitmap_fill
  proc_get_allowed_cpuset (some lines) = elim (find_line lines) [
    | none ↦ bitmaps.bitmap_fill
    | some line ↦ bitmaps.bitmap_sscanf (mask_of line)
  ]
