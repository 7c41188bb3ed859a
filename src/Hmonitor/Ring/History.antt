-- ===== src/Hmonitor/Ring/History.antt =====
-- hmonitor.c: how long a row of the ring can be read back.
use native.Mathlib.Decide.{dec_lt}
use native.Mathlib.Nat.{add-zero, mod-add-mod, mod-eq_of_lt}
use hierarchical_monitors.Prelude.{
  ℕ, suc, ◌+◌, ◌%◌, ◌≤◌, ◌<◌, ◌≡◌, ◌≢◌, ◌⊎◌, inl, inr, refl, ap, sym, ◌∙◌, List, [], ◌∷◌, length,
  arith,
}
use hierarchical_monitors.Prelude.Floats.{Floats}
use hierarchical_monitors.Hmonitor.{Hmon, PerfLib, Timespec, hmonitor_get_event, hmonitor_read}
use hierarchical_monitors.Hmonitor.Ring.{
  ReadsRows, IsValid, after_read, after_read-IsValid, owner_reads,
}
use hierarchical_monitors.Hmonitor.Ring.Read.{read_other_rows}

-- The read `d` reads before the last one of a ring of `w` places went to place `j`.
abbrev Ago : ℕ → ℕ → ℕ → ℕ → Type 0
Ago w last j d = (j + d ≡ last) ⊎ (j + d ≡ last + w)

next_cases :
    (w last : ℕ)
    → last < w
    → ((last + 1 < w) × ((last + 1) % w ≡ last + 1)) ⊎ ((last + 1 ≡ w) × ((last + 1) % w ≡ 0))
next_cases w last h = elim (dec_lt (last + 1) w) [
  | yes more ↦ inl (more, mod-eq_of_lt more)
  | no end ↦ inr (omega arith, grind arith)
]

-- One more read, of a ring that has room for it, leaves that place alone.
Ago-next :
    (w last j d : ℕ)
    → last < w
    → j < w
    → suc d < w
    → Ago w last j d
    → Ago w ((last + 1) % w) j (suc d) × (j ≢ (last + 1) % w)
Ago-next w last j d h k l (inl e) = elim (next_cases w last h) [
  | inl (p, q) ↦ (inl (omega arith), omega arith)
  | inr (p, q) ↦ (inr (omega arith), omega arith)
]
Ago-next w last j d h k l (inr e) = elim (next_cases w last h) [
  | inl (p, q) ↦ (inr (omega arith), omega arith)
  | inr (p, q) ↦ absurd (omega arith)
]

module _ {D E : Type 0} (F : Floats D) {lib : PerfLib D E} (reads : ReadsRows lib) (self : ℕ) where
  -- The owner's reads, one at each time given.
  unfoldable pub read_all : List Timespec → Hmon D E → Hmon D E
  read_all [] m = m
  read_all (tp ∷ tps) m = read_all tps (hmonitor_read F lib self tp m).1

  row_stays :
      (tps : List Timespec) (m : Hmon D E) (j d c : ℕ)
      → IsValid reads m
      → m.owner ≡ self
      → j < m.window
      → d + length tps < m.window
      → Ago m.window m.last j d
      → c ≤ m.n_events
      → hmonitor_get_event F lib (read_all tps m) j c ≡ hmonitor_get_event F lib m j c
  unfolding read_all
  row_stays [] m j d c v h k l a n = refl
  row_stays (tp ∷ tps) m j d c v h k l a n =
      let (ago, ne) = Ago-next m.window m.last j d v.inside k (omega arith) a in
      let same = read_other_rows F reads v self j c tp h k ne n in
      rw (owner_reads F reads v self tp h) (
        row_stays tps (after_read F reads v tp) j (suc d) c (after_read-IsValid F reads v tp) h k
          (omega arith) ago n
        ∙ (rw (owner_reads F reads v self tp h) at same))

  -- On a valid monitor, events and timestamp of the last read stay where they are through fewer
  -- than `window` further reads by the owner, whatever those read.
  pub row_stays_for_window :
      (tps : List Timespec) (m : Hmon D E) (c : ℕ)
      → IsValid reads m
      → m.owner ≡ self
      → length tps < m.window
      → c ≤ m.n_events
      → hmonitor_get_event F lib (read_all tps m) m.last c ≡ hmonitor_get_event F lib m m.last c
  row_stays_for_window tps m c v h l n =
      row_stays tps m m.last 0 c v h v.inside (omega arith) (inl (omega arith)) n

  -- On a valid monitor the owner's `k` reads move `last` to `(last + k) % window`.
  pub last-read_all :
      (tps : List Timespec) (m : Hmon D E)
      → IsValid reads m
      → m.owner ≡ self
      → (read_all tps m).last ≡ (m.last + length tps) % m.window
  unfolding read_all
  last-read_all [] m v h = rw add-zero (sym (mod-eq_of_lt v.inside))
  last-read_all (tp ∷ tps) m v h =
      ap (λ n. (read_all tps n).last) (owner_reads F reads v self tp h)
      ∙ last-read_all tps (after_read F reads v tp) (after_read-IsValid F reads v tp) h
      ∙ rw mod-add-mod (ap (λ k. k % m.window) (omega arith))
