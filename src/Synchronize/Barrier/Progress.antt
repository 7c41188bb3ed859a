-- ===== src/Synchronize/Barrier/Progress.antt =====
-- synchronize.c: an update that was triggered can always be brought to its end.
use mathlib.Core.List.{append-nil}
use mathlib.Core.Path.{subst}
use hierarchical_monitors.Prelude.{
  ℕ, zero, suc, ◌≡◌, ◌≢◌, ◌⊎◌, inl, inr, refl, ap, sym, ◌∙◌, List, [], ◌∷◌, ◌++◌, length,
  length-replicate, replicate, arith,
}
use hierarchical_monitors.Prelude.Int.{ℤ, pos, ◌-ℤ◌, eq_of_parts}
use hierarchical_monitors.Synchronize.Barrier.{
  Phase, at_first, at_second, updating, restarting, Main, idle, waiting_first, waiting_second,
  System, ncores, AllAt, ◌⟶◌, trigger, pass_first, pass_second, signal, restart, ◌⟶*◌, here, then,
  initial,
}
use hierarchical_monitors.Synchronize.Barrier.Rounds.{
  pending, announced, ⟶*_Behind, initial-Behind, pending-replicate_first,
}

-- No thread waits at the second barrier.
abbrev pub NoneAtSecond : List Phase → Type 0
NoneAtSecond [] = Unit
NoneAtSecond (p ∷ ps) = (p ≢ at_second) × NoneAtSecond ps

-- The threads wait at the second barrier all together, and only while `hmon_update` does.
abbrev pub Together : System → Type 0
Together s = elim s.main [
  | idle ↦ NoneAtSecond s.threads
  | waiting_first ↦ NoneAtSecond s.threads
  | waiting_second ↦ AllAt at_second s
]

shift :
    (i : ℕ) (ps : List Phase)
    → replicate i at_first ++ at_first ∷ ps ≡ replicate (suc i) at_first ++ ps
shift zero ps = refl
shift (suc i) ps = rw (shift i ps)

trans : {s t u : System} → s ⟶* t → t ⟶* u → s ⟶* u
trans a here = a
trans a (then b step) = then (trans a b) step

is_replicate :
    (i : ℕ) (ps : List Phase) (p : Phase) → ps ≡ replicate i p → ps ≡ replicate (length ps) p
is_replicate i ps p e =
    e ∙ ap (λ n. replicate n p) (omega (arith, ap length e, length-replicate i p))

-- The threads from index `i` on go to the first barrier, one after the other.
settle_from :
    (i : ℕ) (rest : List Phase) (s : System)
    → s.threads ≡ replicate i at_first ++ rest
    → NoneAtSecond rest
    → (t : System) × (s ⟶* t) × (t.main ≡ s.main) × AllAt at_first t
settle_from i [] s e h =
    (s, here, refl, is_replicate i s.threads at_first (e ∙ append-nil (replicate i at_first)))
settle_from i (at_first ∷ rest) s e h = settle_from (suc i) rest s (e ∙ shift i rest) h.1
settle_from i (at_second ∷ rest) s e h = absurd (h.0 refl)
settle_from i (updating ∷ rest) s e h =
    let signalled : System = record s {
      uptodate = s.uptodate -ℤ pos 1;
      threads = replicate i at_first ++ restarting ∷ rest;
    } in
    let restarted : System = record signalled {
      threads = replicate i at_first ++ at_first ∷ rest;
    } in
    let (t, steps, main, all) = settle_from (suc i) rest restarted (shift i rest) h.1 in
    (
      t,
      trans
          (then (then here (signal (replicate i at_first) rest e))
            (restart (replicate i at_first) rest refl))
          steps,
      main,
      all,
    )
settle_from i (restarting ∷ rest) s e h =
    let restarted : System = record s { threads = replicate i at_first ++ at_first ∷ rest } in
    let (t, steps, main, all) = settle_from (suc i) rest restarted (shift i rest) h.1 in
    (t, trans (then here (restart (replicate i at_first) rest e)) steps, main, all)

Main-cases : (m : Main) → (m ≡ idle) ⊎ ((m ≡ waiting_first) ⊎ (m ≡ waiting_second))
Main-cases idle = inl refl
Main-cases waiting_first = inr (inl refl)
Main-cases waiting_second = inr (inr refl)

none_replicate : (n : ℕ) (p : Phase) → p ≢ at_second → NoneAtSecond (replicate n p)
none_replicate zero p h = tt
none_replicate (suc n) p h = (h, none_replicate n p h)

-- Only copies of `q` stand in a list of copies.
in_replicate :
    (n : ℕ) (p q : Phase) (before after : List Phase) → replicate n q ≡ before ++ p ∷ after → p ≡ q
in_replicate zero p q [] after e = cc e
in_replicate zero p q (x ∷ before) after e = cc e
in_replicate (suc n) p q [] after e = cc e
in_replicate (suc n) p q (x ∷ before) after e = in_replicate n p q before after (cc e)

none_replaced :
    (p q : Phase) (before after : List Phase)
    → q ≢ at_second
    → NoneAtSecond (before ++ p ∷ after)
    → NoneAtSecond (before ++ q ∷ after)
none_replaced p q [] after h k = (h, k.1)
none_replaced p q (x ∷ before) after h k = (k.0, none_replaced p q before after h k.1)

-- A thread that is not at the second barrier moves on to a place that is not either.
Together-moved :
    (s : System) (u : ℤ) (p q : Phase) (before after : List Phase)
    → p ≢ at_second
    → q ≢ at_second
    → s.threads ≡ before ++ p ∷ after
    → Together s
    → Together (record s { uptodate = u; threads = before ++ q ∷ after })
Together-moved s u p q before after h k e t = moved s.main t
  where
    moved :
        (m : Main)
        → Together (record s { main = m })
        → Together (record s { uptodate = u; main = m; threads = before ++ q ∷ after })
    moved idle t = none_replaced p q before after k (subst NoneAtSecond e t)
    moved waiting_first t = none_replaced p q before after k (subst NoneAtSecond e t)
    moved waiting_second t =
        absurd (h (in_replicate (ncores s) p at_second before after (sym t ∙ e)))

-- With `AllAt at_second` and the like unchanged by a change of `uptodate` and `main`.
Together-idle : (s : System) → s.main ≡ idle → Together s → NoneAtSecond s.threads
Together-idle s i t = subst (λ m. Together (record s { main = m })) i t

Together-first : (s : System) → s.main ≡ waiting_first → Together s → NoneAtSecond s.threads
Together-first s i t = subst (λ m. Together (record s { main = m })) i t

pub ⟶_Together : {s t : System} → s ⟶ t → Together s → Together t
⟶_Together {s} (trigger i zero_left) t = Together-idle s i t
⟶_Together {s} (pass_first waiting all) t =
    ap (λ n. replicate n at_second) (sym (length-replicate (ncores s) at_second))
⟶_Together {s} (pass_second waiting all) t = none_replicate (ncores s) updating (λ e. cc e)
⟶_Together {s} (signal before after e) t =
    Together-moved s (s.uptodate -ℤ pos 1) updating restarting before after (λ e. cc e) (λ e. cc e)
      e t
⟶_Together {s} (restart before after e) t =
    Together-moved s s.uptodate restarting at_first before after (λ e. cc e) (λ e. cc e) e t

pub ⟶*_Together : {s t : System} → s ⟶* t → Together s → Together t
⟶*_Together here t = t
⟶*_Together (then steps step) t = ⟶_Together step (⟶*_Together steps t)

-- From the second barrier, and from any place, to the end of the round.
finish_second :
    (s : System)
    → s.main ≡ waiting_second
    → AllAt at_second s
    → (t : System) × (s ⟶* t) × (t.main ≡ idle) × AllAt at_first t
finish_second s i all =
    let released : System = record s { main = idle; threads = replicate (ncores s) updating } in
    let (t, steps, main, done) =
      settle_from 0 released.threads released refl
        (none_replicate (ncores s) updating (λ e. cc e)) in
    (t, trans (then here (pass_second i all)) steps, main, done)

finish_first :
    (s : System)
    → s.main ≡ waiting_first
    → NoneAtSecond s.threads
    → (t : System) × (s ⟶* t) × (t.main ≡ idle) × AllAt at_first t
finish_first s i none_second =
    let (u, steps, main, all) = settle_from 0 s.threads s refl none_second in
    let passed : System = record u {
      main = waiting_second;
      threads = replicate (ncores u) at_second;
    } in
    let (t, more, done, rest) =
      finish_second passed refl
        (ap (λ n. replicate n at_second) (sym (length-replicate (ncores u) at_second))) in
    (t, trans (then steps (pass_first (main ∙ i) all)) more, done, rest)

round_ends :
    (s : System) → Together s → (t : System) × (s ⟶* t) × (t.main ≡ idle) × AllAt at_first t
round_ends s t = elim (Main-cases s.main) [
  | inl i ↦
      let (u, steps, main, all) = settle_from 0 s.threads s refl (Together-idle s i t) in
      (u, steps, main ∙ i, all)
  | inr (inl i) ↦ finish_first s i (Together-first s i t)
  | inr (inr i) ↦ finish_second s i (subst (λ m. Together (record s { main = m })) i t)
]

initial-Together : (n : ℕ) → Together (initial n)
unfolding initial
initial-Together n = none_replicate n at_first (λ e. cc e)

-- From every state that `hmon_update` and the threads reach from `hmon_lib_init` on, without a call
-- of `hmon_is_uptodate`, they can go on to the end of the round: all threads at the first barrier,
-- `hmon_update` returned, and the counter 0, so that the next update can be triggered.
pub update_ends :
    (n : ℕ) {s : System}
    → initial n ⟶* s
    → (t : System) × (s ⟶* t) × (t.main ≡ idle) × AllAt at_first t × (t.uptodate ≡ pos 0)
update_ends n {s} steps =
    let (t, more, main, all) = round_ends s (⟶*_Together steps (initial-Together n)) in
    let b = ⟶*_Behind 0 more (⟶*_Behind 0 steps (initial-Behind n)) in
    (
      t,
      more,
      main,
      all,
      eq_of_parts t.uptodate (pos 0) (
          omega (
            arith,
            b,
            ap pending all,
            pending-replicate_first (ncores t),
            ap (λ m. announced m (ncores t)) main,
          )),
    )
