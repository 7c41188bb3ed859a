-- ===== src/Papi/Counts.antt =====
-- PAPI_monitor.c: as many values as events.
use mathlib.Core.List.{append-nil}
use mathlib.Core.Path.{subst}
use hierarchical_monitors.Prelude.{
  ℕ, zero, suc, ◌+◌, ◌<◌, ◌≤◌, ◌%◌, ◌^◌, ◌≡◌, refl, sym, ap, ◌∙◌, Option, none, some, List, [], ◌∷◌,
  ◌++◌, length, length-append, map, take, take-length, drop, arith, Option-cases, inl, inr,
}
use hierarchical_monitors.Prelude.Int.{ℤ, pos}
use hierarchical_monitors.Prelude.Floats.{Floats}
use hierarchical_monitors.Papi.{Papi, PapiEventset, add_event, store_counts, read_events}

-- What PAPI documents: an eventset counts the events added to it, and a read gives a counter for each.
pub record IsPapi {S : Type 0} (papi : Papi S) : Type 0 where
  pub size : S → ℕ
  pub size_add :
      (s t : S) (event : List ℕ) → papi.add_event s event ≡ some t → size t ≡ suc (size s)
  pub size_read :
      (s t : S) (counts : List ℤ) → papi.read s ≡ some (t, counts) → length counts ≡ size s

module _ {S : Type 0} (papi : Papi S) where
  -- Names added one after the other.
  abbrev pub add_names : PapiEventset S → List (List ℕ) → Option (PapiEventset S)
  add_names set [] = some set
  add_names set (name ∷ names) = elim (add_event papi set name) [
    | none ↦ none
    | some (status, added) ↦ add_names added names
  ]

module _ {S : Type 0} {papi : Papi S} (laws : IsPapi papi) where
  -- The eventset has `n` events, with room for a counter of each.
  record Sized (n : ℕ) (set : PapiEventset S) : Type 0 where
    pub counted : set.n_events ≡ n
    pub room : length set.values ≡ n
    pub in_papi : laws.size set.evset ≡ n

  add-Sized :
      (n : ℕ) (set after : PapiEventset S) (name : List ℕ) (status : ℤ)
      → suc n < 2 ^ 32
      → Sized n set
      → add_event papi set name ≡ some (status, after)
      → Sized (suc n) after
  unfolding add_event
  add-Sized n set after name status small z h =
      elim (Option-cases (papi.add_event set.evset name)) [
        | inl e ↦ ground (arith, e, h)
        | inr (evset, e) ↦
            let next : PapiEventset S = record {
              evset = evset;
              n_events = (set.n_events + 1) % 2 ^ 32;
              values = set.values ++ pos 0 ∷ [];
            } in
            let same : next ≡ after = ground (arith, e, h) in
            subst (Sized (suc n)) same (record {
              counted = omega (arith, z.counted);
              room = omega (arith, z.room, length-append set.values (pos 0 ∷ []));
              in_papi = laws.size_add set.evset evset name e ∙ ap suc z.in_papi;
            })
      ]

  add_names-Sized :
      (names : List (List ℕ)) (n : ℕ) (set after : PapiEventset S)
      → n + length names < 2 ^ 32
      → Sized n set
      → add_names papi set names ≡ some after
      → Sized (n + length names) after
  add_names-Sized [] n set after small z h =
      let same : set ≡ after = cc h in
      subst (λ m. Sized m after) (omega arith) (subst (Sized n) same z)
  add_names-Sized (name ∷ names) n set after small z h =
      elim (Option-cases (add_event papi set name)) [
        | inl e ↦ ground (arith, e, h)
        | inr ((status, added), e) ↦
            let more : add_names papi added names ≡ some after = ground (arith, e, h) in
            subst (λ m. Sized m after) (omega arith)
              (add_names-Sized names (suc n) added after (omega arith)
                (add-Sized n set added name status (omega arith) z e) more)
      ]

  drop_all : {A : Type 0} (xs : List A) (k : ℕ) → length xs ≤ k → drop k xs ≡ []
  drop_all [] zero h = refl
  drop_all [] (suc k) h = refl
  drop_all (x ∷ xs) zero h = absurd (omega arith)
  drop_all (x ∷ xs) (suc k) h = drop_all xs k (omega arith)

  read_step :
      {D : Type 0} (F : Floats D) (after : PapiEventset S) (evset : S) (counts : List ℤ)
      (values : List D) (k : ℕ)
      → papi.read after.evset ≡ some (evset, counts)
      → store_counts papi counts after.values ≡ counts
      → take after.n_events counts ≡ counts
      → after.n_events ≡ k
      → read_events papi F after values ≡ (
        pos 0,
        record after { evset = evset; values = counts },
        map F.of_int counts ++ drop k values,
      )
  unfolding read_events
  read_step F after evset counts values k h stored kept size = ground (arith, h, stored, kept, size)

  -- Where PAPI counts the events added to an eventset and reads a counter for each, adding fewer
  -- than 2^32 events by name to an eventset of the plugin without events, and a read of PAPI that
  -- succeeds: there are as many counters as names, they just fill the array of the eventset, and
  -- the values written are those counters as doubles, with what stands behind them as it was.
  pub read_counts :
      {D : Type 0} (F : Floats D) (names : List (List ℕ)) (set after : PapiEventset S) (evset : S)
      (counts : List ℤ) (values : List D)
      → length names < 2 ^ 32
      → set.n_events ≡ 0
      → set.values ≡ []
      → laws.size set.evset ≡ 0
      → add_names papi set names ≡ some after
      → papi.read after.evset ≡ some (evset, counts)
      → (length counts ≡ length names)
        × (read_events papi F after values ≡ (
          pos 0,
          record after { evset = evset; values = counts },
          map F.of_int counts ++ drop (length names) values,
        ))
  unfolding read_events store_counts
  read_counts F names set after evset counts values small n v s added h =
      let z : Sized (length names) after =
        subst (λ m. Sized m after) (omega arith)
          (add_names-Sized names 0 set after (omega arith)
            (record { counted = n; room = ap length v; in_papi = s }) added) in
      let same : length counts ≡ length names =
        laws.size_read after.evset evset counts h ∙ z.in_papi in
      let stored : counts ++ drop (length counts) after.values ≡ counts =
        ap (λ rest. counts ++ rest)
          (drop_all after.values (length counts) (omega (arith, same, z.room)))
        ∙ append-nil counts in
      let kept : take after.n_events counts ≡ counts =
        ap (λ k. take k counts) (z.counted ∙ sym same) ∙ take-length counts in
      (same, read_step F after evset counts values (length names) h stored kept z.counted)
