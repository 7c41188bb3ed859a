-- ===== src/Maqao/Callsites.antt =====
-- maqao_monitor.c: the call sites of eventsets.
use hierarchical_monitors.Prelude.{
  ℕ, ◌⊎◌, inl, inr, ◌≤◌, ◌≢◌, refl, ◌+◌, ◌%◌, ◌^◌, ◌<◌, ◌≡◌, Bool, List, [], ◌∷◌, length, arith,
}
use hierarchical_monitors.Maqao.{Counting, MaqaoEventset, MaqaoState, new_callsite, reset_callsite}

module _ {L : Type 0} (counting : Counting L) where
  -- Eventsets initialised one after the other, for locations that are processing units or not.
  abbrev pub init_all : List (Bool × ℕ) → MaqaoState L → MaqaoState L
  init_all [] s = s
  init_all ((is_pu, os_index) ∷ locations) s =
      init_all locations (new_callsite counting is_pu os_index s).1

  nb_callsite-init_all :
      (locations : List (Bool × ℕ)) (s : MaqaoState L)
      → s.nb_callsite + length locations < 2 ^ 32
      → (init_all locations s).nb_callsite ≡ s.nb_callsite + length locations
  unfolding new_callsite
  nb_callsite-init_all [] s h = omega arith
  nb_callsite-init_all ((is_pu, os_index) ∷ locations) s h =
      let small : (s.nb_callsite + 1) % 2 ^ 32 ≡ s.nb_callsite + 1 = omega arith in
      let rest =
        nb_callsite-init_all locations (new_callsite counting is_pu os_index s).1
          (omega (arith, small)) in
      omega (arith, small, rest)

  -- The eventsets of these locations.
  abbrev pub eventsets : List (Bool × ℕ) → MaqaoState L → List MaqaoEventset
  eventsets [] s = []
  eventsets ((is_pu, os_index) ∷ locations) s =
      let (set, after) = new_callsite counting is_pu os_index s in set ∷ eventsets locations after

-- No eventset has the call site.
abbrev pub NoneHas : ℕ → List MaqaoEventset → Type 0
NoneHas site [] = Unit
NoneHas site (set ∷ sets) = (set.callsite ≢ site) × NoneHas site sets

-- No two eventsets have the same call site.
abbrev pub HaveOwn : List MaqaoEventset → Type 0
HaveOwn [] = Unit
HaveOwn (set ∷ sets) = NoneHas set.callsite sets × HaveOwn sets

module _ {L : Type 0} (counting : Counting L) where
  eventsets-NoneHas :
      (locations : List (Bool × ℕ)) (s : MaqaoState L) (site : ℕ)
      → s.nb_callsite + length locations < 2 ^ 32
      → (site < s.nb_callsite) ⊎ (s.nb_callsite + length locations ≤ site)
      → NoneHas site (eventsets counting locations s)
  unfolding new_callsite
  eventsets-NoneHas [] s site few outside = tt
  eventsets-NoneHas ((is_pu, os_index) ∷ locations) s site few outside =
      let small : (s.nb_callsite + 1) % 2 ^ 32 ≡ s.nb_callsite + 1 = omega arith in
      (
        ground (arith, outside),
        eventsets-NoneHas locations (new_callsite counting is_pu os_index s).1 site
            (omega (arith, small))
            (elim outside [
              | inl below ↦ inl (omega (arith, small, below))
              | inr behind ↦ inr (omega (arith, small, behind))
            ]),
      )

  eventsets-HaveOwn :
      (locations : List (Bool × ℕ)) (s : MaqaoState L)
      → s.nb_callsite + length locations < 2 ^ 32
      → HaveOwn (eventsets counting locations s)
  unfolding new_callsite
  eventsets-HaveOwn [] s few = tt
  eventsets-HaveOwn ((is_pu, os_index) ∷ locations) s few =
      let small : (s.nb_callsite + 1) % 2 ^ 32 ≡ s.nb_callsite + 1 = omega arith in
      let after = (new_callsite counting is_pu os_index s).1 in
      (
        eventsets-NoneHas locations after s.nb_callsite (omega (arith, small))
            (inl (omega (arith, small))),
        eventsets-HaveOwn locations after (omega (arith, small)),
      )

  -- Eventsets of the MAQAO plugin that are initialised one after the other, with fewer than 2^32
  -- call sites, have different call sites; and a reset stops the call site of its eventset and then
  -- starts one that none of them has.
  pub reset_starts_none :
      (locations : List (Bool × ℕ)) (s : MaqaoState L) (set : MaqaoEventset)
      → s.nb_callsite + length locations < 2 ^ 32
      → let ready = init_all counting locations s in
        let sets = eventsets counting locations s in
        HaveOwn sets
        × ((site : ℕ) × NoneHas site sets
            × ((reset_callsite counting set ready).library
                ≡ counting.start_counting site
                    (counting.stop_counting_dumb set.callsite ready.library)))
  unfolding reset_callsite
  reset_starts_none locations s set few =
      let issued = nb_callsite-init_all counting locations s few in
      (
        eventsets-HaveOwn locations s few,
        (
          (init_all counting locations s).nb_callsite,
          eventsets-NoneHas locations s (init_all counting locations s).nb_callsite few
              (inr (omega (arith, issued))),
          refl,
        ),
      )
