-- ===== src/Tests/Rounds.antt =====
-- synchronize.c: one round of the barriers with a single thread.
use hierarchical_monitors.Prelude.{◌≡◌, refl, [], ◌∷◌, arith}
use hierarchical_monitors.Prelude.Int.{pos, negsuc, ◌-ℤ◌}
use hierarchical_monitors.Synchronize.Barrier.{
  at_first, at_second, updating, restarting, idle, waiting_first, waiting_second, System, ncores,
  AllAt, ◌⟶◌, trigger, pass_first, pass_second, signal, restart, hmon_is_uptodate, ◌⟶*◌, here, then,
  initial,
}
use hierarchical_monitors.Synchronize.Barrier.Rounds.{
  pending, initial-Behind, ⟶*_Behind, trigger_after_round,
}
use hierarchical_monitors.Synchronize.Barrier.Drift.{is_uptodate_blocks}
use hierarchical_monitors.Synchronize.Barrier.Progress.{update_ends}

abbrev at_rest : System
at_rest = record { uptodate = pos 0; main = idle; threads = at_first ∷ [] }

abbrev triggered : System
triggered = record { uptodate = pos 1; main = waiting_first; threads = at_first ∷ [] }

abbrev between : System
between = record { uptodate = pos 1; main = waiting_second; threads = at_second ∷ [] }

abbrev busy : System
busy = record { uptodate = pos 1; main = idle; threads = updating ∷ [] }

abbrev asked : System
asked = record { uptodate = pos 0; main = idle; threads = updating ∷ [] }

abbrev drifted : System
drifted = record { uptodate = negsuc 0; main = idle; threads = restarting ∷ [] }

abbrev stuck : System
stuck = record { uptodate = negsuc 0; main = idle; threads = at_first ∷ [] }

trigger_step : at_rest ⟶ triggered
trigger_step = trigger refl refl

first_step : triggered ⟶ between
first_step = pass_first refl refl

second_step : between ⟶ busy
second_step = pass_second refl refl

drift_step : asked ⟶ drifted
unfolding ◌-ℤ◌
drift_step = signal [] [] refl

stuck_step : drifted ⟶ stuck
stuck_step = restart [] [] refl

to_rest : initial 1 ⟶* at_rest
unfolding initial
to_rest = here

to_busy : initial 1 ⟶* busy
to_busy = then (then (then to_rest trigger_step) first_step) second_step

to_drifted : (hmon_is_uptodate busy).1 ⟶* drifted
unfolding hmon_is_uptodate
to_drifted = then here drift_step

trigger_after_round_example :
    (pending at_rest.threads ≡ 0)
    × (triggered.uptodate ≡ pos (ncores at_rest))
    × (at_rest.uptodate ≡ pos 0)
trigger_after_round_example = trigger_after_round 1 to_rest trigger_step refl refl

update_ends_example :
    (t : System) × (busy ⟶* t) × (t.main ≡ idle) × AllAt at_first t × (t.uptodate ≡ pos 0)
update_ends_example = update_ends 1 to_busy

is_uptodate_blocks_example : stuck.main ≡ idle
is_uptodate_blocks_example =
    is_uptodate_blocks busy (⟶*_Behind 0 to_busy (initial-Behind 1)) refl (omega arith) to_drifted
      refl refl stuck_step
