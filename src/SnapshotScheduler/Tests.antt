-- ===== src/SnapshotScheduler/Tests.antt =====
-- Runs of the scheduler (Code/SnapshotScheduler/src/snapshot_scheduler.cpp), and each theorem at an
-- input.
use hybrid_blockchain_for_re.Prelude.{◌≡◌, refl, true, false, none, some, [], ◌∷◌, ◌⊎◌}
use hybrid_blockchain_for_re.SnapshotScheduler.{
  look_up, waiting, returned, SnapshotScheduler, new_scheduler, start, wake, worker_step, run, stop,
}
use hybrid_blockchain_for_re.SnapshotScheduler.Wakes.{IsActive, served, wake-served, stop-ends}
use hybrid_blockchain_for_re.SnapshotScheduler.Runs.{
  Run, created, started, woken, worked, IsSound, Run-IsSound,
}

program : Unit {0}
unfolding new_scheduler start wake worker_step run stop
program = tt

-- A scheduler whose worker waits without a delay.
abbrev asleep : SnapshotScheduler
asleep = record {
  running = true;
  stop_requested = false;
  wake_requested = false;
  phase = waiting false;
}

blocked : worker_step (some 5) true asleep ≡ none
unfolding program
blocked = refl

two_rounds : run ((none, false) ∷ (none, false) ∷ []) (start new_scheduler) ≡ asleep
unfolding program
two_rounds = refl

wake-served_example :
    (run ((none, false) ∷ []) (wake asleep) ≡ served asleep)
    ⊎ (run ((none, false) ∷ (some 5, false) ∷ []) (wake asleep) ≡ served asleep)
wake-served_example = wake-served asleep (none, false) (some 5, false) tt refl

stop-ends_example :
    (t : SnapshotScheduler) × (stop ((none, false) ∷ (none, false) ∷ []) asleep ≡ some t)
    × (t.running ≡ false)
    × (t.phase ≡ returned)
    × IsActive (start t).phase
stop-ends_example = stop-ends asleep (none, false) (none, false) tt refl

abbrev first_look : SnapshotScheduler
first_look = record {
  running = true;
  stop_requested = false;
  wake_requested = true;
  phase = look_up;
}

first_look-Run : Run first_look
unfolding program
first_look-Run =
    worked (wake (start new_scheduler)) first_look none false
      (woken (start new_scheduler) (started new_scheduler created)) refl

Run-IsSound_example : IsSound first_look
Run-IsSound_example = Run-IsSound first_look first_look-Run
