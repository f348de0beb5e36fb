-- ===== src/SnapshotScheduler.antt =====
-- Code/SnapshotScheduler/src/snapshot_scheduler.cpp: the class `SnapshotScheduler`. The worker's code
-- between two places where the mutex is taken or a callback runs is one step; a callback's exception
-- is caught and changes nothing. What `next_wake_` gives is an argument of the step, `none` where it
-- is empty, is not set or throws; so is whether a timed wait has run out.
pub mod Wakes
pub mod Runs
mod Tests
use hybrid_blockchain_for_re.Prelude.{
  ℕ, Bool, true, false, ◌||◌, ◌&&◌, not, Option, none, some, List, [], ◌∷◌, if◌then◌else◌,
}

-- Where the worker's thread is: not started, before the call of cycle_, before the look at the
-- flags, in the wait (timed or not), or returned.
pub data Phase : Type 0 where
  off : Phase
  cycle : Phase
  look_up : Phase
  waiting : Bool → Phase
  returned : Phase

pub record SnapshotScheduler : Type 0 where
  pub running : Bool
  pub stop_requested : Bool
  pub wake_requested : Bool
  pub phase : Phase

-- SnapshotScheduler::SnapshotScheduler
unfoldable pub new_scheduler : SnapshotScheduler
new_scheduler = record {
  running = false;
  stop_requested = false;
  wake_requested = false;
  phase = off;
}

-- SnapshotScheduler::start
unfoldable pub start : SnapshotScheduler → SnapshotScheduler
start s =
    if s.running then s else record s { stop_requested = false; running = true; phase = cycle }

-- SnapshotScheduler::wake
unfoldable pub wake : SnapshotScheduler → SnapshotScheduler
wake s = record s { wake_requested = true }

abbrev pub is_timed : Option ℕ → Bool
is_timed none = false
is_timed (some delay) = true

-- The look at the flags before the wait.
abbrev pub check_flags : Option ℕ → SnapshotScheduler → SnapshotScheduler
check_flags delay s =
    if s.stop_requested
    then record s { phase = returned }
    else if s.wake_requested
    then record s { wake_requested = false; phase = cycle }
    else record s { phase = waiting (is_timed delay) }

-- What follows the wait.
abbrev pub resume : SnapshotScheduler → SnapshotScheduler
resume s = if s.stop_requested then record s { phase = returned } else record s {
  wake_requested = if s.stop_requested || s.wake_requested then false else s.wake_requested;
  phase = cycle;
}

-- One step of SnapshotScheduler::run; `none` is a worker that is blocked, not there, or done.
unfoldable pub worker_step : Option ℕ → Bool → SnapshotScheduler → Option SnapshotScheduler
worker_step delay elapsed s = elim s.phase [
  | off ↦ none
  | returned ↦ none
  | cycle ↦ some (record s { phase = look_up })
  | look_up ↦ some (check_flags delay s)
  | waiting timed ↦
      if s.stop_requested || (s.wake_requested || (timed && elapsed)) then some (resume s) else none
]

abbrev or_stay : Option SnapshotScheduler → SnapshotScheduler → SnapshotScheduler
or_stay none s = s
or_stay (some t) s = t

-- Steps of the worker, with what next_wake_ and the clock give to each.
unfoldable pub run : List (Option ℕ × Bool) → SnapshotScheduler → SnapshotScheduler
unfolding worker_step
run [] s = s
run ((delay, elapsed) ∷ inputs) s = run inputs (or_stay (worker_step delay elapsed s) s)

abbrev pub is_returned : Phase → Bool
is_returned off = false
is_returned cycle = false
is_returned look_up = false
is_returned (waiting timed) = false
is_returned returned = true

-- SnapshotScheduler::stop, where no other thread stops the scheduler at once: the flag is set, the
-- worker makes the steps given, and the join ends if it has returned by then; `none` is a join that
-- still waits.
unfoldable pub stop : List (Option ℕ × Bool) → SnapshotScheduler → Option SnapshotScheduler
unfolding run
stop inputs s =
    let t = run inputs (record s { stop_requested = true }) in
    if not s.running
    then some s
    else if is_returned t.phase
    then some (record t { running = false })
    else none
