-- ===== src/SnapshotScheduler/Wakes.antt =====
-- Code/SnapshotScheduler/src/snapshot_scheduler.cpp: a request to wake or to stop is never lost.
use hybrid_blockchain_for_re.Prelude.{
  ℕ, ◌≡◌, refl, sym, subst, Bool, true, false, Option, some, List, [], ◌∷◌, inl, inr, ◌⊎◌,
}
use hybrid_blockchain_for_re.SnapshotScheduler.{
  Phase, off, cycle, look_up, waiting, returned, SnapshotScheduler, start, wake, worker_step, run,
  stop,
}

-- The worker's thread runs.
abbrev pub IsActive : Phase → Type 0
IsActive off = ⊥
IsActive returned = ⊥
IsActive cycle = Unit {0}
IsActive look_up = Unit {0}
IsActive (waiting timed) = Unit {0}

abbrev pub at : Bool → Bool → Bool → Phase → SnapshotScheduler
at running stops wakes phase = record {
  running = running;
  stop_requested = stops;
  wake_requested = wakes;
  phase = phase;
}

-- The state in which a request to wake has been served: before the next call of cycle_.
abbrev pub served : SnapshotScheduler → SnapshotScheduler
served s = record s { wake_requested = false; phase = cycle }

served_at :
    (r : Bool) (p : Phase) (x y : Option ℕ × Bool)
    → IsActive p
    → (run (x ∷ []) (at r false true p) ≡ at r false false cycle)
      ⊎ (run (x ∷ y ∷ []) (at r false true p) ≡ at r false false cycle)
served_at r off x y a = absurd a
served_at r returned x y a = absurd a
served_at r cycle x y a = unfold run worker_step in inr refl
served_at r look_up x y a = unfold run worker_step in inl refl
served_at r (waiting timed) x y a = unfold run worker_step in inl refl

-- A worker that runs and has no request to stop, after wake: within two of its steps it clears the
-- request and is before the next cycle, whatever next_wake_ gives and though no wait runs out.
pub wake-served :
    (s : SnapshotScheduler) (x y : Option ℕ × Bool)
    → IsActive s.phase
    → s.stop_requested ≡ false
    → (run (x ∷ []) (wake s) ≡ served s) ⊎ (run (x ∷ y ∷ []) (wake s) ≡ served s)
unfolding wake
wake-served s x y a e =
    subst
      (λ b.
        (run (x ∷ []) (at s.running b true s.phase) ≡ at s.running b false cycle)
        ⊎ (run (x ∷ y ∷ []) (at s.running b true s.phase) ≡ at s.running b false cycle))
      (sym e) (served_at s.running s.phase x y a)

stopped_at :
    (w : Bool) (p : Phase) (x y : Option ℕ × Bool)
    → IsActive p
    → (v : Bool) × (run (x ∷ y ∷ []) (at true true w p) ≡ at true true v returned)
stopped_at w off x y a = absurd a
stopped_at w returned x y a = absurd a
stopped_at w cycle x y a = unfold run worker_step in (w, refl)
stopped_at w look_up x y a = unfold run worker_step in (w, refl)
stopped_at w (waiting timed) x y a = unfold run worker_step in (w, refl)

stop_from :
    (b w v : Bool) (p : Phase) (inputs : List (Option ℕ × Bool))
    → run inputs (at true true w p) ≡ at true true v returned
    → stop inputs (at true b w p) ≡ some (at false true v returned)
unfolding stop
stop_from b w v p inputs e = rw (e, stop) refl

-- stop on a scheduler whose worker runs: two steps of the worker are enough for the join, whatever
-- next_wake_ gives and though no wait runs out; then it has returned, and start runs it again.
pub stop-ends :
    (s : SnapshotScheduler) (x y : Option ℕ × Bool)
    → IsActive s.phase
    → s.running ≡ true
    → (t : SnapshotScheduler) × (stop (x ∷ y ∷ []) s ≡ some t)
      × (t.running ≡ false)
      × (t.phase ≡ returned)
      × IsActive (start t).phase
stop-ends s x y a e =
    let (v, ends) = stopped_at s.wake_requested s.phase x y a in
    (
      at false true v returned,
      subst
          (λ b.
            stop (x ∷ y ∷ []) (at b s.stop_requested s.wake_requested s.phase)
            ≡ some (at false true v returned))
          (sym e) (stop_from s.stop_requested s.wake_requested v s.phase (x ∷ y ∷ []) ends),
      refl,
      refl,
      unfold start in tt,
    )
