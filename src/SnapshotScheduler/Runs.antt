-- ===== src/SnapshotScheduler/Runs.antt =====
-- Runs of the scheduler (Code/SnapshotScheduler/src/snapshot_scheduler.cpp) under one thread's control.
use hybrid_blockchain_for_re.Prelude.{
  some_injective, ℕ, ◌≡◌, refl, sym, ap, subst, Bool, true, false, not, Option, none, some, List,
  if◌then◌else◌, Bool-cases, inl, inr, ◌⊎◌,
}
use hybrid_blockchain_for_re.SnapshotScheduler.{
  Phase, off, cycle, look_up, waiting, returned, SnapshotScheduler, new_scheduler, start, wake,
  worker_step, run, is_returned, stop,
}
use hybrid_blockchain_for_re.SnapshotScheduler.Wakes.{IsActive, at}

-- A scheduler that one thread controls: start, wake and whole calls of stop, between any steps of
-- the worker.
pub data Run : SnapshotScheduler → Type 0 where
  created : Run new_scheduler
  started : (s : SnapshotScheduler) → Run s → Run (start s)
  woken : (s : SnapshotScheduler) → Run s → Run (wake s)
  worked :
      (s t : SnapshotScheduler) (delay : Option ℕ) (elapsed : Bool)
      → Run s
      → worker_step delay elapsed s ≡ some t
      → Run t
  ended :
      (s t : SnapshotScheduler) (inputs : List (Option ℕ × Bool))
      → Run s
      → stop inputs s ≡ some t
      → Run t

-- There is no worker's thread, or it has returned.
abbrev pub IsAtRest : Phase → Type 0
IsAtRest off = Unit {0}
IsAtRest returned = Unit {0}
IsAtRest cycle = ⊥
IsAtRest look_up = ⊥
IsAtRest (waiting timed) = ⊥

-- The flag tells whether the worker runs; and while it runs, no request to stop is left.
abbrev pub IsSound : SnapshotScheduler → Type 0
IsSound s =
    ((s.running ≡ true) × (s.stop_requested ≡ false) × IsActive s.phase)
    ⊎ ((s.running ≡ false) × IsAtRest s.phase)

abbrev IsAwake : SnapshotScheduler → Type 0
IsAwake s = (s.running ≡ true) × (s.stop_requested ≡ false) × IsActive s.phase

carried : (s t : SnapshotScheduler) → IsAwake s → some s ≡ some t → IsAwake t
carried s t a e = subst (λ x. IsAwake x) (some_injective s t e) a

step_at :
    (w : Bool) (p : Phase) (delay : Option ℕ) (elapsed : Bool) (t : SnapshotScheduler)
    → IsActive p
    → worker_step delay elapsed (at true false w p) ≡ some t
    → IsAwake t
unfolding worker_step
step_at w off delay elapsed t a e = absurd a
step_at w returned delay elapsed t a e = absurd a
step_at w cycle delay elapsed t a e = carried _ t (refl, refl, tt) e
step_at true look_up delay elapsed t a e = carried _ t (refl, refl, tt) e
step_at false look_up delay elapsed t a e = carried _ t (refl, refl, tt) e
step_at true (waiting timed) delay elapsed t a e = carried _ t (refl, refl, tt) e
step_at false (waiting true) delay true t a e = carried _ t (refl, refl, tt) e
step_at false (waiting true) delay false t a e = absurd (let bad = e in cc bad)
step_at false (waiting false) delay elapsed t a e = absurd (let bad = e in cc bad)

step_at_rest :
    (s : SnapshotScheduler) (p : Phase) (delay : Option ℕ) (elapsed : Bool) (t : SnapshotScheduler)
    → IsAtRest p
    → worker_step delay elapsed (record s { phase = p }) ≡ some t
    → ⊥
unfolding worker_step
step_at_rest s off delay elapsed t a e = absurd (let bad = e in cc bad)
step_at_rest s returned delay elapsed t a e = absurd (let bad = e in cc bad)
step_at_rest s cycle delay elapsed t a e = a
step_at_rest s look_up delay elapsed t a e = a
step_at_rest s (waiting timed) delay elapsed t a e = a

started-IsSound : (s : SnapshotScheduler) → IsSound s → IsSound (start s)
unfolding start
started-IsSound s v = elim (Bool-cases s.running) [
  | inl up ↦ subst (λ x. IsSound x) (sym (kept s up)) v
  | inr down ↦ subst (λ x. IsSound x) (sym (begun s down)) (inl (refl, refl, tt))
]
  where
    kept : (s : SnapshotScheduler) → s.running ≡ true → start s ≡ s
    kept s up =
        ap
          (λ b. if b then s else record s { stop_requested = false; running = true; phase = cycle })
          up

    begun :
        (s : SnapshotScheduler)
        → s.running ≡ false
        → start s ≡ record s { stop_requested = false; running = true; phase = cycle }
    begun s down =
        ap
          (λ b. if b then s else record s { stop_requested = false; running = true; phase = cycle })
          down

stop_choice :
    (b c : Bool) (s r t : SnapshotScheduler)
    → (if not b then some s else if c then some r else none) ≡ some t
    → (s ≡ t) ⊎ ((c ≡ true) × (r ≡ t))
stop_choice false c s r t e = inl (some_injective s t e)
stop_choice true true s r t e = inr (refl, some_injective r t e)
stop_choice true false s r t e = absurd (let bad = e in cc bad)

is_returned-IsAtRest : (p : Phase) → is_returned p ≡ true → IsAtRest p
is_returned-IsAtRest off h = absurd (let bad = h in cc bad)
is_returned-IsAtRest cycle h = absurd (let bad = h in cc bad)
is_returned-IsAtRest look_up h = absurd (let bad = h in cc bad)
is_returned-IsAtRest (waiting timed) h = absurd (let bad = h in cc bad)
is_returned-IsAtRest returned h = tt

ended-IsSound :
    (s t : SnapshotScheduler) (inputs : List (Option ℕ × Bool))
    → IsSound s
    → stop inputs s ≡ some t
    → IsSound t
unfolding stop
ended-IsSound s t inputs v e =
    let u = run inputs (record s { stop_requested = true }) in
    elim (stop_choice s.running (is_returned u.phase) s (record u { running = false }) t e) [
      | inl same ↦ subst (λ x. IsSound x) same v
      | inr (ends, same) ↦
          subst (λ x. IsSound x) same (inr (refl, is_returned-IsAtRest u.phase ends))
    ]

-- Under the control of one thread: the flag running_ is set exactly while the worker runs, and then
-- no old request to stop is left.
pub Run-IsSound : (s : SnapshotScheduler) → Run s → IsSound s
unfolding wake new_scheduler
Run-IsSound _ created = inr (refl, tt)
Run-IsSound _ (started s r) = started-IsSound s (Run-IsSound s r)
Run-IsSound _ (woken s r) = Run-IsSound s r
Run-IsSound _ (worked s t delay elapsed r e) = elim (Run-IsSound s r) [
  | inr (down, rest) ↦ absurd (step_at_rest s s.phase delay elapsed t rest e)
  | inl (up, calm, active) ↦ inl (
      step_at s.wake_requested s.phase delay elapsed t active (
        subst (λ x. worker_step delay elapsed x ≡ some t)
          (λ i. at (up i) (calm i) s.wake_requested s.phase) e))
]
Run-IsSound _ (ended s t inputs r e) = ended-IsSound s t inputs (Run-IsSound s r) e
