-- ===== src/ThreadPool/Parts.antt =====
-- What each operation of the thread pool (Code/PrivateChain/Server/thread_pool.cpp) does, and counts of
-- its workers.
use hybrid_blockchain_for_re.Prelude.{
  ℕ, zero, suc, ◌+◌, ◌-◌, ◌≡◌, refl, ap, subst, ◌∙◌, Bool, true, false, ◌||◌, ◌&&◌, not, Option,
  none, some, List, [], ◌∷◌, ◌++◌, length, get_elem?, replicate, is_empty, arith, Bool-cases, inl,
  inr, ◌⊎◌, if◌then◌else◌, leb,
}
use hybrid_blockchain_for_re.ThreadPool.{
  Worker, idle, running, exited, ThreadPool, Outcome, submit, set_worker, take_task, leave,
  finish_task,
}

-- A chain of refusals that all come to one result.
refusals {ℓ} :
    {B : Type ℓ} (a b c d e : Bool) (r r1 r2 y : B)
    → r1 ≡ r
    → r2 ≡ r
    → let z =
        if not a
        then r
        else if not b
        then r
        else if not c
        then r1
        else if not d
        then r1
        else if e
        then r2
        else y in
      (z ≡ r) ⊎ ((z ≡ y) × (e ≡ false))
refusals false b c d e r r1 r2 y p q = inl refl
refusals true false c d e r r1 r2 y p q = inl refl
refusals true true false d e r r1 r2 y p q = inl p
refusals true true true false e r r1 r2 y p q = inl p
refusals true true true true true r r1 r2 y p q = inl q
refusals true true true true false r r1 r2 y p q = inr (refl, refl)

-- A result that is taken off a list's front.
uncons {ℓ κ} :
    {A : Type ℓ} {B : Type κ} (q : List A) (f : A → List A → B) (z : B)
    → (elim q as (λ x. Option B) [ [] ↦ none | t ∷ r ↦ some (f t r) ]) ≡ some z
    → (t : A) × (r : List A) × (q ≡ t ∷ r) × (f t r ≡ z)
uncons [] f z e = absurd (let no = e in cc no)
uncons (t ∷ r) f z e = (t, r, refl, ground (arith, e))

one_less : (n : ℕ) → suc n - 1 ≡ n
one_less n = omega arith

module _ {ℓ} {A : Type ℓ} where
  -- How many workers run a task.
  abbrev pub weight : Worker A → ℕ
  weight idle = 0
  weight (running task) = 1
  weight exited = 0

  unfoldable pub busy : List (Worker A) → ℕ
  busy [] = 0
  busy (w ∷ workers) = weight w + busy workers

  abbrev pub is_exited : Worker A → Bool
  is_exited idle = false
  is_exited (running task) = false
  is_exited exited = true

  -- Some worker has returned.
  unfoldable pub any_exited : List (Worker A) → Bool
  any_exited [] = false
  any_exited (w ∷ workers) = is_exited w || any_exited workers

  pub busy-set_worker :
      (workers : List (Worker A)) (i : ℕ) (v w : Worker A)
      → get_elem? workers i ≡ some v
      → busy (set_worker workers i w) + weight v ≡ busy workers + weight w
  unfolding busy set_worker
  busy-set_worker [] i v w e = absurd (let no = e in cc no)
  busy-set_worker (x ∷ workers) zero v w e =
      let same : x ≡ v = ground (arith, e) in rw same (omega arith)
  busy-set_worker (x ∷ workers) (suc i) v w e = omega (arith, busy-set_worker workers i v w e)

  pub any_exited-set_worker :
      (workers : List (Worker A)) (i : ℕ) (w : Worker A)
      → any_exited (set_worker workers i w) ≡ true
      → (is_exited w ≡ true) ⊎ (any_exited workers ≡ true)
  unfolding any_exited set_worker
  any_exited-set_worker [] i w e = inr e
  any_exited-set_worker (x ∷ workers) zero w e = ground (arith, e)
  any_exited-set_worker (x ∷ workers) (suc i) w e = elim (Bool-cases (is_exited x)) [
    | inl gone ↦ inr (rw gone refl)
    | inr here ↦ rw here (any_exited-set_worker workers i w (rw here at e))
  ]

  pub busy-replicate : (n : ℕ) (w : Worker A) → weight w ≡ 0 → busy (replicate n w) ≡ 0
  unfolding busy
  busy-replicate zero w h = refl
  busy-replicate (suc n) w h = omega (arith, h, busy-replicate n w h)

  pub any_exited-replicate :
      (n : ℕ) (w : Worker A) → is_exited w ≡ false → any_exited (replicate n w) ≡ false
  unfolding any_exited
  any_exited-replicate zero w h = refl
  any_exited-replicate (suc n) w h = rw h (any_exited-replicate n w h)

  -- submit refuses and leaves the pool as it was, or it adds the task behind the queue.
  pub submit-cases :
      (o : Outcome) (task : A) (s : ThreadPool A)
      → (submit o task s ≡ (false, s))
        ⊎ ((submit o task s ≡ (
          true,
          record s {
            queue = s.queue ++ task ∷ [];
            callables = suc s.callables;
            items = suc s.items;
          },
        ))
            × ((s.stopping || leb s.max_queue_size (length s.queue)) ≡ false))
  unfolding submit
  submit-cases o task s =
      refusals o.has_task o.callable_memory o.constructed o.item_memory
        (s.stopping || leb s.max_queue_size (length s.queue)) (false, s) _ _ _
        (λ i. (false, record s { callables = one_less s.callables i }))
        (λ i. (false, record s { callables = one_less s.callables i; items = one_less s.items i }))

  -- The worker's step on a pool whose worker `i` has the state `v`.
  pub record Taken (i : ℕ) (task : A) (s s' : ThreadPool A) : Type ℓ where
    pub rest : List A
    pub worker : get_elem? s.workers i ≡ some idle
    pub queue_eq : s.queue ≡ task ∷ rest
    pub result : record s { queue = rest; workers = set_worker s.workers i (running task) } ≡ s'

  Worker-cases :
      (o : Option (Worker A))
      → ((o ≡ none) ⊎ (o ≡ some exited)) ⊎ ((o ≡ some idle) ⊎ ((t : A) × (o ≡ some (running t))))
  Worker-cases none = inl (inl refl)
  Worker-cases (some exited) = inl (inr refl)
  Worker-cases (some idle) = inr (inl refl)
  Worker-cases (some (running t)) = inr (inr (t, refl))

  pub take_task-Taken :
      (i : ℕ) (task : A) (s s' : ThreadPool A) → take_task i s ≡ some (task, s') → Taken i task s s'
  unfolding take_task
  take_task-Taken i task s s' e = elim (Worker-cases (get_elem? s.workers i)) [
    | inl (inl missing) ↦ absurd (let no = rw (missing, take_task) at e in cc no)
    | inl (inr gone) ↦ absurd (let no = rw (gone, take_task) at e in cc no)
    | inr (inr (t, runs)) ↦ absurd (let no = rw (runs, take_task) at e in cc no)
    | inr (inl waits) ↦
        let (t, r, split, result) =
          uncons s.queue
            (λ t r. (t, record s { queue = r; workers = set_worker s.workers i (running t) }))
            (task, s') (rw (waits, take_task) at e) in
        let same : t ≡ task = ap (λ x. x.0) result in
        record {
          rest = r;
          worker = waits;
          queue_eq = split ∙ ap (λ x. x ∷ r) same;
          result =
              subst (λ x. record s { queue = r; workers = set_worker s.workers i (running x) } ≡ s')
                same (ap (λ x. x.1) result);
        }
  ]

  pub finish_task-cases :
      (i : ℕ) (s s' : ThreadPool A)
      → finish_task i s ≡ some s'
      → (t : A) × (get_elem? s.workers i ≡ some (running t))
        × (record s {
          workers = set_worker s.workers i idle;
          callables = s.callables - 1;
          items = s.items - 1;
        }
            ≡ s')
  unfolding finish_task
  finish_task-cases i s s' e = elim (Worker-cases (get_elem? s.workers i)) [
    | inl (inl missing) ↦ absurd (let no = rw (missing, finish_task) at e in cc no)
    | inl (inr gone) ↦ absurd (let no = rw (gone, finish_task) at e in cc no)
    | inr (inl waits) ↦ absurd (let no = rw (waits, finish_task) at e in cc no)
    | inr (inr (t, runs)) ↦ (t, runs, ground (arith, rw (runs, finish_task) at e))
  ]

  pub leave-cases :
      (i : ℕ) (s s' : ThreadPool A)
      → leave i s ≡ some s'
      → (get_elem? s.workers i ≡ some idle)
        × (s.stopping ≡ true)
        × (is_empty s.queue ≡ true)
        × (record s { workers = set_worker s.workers i exited } ≡ s')
  unfolding leave
  leave-cases i s s' e = elim (Worker-cases (get_elem? s.workers i)) [
    | inl (inl missing) ↦ absurd (let no = rw (missing, leave) at e in cc no)
    | inl (inr gone) ↦ absurd (let no = rw (gone, leave) at e in cc no)
    | inr (inr (t, runs)) ↦ absurd (let no = rw (runs, leave) at e in cc no)
    | inr (inl waits) ↦
        let e1 = rw (waits, leave) at e in
        (waits, ground (arith, e1), ground (arith, e1), ground (arith, e1))
  ]

  pub nothing_left : (q : List A) → is_empty q ≡ true → q ≡ []
  nothing_left [] h = refl
  nothing_left (x ∷ q) h = absurd (let no = h in cc no)

  -- Every worker has returned.
  unfoldable pub all_exited : List (Worker A) → Bool
  all_exited [] = true
  all_exited (w ∷ workers) = is_exited w && all_exited workers

  pub busy-all_exited : (workers : List (Worker A)) → all_exited workers ≡ true → busy workers ≡ 0
  unfolding all_exited busy
  busy-all_exited [] h = refl
  busy-all_exited (exited ∷ workers) h = omega (arith, busy-all_exited workers h)
  busy-all_exited (idle ∷ workers) h = absurd (let no = h in cc no)
  busy-all_exited (running t ∷ workers) h = absurd (let no = h in cc no)
