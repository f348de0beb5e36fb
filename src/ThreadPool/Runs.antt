-- ===== src/ThreadPool/Runs.antt =====
-- Runs of the thread pool (Code/PrivateChain/Server/thread_pool.cpp): any order of submissions and
-- of the workers' steps.
use hybrid_blockchain_for_re.Prelude.{
  ℕ, suc, ◌+◌, ◌-◌, ◌≤◌, ◌≡◌, refl, sym, ap, subst, ◌∙◌, true, false, ◌||◌, some, List, [], ◌∷◌,
  ◌++◌, append_assoc, append-nil, length, length-append, get_elem?, is_empty, arith, inl, inr, leb,
}
use hybrid_blockchain_for_re.ThreadPool.{
  normalized_worker_count, idle, running, exited, ThreadPool, Outcome, new_pool, submit, set_worker,
  take_task, leave, finish_task, stop,
}
use hybrid_blockchain_for_re.ThreadPool.Parts.{
  busy, any_exited, busy-set_worker, any_exited-set_worker, busy-replicate, any_exited-replicate,
  submit-cases, take_task-Taken, finish_task-cases, leave-cases, nothing_left, all_exited,
  busy-all_exited,
}

module _ {ℓ} {A : Type ℓ} where
  -- A pool, with the tasks that submit has accepted and those that workers have started, both in
  -- order.
  pub data Run : ThreadPool A → List A → List A → Type ℓ where
    created :
        (worker_count detected max_queue_size : ℕ)
        → Run (new_pool worker_count detected max_queue_size) [] []
    refused :
        (o : Outcome) (task : A) (s s' : ThreadPool A) (accepted started : List A)
        → Run s accepted started
        → submit o task s ≡ (false, s')
        → Run s' accepted started
    submitted :
        (o : Outcome) (task : A) (s s' : ThreadPool A) (accepted started : List A)
        → Run s accepted started
        → submit o task s ≡ (true, s')
        → Run s' (accepted ++ task ∷ []) started
    took :
        (i : ℕ) (task : A) (s s' : ThreadPool A) (accepted started : List A)
        → Run s accepted started
        → take_task i s ≡ some (task, s')
        → Run s' accepted (started ++ task ∷ [])
    finished :
        (i : ℕ) (s s' : ThreadPool A) (accepted started : List A)
        → Run s accepted started
        → finish_task i s ≡ some s'
        → Run s' accepted started
    left :
        (i : ℕ) (s s' : ThreadPool A) (accepted started : List A)
        → Run s accepted started
        → leave i s ≡ some s'
        → Run s' accepted started
    stopped :
        (s : ThreadPool A) (accepted started : List A)
        → Run s accepted started
        → Run (stop s) accepted started

  -- What holds at every moment: tasks are started in the order in which they were accepted, and the
  -- rest of them is the queue; the queue is not longer than its limit; there is one callable and one
  -- work item for each task that waits or runs; a worker returns only when the pool stops and the
  -- queue is empty, which then stays so.
  pub record IsRun (s : ThreadPool A) (accepted started : List A) : Type ℓ where
    pub order : accepted ≡ started ++ s.queue
    pub limit : length s.queue ≤ s.max_queue_size
    pub items_eq : s.items ≡ length s.queue + busy s.workers
    pub callables_eq : s.callables ≡ s.items
    pub drained : any_exited s.workers ≡ true → (s.stopping ≡ true) × (s.queue ≡ [])

  created-IsRun : (n detected max_size : ℕ) → IsRun (new_pool {A = A} n detected max_size) [] []
  unfolding new_pool
  created-IsRun n detected max_size = record {
    order = refl;
    limit = omega arith;
    items_eq = omega (arith, busy-replicate {A = A} (normalized_worker_count n detected) idle refl);
    callables_eq = refl;
    drained = λ e. absurd (
        let no =
          sym (any_exited-replicate {A = A} (normalized_worker_count n detected) idle refl) ∙ e in
        cc no);
  }

  submitted-IsRun :
      (task : A) (s : ThreadPool A) (accepted started : List A)
      → (s.stopping || leb s.max_queue_size (length s.queue)) ≡ false
      → IsRun s accepted started
      → IsRun
          (record s {
            queue = s.queue ++ task ∷ [];
            callables = suc s.callables;
            items = suc s.items;
          })
          (accepted ++ task ∷ [])
          started
  submitted-IsRun task s accepted started room v =
      let size = length-append s.queue (task ∷ []) in
      record {
        order = ap (λ xs. xs ++ task ∷ []) v.order ∙ append_assoc started s.queue (task ∷ []);
        limit = ground (arith, room, size);
        items_eq = omega (arith, v.items_eq, size);
        callables_eq = ap suc v.callables_eq;
        drained = λ e. absurd (let stops = (v.drained e).0 in ground (arith, room, stops));
      }

  took-IsRun :
      (i : ℕ) (task : A) (s : ThreadPool A) (rest accepted started : List A)
      → get_elem? s.workers i ≡ some idle
      → s.queue ≡ task ∷ rest
      → IsRun s accepted started
      → IsRun
          (record s { queue = rest; workers = set_worker s.workers i (running task) })
          accepted
          (started ++ task ∷ [])
  took-IsRun i task s rest accepted started worker queue v =
      let size : length s.queue ≡ suc (length rest) = ap length queue in
      record {
        order =
            v.order ∙ ap (λ q. started ++ q) queue ∙ sym (append_assoc started (task ∷ []) rest);
        limit = omega (arith, v.limit, size);
        items_eq =
            omega (arith, v.items_eq, size, busy-set_worker s.workers i idle (running task) worker);
        callables_eq = v.callables_eq;
        drained = λ e. absurd (elim (any_exited-set_worker s.workers i (running task) e) [
          | inl wrong ↦ absurd (let bad = wrong in cc bad)
          | inr gone ↦ let bad = sym queue ∙ (v.drained gone).1 in cc bad
        ]);
      }

  finished-IsRun :
      (i : ℕ) (t : A) (s : ThreadPool A) (accepted started : List A)
      → get_elem? s.workers i ≡ some (running t)
      → IsRun s accepted started
      → IsRun
          (record s {
            workers = set_worker s.workers i idle;
            callables = s.callables - 1;
            items = s.items - 1;
          })
          accepted
          started
  finished-IsRun i t s accepted started worker v = record {
    order = v.order;
    limit = v.limit;
    items_eq = omega (arith, v.items_eq, busy-set_worker s.workers i (running t) idle worker);
    callables_eq = ap (λ n. n - 1) v.callables_eq;
    drained = λ e. elim (any_exited-set_worker s.workers i idle e) [
      | inl wrong ↦ absurd (let bad = wrong in cc bad)
      | inr gone ↦ v.drained gone
    ];
  }

  left-IsRun :
      (i : ℕ) (s : ThreadPool A) (accepted started : List A)
      → get_elem? s.workers i ≡ some idle
      → s.stopping ≡ true
      → is_empty s.queue ≡ true
      → IsRun s accepted started
      → IsRun (record s { workers = set_worker s.workers i exited }) accepted started
  left-IsRun i s accepted started worker stops empty v = record {
    order = v.order;
    limit = v.limit;
    items_eq = omega (arith, v.items_eq, busy-set_worker s.workers i idle exited worker);
    callables_eq = v.callables_eq;
    drained = λ e. (stops, nothing_left s.queue empty);
  }

  -- Every run of the pool keeps to IsRun.
  pub Run-IsRun :
      (s : ThreadPool A) (accepted started : List A)
      → Run s accepted started
      → IsRun s accepted started
  unfolding stop
  Run-IsRun _ _ _ (created n detected max_size) = created-IsRun n detected max_size
  Run-IsRun _ _ _ (refused o task s s' accepted started r e) = elim (submit-cases o task s) [
    | inl kept ↦
        subst (λ x. IsRun x accepted started) (ap (λ x. x.1) (sym kept ∙ e))
          (Run-IsRun s accepted started r)
    | inr (added, room) ↦ absurd (let no = ap (λ x. x.0) (sym added ∙ e) in cc no)
  ]
  Run-IsRun _ _ _ (submitted o task s s' accepted started r e) = elim (submit-cases o task s) [
    | inl kept ↦ absurd (let no = ap (λ x. x.0) (sym kept ∙ e) in cc no)
    | inr (added, room) ↦
        subst (λ x. IsRun x (accepted ++ task ∷ []) started) (ap (λ x. x.1) (sym added ∙ e))
          (submitted-IsRun task s accepted started room (Run-IsRun s accepted started r))
  ]
  Run-IsRun _ _ _ (took i task s s' accepted started r e) =
      let t = take_task-Taken i task s s' e in
      subst (λ x. IsRun x accepted (started ++ task ∷ [])) t.result
        (took-IsRun i task s t.rest accepted started t.worker t.queue_eq
          (Run-IsRun s accepted started r))
  Run-IsRun _ _ _ (finished i s s' accepted started r e) =
      let (t, worker, result) = finish_task-cases i s s' e in
      subst (λ x. IsRun x accepted started) result
        (finished-IsRun i t s accepted started worker (Run-IsRun s accepted started r))
  Run-IsRun _ _ _ (left i s s' accepted started r e) =
      let (worker, stops, empty, result) = leave-cases i s s' e in
      subst (λ x. IsRun x accepted started) result
        (left-IsRun i s accepted started worker stops empty (Run-IsRun s accepted started r))
  Run-IsRun _ _ _ (stopped s accepted started r) =
      let v = Run-IsRun s accepted started r in
      record {
        order = v.order;
        limit = v.limit;
        items_eq = v.items_eq;
        callables_eq = v.callables_eq;
        drained = λ e. (refl, (v.drained e).1);
      }

  -- A run at whose end the pool has workers and all have returned, as the destructor waits for:
  -- every accepted task was started, once and in order, and no callable or work item is left.
  pub Run-drained :
      (s : ThreadPool A) (accepted started : List A)
      → Run s accepted started
      → any_exited s.workers ≡ true
      → all_exited s.workers ≡ true
      → (accepted ≡ started) × (s.items ≡ 0) × (s.callables ≡ 0)
  Run-drained s accepted started r some_left all_left =
      let v = Run-IsRun s accepted started r in
      let (_, empty) = v.drained some_left in
      let items : s.items ≡ 0 =
        omega (arith, v.items_eq, ap (length {A = A}) empty, busy-all_exited s.workers all_left) in
      (v.order ∙ ap (λ q. started ++ q) empty ∙ append-nil started, items, v.callables_eq ∙ items)
