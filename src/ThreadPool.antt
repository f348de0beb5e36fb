-- ===== src/ThreadPool.antt =====
-- Code/PrivateChain/Server/thread_pool.cpp: the class `ThreadPool`. The mutex makes each part that
-- holds it one step. Of the memory the numbers of live callables and work items are kept; whether
-- an allocation or the construction of the callable succeeds is an argument of `submit`. How a task
-- ends, by an exception or not, changes nothing.
pub mod Runs
pub mod Parts
mod Tests
use hybrid_blockchain_for_re.Prelude.{
  ℕ, zero, suc, ◌+◌, ◌-◌, ◌*◌, Bool, true, false, ◌||◌, ◌&&◌, not, Option, none, some, List, [],
  ◌∷◌, ◌++◌, length, get_elem?, replicate, is_empty, ltb, leb, ◌==◌, if◌then◌else◌,
}

abbrev max : ℕ → ℕ → ℕ
max a b = if ltb a b then b else a

abbrev min : ℕ → ℕ → ℕ
min a b = if ltb b a then b else a

-- ThreadPool::normalized_worker_count; `detected` is what hardware_concurrency gives.
unfoldable pub normalized_worker_count : ℕ → ℕ → ℕ
normalized_worker_count requested detected =
    if not (requested == 0)
    then requested
    else max 2 (min 8 (if detected == 0 then 4 else detected))

-- A worker waits for the condition, runs a task, or has returned.
pub data Worker {ℓ} (A : Type ℓ) : Type ℓ where
  idle : Worker A
  running : A → Worker A
  exited : Worker A

pub record ThreadPool {ℓ} (A : Type ℓ) : Type ℓ where
  pub queue : List A
  pub max_queue_size : ℕ
  pub stopping : Bool
  pub workers : List (Worker A)
  pub callables : ℕ
  pub items : ℕ

-- What may fail in submit before the lock is taken.
pub record Outcome : Type 0 where
  pub has_task : Bool
  pub callable_memory : Bool
  pub constructed : Bool
  pub item_memory : Bool

module _ {ℓ} {A : Type ℓ} where
  -- ThreadPool::ThreadPool
  unfoldable pub new_pool : ℕ → ℕ → ℕ → ThreadPool A
  unfolding normalized_worker_count
  new_pool worker_count detected max_queue_size = record {
    queue = [];
    max_queue_size = max 1 max_queue_size;
    stopping = false;
    workers = replicate (normalized_worker_count worker_count detected) idle;
    callables = 0;
    items = 0;
  }

  -- The memory of a callable is taken, or given back.
  abbrev pub take_callable : ThreadPool A → ThreadPool A
  take_callable s = record s { callables = suc s.callables }

  abbrev pub destroy_callable : ThreadPool A → ThreadPool A
  destroy_callable s = record s { callables = s.callables - 1 }

  abbrev pub take_item : ThreadPool A → ThreadPool A
  take_item s = record s { items = suc s.items }

  abbrev pub free_item : ThreadPool A → ThreadPool A
  free_item s = record s { items = s.items - 1 }

  -- ThreadPool::submit
  unfoldable pub submit : Outcome → A → ThreadPool A → Bool × ThreadPool A
  submit o task s =
      let holding = take_callable s in
      let both = take_item holding in
      if not o.has_task
      then (false, s)
      else if not o.callable_memory
      then (false, s)
      else if not o.constructed
      then (false, destroy_callable holding)
      else if not o.item_memory
      then (false, destroy_callable holding)
      else if both.stopping || leb both.max_queue_size (length both.queue)
      then (false, destroy_callable (free_item both))
      else (true, record both { queue = both.queue ++ task ∷ [] })

  unfoldable pub set_worker : List (Worker A) → ℕ → Worker A → List (Worker A)
  set_worker [] i w = []
  set_worker (x ∷ workers) zero w = w ∷ workers
  set_worker (x ∷ workers) (suc i) w = x ∷ set_worker workers i w

  -- worker_loop of worker `i`, from the wait to the pop; `none` is a worker that waits on, has
  -- something to run, or has returned.
  unfoldable pub take_task : ℕ → ThreadPool A → Option (A × ThreadPool A)
  take_task i s = elim (get_elem? s.workers i) [
    | none ↦ none
    | some exited ↦ none
    | some (running task) ↦ none
    | some idle ↦ elim s.queue [
      | [] ↦ none
      | task ∷ queue ↦
          some (task, record s { queue = queue; workers = set_worker s.workers i (running task) })
    ]
  ]

  -- worker_loop where it returns.
  unfoldable pub leave : ℕ → ThreadPool A → Option (ThreadPool A)
  leave i s = elim (get_elem? s.workers i) [
    | none ↦ none
    | some exited ↦ none
    | some (running task) ↦ none
    | some idle ↦
        if s.stopping && is_empty s.queue
        then some (record s { workers = set_worker s.workers i exited })
        else none
  ]

  -- worker_loop after the task has ended.
  unfoldable pub finish_task : ℕ → ThreadPool A → Option (ThreadPool A)
  finish_task i s = elim (get_elem? s.workers i) [
    | none ↦ none
    | some exited ↦ none
    | some idle ↦ none
    | some (running task) ↦
        some (destroy_callable (free_item (record s { workers = set_worker s.workers i idle })))
  ]

  -- ThreadPool::~ThreadPool up to the joins.
  unfoldable pub stop : ThreadPool A → ThreadPool A
  stop s = record s { stopping = true }

  -- ThreadPool::worker_count
  unfoldable pub worker_count : ThreadPool A → ℕ
  worker_count s = length s.workers
