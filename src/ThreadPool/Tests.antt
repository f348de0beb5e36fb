-- ===== src/ThreadPool/Tests.antt =====
-- Runs of the thread pool (Code/PrivateChain/Server/thread_pool.cpp) with numbers for tasks, and
-- each theorem at an input.
use hybrid_blockchain_for_re.Prelude.{ℕ, ◌≡◌, refl, true, false, List, [], ◌∷◌}
use hybrid_blockchain_for_re.ThreadPool.{
  normalized_worker_count, idle, running, exited, ThreadPool, Outcome, new_pool, submit, set_worker,
  take_task, leave, finish_task, stop,
}
use hybrid_blockchain_for_re.ThreadPool.Parts.{any_exited, all_exited}
use hybrid_blockchain_for_re.ThreadPool.Runs.{
  Run, created, submitted, took, finished, left, stopped, IsRun, Run-IsRun, Run-drained,
}

program : Unit {0}
unfolding normalized_worker_count new_pool submit set_worker take_task leave finish_task stop
    any_exited all_exited
program = tt

abbrev fine : Outcome
fine = record { has_task = true; callable_memory = true; constructed = true; item_memory = true }

-- One worker, two places in the queue.
abbrev fresh : ThreadPool ℕ
fresh = record {
  queue = [];
  max_queue_size = 2;
  stopping = false;
  workers = idle ∷ [];
  callables = 0;
  items = 0;
}

fresh-Run : Run fresh [] []
unfolding program
fresh-Run = created 1 4 2

abbrev with_task : ThreadPool ℕ
with_task = (submit fine 7 fresh).1

abbrev working : ThreadPool ℕ
working = record with_task { queue = []; workers = running 7 ∷ [] }

abbrev done : ThreadPool ℕ
done = record fresh { stopping = true }

abbrev closed : ThreadPool ℕ
closed = record done { workers = exited ∷ [] }

many_cores : normalized_worker_count 0 64 ≡ 8
unfolding program
many_cores = refl

full_refuses :
    submit fine 9 (record fresh { queue = 1 ∷ 2 ∷ [] })
    ≡ (false, record fresh { queue = 1 ∷ 2 ∷ [] })
unfolding program
full_refuses = refl

working-Run : Run working (7 ∷ []) (7 ∷ [])
unfolding program
working-Run =
    took 0 7 with_task working (7 ∷ []) [] (submitted fine 7 fresh with_task [] [] fresh-Run refl)
      refl

closed-Run : Run closed (7 ∷ []) (7 ∷ [])
unfolding program
closed-Run =
    left 0 done closed (7 ∷ []) (7 ∷ [])
      (stopped fresh (7 ∷ []) (7 ∷ [])
        (finished 0 working fresh (7 ∷ []) (7 ∷ []) working-Run refl))
      refl

Run-IsRun_example : IsRun working (7 ∷ []) (7 ∷ [])
Run-IsRun_example = Run-IsRun working (7 ∷ []) (7 ∷ []) working-Run

Run-drained_example :
    ◌≡◌ {A = List ℕ} (7 ∷ []) (7 ∷ []) × (closed.items ≡ 0) × (closed.callables ≡ 0)
unfolding program
Run-drained_example = Run-drained closed (7 ∷ []) (7 ∷ []) closed-Run refl refl
