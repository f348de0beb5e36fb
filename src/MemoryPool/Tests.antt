-- ===== src/MemoryPool/Tests.antt =====
-- Runs of a pool of Code/PrivateChain/MemoryPool, and each theorem at an input.
use hybrid_blockchain_for_re.Prelude.{
  ℕ, ◌+◌, ◌*◌, ◌≤◌, ◌<◌, ◌≡◌, refl, Option, none, some, List, [], ◌∷◌, arith, inl,
}
use hybrid_blockchain_for_re.MemoryPool.{
  Memory, store, MemoryPool, align_up, link_blocks, link_region, preallocate, expand_num, pop_block,
  allocate, free, new_pool,
}
use hybrid_blockchain_for_re.MemoryPool.Bounds.{align_up-bounds}
use hybrid_blockchain_for_re.MemoryPool.Blocks.{IsPool}
use hybrid_blockchain_for_re.MemoryPool.Runs.{Run, created, allocated, Run-IsPool}

program : Unit {0}
unfolding store align_up link_blocks link_region preallocate expand_num pop_block allocate free
    new_pool
program = tt

abbrev blank : Memory
blank x = none

abbrev or_blank : Option MemoryPool → MemoryPool
or_blank (some s) = s
or_blank none = record { block_size = 0; align = 0; free_list = none; pools = []; memory = blank }

-- Three blocks of 16 bytes at 1000.
abbrev pool : MemoryPool
pool = or_blank (new_pool 13 8 3 (λ n. some 1000) blank)

abbrev pool_after : MemoryPool
pool_after = record pool { free_list = some 1016 }

pool_size : pool.block_size ≡ 16
unfolding program
pool_size = refl

first_given : allocate (λ n. none) pool ≡ some (1000, pool_after)
unfolding program
first_given = refl

last_first : (free (some 1000) pool_after).free_list ≡ some 1000
unfolding program
last_first = refl

pool-Run : Run pool []
unfolding program
pool-Run = created 13 8 3 (λ n. some 1000) blank pool (omega arith) (omega arith) (omega arith) refl

not_empty : pool.free_list ≡ none → ⊥
unfolding program
not_empty e = cc

pool_after-Run : Run pool_after (1000 ∷ [])
pool_after-Run =
    allocated pool pool_after [] (λ n. none) 1000 pool-Run (λ e. absurd (not_empty e)) first_given

align_up-bounds_example :
    (13 ≤ align_up 13 8) × (align_up 13 8 < 13 + 8) × ((k : ℕ) × (align_up 13 8 ≡ k * 8))
align_up-bounds_example = align_up-bounds 13 8 (omega arith) (omega arith)

Run-IsPool_example : (ready : List ℕ) × IsPool pool_after ready (1000 ∷ [])
Run-IsPool_example = Run-IsPool pool_after (1000 ∷ []) pool_after-Run

-- A pool of two blocks, both free.
abbrev small : MemoryPool
small = or_blank (new_pool 8 8 2 (λ n. some 0) blank)

small-IsPool : IsPool small (0 ∷ 8 ∷ []) []
unfolding program
small-IsPool = record {
  room = omega arith;
  linked = (refl, (refl, tt));
  separate = ((inl (omega arith), tt), (tt, tt));
}
