-- ===== src/MemoryPool.antt =====
-- Code/PrivateChain/MemoryPool: `AlignUp` and the class `MemoryPool` (mempool.hpp, mempool.cpp).
-- Addresses are numbers. `memory` holds the `next` pointer that stands at an address, nullptr being
-- `none`. What `std::malloc` returns for a number of bytes is an argument of each call. The mutex makes each operation one
-- step.
pub mod Bounds
pub mod Blocks
pub mod Growth
pub mod Runs
mod Tests
use hybrid_blockchain_for_re.Prelude.{
  ℕ, zero, suc, ◌+◌, ◌-◌, ◌*◌, ◌/◌, ◌%◌, ◌^◌, Bool, true, false, not, Option, none, some, List, [],
  ◌∷◌, ◌++◌, length, is_empty, ltb, ◌==◌, if◌then◌else◌,
}

-- A size_t has 64 bits: products of sizes are taken modulo this.
abbrev pub size_bound : ℕ
size_bound = 18446744073709551616

-- AlignUp
unfoldable pub align_up : ℕ → ℕ → ℕ
align_up size align =
    if not (size % align == 0)
    then ((size / align + 1) * align) % size_bound
    else ((size / align) * align) % size_bound

abbrev pub Memory : Type 0
Memory = ℕ → Option ℕ

-- A pointer is written to an address.
unfoldable pub store : Memory → ℕ → Option ℕ → Memory
store m a v x = if x == a then v else m x

-- The members but the mutex. `pools` is in the order of push_back.
pub record MemoryPool : Type 0 where
  pub block_size : ℕ
  pub align : ℕ
  pub free_list : Option ℕ
  pub pools : List ℕ
  pub memory : Memory

-- The loop of Preallocate, for the blocks that are left: the last block and the memory.
unfoldable pub link_blocks : ℕ → ℕ → ℕ → Memory → ℕ × Memory
unfolding store
link_blocks size zero current m = (current, m)
link_blocks size (suc left) current m =
    link_blocks size left (current + size) (store m current (some (current + size)))

abbrev join_list : ℕ → Option ℕ → Memory → Memory
join_list last none m = m
join_list last (some f) m = store m last (some f)

-- Preallocate after its call of malloc, for one block or more; `none` is std::bad_alloc.
unfoldable pub link_region : ℕ → Option ℕ → MemoryPool → Option MemoryPool
unfolding link_blocks store
link_region num_blocks none s = none
link_region num_blocks (some pool) s =
    let (last, m) = link_blocks s.block_size (num_blocks - 1) pool s.memory in
    some (record s {
      free_list = some pool;
      pools = s.pools ++ pool ∷ [];
      memory = join_list last s.free_list (store m last none);
    })

-- MemoryPool::Preallocate
unfoldable pub preallocate : ℕ → (ℕ → Option ℕ) → MemoryPool → Option MemoryPool
preallocate num_blocks malloc s =
    link_region num_blocks (malloc ((num_blocks * s.block_size) % size_bound)) s

-- expand_num
unfoldable pub expand_num : MemoryPool → ℕ
expand_num s = if is_empty s.pools then 1024 else (length s.pools * 1024) % size_bound

-- The end of Allocate: the first block is taken off.
unfoldable pub pop_block : MemoryPool → Option (ℕ × MemoryPool)
pop_block s = elim s.free_list [
  | none ↦ none
  | some block ↦ some (block, record s { free_list = s.memory block })
]

-- MemoryPool::Allocate
unfoldable pub allocate : (ℕ → Option ℕ) → MemoryPool → Option (ℕ × MemoryPool)
allocate malloc s = elim s.free_list [
  | some block ↦ pop_block s
  | none ↦ elim (preallocate (expand_num s) malloc s) [ none ↦ none | some grown ↦ pop_block grown ]
]

-- MemoryPool::Free
unfoldable pub free : Option ℕ → MemoryPool → MemoryPool
unfolding store
free none s = s
free (some block) s = record s { free_list = some block; memory = store s.memory block s.free_list }

-- sizeof(FreeBlock*)
abbrev pub pointer_size : ℕ
pointer_size = 8

-- MemoryPool::MemoryPool
unfoldable pub new_pool : ℕ → ℕ → ℕ → (ℕ → Option ℕ) → Memory → Option MemoryPool
new_pool block_size align prealloc malloc memory =
    let min_size = if ltb block_size pointer_size then pointer_size else block_size in
    let s : MemoryPool = record {
      block_size = align_up min_size align;
      align = align;
      free_list = none;
      pools = [];
      memory = memory;
    } in
    if ltb 0 prealloc then preallocate prealloc malloc s else some s
