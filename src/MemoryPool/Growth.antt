-- ===== src/MemoryPool/Growth.antt =====
-- Code/PrivateChain/MemoryPool/mempool.cpp: what Preallocate, the end of Allocate, Free and a
-- client's write do to a pool.
use hybrid_blockchain_for_re.Prelude.{
  ℕ, zero, suc, ◌+◌, ◌-◌, ◌≡◌, refl, sym, subst, Option, none, some, List, [], ◌∷◌, ◌++◌,
  append_assoc, arith, inl, inr, All, All-append, Option-cases,
}
use hybrid_blockchain_for_re.MemoryPool.{
  Memory, store, MemoryPool, link_blocks, join_list, link_region, pop_block, free,
}
use hybrid_blockchain_for_re.MemoryPool.Blocks.{
  Apart, Separate, Linked, IsPool, store-Linked, store-here, region, region-Apart, Clear,
  Clear-Apart, Clear-later, link_blocks-Linked,
}

module _ (size : ℕ) where
  Apart-sym : (a b : ℕ) → Apart size a b → Apart size b a
  Apart-sym a b (inl h) = inr h
  Apart-sym a b (inr h) = inl h

  All-mid :
      (P : ℕ → Type 0) (xs : List ℕ) (a : ℕ) (ys : List ℕ)
      → All P (xs ++ a ∷ ys)
      → P a × All P (xs ++ ys)
  All-mid P [] a ys h = h
  All-mid P (x ∷ xs) a ys h = let (here, rest) = All-mid P xs a ys h.1 in (here, (h.0, rest))

  All-insert :
      (P : ℕ → Type 0) (xs : List ℕ) (a : ℕ) (ys : List ℕ)
      → P a
      → All P (xs ++ ys)
      → All P (xs ++ a ∷ ys)
  All-insert P [] a ys p h = (p, h)
  All-insert P (x ∷ xs) a ys p h = (h.0, All-insert P xs a ys p h.1)

  -- A block may be moved to the front, and back.
  Separate-front :
      (xs : List ℕ) (a : ℕ) (ys : List ℕ)
      → Separate size (xs ++ a ∷ ys)
      → Separate size (a ∷ (xs ++ ys))
  Separate-front [] a ys h = h
  Separate-front (x ∷ xs) a ys h =
      let (here, rest) = All-mid (Apart size x) xs a ys h.0 in
      let (apart, separate) = Separate-front xs a ys h.1 in
      ((Apart-sym x a here, apart), (rest, separate))

  Separate-back :
      (xs : List ℕ) (a : ℕ) (ys : List ℕ)
      → Separate size (a ∷ (xs ++ ys))
      → Separate size (xs ++ a ∷ ys)
  Separate-back [] a ys h = h
  Separate-back (x ∷ xs) a ys h = (
    All-insert (Apart size x) xs a ys (Apart-sym a x h.0.0) h.1.0,
    Separate-back xs a ys (h.0.1, h.1.1),
  )

  region-Separate :
      (n p : ℕ) (rest : List ℕ)
      → All (Clear size n p) rest
      → Separate size rest
      → Separate size (region size n p ++ rest)
  region-Separate zero p rest c h = h
  region-Separate (suc n) p rest c h = (
    All-append (Apart size p) (region size n (p + size)) rest
        (region-Apart size n (p + size) p (omega arith)) (Clear-Apart size n p rest c),
    region-Separate n (p + size) rest (Clear-later size n p rest c) h,
  )

store-again : (m : Memory) (a : ℕ) (u v : Option ℕ) → store (store m a u) a v ≡ store m a v
unfolding store
store-again m a u v = λ i x. again x i
  where
    again : (x : ℕ) → store (store m a u) a v x ≡ store m a v x
    again x = ground arith

join_list-store :
    (last : ℕ) (f : Option ℕ) (m : Memory) → join_list last f (store m last none) ≡ store m last f
join_list-store last none m = refl
join_list-store last (some f) m = store-again m last none (some f)

All-left : (P : ℕ → Type 0) (xs ys : List ℕ) → All P (xs ++ ys) → All P xs
All-left P [] ys h = tt
All-left P (x ∷ xs) ys h = (h.0, All-left P xs ys h.1)

one_less : (n : ℕ) → suc n - 1 ≡ n
one_less n = omega arith

-- Preallocate with a region of malloc clear of all blocks: the region's blocks are in front of the free list.
pub link_region-IsPool :
    (s : MemoryPool) (ready used : List ℕ) (n p : ℕ)
    → IsPool s ready used
    → All (Clear s.block_size (suc n) p) (ready ++ used)
    → (s' : MemoryPool) × (link_region (suc n) (some p) s ≡ some s')
      × IsPool s' (region s.block_size (suc n) p ++ ready) used
      × (s'.block_size ≡ s.block_size)
unfolding link_region
link_region-IsPool s ready used n p v clear =
    let r = link_blocks s.block_size n p s.memory in
    let memory : Memory = join_list r.0 s.free_list (store r.1 r.0 none) in
    let linked =
      link_blocks-Linked s.block_size n p s.memory s.free_list ready v.room
        (All-left (Clear s.block_size (suc n) p) ready used clear) v.linked in
    (
      record s { free_list = some p; pools = s.pools ++ p ∷ []; memory = memory },
      rw (one_less n) refl,
      record {
        room = v.room;
        linked =
            subst (λ m. Linked m (some p) (region s.block_size (suc n) p ++ ready))
              (sym (join_list-store r.0 s.free_list r.1)) linked;
        separate =
            subst (Separate s.block_size)
              (sym (append_assoc (region s.block_size (suc n) p) ready used))
              (region-Separate s.block_size (suc n) p (ready ++ used) clear v.separate);
      },
      refl,
    )

-- The first block of the free list is given out.
pub pop_block-IsPool :
    (s : MemoryPool) (b : ℕ) (ready used : List ℕ)
    → IsPool s (b ∷ ready) used
    → (s' : MemoryPool) × (pop_block s ≡ some (b, s'))
      × IsPool s' ready (b ∷ used)
      × (s'.block_size ≡ s.block_size)
unfolding pop_block
pop_block-IsPool s b ready used v = elim (Option-cases s.free_list) [
  | inl empty ↦ absurd (rw empty at v.linked)
  | inr (f, first) ↦
      let l = rw first at v.linked in
      (
        record s { free_list = s.memory f },
        rw first (rw (l.0) refl),
        record {
          room = v.room;
          linked = l.1;
          separate = Separate-back s.block_size ready b used v.separate;
        },
        refl,
      )
]

-- Free of a block that is in use: it is the first of the free list.
pub free-IsPool :
    (s : MemoryPool) (ready before : List ℕ) (a : ℕ) (after : List ℕ)
    → IsPool s ready (before ++ a ∷ after)
    → IsPool (free (some a) s) (a ∷ ready) (before ++ after)
unfolding free
free-IsPool s ready before a after v =
    let all : Separate s.block_size ((ready ++ before) ++ a ∷ after) =
      rw (append_assoc ready before (a ∷ after)) (v.separate) in
    let front = Separate-front s.block_size (ready ++ before) a after all in
    let apart : All (Apart s.block_size a) (ready ++ (before ++ after)) =
      rw (← append_assoc ready before after) (front.0) in
    record {
      room = v.room;
      linked = (
        refl,
        subst (λ y. Linked (store s.memory a s.free_list) y ready)
            (sym (store-here s.memory a s.free_list))
            (store-Linked s.block_size s.memory a s.free_list s.free_list ready v.room
              (All-left (Apart s.block_size a) ready (before ++ after) apart) v.linked),
      );
      separate = (apart, rw (← append_assoc ready before after) (front.1));
    }

-- The client of a block in use may write to it.
pub write-IsPool :
    (s : MemoryPool) (ready before : List ℕ) (a : ℕ) (after : List ℕ) (x : Option ℕ)
    → IsPool s ready (before ++ a ∷ after)
    → IsPool (record s { memory = store s.memory a x }) ready (before ++ a ∷ after)
write-IsPool s ready before a after x v =
    let all : Separate s.block_size ((ready ++ before) ++ a ∷ after) =
      rw (append_assoc ready before (a ∷ after)) (v.separate) in
    let front = Separate-front s.block_size (ready ++ before) a after all in
    record {
      room = v.room;
      linked =
          store-Linked s.block_size s.memory a x s.free_list ready v.room
            (All-left (Apart s.block_size a) ready before
              (All-left (Apart s.block_size a) (ready ++ before) after front.0))
            v.linked;
      separate = v.separate;
    }
