-- ===== src/MemoryPool/Runs.antt =====
-- Code/PrivateChain/MemoryPool/mempool.cpp: what each operation does to a pool, and the runs of a
-- pool and its clients.
use hybrid_blockchain_for_re.Prelude.{
  some_injective, ◌%◌, ◌≤◌, ℕ, zero, suc, ◌+◌, ◌-◌, ◌*◌, ◌<◌, ◌≡◌, refl, sym, ap, subst, ◌∙◌, false,
  true, Option, none, some, List, [], ◌∷◌, ◌++◌, length, is_empty, arith, Bool-cases, inl, inr, All,
  if◌then◌else◌, Option-cases, ltb,
}
use hybrid_blockchain_for_re.MemoryPool.{
  Memory, store, MemoryPool, preallocate, expand_num, pop_block, allocate, free, new_pool, align_up,
  pointer_size, size_bound, link_region,
}
use hybrid_blockchain_for_re.MemoryPool.Bounds.{fits_size, align_up-bounds}
use hybrid_blockchain_for_re.MemoryPool.Blocks.{IsPool, region, Clear}
use hybrid_blockchain_for_re.MemoryPool.Growth.{
  link_region-IsPool, pop_block-IsPool, free-IsPool, write-IsPool,
}

expand_num-pos :
    (s : MemoryPool) → length s.pools * 1024 < size_bound → (k : ℕ) × (expand_num s ≡ suc k)
unfolding expand_num
expand_num-pos s fits = elim (Bool-cases (is_empty s.pools)) [
  | inl first ↦ (1023, rw first refl)
  | inr more ↦ (
    length s.pools * 1024 - 1,
    rw (more, fits_size (length s.pools * 1024) fits) (grown s.pools more),
  )
]
  where
    grown :
        (pools : List ℕ)
        → is_empty pools ≡ false
        → length pools * 1024 ≡ suc (length pools * 1024 - 1)
    grown [] h = absurd (let no = h in cc no)
    grown (p ∷ pools) h = omega arith

allocate-ready :
    (s : MemoryPool) (malloc : ℕ → Option ℕ) (f : ℕ)
    → s.free_list ≡ some f
    → allocate malloc s ≡ pop_block s
unfolding allocate
allocate-ready s malloc f e =
    ap
      (λ o. elim o as (λ x. Option (ℕ × MemoryPool)) [
        | some block ↦ pop_block s
        | none ↦ elim (preallocate (expand_num s) malloc s) [
          | none ↦ none
          | some grown ↦ pop_block grown
        ]
      ])
      e

allocate-grown :
    (s : MemoryPool) (malloc : ℕ → Option ℕ) (grown : MemoryPool)
    → s.free_list ≡ none
    → preallocate (expand_num s) malloc s ≡ some grown
    → allocate malloc s ≡ pop_block grown
unfolding allocate
allocate-grown s malloc grown e run =
    ap
      (λ o. elim o as (λ x. Option (ℕ × MemoryPool)) [
        | some block ↦ pop_block s
        | none ↦ elim (preallocate (expand_num s) malloc s) [
          | none ↦ none
          | some more ↦ pop_block more
        ]
      ])
      e
    ∙ ap
        (λ o. elim o as (λ x. Option (ℕ × MemoryPool)) [ none ↦ none | some more ↦ pop_block more ])
        run

preallocate-given :
    (s : MemoryPool) (n : ℕ) (malloc : ℕ → Option ℕ) (o : Option ℕ)
    → malloc ((n * s.block_size) % size_bound) ≡ o
    → preallocate n malloc s ≡ link_region n o s
unfolding preallocate
preallocate-given s n malloc o e = ap (λ x. link_region n x s) e

-- malloc gives a region of so many blocks, clear of the blocks in use.
abbrev pub Given : MemoryPool → List ℕ → Option ℕ → Type 0
Given s used none = ⊥
Given s used (some p) = All (Clear s.block_size (expand_num s) p) used

-- The sizes of the next expansion fit in a size_t, and malloc gives the region for it.
abbrev pub Supplied : MemoryPool → List ℕ → (ℕ → Option ℕ) → Type 0
Supplied s used malloc =
    (length s.pools * 1024 < size_bound)
    × (expand_num s * s.block_size < size_bound)
    × Given s used (malloc ((expand_num s * s.block_size) % size_bound))

-- Allocate, where there is a free block or else malloc gives a region: it gives out a block, which
-- overlaps no other.
pub allocate-IsPool :
    (s : MemoryPool) (ready used : List ℕ) (malloc : ℕ → Option ℕ)
    → IsPool s ready used
    → (s.free_list ≡ none → Supplied s used malloc)
    → (a : ℕ) × (s' : MemoryPool) × (rest : List ℕ) × (allocate malloc s ≡ some (a, s'))
      × IsPool s' rest (a ∷ used)
      × (s'.block_size ≡ s.block_size)
allocate-IsPool s [] used malloc v h = elim (Option-cases s.free_list) [
  | inr (f, first) ↦ absurd (rw first at v.linked)
  | inl empty ↦
      let (fits, _, given) = h empty in
      grow s used malloc (malloc ((expand_num s * s.block_size) % size_bound)) refl empty v fits
        given
]
  where
    grow :
        (s : MemoryPool) (used : List ℕ) (malloc : ℕ → Option ℕ) (o : Option ℕ)
        → malloc ((expand_num s * s.block_size) % size_bound) ≡ o
        → s.free_list ≡ none
        → IsPool s [] used
        → length s.pools * 1024 < size_bound
        → Given s used o
        → (a : ℕ) × (s' : MemoryPool) × (rest : List ℕ) × (allocate malloc s ≡ some (a, s'))
          × IsPool s' rest (a ∷ used)
          × (s'.block_size ≡ s.block_size)
    grow s used malloc none given empty v fits c = absurd c
    grow s used malloc (some p) given empty v fits c =
        let (k, count) = expand_num-pos s fits in
        let (grown, run, w, kept) =
          link_region-IsPool s [] used k p v
            (subst (λ n. All (Clear s.block_size n p) used) count c) in
        let (s', popped, x, same) =
          pop_block-IsPool grown p (region s.block_size k (p + s.block_size) ++ []) used w in
        (
          p,
          s',
          region s.block_size k (p + s.block_size) ++ [],
          allocate-grown s malloc grown empty (
                preallocate-given s (expand_num s) malloc (some p) given
                ∙ subst (λ n. link_region n (some p) s ≡ some grown) (sym count) run)
              ∙ popped,
          x,
          same ∙ kept,
        )
allocate-IsPool s (b ∷ ready) used malloc v h = elim (Option-cases s.free_list) [
  | inl empty ↦ absurd (rw empty at v.linked)
  | inr (f, first) ↦
      let (s', popped, x, same) = pop_block-IsPool s b ready used v in
      (b, s', ready, allocate-ready s malloc f first ∙ popped, x, same)
]

block_room :
    (block_size align : ℕ)
    → 0 < align
    → (if ltb block_size pointer_size then pointer_size else block_size) + align ≤ size_bound
    → 0 < align_up (if ltb block_size pointer_size then pointer_size else block_size) align
block_room block_size align h fits =
    let (enough, _, _) =
      align_up-bounds (if ltb block_size pointer_size then pointer_size else block_size) align h
        fits in
    let size_pos : 0 < (if ltb block_size pointer_size then pointer_size else block_size) =
      ground arith in
    omega (arith, enough, size_pos)

abbrev empty_pool : ℕ → ℕ → Memory → MemoryPool
empty_pool block_size align m = record {
  block_size = align_up (if ltb block_size pointer_size then pointer_size else block_size) align;
  align = align;
  free_list = none;
  pools = [];
  memory = m;
}

none-ne-some : (n : ℕ) (t s : MemoryPool) → link_region n none t ≡ some s → ⊥
unfolding link_region
none-ne-some n t s e = cc e

ltb-positive : (n : ℕ) → ltb 0 (suc n) ≡ true
ltb-positive n = ground arith

-- A new pool, with an alignment above 0.
new_pool-IsPool :
    (block_size align prealloc : ℕ) (malloc : ℕ → Option ℕ) (m : Memory) (s : MemoryPool)
    → 0 < align
    → (if ltb block_size pointer_size then pointer_size else block_size) + align ≤ size_bound
    → new_pool block_size align prealloc malloc m ≡ some s
    → (ready : List ℕ) × IsPool s ready []
unfolding new_pool
new_pool-IsPool block_size align zero malloc m s h fits made =
    let empty = empty_pool block_size align m in
    let same : empty ≡ s = ground (arith, made) in
    (
      [],
      subst (λ x. IsPool x [] []) same
          (record { room = block_room block_size align h fits; linked = tt; separate = tt }),
    )
new_pool-IsPool block_size align (suc n) malloc m s h fits made =
    let empty = empty_pool block_size align m in
    let opened : (if ltb 0 (suc n) then preallocate (suc n) malloc empty else some empty) ≡ some s =
      made in
    let made' : preallocate (suc n) malloc empty ≡ some s = rw (ltb-positive n) at opened in
    elim (Option-cases (malloc ((suc n * empty.block_size) % size_bound))) [
      | inl refused ↦ absurd (
          let no = sym (preallocate-given empty (suc n) malloc none refused) ∙ made' in
          none-ne-some (suc n) empty s no)
      | inr (p, given) ↦
          let (t, run, v, _) =
            link_region-IsPool empty [] [] n p
              (record { room = block_room block_size align h fits; linked = tt; separate = tt })
              tt in
          let same : t ≡ s =
            some_injective t s
              (sym run ∙ sym (preallocate-given empty (suc n) malloc (some p) given) ∙ made') in
          (
            region empty.block_size (suc n) p ++ [],
            subst (λ x. IsPool x (region empty.block_size (suc n) p ++ []) []) same v,
          )
    ]

-- A pool with the blocks that its clients hold, the last one given out in front.
pub data Run : MemoryPool → List ℕ → Type 0 where
  created :
      (block_size align prealloc : ℕ) (malloc : ℕ → Option ℕ) (m : Memory) (s : MemoryPool)
      → 0 < align
      → (if ltb block_size pointer_size then pointer_size else block_size) + align ≤ size_bound
      → prealloc * s.block_size < size_bound
      → new_pool block_size align prealloc malloc m ≡ some s
      → Run s []
  allocated :
      (s s' : MemoryPool) (used : List ℕ) (malloc : ℕ → Option ℕ) (a : ℕ)
      → Run s used
      → (s.free_list ≡ none → Supplied s used malloc)
      → allocate malloc s ≡ some (a, s')
      → Run s' (a ∷ used)
  freed :
      (s : MemoryPool) (before : List ℕ) (a : ℕ) (after : List ℕ)
      → Run s (before ++ a ∷ after)
      → Run (free (some a) s) (before ++ after)
  written :
      (s : MemoryPool) (before : List ℕ) (a : ℕ) (after : List ℕ) (x : Option ℕ)
      → Run s (before ++ a ∷ after)
      → Run (record s { memory = store s.memory a x }) (before ++ a ∷ after)

-- A pool with an alignment above zero and sizes that fit in a size_t, whose clients free only blocks
-- that they hold, once, and write only the first cell of such a block, and for which malloc gives
-- each region it asks for, clear of the blocks in use: the free list and the blocks in use stay
-- apart, and the list in memory is intact.
pub Run-IsPool :
    (s : MemoryPool) (used : List ℕ) → Run s used → (ready : List ℕ) × IsPool s ready used
Run-IsPool s _ (created b a n malloc m _ h fits _ e) = new_pool-IsPool b a n malloc m s h fits e
Run-IsPool s _ (allocated t _ before malloc a r h e) =
    let (ready, v) = Run-IsPool t before r in
    let (b, u, rest, run, x, _) = allocate-IsPool t ready before malloc v h in
    let same : ◌≡◌ {A = ℕ × MemoryPool} (b, u) (a, s) = ground (arith, sym run ∙ e) in
    (rest, subst (λ y. IsPool y.1 rest (y.0 ∷ before)) same x)
Run-IsPool _ _ (freed t before a after r) =
    let (ready, v) = Run-IsPool t (before ++ a ∷ after) r in
    (a ∷ ready, free-IsPool t ready before a after v)
Run-IsPool _ _ (written t before a after x r) =
    let (ready, v) = Run-IsPool t (before ++ a ∷ after) r in
    (ready, write-IsPool t ready before a after x v)
