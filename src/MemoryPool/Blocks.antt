-- ===== src/MemoryPool/Blocks.antt =====
-- Code/PrivateChain/MemoryPool/mempool.cpp: the free list in memory as a list of blocks, and what
-- Preallocate, Allocate and Free do to it.
use hybrid_blockchain_for_re.Prelude.{
  ℕ, zero, suc, ◌+◌, ◌*◌, ◌≤◌, ◌<◌, ◌≡◌, refl, sym, subst, ◌∙◌, Option, none, some, List, [], ◌∷◌,
  ◌++◌, arith, inl, inr, ◌⊎◌, All,
}
use hybrid_blockchain_for_re.MemoryPool.{Memory, store, MemoryPool, link_blocks}

-- Two blocks of the size do not overlap.
abbrev pub Apart : ℕ → ℕ → ℕ → Type 0
Apart size a b = (a + size ≤ b) ⊎ (b + size ≤ a)

-- No two blocks overlap.
abbrev pub Separate : ℕ → List ℕ → Type 0
Separate size [] = Unit {0}
Separate size (a ∷ blocks) = All (Apart size a) blocks × Separate size blocks

-- The `next` pointers from a block on run through the list.
abbrev pub Linked : Memory → Option ℕ → List ℕ → Type 0
Linked m none [] = Unit {0}
Linked m none (b ∷ blocks) = ⊥
Linked m (some a) [] = ⊥
Linked m (some a) (b ∷ blocks) = (a ≡ b) × Linked m (m a) blocks

-- The pool, with the blocks of its free list and those that it has given out.
pub record IsPool (s : MemoryPool) (ready used : List ℕ) : Type 0 where
  pub room : 0 < s.block_size
  pub linked : Linked s.memory s.free_list ready
  pub separate : Separate s.block_size (ready ++ used)

pub store-here : (m : Memory) (a : ℕ) (v : Option ℕ) → store m a v a ≡ v
unfolding store
store-here m a v = ground arith

store-other : (m : Memory) (a : ℕ) (v : Option ℕ) (x : ℕ) → (x ≡ a → ⊥) → store m a v x ≡ m x
unfolding store
store-other m a v x h = ground arith

-- A write to a block that the list does not hold leaves the list.
pub store-Linked :
    (size : ℕ) (m : Memory) (a : ℕ) (v head : Option ℕ) (blocks : List ℕ)
    → 0 < size
    → All (Apart size a) blocks
    → Linked m head blocks
    → Linked (store m a v) head blocks
store-Linked size m a v none [] p h l = tt
store-Linked size m a v none (b ∷ blocks) p h l = l
store-Linked size m a v (some x) [] p h l = l
store-Linked size m a v (some x) (b ∷ blocks) p h l = (
  l.0,
  subst (λ y. Linked (store m a v) y blocks)
      (sym (
        store-other m a v x (λ same. elim h.0 [
          | inl u ↦ absurd (omega (arith, l.0))
          | inr u ↦ absurd (omega (arith, l.0))
        ])))
      (store-Linked size m a v (m x) blocks p h.1 l.1),
)

-- The blocks of a fresh region.
abbrev pub region : ℕ → ℕ → ℕ → List ℕ
region size zero p = []
region size (suc n) p = p ∷ region size n (p + size)

-- A region of `n` blocks at `p` is clear of a block.
abbrev pub Clear : ℕ → ℕ → ℕ → ℕ → Type 0
Clear size n p a = (a + size ≤ p) ⊎ (p + n * size ≤ a)

pub region-Apart : (size n p a : ℕ) → a + size ≤ p → All (Apart size a) (region size n p)
region-Apart size zero p a h = tt
region-Apart size (suc n) p a h = (inl h, region-Apart size n (p + size) a (omega arith))

-- The loop writes nothing below where it starts, and ends there or above.
link_blocks-above : (size left p : ℕ) (m : Memory) → p ≤ (link_blocks size left p m).0
unfolding link_blocks
link_blocks-above size zero p m = omega arith
link_blocks-above size (suc left) p m =
    omega (arith, link_blocks-above size left (p + size) (store m p (some (p + size))))

link_blocks-below :
    (size left p : ℕ) (m : Memory) (x : ℕ) → x < p → (link_blocks size left p m).1 x ≡ m x
unfolding link_blocks
link_blocks-below size zero p m x h = refl
link_blocks-below size (suc left) p m x h =
    link_blocks-below size left (p + size) (store m p (some (p + size))) x (omega (arith, h))
    ∙ store-other m p (some (p + size)) x (λ e. omega (arith, e, h))

pub Clear-Apart :
    (size left p : ℕ) (rest : List ℕ) → All (Clear size (suc left) p) rest → All (Apart size p) rest
Clear-Apart size left p [] h = tt
Clear-Apart size left p (a ∷ rest) h = (
  elim h.0 [ inl before ↦ inr before | inr after ↦ inl (omega (arith, after)) ],
  Clear-Apart size left p rest h.1,
)

pub Clear-later :
    (size n p : ℕ) (rest : List ℕ)
    → All (Clear size (suc n) p) rest
    → All (Clear size n (p + size)) rest
Clear-later size n p [] h = tt
Clear-later size n p (a ∷ rest) h = (
  elim h.0 [ inl before ↦ inl (omega (arith, before)) | inr after ↦ inr (omega (arith, after)) ],
  Clear-later size n p rest h.1,
)

-- What the loop and the last write leave: the region linked up, with the old list behind it.
pub link_blocks-Linked :
    (size left p : ℕ) (m : Memory) (tail : Option ℕ) (rest : List ℕ)
    → 0 < size
    → All (Clear size (suc left) p) rest
    → Linked m tail rest
    → Linked
        (store ((link_blocks size left p m).1) ((link_blocks size left p m).0) tail)
        (some p)
        (region size (suc left) p ++ rest)
unfolding link_blocks
link_blocks-Linked size zero p m tail rest pos_size clear l = (
  refl,
  subst (λ y. Linked (store m p tail) y rest) (sym (store-here m p tail))
      (store-Linked size m p tail tail rest pos_size (Clear-Apart size 0 p rest clear) l),
)
link_blocks-Linked size (suc left) p m tail rest pos_size clear l =
    let m1 : Memory = store m p (some (p + size)) in
    let kept =
      store-Linked size m p (some (p + size)) tail rest pos_size
        (Clear-Apart size (suc left) p rest clear) l in
    let ih =
      link_blocks-Linked size left (p + size) m1 tail rest pos_size
        (Clear-later size (suc left) p rest clear) kept in
    let r = link_blocks size left (p + size) m1 in
    let head : store r.1 r.0 tail p ≡ some (p + size) =
      store-other r.1 r.0 tail p
        (λ e. omega (arith, e, link_blocks-above size left (p + size) m1, pos_size))
      ∙ link_blocks-below size left (p + size) m1 p (omega (arith, pos_size))
      ∙ store-here m p (some (p + size)) in
    (
      refl,
      subst (λ y. Linked (store r.1 r.0 tail) y (region size (suc left) (p + size) ++ rest))
          (sym head) ih,
    )
