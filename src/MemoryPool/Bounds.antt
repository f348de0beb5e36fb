-- ===== src/MemoryPool/Bounds.antt =====
-- Code/PrivateChain/MemoryPool/mempool.hpp, `AlignUp`: the least multiple that is large enough.
use hybrid_blockchain_for_re.Prelude.{
  ℕ, ◌+◌, ◌*◌, ◌/◌, ◌%◌, ◌≤◌, ◌<◌, ◌≡◌, refl, Bool-cases, inl, inr, ◌==◌, arith,
}
use hybrid_blockchain_for_re.MemoryPool.{size_bound, align_up}

pub fits_size : (n : ℕ) → n < size_bound → n % size_bound ≡ n
fits_size n h = omega (arith, h)

-- For an alignment above zero and a size that is at least one alignment below 2 ^ 64, AlignUp gives a
-- multiple of the alignment, at least the size, and less than one alignment above it.
pub align_up-bounds :
    (size align : ℕ)
    → 0 < align
    → size + align ≤ size_bound
    → (size ≤ align_up size align)
      × (align_up size align < size + align)
      × ((k : ℕ) × (align_up size align ≡ k * align))
unfolding align_up
align_up-bounds size align h fits = elim (Bool-cases (size % align == 0)) [
  | inl even ↦
      let none_left : size % align ≡ 0 = ground (arith, even) in
      let whole = fits_size ((size / align) * align) (omega (arith, none_left, h, fits)) in
      rw (even, whole)
        (omega (arith, none_left, h), omega (arith, none_left, h), (size / align, refl))
  | inr odd ↦
      let some_left : 0 < size % align = ground (arith, odd) in
      let whole = fits_size ((size / align + 1) * align) (omega (arith, some_left, h, fits)) in
      rw (odd, whole)
        (omega (arith, some_left, h), omega (arith, some_left, h), (size / align + 1, refl))
]
