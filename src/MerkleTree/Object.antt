-- ===== src/MerkleTree/Object.antt =====
-- The object's invariant under the constructor, Append and Build
-- (Code/PrivateChain/MerkleTree/MerkleTree_Build.cpp), and the chunks that Build reads.
use hybrid_blockchain_for_re.Prelude.{
  ℕ, zero, suc, ◌-◌, ◌≤◌, ◌<◌, ◌≡◌, refl, ap, ◌∙◌, sym, Bool, true, false, Option, none, some, List,
  [], ◌∷◌, ◌++◌, Text, ℤ, length, arith, All, append_assoc, append-nil, length-append, take, drop,
  take-append-drop, length-take, length-drop, length-replicate, replicate, ltb, Bool-cases, inl,
  inr, ◌⊎◌, take_all, ltb→lt, ge→ltb, gt→leb,
}
use mathlib.Core.List.{flatten}
use hybrid_blockchain_for_re.Sha256.{Digest}
use hybrid_blockchain_for_re.MerkleTree.{
  MerkleTree, new_tree, build_from_blocks, store_blocks, append, read_chunks, file_blocks, size_of,
  build,
}
use hybrid_blockchain_for_re.MerkleTree.Levels.{build_from_blocks_total, IsBuilt}

module _ (d : Digest) where
  -- A new object has no blocks and no root.
  pub new_tree-IsBuilt : (n : ℤ) → IsBuilt d (new_tree n)
  unfolding new_tree build_from_blocks
  new_tree-IsBuilt n = record { root_eq = refl; last_eq = refl }

  -- What storing blocks that are not the empty list does.
  pub record Stored (t : MerkleTree) (bs : List Text) (r : Bool × MerkleTree) : Type 0 where
    pub succeeds : r.0 ≡ true
    pub is_built : IsBuilt d r.1
    pub blocks_eq : r.1.blocks ≡ bs
    pub block_size_eq : r.1.block_size ≡ t.block_size

  pub store_blocks-Stored :
      (t : MerkleTree) (b : Text) (bs : List Text) → Stored t (b ∷ bs) (store_blocks d t (b ∷ bs))
  unfolding store_blocks
  store_blocks-Stored t b bs =
      let (root, e) = build_from_blocks_total d b bs in
      rw (e, store_blocks)
        (record {
          succeeds = refl;
          is_built = record { root_eq = sym e; last_eq = refl };
          blocks_eq = refl;
          block_size_eq = refl;
        })

  store_blocks-Stored_last :
      (t : MerkleTree) (bs : List Text) (b : Text)
      → Stored t (bs ++ b ∷ []) (store_blocks d t (bs ++ b ∷ []))
  store_blocks-Stored_last t [] b = store_blocks-Stored t b []
  store_blocks-Stored_last t (x ∷ bs) b = store_blocks-Stored t x (bs ++ b ∷ [])

  -- Append refuses the empty block alone, and then changes nothing.
  pub append-empty : (t : MerkleTree) → append d t [] ≡ (false, t)
  unfolding append
  append-empty t = refl

  -- A block that is not empty: Append succeeds, puts it behind the others, keeps the block size,
  -- and leaves the object built.
  pub append-Stored :
      (t : MerkleTree) (c : ℕ) (s : Text) → Stored t (t.blocks ++ (c ∷ s) ∷ []) (append d t (c ∷ s))
  unfolding append
  append-Stored t c s = store_blocks-Stored_last t t.blocks (c ∷ s)

-- What the chunks of a file are: blocks of `size` bytes, which hold the file and then fewer than
-- `size` fillers.
pub record Chunked (size : ℕ) (content : Text) (chunks : List Text) : Type 0 where
  pub sized : All (λ c. length c ≡ size) chunks
  pub fill : ℕ
  pub fill_lt : fill < size
  pub holds : flatten chunks ≡ content ++ replicate fill b'E'

read_chunks-Chunked :
    (f size : ℕ) (content : Text)
    → 0 < size
    → length content < f
    → Chunked size content (read_chunks f size content)
unfolding read_chunks flatten
read_chunks-Chunked zero size content pos_size enough = absurd (omega arith)
read_chunks-Chunked (suc f) size [] pos_size enough =
    rw (take_all {A = ℕ} size [] (omega arith))
      (record { sized = tt; fill = 0; fill_lt = pos_size; holds = refl })
read_chunks-Chunked (suc f) size (c ∷ rest) pos_size enough =
    let content = c ∷ rest in
    elim (Bool-cases (ltb (length content) size)) [
      | inl short ↦
          rw
            (
              take_all size content (omega (arith, ltb→lt (length content) size short)),
              short,
              gt→leb (length content) 0 (omega arith),
            )
            (record {
              sized = (
                length-append content (replicate (size - length content) b'E')
                    ∙ omega (
                      arith,
                      length-replicate {A = ℕ} (size - length content) b'E',
                      ltb→lt (length content) size short,
                    ),
                tt,
              );
              fill = size - length content;
              fill_lt = omega (arith, ltb→lt (length content) size short);
              holds = append-nil (content ++ replicate (size - length content) b'E');
            })
      | inr long ↦
          let fits : size ≤ length content = ground (arith, long) in
          let count = length-take size content fits in
          let shorter = length-drop size content in
          let ih = read_chunks-Chunked f size (drop size content) pos_size (omega arith) in
          rw (count, gt→leb size 0 pos_size, ge→ltb size size (omega arith))
            (record {
              sized = (count, ih.sized);
              fill = ih.fill;
              fill_lt = ih.fill_lt;
              holds =
                  ap (◌++◌ (take size content)) ih.holds
                  ∙ sym (
                      append_assoc (take size content) (drop size content) (replicate ih.fill b'E'))
                  ∙ ap (λ (u : Text). u ++ replicate ih.fill b'E') (take-append-drop size content);
            })
    ]

-- A file that is not empty gives at least one chunk.
chunks-ne-nil :
    (size : ℕ) (c : ℕ) (rest : Text) (chunks : List Text)
    → Chunked size (c ∷ rest) chunks
    → (b : Text) × (bs : List Text) × (chunks ≡ b ∷ bs)
unfolding flatten
chunks-ne-nil size c rest [] k = absurd (let no = k.holds in cc no)
chunks-ne-nil size c rest (b ∷ bs) k = (b, bs, refl)

-- Build where it reads blocks.
build-Stored :
    (d : Digest) (t : MerkleTree) (content b : Text) (bs : List Text)
    → 0 < size_of t.block_size
    → file_blocks t.block_size content ≡ b ∷ bs
    → Stored d t (b ∷ bs) (build d t (some content))
unfolding build
build-Stored d t content b bs size e =
    rw (e, gt→leb (size_of t.block_size) 0 size) (store_blocks-Stored d t b bs)

file_blocks-Chunked :
    (size : ℤ) (content : Text)
    → 0 < size_of size
    → Chunked (size_of size) content (file_blocks size content)
unfolding file_blocks
file_blocks-Chunked size content h =
    read_chunks-Chunked (suc (length content)) (size_of size) content h (omega arith)

-- Build on a file that opens and is not empty, with a block size above 0: it succeeds, the object
-- is built, and its blocks are the file's chunks.
pub build-Chunked :
    (d : Digest) (t : MerkleTree) (c : ℕ) (rest : Text)
    → 0 < size_of t.block_size
    → let r = build d t (some (c ∷ rest)) in
      (r.0 ≡ true) × IsBuilt d r.1 × Chunked (size_of t.block_size) (c ∷ rest) r.1.blocks
build-Chunked d t c rest size =
    let k = file_blocks-Chunked t.block_size (c ∷ rest) size in
    let (b, bs, e) = chunks-ne-nil (size_of t.block_size) c rest _ k in
    let stored = build-Stored d t (c ∷ rest) b bs size e in
    (stored.succeeds, stored.is_built, rw (stored.blocks_eq) (rw e at k))

file_blocks-nil : (size : ℤ) → file_blocks size [] ≡ []
unfolding file_blocks read_chunks
file_blocks-nil size = rw (take_all {A = ℕ} (size_of size) [] (omega arith))

-- A file that does not open, is empty, or is read in blocks of no size: Build changes nothing.
pub build_refused :
    (d : Digest) (t : MerkleTree) (file : Option Text)
    → (file ≡ none) ⊎ ((file ≡ some []) ⊎ (size_of t.block_size ≡ 0))
    → build d t file ≡ (false, t)
unfolding build
build_refused d t none h = refl
build_refused d t (some content) (inl e) = cc
build_refused d t (some content) (inr (inl e)) =
    let empty : content ≡ [] = ground arith in
    rw (empty, file_blocks-nil t.block_size) (ground arith)
build_refused d t (some content) (inr (inr e)) = rw e
