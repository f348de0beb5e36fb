-- ===== src/MerkleTree/Levels.antt =====
-- What `BuildFromBlocks` of Code/PrivateChain/MerkleTree/MerkleTree_Build.cpp makes: a root for
-- any blocks, hashes that fit together, and the blocks as leaves, in order.
use hybrid_blockchain_for_re.Prelude.{
  ℕ, zero, suc, ◌≤◌, ◌≡◌, refl, ap, ◌∙◌, sym, some, List, [], ◌∷◌, ◌++◌, append-nil, append_assoc,
  Text, pos, negsuc, length, arith, All, sub_ℕ,
}
use hybrid_blockchain_for_re.Sha256.{Digest, sha256}
use hybrid_blockchain_for_re.Sha256.Hex.{length-sha256}
use hybrid_blockchain_for_re.MerkleTree.{
  Node, leaf, fork, hash_of, make_leaves, parent_of, pair_level, build_levels, build_from_blocks,
  MerkleTree,
}

-- The numbered leaves below a node, from the left: number, value, hash.
abbrev pub numbered_leaves : Node → List (ℕ × Text × Text)
numbered_leaves (leaf (pos i) v h) = (i, v, h) ∷ []
numbered_leaves (leaf (negsuc i) v h) = []
numbered_leaves (fork h l r) = numbered_leaves l ++ numbered_leaves r

abbrev pub numbered_all : List Node → List (ℕ × Text × Text)
numbered_all [] = []
numbered_all (x ∷ xs) = numbered_leaves x ++ numbered_all xs

module _ (d : Digest) where
  -- Every hash has 64 characters, and a parent's is that of its children's.
  abbrev pub IsHashed : Node → Type 0
  IsHashed (leaf id v h) = length h ≡ 64
  IsHashed (fork h l r) = (h ≡ sha256 d (hash_of l ++ hash_of r)) × IsHashed l × IsHashed r

  pub length-hash_of : (x : Node) → IsHashed x → length (hash_of x) ≡ 64
  length-hash_of (leaf id v h) w = w
  length-hash_of (fork h l r) w = rw w.0 (length-sha256 d (hash_of l ++ hash_of r))

  pair_level-IsHashed : (xs : List Node) → All IsHashed xs → All IsHashed (pair_level d xs)
  unfolding pair_level
  pair_level-IsHashed [] w = tt
  pair_level-IsHashed (x ∷ []) w = ((refl, w.0, length-hash_of x w.0), tt)
  pair_level-IsHashed (x ∷ y ∷ rest) w = ((refl, w.0, w.1.0), pair_level-IsHashed rest w.1.1)

  make_leaves-IsHashed : (i : ℕ) (bs : List Text) → All IsHashed (make_leaves d i bs)
  unfolding make_leaves
  make_leaves-IsHashed i [] = tt
  make_leaves-IsHashed i (b ∷ bs) = (length-sha256 d b, make_leaves-IsHashed (suc i) bs)

  pub numbered_all-pair_level : (xs : List Node) → numbered_all (pair_level d xs) ≡ numbered_all xs
  unfolding pair_level
  numbered_all-pair_level [] = refl
  numbered_all-pair_level (x ∷ []) = append-nil (numbered_leaves x ++ [])
  numbered_all-pair_level (x ∷ y ∷ rest) =
      rw (numbered_all-pair_level rest)
        (append_assoc (numbered_leaves x) (numbered_leaves y) (numbered_all rest))

  pub length-pair_level :
      (x y : Node) (rest : List Node) → length (pair_level d (x ∷ y ∷ rest)) ≤ suc (length rest)
  unfolding pair_level
  length-pair_level x y [] = omega arith
  length-pair_level x y (z ∷ []) = omega arith
  length-pair_level x y (z ∷ w ∷ rest) = omega (arith, length-pair_level z w rest)

  -- What every round keeps holds of the root, if it holds of the leaves.
  pub build_levels_inv {ℓ} :
      (P : List Node → Type ℓ)
      → ((xs : List Node) → P xs → P (pair_level d xs))
      → (f : ℕ) (xs : List Node) (root : Node) → build_levels d f xs ≡ some root
      → P xs
      → P (root ∷ [])
  unfolding build_levels
  build_levels_inv P keep zero xs root e h = cc
  build_levels_inv P keep (suc f) [] root e h = cc
  build_levels_inv P keep (suc f) (x ∷ []) root e h =
      let same : x ≡ root = ground arith in rw (← same) h
  build_levels_inv P keep (suc f) (x ∷ y ∷ rest) root e h =
      build_levels_inv P keep f (pair_level d (x ∷ y ∷ rest)) root e (keep (x ∷ y ∷ rest) h)

  -- As many rounds as there are nodes are enough.
  build_levels_total :
      (f : ℕ) (x : Node) (xs : List Node)
      → length (x ∷ xs) ≤ f
      → (root : Node) × (build_levels d f (x ∷ xs) ≡ some root)
  unfolding build_levels
  build_levels_total zero x xs h = absurd (omega arith)
  build_levels_total (suc f) x [] h = (x, refl)
  build_levels_total (suc f) x (y ∷ rest) h =
      build_levels_total f (parent_of d x y) (pair_level d rest)
        (omega (arith, length-pair_level x y rest))

  pub length-make_leaves : (i : ℕ) (bs : List Text) → length (make_leaves d i bs) ≡ length bs
  unfolding make_leaves
  length-make_leaves i [] = refl
  length-make_leaves i (b ∷ bs) = ap suc (length-make_leaves (suc i) bs)

  -- The fuel of BuildFromBlocks is enough: blocks give a root.
  pub build_from_blocks_total :
      (b : Text) (bs : List Text) → (root : Node) × (build_from_blocks d (b ∷ bs) ≡ some root)
  unfolding build_from_blocks
  build_from_blocks_total b bs =
      build_levels_total (length (b ∷ bs)) _ (make_leaves d 1 bs)
        (omega (arith, length-make_leaves 1 bs))

  pub build_from_blocks-IsHashed :
      (bs : List Text) (root : Node) → build_from_blocks d bs ≡ some root → IsHashed root
  unfolding build_from_blocks
  build_from_blocks-IsHashed bs root e =
      (build_levels_inv (All IsHashed) pair_level-IsHashed (length bs) _ root e
        (make_leaves-IsHashed 0 bs)).0

  -- The blocks from number `i` on, each with its number and hash.
  abbrev pub numbered_from : ℕ → List Text → List (ℕ × Text × Text)
  numbered_from i [] = []
  numbered_from i (b ∷ bs) = (i, b, sha256 d b) ∷ numbered_from (suc i) bs

  numbered_leaves-make_leaves :
      (i : ℕ) (bs : List Text) → numbered_all (make_leaves d i bs) ≡ numbered_from i bs
  unfolding make_leaves
  numbered_leaves-make_leaves i [] = refl
  numbered_leaves-make_leaves i (b ∷ bs) =
      ap (◌∷◌ (i, b, sha256 d b)) (numbered_leaves-make_leaves (suc i) bs)

  -- The numbered leaves of the root are the blocks.
  pub numbered_leaves-build :
      (bs : List Text) (root : Node)
      → build_from_blocks d bs ≡ some root
      → numbered_leaves root ≡ numbered_from 0 bs
  unfolding build_from_blocks
  numbered_leaves-build bs root e =
      sym (append-nil (numbered_leaves root))
      ∙ build_levels_inv (λ xs. numbered_all xs ≡ numbered_from 0 bs)
          (λ xs h. numbered_all-pair_level xs ∙ h) (length bs) _ root e
          (numbered_leaves-make_leaves 0 bs)

  -- The stored root is that of the stored blocks, and blockNo the index of the last one.
  pub record IsBuilt (t : MerkleTree) : Type 0 where
    pub root_eq : t.root ≡ build_from_blocks d t.blocks
    pub last_eq : t.block_no ≡ sub_ℕ (length t.blocks) 1
