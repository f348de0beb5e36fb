-- ===== src/MerkleTree/Roots.antt =====
-- What a root hash of Code/PrivateChain/MerkleTree/MerkleTree_Build.cpp says of the blocks: it binds
-- them once their number is known, and it does not bind their number.
use hybrid_blockchain_for_re.Prelude.{
  ℕ, zero, suc, ◌+◌, ◌≡◌, refl, ap, ap₂, subst, ◌∙◌, sym, some, List, [], ◌∷◌, ◌++◌, map, Text,
  length, arith, All, inl, inr, ◌⊎◌,
}
use hybrid_blockchain_for_re.Sha256.{Digest, sha256}
use hybrid_blockchain_for_re.Sha256.Hex.{
  Collision, Collision-front, Collision-back, sha256-Clash, length-sha256,
}
use hybrid_blockchain_for_re.MerkleTree.{
  Node, hash_of, build_from_blocks, build_levels, pair_level, make_leaves,
}
use hybrid_blockchain_for_re.MerkleTree.Binding.{pair_Clash}

abbrev hashes : List Node → List Text
hashes = map hash_of

abbrev IsSized : List Node → Type 0
IsSized = All (λ x. length (hash_of x) ≡ 64)

module _ (d : Digest) where
  make_leaves-IsSized : (i : ℕ) (bs : List Text) → IsSized (make_leaves d i bs)
  unfolding make_leaves
  make_leaves-IsSized i [] = tt
  make_leaves-IsSized i (b ∷ bs) = (length-sha256 d b, make_leaves-IsSized (suc i) bs)

  pair_level-IsSized : (xs : List Node) → IsSized (pair_level d xs)
  unfolding pair_level
  pair_level-IsSized [] = tt
  pair_level-IsSized (x ∷ []) = (length-sha256 d (hash_of x ++ hash_of x), tt)
  pair_level-IsSized (x ∷ y ∷ rest) =
      (length-sha256 d (hash_of x ++ hash_of y), pair_level-IsSized rest)

  -- The texts that a round of the loop over the levels hashes.
  pair_inputs : List Node → List Text
  pair_inputs [] = []
  pair_inputs (x ∷ []) = (hash_of x ++ hash_of x) ∷ []
  pair_inputs (x ∷ y ∷ rest) = (hash_of x ++ hash_of y) ∷ pair_inputs rest

  length-pair_inputs_eq :
      (xs ys : List Node)
      → length xs ≡ length ys
      → length (pair_inputs xs) ≡ length (pair_inputs ys)
  unfolding pair_inputs
  length-pair_inputs_eq [] [] l = refl
  length-pair_inputs_eq [] (y ∷ ys) l = absurd (omega (arith, l))
  length-pair_inputs_eq (x ∷ xs) [] l = absurd (omega (arith, l))
  length-pair_inputs_eq (x ∷ []) (y ∷ []) l = refl
  length-pair_inputs_eq (x ∷ []) (y ∷ z ∷ ys) l = absurd (omega (arith, l))
  length-pair_inputs_eq (x ∷ w ∷ xs) (y ∷ []) l = absurd (omega (arith, l))
  length-pair_inputs_eq (x ∷ w ∷ xs) (y ∷ z ∷ ys) l =
      ap suc (length-pair_inputs_eq xs ys (omega (arith, l)))

  -- Those of all the rounds.
  level_inputs : ℕ → List Node → List Text
  level_inputs zero xs = []
  level_inputs (suc f) [] = []
  level_inputs (suc f) (x ∷ []) = []
  level_inputs (suc f) (x ∷ y ∷ rest) =
      pair_inputs (x ∷ y ∷ rest) ++ level_inputs f (pair_level d (x ∷ y ∷ rest))

  -- The texts that BuildFromBlocks hashes: the blocks, and the pairs of hashes level by level.
  pub hashed_texts : List Text → List Text
  unfolding level_inputs
  hashed_texts bs = bs ++ level_inputs (length bs) (make_leaves d 0 bs)

  -- One round up loses no hash, or two of the texts that it hashes at one place clash.
  pair_level_binds :
      (xs ys : List Node)
      → IsSized xs
      → IsSized ys
      → length xs ≡ length ys
      → hashes (pair_level d xs) ≡ hashes (pair_level d ys)
      → (hashes xs ≡ hashes ys) ⊎ Collision d (pair_inputs xs) (pair_inputs ys)
  unfolding pair_level pair_inputs
  pair_level_binds [] [] sx sy l e = inl refl
  pair_level_binds [] (y ∷ ys) sx sy l e = absurd (omega arith)
  pair_level_binds (x ∷ xs) [] sx sy l e = absurd (omega arith)
  pair_level_binds (x ∷ []) (y ∷ []) sx sy l e =
      elim (pair_Clash d (hash_of x) (hash_of y) (hash_of x) (hash_of y) (sx.0 ∙ sym sy.0)
        (ground (arith, e))) [ inr c ↦ inr (inl c) | inl (same, _) ↦ inl (ap (λ h. h ∷ []) same) ]
  pair_level_binds (x ∷ []) (y ∷ z ∷ ys) sx sy l e = absurd (omega arith)
  pair_level_binds (x ∷ w ∷ xs) (y ∷ []) sx sy l e = absurd (omega arith)
  pair_level_binds (x ∷ w ∷ xs) (y ∷ z ∷ ys) sx sy l e =
      elim (pair_Clash d (hash_of x) (hash_of y) (hash_of w) (hash_of z) (sx.0 ∙ sym sy.0)
        (ground (arith, e))) [
          | inr c ↦ inr (inl c)
          | inl (first, second) ↦
              elim (pair_level_binds xs ys sx.1.1 sy.1.1 (omega (arith, l)) (ground (arith, e))) [
                | inr c ↦ inr (inr c)
                | inl rest ↦ inl (ap₂ (λ h hs. h ∷ hs) first (ap₂ (λ h hs. h ∷ hs) second rest))
              ]
        ]

  length-pair_level_eq :
      (xs ys : List Node)
      → length xs ≡ length ys
      → length (pair_level d xs) ≡ length (pair_level d ys)
  unfolding pair_level
  length-pair_level_eq [] [] l = refl
  length-pair_level_eq [] (y ∷ ys) l = absurd (omega arith)
  length-pair_level_eq (x ∷ xs) [] l = absurd (omega arith)
  length-pair_level_eq (x ∷ []) (y ∷ []) l = refl
  length-pair_level_eq (x ∷ []) (y ∷ z ∷ ys) l = absurd (omega arith)
  length-pair_level_eq (x ∷ w ∷ xs) (y ∷ []) l = absurd (omega arith)
  length-pair_level_eq (x ∷ w ∷ xs) (y ∷ z ∷ ys) l =
      ap suc (length-pair_level_eq xs ys (omega arith))

  build_levels_binds :
      (f : ℕ) (xs ys : List Node) (r s : Node)
      → IsSized xs
      → IsSized ys
      → length xs ≡ length ys
      → build_levels d f xs ≡ some r
      → build_levels d f ys ≡ some s
      → hash_of r ≡ hash_of s
      → (hashes xs ≡ hashes ys) ⊎ Collision d (level_inputs f xs) (level_inputs f ys)
  unfolding build_levels level_inputs
  build_levels_binds zero xs ys r s sx sy l er es e = cc
  build_levels_binds (suc f) [] ys r s sx sy l er es e = cc
  build_levels_binds (suc f) (x ∷ xs) [] r s sx sy l er es e = cc
  build_levels_binds (suc f) (x ∷ []) (y ∷ []) r s sx sy l er es e = inl (ground (arith, er, es, e))
  build_levels_binds (suc f) (x ∷ []) (y ∷ z ∷ ys) r s sx sy l er es e = absurd (omega arith)
  build_levels_binds (suc f) (x ∷ w ∷ xs) (y ∷ []) r s sx sy l er es e = absurd (omega arith)
  build_levels_binds (suc f) (x ∷ w ∷ xs) (y ∷ z ∷ ys) r s sx sy l er es e =
      let below = x ∷ w ∷ xs in
      let beside = y ∷ z ∷ ys in
      elim (build_levels_binds f (pair_level d below) (pair_level d beside) r s
        (pair_level-IsSized below) (pair_level-IsSized beside) (length-pair_level_eq below beside l)
        er es e) [
          | inr c ↦ inr (
              Collision-back d (pair_inputs below) (pair_inputs beside)
                (level_inputs f (pair_level d below)) (level_inputs f (pair_level d beside))
                (length-pair_inputs_eq below beside l) c)
          | inl same ↦ elim (pair_level_binds below beside sx sy l same) [
            | inl below_same ↦ inl below_same
            | inr c ↦ inr (
                Collision-front d (pair_inputs below) (pair_inputs beside)
                  (level_inputs f (pair_level d below)) (level_inputs f (pair_level d beside)) c)
          ]
        ]

  make_leaves_binds :
      (i : ℕ) (bs cs : List Text)
      → hashes (make_leaves d i bs) ≡ hashes (make_leaves d i cs)
      → (bs ≡ cs) ⊎ Collision d bs cs
  unfolding make_leaves
  make_leaves_binds i [] [] e = inl refl
  make_leaves_binds i [] (c ∷ cs) e = cc
  make_leaves_binds i (b ∷ bs) [] e = cc
  make_leaves_binds i (b ∷ bs) (c ∷ cs) e = elim (sha256-Clash d b c (ground (arith, e))) [
    | inr clash ↦ inr (inl clash)
    | inl first ↦ elim (make_leaves_binds (suc i) bs cs (ground (arith, e))) [
      | inr clash ↦ inr (inr clash)
      | inl rest ↦ inl (ap₂ (λ x xs. x ∷ xs) first rest)
    ]
  ]

  length-make_leaves_eq : (i : ℕ) (bs : List Text) → length (make_leaves d i bs) ≡ length bs
  unfolding make_leaves
  length-make_leaves_eq i [] = refl
  length-make_leaves_eq i (b ∷ bs) = ap suc (length-make_leaves_eq (suc i) bs)

  -- As many blocks under one root hash are the same blocks, or two different texts that the two
  -- builds hash at one place have one digest.
  pub root_binds :
      (bs cs : List Text) (r s : Node)
      → length bs ≡ length cs
      → build_from_blocks d bs ≡ some r
      → build_from_blocks d cs ≡ some s
      → hash_of r ≡ hash_of s
      → (bs ≡ cs) ⊎ Collision d (hashed_texts bs) (hashed_texts cs)
  unfolding build_from_blocks hashed_texts
  root_binds bs cs r s l er es e =
      elim (build_levels_binds (length bs) (make_leaves d 0 bs) (make_leaves d 0 cs) r s
        (make_leaves-IsSized 0 bs) (make_leaves-IsSized 0 cs)
        (length-make_leaves_eq 0 bs ∙ l ∙ sym (length-make_leaves_eq 0 cs)) er
        (ap (λ f. build_levels d f (make_leaves d 0 cs)) l ∙ es) e) [
          | inr c ↦ inr (
              Collision-back d bs cs (level_inputs (length bs) (make_leaves d 0 bs))
                (level_inputs (length cs) (make_leaves d 0 cs)) l
                (subst
                  (λ f.
                    Collision d (level_inputs (length bs) (make_leaves d 0 bs))
                      (level_inputs f (make_leaves d 0 cs)))
                  l c))
          | inl same ↦ elim (make_leaves_binds 0 bs cs same) [
            | inl blocks ↦ inl blocks
            | inr c ↦ inr (
                Collision-front d bs cs (level_inputs (length bs) (make_leaves d 0 bs))
                  (level_inputs (length cs) (make_leaves d 0 cs)) c)
          ]
        ]

  -- The root hash depends on the leaves' hashes alone, whatever the fuel.
  pair_level-hashes :
      (xs ys : List Node)
      → hashes xs ≡ hashes ys
      → hashes (pair_level d xs) ≡ hashes (pair_level d ys)
  unfolding pair_level
  pair_level-hashes [] [] e = refl
  pair_level-hashes [] (y ∷ ys) e = cc
  pair_level-hashes (x ∷ xs) [] e = cc
  pair_level-hashes (x ∷ []) (y ∷ []) e = ground (arith, e)
  pair_level-hashes (x ∷ []) (y ∷ z ∷ ys) e = cc
  pair_level-hashes (x ∷ w ∷ xs) (y ∷ []) e = cc
  pair_level-hashes (x ∷ w ∷ xs) (y ∷ z ∷ ys) e = ground (arith, pair_level-hashes xs ys)

  build_levels-hashes :
      (f g : ℕ) (xs ys : List Node) (r s : Node)
      → hashes xs ≡ hashes ys
      → build_levels d f xs ≡ some r
      → build_levels d g ys ≡ some s
      → hash_of r ≡ hash_of s
  unfolding build_levels
  build_levels-hashes zero g xs ys r s e er es = cc
  build_levels-hashes (suc f) zero xs ys r s e er es = cc
  build_levels-hashes (suc f) (suc g) [] ys r s e er es = cc
  build_levels-hashes (suc f) (suc g) (x ∷ xs) [] r s e er es = cc
  build_levels-hashes (suc f) (suc g) (x ∷ []) (y ∷ []) r s e er es = ground (arith, e, er, es)
  build_levels-hashes (suc f) (suc g) (x ∷ []) (y ∷ z ∷ ys) r s e er es = cc
  build_levels-hashes (suc f) (suc g) (x ∷ w ∷ xs) (y ∷ []) r s e er es = cc
  build_levels-hashes (suc f) (suc g) (x ∷ w ∷ xs) (y ∷ z ∷ ys) r s e er es =
      build_levels-hashes f g _ _ r s (pair_level-hashes (x ∷ w ∷ xs) (y ∷ z ∷ ys) e) er es

  -- An odd last node is paired with its clone, so a second copy of it changes no hash above.
  pair_level-duplicate :
      (k : ℕ) (xs : List Node) (a b : Node)
      → length xs ≡ k + k
      → hash_of a ≡ hash_of b
      → hashes (pair_level d (xs ++ a ∷ [])) ≡ hashes (pair_level d (xs ++ a ∷ b ∷ []))
  unfolding pair_level
  pair_level-duplicate k [] a b l e = ground (arith, e)
  pair_level-duplicate k (x ∷ []) a b l e = absurd (omega arith)
  pair_level-duplicate zero (x ∷ y ∷ xs) a b l e = absurd (omega arith)
  pair_level-duplicate (suc k) (x ∷ y ∷ xs) a b l e =
      ap (◌∷◌ (sha256 d (hash_of x ++ hash_of y))) (pair_level-duplicate k xs a b (omega arith) e)

  make_leaves-append :
      (i : ℕ) (bs cs : List Text)
      → make_leaves d i (bs ++ cs) ≡ make_leaves d i bs ++ make_leaves d (i + length bs) cs
  unfolding make_leaves
  make_leaves-append i [] cs =
      let same : i ≡ i + 0 = omega arith in ap (λ j. make_leaves d j cs) same
  make_leaves-append i (b ∷ bs) cs =
      let same : suc i + length bs ≡ i + suc (length bs) = omega arith in
      rw (make_leaves-append (suc i) bs cs, same)

  pair_level-duplicate_leaf :
      (i k : ℕ) (bs : List Text) (b : Text)
      → length bs ≡ k + k
      → hashes (pair_level d (make_leaves d i (bs ++ b ∷ [])))
        ≡ hashes (pair_level d (make_leaves d i (bs ++ b ∷ b ∷ [])))
  unfolding make_leaves
  pair_level-duplicate_leaf i k bs b l =
      rw (make_leaves-append i bs (b ∷ []), make_leaves-append i bs (b ∷ b ∷ []))
        (pair_level-duplicate k (make_leaves d i bs) _ _ (length-make_leaves_eq i bs ∙ l) refl)

  -- Three blocks or any larger odd number: the tree with the last block twice has the same root
  -- hash.
  pub root-duplicate_last :
      (k : ℕ) (bs : List Text) (b : Text) (r s : Node)
      → length bs ≡ suc k + suc k
      → build_from_blocks d (bs ++ b ∷ []) ≡ some r
      → build_from_blocks d (bs ++ b ∷ b ∷ []) ≡ some s
      → hash_of r ≡ hash_of s
  unfolding build_from_blocks make_leaves
  root-duplicate_last k [] b r s l er es = absurd (omega arith)
  root-duplicate_last k (x ∷ []) b r s l er es = absurd (omega arith)
  root-duplicate_last k (x ∷ y ∷ bs) b r s l er es =
      let once = length (bs ++ b ∷ []) in
      let twice = length (bs ++ b ∷ b ∷ []) in
      build_levels-hashes (suc once) (suc twice)
        (pair_level d (make_leaves d 0 (x ∷ y ∷ bs ++ b ∷ [])))
        (pair_level d (make_leaves d 0 (x ∷ y ∷ bs ++ b ∷ b ∷ []))) r s
        (pair_level-duplicate_leaf 0 (suc k) (x ∷ y ∷ bs) b l) er es
