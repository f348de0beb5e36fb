-- ===== src/MerkleTree/Search.antt =====
-- `FindLeaf` of Code/PrivateChain/MerkleTree/MerkleTree_Build.cpp on a tree of blocks.
use hybrid_blockchain_for_re.Prelude.{
  ℕ, zero, suc, ◌+◌, ◌≡◌, refl, ap, ◌∙◌, sym, true, false, Option, none, some, List, [], ◌∷◌, ◌++◌,
  Text, ℤ, pos, negsuc, length, arith, All, All-append, subst, append_assoc, ◌==◌, if◌then◌else◌,
  Option-cases, get_elem?, inl, inr,
}
use hybrid_blockchain_for_re.Sha256.{Digest, sha256}
use hybrid_blockchain_for_re.MerkleTree.{Node, leaf, fork, hash_of, build_from_blocks}
use hybrid_blockchain_for_re.MerkleTree.Prover.{Frame, Cursor, find_leaf}
use hybrid_blockchain_for_re.MerkleTree.Levels.{
  IsHashed, numbered_leaves, numbered_from, length-hash_of, numbered_leaves-build,
}

-- The first entry of number `n`.
abbrev pub entry_of : ℕ → List (ℕ × Text × Text) → Option Node
entry_of n [] = none
entry_of n ((i, v, h) ∷ rest) = if i == n then some (leaf (pos i) v h) else entry_of n rest

abbrev pub focus_of : Option Cursor → Option Node
focus_of none = none
focus_of (some c) = some c.focus

abbrev or_else : Option Node → Option Node → Option Node
or_else none o = o
or_else (some x) o = some x

entry_of-append :
    (n : ℕ) (xs ys : List (ℕ × Text × Text))
    → entry_of n (xs ++ ys) ≡ or_else (entry_of n xs) (entry_of n ys)
entry_of-append n [] ys = refl
entry_of-append n ((i, v, h) ∷ xs) ys = ground (arith, entry_of-append n xs ys)

-- FindLeaf finds the first numbered leaf of that number, wherever it starts.
pub focus-find_leaf :
    (x : Node) (n : ℕ) (up : List Frame)
    → focus_of (find_leaf x (pos n) up) ≡ entry_of n (numbered_leaves x)
unfolding find_leaf
focus-find_leaf (leaf (pos i) v h) n up = ground arith
focus-find_leaf (leaf (negsuc i) v h) n up = refl
focus-find_leaf (fork h l r) n up =
    let left : Frame = record { is_left = true; parent_hash = h; sibling = r } in
    let right : Frame = record { is_left = false; parent_hash = h; sibling = l } in
    rw (entry_of-append n (numbered_leaves l) (numbered_leaves r))
      (ground (arith, focus-find_leaf l n (left ∷ up), focus-find_leaf r n (right ∷ up)))

module _ (d : Digest) where
  entry_of-numbered_from :
      (i n : ℕ) (bs : List Text) (b : Text)
      → get_elem? bs n ≡ some b
      → entry_of (i + n) (numbered_from d i bs) ≡ some (leaf (pos (i + n)) b (sha256 d b))
  entry_of-numbered_from i n [] b e = cc
  entry_of-numbered_from i zero (x ∷ bs) b e = ground arith
  entry_of-numbered_from i (suc n) (x ∷ bs) b e =
      let ih = entry_of-numbered_from (suc i) n bs b e in
      let step : suc i + n ≡ i + suc n = omega arith in ground (arith, ih, step)

  -- A node's hash and its sibling's, hashed in their order.
  abbrev pub join_up : Text → Frame → Text
  join_up h f =
      if f.is_left then sha256 d (h ++ hash_of f.sibling) else sha256 d (hash_of f.sibling ++ h)

  -- The hash that a leaf's hash and the siblings on the way up give.
  abbrev pub recompute : Text → List Frame → Text
  recompute h [] = h
  recompute h (f ∷ up) = recompute (join_up h f) up

  recompute-append :
      (h : Text) (p q : List Frame) → recompute h (p ++ q) ≡ recompute (recompute h p) q
  recompute-append h [] q = refl
  recompute-append h (f ∷ p) q = recompute-append (join_up h f) p q

  -- The parents of what was found, up to where the search began, lead to the hash there.
  pub record LeadsTo (x : Node) (up : List Frame) (c : Cursor) : Type 0 where
    pub path : List Frame
    pub parents_eq : c.parents ≡ path ++ up
    pub leads : recompute (hash_of c.focus) path ≡ hash_of x
    pub sized : All (λ f. length (hash_of f.sibling) ≡ 64) path
    pub focus_sized : length (hash_of c.focus) ≡ 64

  LeadsTo-extend :
      (x y : Node) (f : Frame) (up : List Frame) (c : Cursor)
      → LeadsTo x (f ∷ up) c
      → length (hash_of f.sibling) ≡ 64
      → recompute (hash_of x) (f ∷ []) ≡ hash_of y
      → LeadsTo y up c
  LeadsTo-extend x y f up c l size step = record {
    path = l.path ++ f ∷ [];
    parents_eq = l.parents_eq ∙ sym (append_assoc l.path (f ∷ []) up);
    leads =
        recompute-append (hash_of c.focus) l.path (f ∷ [])
        ∙ ap (λ h. recompute h (f ∷ [])) l.leads
        ∙ step;
    sized = All-append _ l.path (f ∷ []) l.sized (size, tt);
    focus_sized = l.focus_sized;
  }

  pub find_leaf-LeadsTo :
      (x : Node) (n : ℤ) (up : List Frame) (c : Cursor)
      → IsHashed d x
      → find_leaf x n up ≡ some c
      → LeadsTo x up c
  unfolding find_leaf
  find_leaf-LeadsTo (leaf id v h) n up c w e = record {
    path = [];
    parents_eq = ground arith;
    leads = ground arith;
    sized = tt;
    focus_sized = ground arith;
  }
  find_leaf-LeadsTo (fork h l r) n up c w e = elim (Option-cases (find_leaf l n (left ∷ up))) [
    | inl missing ↦
        LeadsTo-extend r (fork h l r) right up c
          (find_leaf-LeadsTo r n (right ∷ up) c w.2 (ground arith)) (length-hash_of d l w.1)
          (sym w.0)
    | inr (found, hit) ↦
        LeadsTo-extend l (fork h l r) left up c
          (find_leaf-LeadsTo l n (left ∷ up) c w.1 (ground arith)) (length-hash_of d r w.2)
          (sym w.0)
  ]
    where
      left : Frame
      left = record { is_left = true; parent_hash = h; sibling = r }

      right : Frame
      right = record { is_left = false; parent_hash = h; sibling = l }

  -- FindLeaf finds each block, as the leaf that holds it and its hash.
  pub find_leaf-block :
      (bs : List Text) (root : Node) (n : ℕ) (b : Text)
      → build_from_blocks d bs ≡ some root
      → get_elem? bs n ≡ some b
      → (c : Cursor) × (find_leaf root (pos n) [] ≡ some c)
        × (c.focus ≡ leaf (pos n) b (sha256 d b))
  find_leaf-block bs root n b built e =
      let zero_add : 0 + n ≡ n = omega arith in
      let found =
        focus-find_leaf root n []
        ∙ ap (entry_of n) (numbered_leaves-build d bs root built)
        ∙ subst (λ k. entry_of k (numbered_from d 0 bs) ≡ some (leaf (pos k) b (sha256 d b)))
            zero_add (entry_of-numbered_from 0 n bs b e) in
      elim (Option-cases (find_leaf root (pos n) [])) [
        | inl missing ↦ ground (arith, found)
        | inr (c, hit) ↦ (c, hit, ground (arith, found))
      ]
