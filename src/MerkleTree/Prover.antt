-- ===== src/MerkleTree/Prover.antt =====
-- Code/PrivateChain/MerkleTree/MerkleTree_Proof.cpp: FindLeaf (of MerkleTree_Build.cpp),
-- ProverBlock, Verify, ReadBlock. Text printed to the console is not modelled, but for the hash
-- that ReadBlock reports.
use hybrid_blockchain_for_re.Prelude.{
  ℕ, zero, suc, ◌-◌, ◌/◌, ◌%◌, Bool, true, false, ◌||◌, not, Option, none, some, List, [], ◌∷◌,
  ◌++◌, Text, codes, text_eq, ℤ, pos, ltb_ℤ, eqb_ℤ, length, take, drop, ltb, ◌==◌, if◌then◌else◌,
}
use hybrid_blockchain_for_re.Sha256.{Digest, sha256}
use hybrid_blockchain_for_re.MerkleTree.{Node, leaf, fork, hash_of, MerkleTree}

-- What a node's parent pointer shows: which child it is, the parent's hash, the other child.
pub record Frame : Type 0 where
  pub is_left : Bool
  pub parent_hash : Text
  pub sibling : Node

-- A node with the chain of its parents, the nearest first.
pub record Cursor : Type 0 where
  pub focus : Node
  pub parents : List Frame

-- The parent, given back from the node and the frame.
unfoldable pub plug : Node → Frame → Node
plug n f = if f.is_left then fork f.parent_hash n f.sibling else fork f.parent_hash f.sibling n

-- MerkleTree::FindLeaf: the leaf of number `n`, sought on the left first.
unfoldable pub find_leaf : Node → ℤ → List Frame → Option Cursor
find_leaf (leaf id v h) n up =
    if eqb_ℤ id n then some (record { focus = leaf id v h; parents = up }) else none
find_leaf (fork h l r) n up =
    elim (find_leaf l n (record { is_left = true; parent_hash = h; sibling = r } ∷ up)) [
      | some c ↦ some c
      | none ↦ find_leaf r n (record { is_left = false; parent_hash = h; sibling = l } ∷ up)
    ]

abbrev pub left_mark : Text
left_mark = codes "L:"

abbrev pub right_mark : Text
right_mark = codes "R:"

-- The mark of the node itself, and that of its sibling.
abbrev pub own_mark : Bool → Text
own_mark is_left = if is_left then left_mark else right_mark

abbrev pub sibling_mark : Bool → Text
sibling_mark is_left = if is_left then right_mark else left_mark

-- The `while(current->parent)` loop of ProverBlock, with what follows it. `first` holds until the
-- node's own hash has been written.
unfoldable pub climb : Bool → Text → Node → List Frame → Text
unfolding plug
climb first proof current [] = if first then left_mark ++ hash_of current else proof
climb first proof current (f ∷ up) =
    let opened = if first then proof ++ (own_mark f.is_left ++ hash_of current) else proof in
    climb false (opened ++ (sibling_mark f.is_left ++ hash_of f.sibling)) (plug current f) up

-- The test by which ProverBlock and ReadBlock refuse a block number.
abbrev out_of_range : MerkleTree → ℤ → Bool
out_of_range t n = ltb_ℤ n (pos 0) || ltb_ℤ t.block_no n

-- The leaf of block `n`, if the tree is built and the number in range.
unfoldable pub locate : MerkleTree → ℤ → Option Cursor
unfolding find_leaf
locate t n = elim t.root [
  | none ↦ none
  | some root ↦ if out_of_range t n then none else find_leaf root n []
]

-- MerkleTree::ProverBlock; the empty text where no proof is given.
unfoldable pub prover_block : MerkleTree → ℤ → Text
unfolding locate climb
prover_block t n = elim (locate t n) [ none ↦ [] | some c ↦ climb true [] c.focus c.parents ]

-- MerkleTree::ReadBlock; the hash that it prints, `none` where it prints "Not Found".
unfoldable pub read_block : MerkleTree → ℤ → Option Text
unfolding locate
read_block t n = elim (locate t n) [ none ↦ none | some c ↦ some (hash_of c.focus) ]

abbrev pub hash_size : ℕ
hash_size = 64

abbrev pub entry_size : ℕ
entry_size = 66

abbrev pub is_mark : Text → Bool
is_mark info = text_eq info left_mark || text_eq info right_mark

-- The comparison at the end of Verify; a bad mark has returned false before it.
unfoldable pub matches_root : Option Text → Node → Bool
matches_root none root = false
matches_root (some str_hash) root = text_eq str_hash (hash_of root)

module _ (d : Digest) where
  -- The loop of Verify over what is left of the proof, `proof.substr(index)`. The size is a
  -- multiple of an entry's, so `index < proof.size()` holds for one round per entry left. `none`
  -- is a mark that is neither "L:" nor "R:".
  unfoldable pub verify_loop : ℕ → Text → Text → Option Text
  verify_loop zero rest str_hash = some str_hash
  verify_loop (suc entries) rest str_hash =
      let info = take 2 rest in
      let sibling_hash = take hash_size (drop 2 rest) in
      let next = verify_loop entries (drop entry_size rest) (
        if text_eq info left_mark
        then sha256 d (sibling_hash ++ str_hash)
        else sha256 d (str_hash ++ sibling_hash)) in
      if is_mark info then next else none

  -- MerkleTree::Verify
  unfoldable pub verify : MerkleTree → Text → Bool
  unfolding verify_loop matches_root
  verify t proof = elim t.root [
    | none ↦ false
    | some root ↦
        let recomputed =
          verify_loop (length proof / entry_size - 1) (drop entry_size proof)
            (take hash_size (drop 2 proof)) in
        if ltb (length proof) entry_size || not (length proof % entry_size == 0)
        then false
        else if is_mark (take 2 proof)
        then matches_root recomputed root
        else false
  ]
