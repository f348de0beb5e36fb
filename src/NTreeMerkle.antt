-- ===== src/NTreeMerkle.antt =====
-- Code/MerkleTreeNTree: the proofs of the class `NTreeMerkle` (src/NTreeMerkle.cpp), with the structs
-- of include/NTreeMerkle.hpp. sha256_hex prints OpenSSL's digest as MerkleTree::SHA256 does.
pub mod Binding
pub mod Generate
mod Restore
mod Walk
pub mod Accept
pub mod Total
pub mod Build
pub mod Nodes
pub mod Grow
pub mod Links
pub mod Levels
pub mod Whole
mod Tests
use hybrid_blockchain_for_re.Prelude.{
  ℕ, zero, suc, ◌+◌, Bool, true, false, not, Option, none, some, List, [], ◌∷◌, ◌++◌, Text, text_eq,
  is_empty, length, ltb, ◌==◌, if◌then◌else◌, ◌⊎◌, inl, inr,
}
use hybrid_blockchain_for_re.Sha256.{Digest, sha256}

pub record ProofStep : Type 0 where
  pub level : ℕ
  pub child_index : ℕ
  pub sibling_hashes : List Text

pub record Proof : Type 0 where
  pub leaf_index : ℕ
  pub leaf_value : Text
  pub leaf_hash : Text
  pub root_hash : Text
  pub steps : List ProofStep

-- The messages of verify_proof.
pub data ProofError : Type 0 where
  leaf_mismatch : ProofError
  no_root : ProofError
  child_outside : ProofError
  wrong_children : ProofError
  root_mismatch : ProofError
  other_tree : ProofError

-- The loop that puts the current hash among its siblings, for the places that are left from `i` on.
-- There are enough siblings: their number has been tested.
unfoldable pub place_children : ℕ → ℕ → ℕ → Text → List Text → List Text
place_children zero i child current siblings = []
place_children (suc left) i child current [] =
    let rest = place_children left (suc i) child current [] in
    if i == child then current ∷ rest else rest
place_children (suc left) i child current (s ∷ siblings) =
    let here = place_children left (suc i) child current (s ∷ siblings) in
    let after = place_children left (suc i) child current siblings in
    if i == child then current ∷ here else s ∷ after

-- material
unfoldable pub join_hashes : List Text → Text
join_hashes [] = []
join_hashes (h ∷ hashes) = h ++ join_hashes hashes

-- The two tests at the end; `root` is the root hash of a tree that has been built.
abbrev pub compare_roots : Option Text → Proof → ProofError ⊎ Text → Option ProofError
compare_roots root proof (inl e) = some e
compare_roots none proof (inr current) =
    if not (text_eq current proof.root_hash) then some root_mismatch else none
compare_roots (some root) proof (inr current) =
    if not (text_eq current proof.root_hash)
    then some root_mismatch
    else if not (text_eq current root)
    then some other_tree
    else none

module _ (d : Digest) (arity : ℕ) where
  -- The loop over the steps: the hash that it reconstructs.
  unfoldable pub replay : Text → List ProofStep → ProofError ⊎ Text
  replay current [] = inr current
  replay current (step ∷ steps) =
      let children = place_children arity 0 step.child_index current step.sibling_hashes in
      let rest = replay (sha256 d (join_hashes children)) steps in
      if not (ltb step.child_index arity)
      then inl child_outside
      else if not (length step.sibling_hashes + 1 == arity)
      then inl wrong_children
      else rest

  -- NTreeMerkle::verify_proof; `none` is true.
  unfoldable pub verify_proof : Option Text → Proof → Option ProofError
  verify_proof root proof =
      if not (text_eq proof.leaf_hash (sha256 d proof.leaf_value))
      then some leaf_mismatch
      else if is_empty proof.root_hash
      then some no_root
      else compare_roots root proof (replay proof.leaf_hash proof.steps)
