-- ===== src/BlockMerkle/Checker.antt =====
-- `verify_proof` of Code/PrivateChain/Server/block_merkle.cpp against `MerkleTree::Verify` of
-- Code/PrivateChain/MerkleTree/MerkleTree_Proof.cpp.
use hybrid_blockchain_for_re.Prelude.{
  ◌-◌, ◌/◌, ℕ, zero, suc, ◌≡◌, refl, ◌∙◌, sym, false, Option, none, some, [], ◌∷◌, ◌++◌, Text,
  length, take, drop, arith, Option-cases, inl, inr, if◌then◌else◌, text_eq, is_empty, codes,
}
use hybrid_blockchain_for_re.Sha256.{Digest, sha256}
use hybrid_blockchain_for_re.MerkleTree.{MerkleTree, Node, hash_of, root_hash_of}
use hybrid_blockchain_for_re.MerkleTree.Prover.{verify, verify_loop, matches_root}
use hybrid_blockchain_for_re.MerkleTree.Levels.{IsBuilt, length-hash_of, build_from_blocks-IsHashed}
use hybrid_blockchain_for_re.BlockMerkle.{proof_loop, verify_proof, same_hash}

module _ (d : Digest) where
  proof_loop-verify_loop : (n : ℕ) (rest h : Text) → proof_loop d n rest h ≡ verify_loop d n rest h
  unfolding proof_loop verify_loop
  proof_loop-verify_loop zero rest h = refl
  proof_loop-verify_loop (suc n) rest h = rw (
      proof_loop-verify_loop n (drop 66 rest) (
        if text_eq (take 2 rest) (codes "L:")
        then sha256 d (take 64 (drop 2 rest) ++ h)
        else sha256 d (h ++ take 64 (drop 2 rest))))

  same_hash-matches_root : (o : Option Text) (n : Node) → same_hash o (hash_of n) ≡ matches_root o n
  unfolding same_hash matches_root
  same_hash-matches_root none n = refl
  same_hash-matches_root (some h) n = refl

  is_empty-hash : (h : Text) → length h ≡ 64 → is_empty h ≡ false
  is_empty-hash [] e = absurd (omega arith)
  is_empty-hash (c ∷ h) e = refl

  -- On a tree that is built, the server's own check of a proof gives Verify's answer.
  pub verify_proof-verify :
      (t : MerkleTree) (proof : Text) → IsBuilt d t → verify_proof d t proof ≡ verify d t proof
  unfolding verify_proof verify
  verify_proof-verify t proof v = elim (Option-cases t.root) [
    | inl missing ↦ rw (missing, root_hash_of)
    | inr (top, built) ↦
        let size =
          length-hash_of d top
            (build_from_blocks-IsHashed d t.blocks top (sym v.root_eq ∙ built)) in
        rw (
          built,
          is_empty-hash (hash_of top) size,
          proof_loop-verify_loop (length proof / 66 - 1) (drop 66 proof) (take 64 (drop 2 proof)),
          same_hash-matches_root
              (verify_loop d (length proof / 66 - 1) (drop 66 proof) (take 64 (drop 2 proof))) top,
        )
  ]
