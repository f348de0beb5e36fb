-- ===== src/Chain/Hashes.antt =====
-- What the block hash of Code/PrivateChain/Server/server.cpp (`calculate_block_hash`) binds of a
-- record.
use hybrid_blockchain_for_re.Prelude.{
  ◌≡◌, refl, ◌⊎◌, inl, inr, ◌∷◌, ◌++◌, Text, codes, to_string, to_string_injective,
  to_string-IsLine, IsLine, split_injective, length,
}
use hybrid_blockchain_for_re.Sha256.{Digest}
use hybrid_blockchain_for_re.Sha256.Hex.{Clash, sha256-Clash}
use hybrid_blockchain_for_re.MerkleTree.Binding.{append_injective}
use hybrid_blockchain_for_re.BlockMerkle.{newline}
use hybrid_blockchain_for_re.Records.{SupplyChainRecord}
use hybrid_blockchain_for_re.Chain.{block_hash_input, calculate_block_hash}

-- The signature's texts are lines, as base64 and hexadecimal texts are.
pub record IsSigned (r : SupplyChainRecord) : Type 0 where
  pub algorithm : IsLine r.signature_algorithm
  pub signature : IsLine r.signature
  pub key : IsLine r.signature_public_key_hash
  pub payload : IsLine r.signed_payload_hash

-- Two records that agree in all that a block hash covers.
pub record SameBlock (r s : SupplyChainRecord) : Type 0 where
  pub block_id_eq : r.block_id ≡ s.block_id
  pub parent_block_id_eq : r.parent_block_id ≡ s.parent_block_id
  pub parent_block_hash_eq : r.parent_block_hash ≡ s.parent_block_hash
  pub root_hash_eq : r.root_hash ≡ s.root_hash
  pub signature_algorithm_eq : r.signature_algorithm ≡ s.signature_algorithm
  pub signature_eq : r.signature ≡ s.signature
  pub public_key_hash_eq : r.signature_public_key_hash ≡ s.signature_public_key_hash
  pub payload_hash_eq : r.signed_payload_hash ≡ s.signed_payload_hash
  pub canonical_record_eq : r.canonical_record ≡ s.canonical_record

-- A label in front of both texts is taken off.
after_label : (label r s : Text) → label ++ r ≡ label ++ s → r ≡ s
after_label label r s e = (append_injective label label r s refl e).1

-- A labelled line in front of both texts is read off.
line :
    (label a b r s : Text)
    → IsLine a
    → IsLine b
    → label ++ (a ++ newline ∷ r) ≡ label ++ (b ++ newline ∷ s)
    → (a ≡ b) × (r ≡ s)
line label a b r s ha hb e = split_injective newline a b r s ha hb (after_label label _ _ e)

block_hash_input-SameBlock :
    (r s : SupplyChainRecord)
    → IsLine r.parent_block_hash
    → IsLine s.parent_block_hash
    → length r.root_hash ≡ length s.root_hash
    → IsSigned r
    → IsSigned s
    → block_hash_input r ≡ block_hash_input s
    → SameBlock r s
unfolding block_hash_input
block_hash_input-SameBlock r s pr ps roots sr ss e =
    let (id, e1) =
      line (codes "blockId:") (to_string r.block_id) (to_string s.block_id) _ _
        (to_string-IsLine r.block_id) (to_string-IsLine s.block_id) e in
    let (parent, e2) =
      line (codes "parentBlockId:") (to_string r.parent_block_id) (to_string s.parent_block_id) _ _
        (to_string-IsLine r.parent_block_id) (to_string-IsLine s.parent_block_id) e1 in
    let (hash, e3) =
      line (codes "parentHash:") r.parent_block_hash s.parent_block_hash _ _ pr ps e2 in
    let (root, e4) =
      append_injective r.root_hash s.root_hash _ _ roots
        (after_label (codes "merkleRoot:") _ _ e3) in
    let (algorithm, e5) =
      line (newline ∷ codes "signatureAlgorithm:") r.signature_algorithm s.signature_algorithm _ _
        sr.algorithm ss.algorithm e4 in
    let (signature, e6) =
      line (codes "signature:") r.signature s.signature _ _ sr.signature ss.signature e5 in
    let (key, e7) =
      line (codes "signaturePublicKeyHash:") r.signature_public_key_hash s.signature_public_key_hash
        _ _ sr.key ss.key e6 in
    let (payload, e8) =
      line (codes "signedPayloadHash:") r.signed_payload_hash s.signed_payload_hash _ _ sr.payload
        ss.payload e7 in
    record {
      block_id_eq = to_string_injective r.block_id s.block_id id;
      parent_block_id_eq = to_string_injective r.parent_block_id s.parent_block_id parent;
      parent_block_hash_eq = hash;
      root_hash_eq = root;
      signature_algorithm_eq = algorithm;
      signature_eq = signature;
      public_key_hash_eq = key;
      payload_hash_eq = payload;
      canonical_record_eq = after_label (codes "canonical:") _ _ e8;
    }

-- Two records with one block hash, whose parent hashes and signature texts are each one line
-- (`IsLine`, `IsSigned`) and whose Merkle roots have one length, agree in the nine values that the
-- hash covers; or the two texts that are hashed differ and have one digest.
pub calculate_block_hash-SameBlock :
    (d : Digest) (r s : SupplyChainRecord)
    → IsLine r.parent_block_hash
    → IsLine s.parent_block_hash
    → length r.root_hash ≡ length s.root_hash
    → IsSigned r
    → IsSigned s
    → calculate_block_hash d r ≡ calculate_block_hash d s
    → SameBlock r s ⊎ Clash d (block_hash_input r) (block_hash_input s)
unfolding calculate_block_hash
calculate_block_hash-SameBlock d r s pr ps roots sr ss e =
    elim (sha256-Clash d (block_hash_input r) (block_hash_input s) e) [
      | inl same ↦ inl (block_hash_input-SameBlock r s pr ps roots sr ss same)
      | inr c ↦ inr c
    ]
