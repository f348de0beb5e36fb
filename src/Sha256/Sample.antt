-- ===== src/Sha256/Sample.antt =====
-- A concrete digest, for tests: 32 copies of a weighted sum of the bytes. It stands for the EVP digest that
-- `MerkleTree::SHA256` (Code/PrivateChain/MerkleTree/MerkleTree_Utils.cpp) calls.
use hybrid_blockchain_for_re.Prelude.{
  ℕ, zero, suc, ◌+◌, ◌*◌, ◌%◌, ◌<◌, ◌≡◌, [], ◌∷◌, Text, All, length, replicate, length-replicate,
  arith,
}
use hybrid_blockchain_for_re.Sha256.{Digest}

All-replicate : (n b : ℕ) → b < 256 → All (λ c. c < 256) (replicate n b)
All-replicate zero b h = tt
All-replicate (suc n) b h = (h, All-replicate n b h)

-- Weighted by position, so that the order of bytes counts.
weigh : ℕ → Text → ℕ
weigh k [] = k
weigh k (b ∷ bs) = weigh (k * 31 + b) bs

unfoldable pub sample_hash : Text → Text
unfolding weigh
sample_hash s = replicate 32 (weigh 7 s % 256)

pub sample_size : (s : Text) → length (sample_hash s) ≡ 32
unfolding sample_hash
sample_size s = length-replicate 32 (weigh 7 s % 256)

pub sample_bytes : (s : Text) → All (λ c. c < 256) (sample_hash s)
unfolding sample_hash
sample_bytes s = All-replicate 32 (weigh 7 s % 256) (omega arith)

abbrev pub sample_digest : Digest
sample_digest = record {
  digest = sample_hash;
  digest_size = sample_size;
  digest_bytes = sample_bytes;
}
