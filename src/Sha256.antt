-- ===== src/Sha256.antt =====
-- Code/PrivateChain/MerkleTree/MerkleTree_Utils.cpp, `MerkleTree::SHA256`.
-- OpenSSL's EVP digest is the parameter `Digest`; the hexadecimal print of its bytes is the code's.
pub mod Hex
pub mod Sample
use hybrid_blockchain_for_re.Prelude.{
  ℕ, ◌+◌, ◌-◌, ◌/◌, ◌%◌, ◌<◌, ◌≡◌, List, [], ◌∷◌, ◌++◌, Text, All, length, ltb, if◌then◌else◌,
}

-- What EVP_sha256 promises: 32 bytes, whatever the input.
pub record Digest : Type 0 where
  pub digest : Text → Text
  pub digest_size : (s : Text) → length (digest s) ≡ 32
  pub digest_bytes : (s : Text) → All (λ b. b < 256) (digest s)

-- One hexadecimal digit, as `std::hex` prints it.
hex_digit : ℕ → ℕ
hex_digit d = if ltb d 10 then 48 + d else 87 + d

-- `std::hex << std::setw(2) << std::setfill('0') << (int)byte` for each byte.
unfoldable pub hex_bytes : Text → Text
unfolding hex_digit
hex_bytes [] = []
hex_bytes (b ∷ bs) = hex_digit (b / 16) ∷ hex_digit (b % 16) ∷ hex_bytes bs

-- MerkleTree::SHA256
unfoldable pub sha256 : Digest → Text → Text
unfolding hex_bytes
sha256 d s = hex_bytes (d.digest s)
