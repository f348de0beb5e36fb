-- ===== src/Sha256/Hex.antt =====
-- `MerkleTree::SHA256` of Code/PrivateChain/MerkleTree/MerkleTree_Utils.cpp: the size of its text,
-- and that two inputs with one text are equal or clash in the digest.
use hybrid_blockchain_for_re.Prelude.{
  List, ◌++◌, length, arith, ℕ, ◌*◌, ◌/◌, ◌%◌, ◌<◌, ◌≡◌, refl, ◌≢◌, ◌⊎◌, inl, inr, [], ◌∷◌, Text,
  All, length, arith, Text-cases, IsLine,
}
use hybrid_blockchain_for_re.Sha256.{Digest, hex_digit, hex_bytes, sha256}

length-hex_bytes : (bs : Text) → length (hex_bytes bs) ≡ 2 * length bs
unfolding hex_bytes
length-hex_bytes [] = omega arith
length-hex_bytes (b ∷ bs) = omega (arith, length-hex_bytes bs)

pub length-sha256 : (d : Digest) (s : Text) → length (sha256 d s) ≡ 64
unfolding sha256
length-sha256 d s = omega (arith, length-hex_bytes (d.digest s), d.digest_size s)

hex_digit_injective : (a b : ℕ) → a < 16 → b < 16 → hex_digit a ≡ hex_digit b → a ≡ b
unfolding hex_digit
hex_digit_injective a b ha hb e = ground arith

hex_byte_injective :
    (a b : ℕ)
    → a < 256
    → b < 256
    → hex_digit (a / 16) ≡ hex_digit (b / 16)
    → hex_digit (a % 16) ≡ hex_digit (b % 16)
    → a ≡ b
hex_byte_injective a b ha hb high low = omega (
  arith,
  hex_digit_injective (a / 16) (b / 16) (omega arith) (omega arith) high,
  hex_digit_injective (a % 16) (b % 16) (omega arith) (omega arith) low,
)

-- The hexadecimal print loses nothing of a byte string.
pub hex_bytes_injective :
    (cs bs : Text)
    → All (λ b. b < 256) cs
    → All (λ b. b < 256) bs
    → hex_bytes cs ≡ hex_bytes bs
    → cs ≡ bs
unfolding hex_bytes
hex_bytes_injective [] [] ha hb e = refl
hex_bytes_injective [] (b ∷ bs) ha hb e = cc
hex_bytes_injective (a ∷ cs) [] ha hb e = cc
hex_bytes_injective (a ∷ cs) (b ∷ bs) ha hb e =
    ground (arith, hex_byte_injective a b ha.0 hb.0, hex_bytes_injective cs bs ha.1 hb.1)

-- Two different texts with one digest.
abbrev pub Clash : Digest → Text → Text → Type 0
Clash d s t = (s ≢ t) × (d.digest s ≡ d.digest t)

-- At one place of the two lists stand different texts with one digest. The lists are those of the
-- texts that two runs of the code hash: a collision is one that the runs themselves show.
abbrev pub Collision : Digest → List Text → List Text → Type 0
Collision d [] ts = ⊥
Collision d (s ∷ ss) [] = ⊥
Collision d (s ∷ ss) (t ∷ ts) = Clash d s t ⊎ Collision d ss ts

pub Collision-front :
    (d : Digest) (ss ts us vs : List Text) → Collision d ss ts → Collision d (ss ++ us) (ts ++ vs)
Collision-front d [] ts us vs c = absurd c
Collision-front d (s ∷ ss) [] us vs c = absurd c
Collision-front d (s ∷ ss) (t ∷ ts) us vs (inl here) = inl here
Collision-front d (s ∷ ss) (t ∷ ts) us vs (inr there) = inr (Collision-front d ss ts us vs there)

pub Collision-back :
    (d : Digest) (ss ts us vs : List Text)
    → length ss ≡ length ts
    → Collision d us vs
    → Collision d (ss ++ us) (ts ++ vs)
Collision-back d [] [] us vs l c = c
Collision-back d [] (t ∷ ts) us vs l c = absurd (omega (arith, l))
Collision-back d (s ∷ ss) [] us vs l c = absurd (omega (arith, l))
Collision-back d (s ∷ ss) (t ∷ ts) us vs l c =
    inr (Collision-back d ss ts us vs (omega (arith, l)) c)

-- Texts with equal SHA256 are equal, or clash in the digest.
pub sha256-Clash : (d : Digest) (s t : Text) → sha256 d s ≡ sha256 d t → (s ≡ t) ⊎ Clash d s t
unfolding sha256
sha256-Clash d s t e = elim (Text-cases s t) [
  | inl same ↦ inl same
  | inr differ ↦ inr (
    differ,
    hex_bytes_injective (d.digest s) (d.digest t) (d.digest_bytes s) (d.digest_bytes t) e,
  )
]

hex_bytes-IsLine : (bs : Text) → IsLine (hex_bytes bs)
unfolding hex_bytes hex_digit
hex_bytes-IsLine [] = tt
hex_bytes-IsLine (b ∷ bs) = (ground arith, (ground arith, hex_bytes-IsLine bs))

pub sha256-IsLine : (d : Digest) (s : Text) → IsLine (sha256 d s)
unfolding sha256
sha256-IsLine d s = hex_bytes-IsLine (d.digest s)
