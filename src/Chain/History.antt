-- ===== src/Chain/History.antt =====
-- What a block hash binds of the history of its batch (Code/PrivateChain/Server/server.cpp,
-- `validate_stored_chain`): in chains that are accepted, all earlier blocks of the batch.
use hybrid_blockchain_for_re.Prelude.{
  ℕ, suc, ◌≡◌, refl, ap, ◌∙◌, sym, none, List, [], ◌∷◌, map, Text, text_eq, text_eq→eq, length,
  arith, Bool-cases, inl, inr, ◌⊎◌, ◌≢◌, IsLine, All, if◌then◌else◌, subst,
}
use hybrid_blockchain_for_re.Sha256.{Digest}
use hybrid_blockchain_for_re.Sha256.Hex.{Clash, Collision, length-sha256, sha256-IsLine}
use hybrid_blockchain_for_re.BlockMerkle.Leaves.{length-root_hash}
use hybrid_blockchain_for_re.Records.{SupplyChainRecord, BlockEdge}
use hybrid_blockchain_for_re.Chain.{
  block_hash_input, calculate_block_hash, expected_parent_hash, genesis, validate_stored_chain,
}
use hybrid_blockchain_for_re.Chain.Hashes.{IsSigned, SameBlock, calculate_block_hash-SameBlock}
use hybrid_blockchain_for_re.Chain.Sound.{
  IsGood, AllGood, latest_of, stored_merkle, validate_stored_chain-AllGood,
}

-- The blocks of a batch, the newest in front, in a chain with the newest in front.
abbrev pub history : Text → List SupplyChainRecord → List SupplyChainRecord
history batch [] = []
history batch (r ∷ seen) =
    if text_eq r.batch_id batch then r ∷ history batch seen else history batch seen

-- Two histories of one length that agree block by block.
abbrev pub SameHistory : List SupplyChainRecord → List SupplyChainRecord → Type 0
SameHistory [] [] = Unit {0}
SameHistory [] (s ∷ ss) = ⊥
SameHistory (r ∷ rs) [] = ⊥
SameHistory (r ∷ rs) (s ∷ ss) = SameBlock r s × SameHistory rs ss

-- The last block hash of a batch; GENESIS where it has no block.
abbrev pub head_hash : Text → List SupplyChainRecord → Text
head_hash batch seen = expected_parent_hash (latest_of batch seen)

-- The records with the newest in front, above those seen before.
abbrev pub newest_first : List SupplyChainRecord → List SupplyChainRecord → List SupplyChainRecord
newest_first seen [] = seen
newest_first seen (r ∷ records) = newest_first (r ∷ seen) records

module _ (d : Digest) where
  -- A chain with the newest record in front, each good after those behind it.
  abbrev pub GoodChain : List SupplyChainRecord → Type 0
  GoodChain [] = Unit {0}
  GoodChain (r ∷ seen) = IsGood d seen (length seen) r × IsSigned r × GoodChain seen

  length-block_hash : (r : SupplyChainRecord) → length (calculate_block_hash d r) ≡ 64
  unfolding calculate_block_hash
  length-block_hash r = length-sha256 d _

  -- A head hash is one line, and is GENESIS only if there is no block.
  head_hash-IsLine :
      (batch : Text) (seen : List SupplyChainRecord)
      → GoodChain seen
      → IsLine (head_hash batch seen)
  unfolding calculate_block_hash
  head_hash-IsLine batch [] g = omega arith
  head_hash-IsLine batch (r ∷ seen) g = elim (Bool-cases (text_eq r.batch_id batch)) [
    | inl hit ↦ rw (hit, g.0.hash_eq) (sha256-IsLine d _)
    | inr miss ↦ rw miss (head_hash-IsLine batch seen g.2)
  ]

  genesis-ne-hash : (r : SupplyChainRecord) → genesis ≢ calculate_block_hash d r
  genesis-ne-hash r e = absurd (omega (arith, ap (length {A = ℕ}) e, length-block_hash r))

  -- Two good blocks with one hash: the same block, and parents with one hash.
  good-SameBlock :
      (r s : SupplyChainRecord) (rs ss : List SupplyChainRecord)
      → GoodChain (r ∷ rs)
      → GoodChain (s ∷ ss)
      → r.block_hash ≡ s.block_hash
      → (SameBlock r s × (head_hash r.batch_id rs ≡ head_hash s.batch_id ss))
        ⊎ Clash d (block_hash_input r) (block_hash_input s)
  good-SameBlock r s rs ss g h e =
      elim (calculate_block_hash-SameBlock d r s
        (rw (g.0.parent_hash_eq) (head_hash-IsLine r.batch_id rs g.2))
        (rw (h.0.parent_hash_eq) (head_hash-IsLine s.batch_id ss h.2))
        (length-root_hash d _ (stored_merkle r) g.0.merkle_eq
          ∙ sym (length-root_hash d _ (stored_merkle s) h.0.merkle_eq))
        g.1 h.1 (sym g.0.hash_eq ∙ e ∙ h.0.hash_eq)) [
          | inl same ↦
              inl (same, sym g.0.parent_hash_eq ∙ same.parent_block_hash_eq ∙ h.0.parent_hash_eq)
          | inr c ↦ inr c
        ]

  -- The texts of the blocks that are hashed.
  abbrev pub block_texts : List SupplyChainRecord → List Text
  block_texts records = map block_hash_input records

  -- Chains whose batches end in one block hash have the same blocks in these batches, all the way
  -- down, or the texts of two blocks at one place clash.
  pub history_binds :
      (a b : Text) (rs ss : List SupplyChainRecord)
      → GoodChain rs
      → GoodChain ss
      → head_hash a rs ≡ head_hash b ss
      → SameHistory (history a rs) (history b ss)
        ⊎ Collision d (block_texts (history a rs)) (block_texts (history b ss))
  history_binds a b [] [] g h e = inl tt
  history_binds a b [] (s ∷ ss) g h e = elim (Bool-cases (text_eq s.batch_id b)) [
    | inr miss ↦ rw miss (history_binds a b [] ss g h.2 (rw miss at e))
    | inl hit ↦ absurd (genesis-ne-hash s ((rw hit at e) ∙ h.0.hash_eq))
  ]
  history_binds a b (r ∷ rs) [] g h e = elim (Bool-cases (text_eq r.batch_id a)) [
    | inr miss ↦ rw miss (history_binds a b rs [] g.2 h (rw miss at e))
    | inl hit ↦ absurd (genesis-ne-hash r (sym (rw hit at e) ∙ g.0.hash_eq))
  ]
  history_binds a b (r ∷ rs) (s ∷ ss) g h e = elim (Bool-cases (text_eq r.batch_id a)) [
    | inr miss ↦ rw miss (history_binds a b rs (s ∷ ss) g.2 h (rw miss at e))
    | inl hit ↦ elim (Bool-cases (text_eq s.batch_id b)) [
      | inr miss ↦ rw miss (history_binds a b (r ∷ rs) ss g h.2 (rw miss at e))
      | inl found ↦ elim (good-SameBlock r s rs ss g h (rw (hit, found) at e)) [
        | inr c ↦ rw (hit, found) (inr (inl c))
        | inl (same, heads) ↦
            let here = text_eq→eq r.batch_id a hit in
            let there = text_eq→eq s.batch_id b found in
            elim (history_binds a b rs ss g.2 h.2
              (ap (λ k. head_hash k rs) (sym here) ∙ heads ∙ ap (λ k. head_hash k ss) there)) [
                | inr c ↦ rw (hit, found) (inr (inr c))
                | inl below ↦ rw (hit, found) (inl (same, below))
              ]
      ]
    ]
  ]

  AllGood-GoodChain :
      (seen records : List SupplyChainRecord) (i : ℕ)
      → i ≡ length seen
      → GoodChain seen
      → AllGood d seen i records
      → All IsSigned records
      → GoodChain (newest_first seen records)
  AllGood-GoodChain seen [] i l g a signed = g
  AllGood-GoodChain seen (r ∷ records) i l g a signed =
      AllGood-GoodChain (r ∷ seen) records (suc i) (ap suc l)
        (subst (λ k. IsGood d seen k r) l a.0, signed.0, g) a.1 signed.1

  -- Two record lists that validate_stored_chain accepts, signed by one-line texts, in which the
  -- last blocks of a batch have one hash: these batches have as many blocks, which agree one by one
  -- in number, parent, Merkle root, signature and canonical record; or, at one place counted from
  -- the last blocks, the two hashed texts differ and have one digest.
  pub validated_history_binds :
      (a b : Text) (rs ss : List SupplyChainRecord) (es fs : List BlockEdge)
      → validate_stored_chain d rs es ≡ none
      → validate_stored_chain d ss fs ≡ none
      → All IsSigned rs
      → All IsSigned ss
      → head_hash a (newest_first [] rs) ≡ head_hash b (newest_first [] ss)
      → SameHistory (history a (newest_first [] rs)) (history b (newest_first [] ss))
        ⊎ Collision d
            (block_texts (history a (newest_first [] rs)))
            (block_texts (history b (newest_first [] ss)))
  validated_history_binds a b rs ss es fs accepted accepted' signed signed' e =
      history_binds a b (newest_first [] rs) (newest_first [] ss)
        (AllGood-GoodChain [] rs 0 refl tt (validate_stored_chain-AllGood d rs es accepted) signed)
        (AllGood-GoodChain [] ss 0 refl tt (validate_stored_chain-AllGood d ss fs accepted')
          signed')
        e
