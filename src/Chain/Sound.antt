-- ===== src/Chain/Sound.antt =====
-- What `validate_stored_chain` of Code/PrivateChain/Server/server.cpp has checked of the records when it
-- accepts.
use hybrid_blockchain_for_re.Prelude.{
  ℕ, suc, ◌≡◌, refl, ap, ◌∙◌, sym, Bool, true, ◌&&◌, not, Option, none, some, List, [], ◌∷◌, map,
  Text, ℤ, pos, text_eq, text_eq→eq, eqb_ℤ, eqb_ℤ_iff, length, arith, All, Option-cases, inl, inr,
  &&_parts, if◌then◌else◌, ==_iff,
}
use hybrid_blockchain_for_re.Sha256.{Digest}
use hybrid_blockchain_for_re.BlockMerkle.{MerkleLeafRecord, BlockMerkleResult, build_block_merkle}
use hybrid_blockchain_for_re.Records.{SupplyChainRecord, BlockEdge}
use hybrid_blockchain_for_re.Chain.Edges.{edges_to, expected_edges, check_record_edges_lem}
use hybrid_blockchain_for_re.Chain.{
  ChainError, calculate_block_hash, bool_eq, same_merkle_leaf, leaves_match, find_block, find_batch,
  expected_parent_id, expected_parent_hash, merkle_matches, check_merkle, check_links,
  check_records, check_record_edges, validate_stored_chain,
}

bool_eq→eq : (a b : Bool) → bool_eq a b ≡ true → a ≡ b
bool_eq→eq a b h = ground arith

eqb_ℤ→eq : (a b : ℤ) → eqb_ℤ a b ≡ true → a ≡ b
eqb_ℤ→eq a b h = (eqb_ℤ_iff a b).0 h

same_merkle_leaf→eq : (x y : MerkleLeafRecord) → same_merkle_leaf x y ≡ true → x ≡ y
unfolding same_merkle_leaf
same_merkle_leaf→eq x y h =
    let (index, h1) = &&_parts _ _ h in
    let (name, h2) = &&_parts _ _ h1 in
    let (value, h3) = &&_parts _ _ h2 in
    let (hash, h4) = &&_parts _ _ h3 in
    let (proof, flag) = &&_parts _ _ h4 in
    let index' = eqb_ℤ→eq _ _ index in
    let name' = text_eq→eq _ _ name in
    let value' = text_eq→eq _ _ value in
    let hash' = text_eq→eq _ _ hash in
    let proof' = text_eq→eq _ _ proof in
    let flag' = bool_eq→eq _ _ flag in
    λ i. record {
      leaf_index = index' i;
      field_name = name' i;
      leaf_value = value' i;
      leaf_hash = hash' i;
      proof = proof' i;
      verified = flag' i;
    }

leaves_match→eq :
    (xs ys : List MerkleLeafRecord) → length xs ≡ length ys → leaves_match xs ys ≡ true → xs ≡ ys
unfolding leaves_match
leaves_match→eq [] [] l h = refl
leaves_match→eq [] (y ∷ ys) l h = absurd (omega arith)
leaves_match→eq (x ∷ xs) [] l h = cc
leaves_match→eq (x ∷ xs) (y ∷ ys) l h =
    let (head, tail) = &&_parts (same_merkle_leaf x y) (leaves_match xs ys) h in
    let same = same_merkle_leaf→eq x y head in
    let rest = leaves_match→eq xs ys (omega arith) tail in cc

-- The Merkle data that a record should store: what its fields give.
abbrev pub stored_merkle : SupplyChainRecord → BlockMerkleResult
stored_merkle r = record {
  canonical_record = r.canonical_record;
  root_hash = r.root_hash;
  verified = r.verified;
  leaves = r.merkle_leaves;
}

merkle_matches→eq :
    (m : BlockMerkleResult) (r : SupplyChainRecord)
    → merkle_matches m r ≡ true
    → leaves_match m.leaves r.merkle_leaves ≡ true
    → m ≡ stored_merkle r
unfolding merkle_matches
merkle_matches→eq m r h leaves =
    let (canonical, h1) = &&_parts _ _ h in
    let (root, h2) = &&_parts _ _ h1 in
    let (flag, size) = &&_parts _ _ h2 in
    let canonical' = text_eq→eq _ _ canonical in
    let root' = text_eq→eq _ _ root in
    let flag' = bool_eq→eq _ _ flag in
    let leaves' = leaves_match→eq m.leaves r.merkle_leaves ((==_iff _ _).0 size) leaves in
    λ i. record {
      canonical_record = canonical' i;
      root_hash = root' i;
      verified = flag' i;
      leaves = leaves' i;
    }

-- The newest of the records seen that is of the batch; `seen` has the newest in front.
abbrev pub latest_of : Text → List SupplyChainRecord → Option SupplyChainRecord
latest_of batch [] = none
latest_of batch (r ∷ seen) = if text_eq r.batch_id batch then some r else latest_of batch seen

abbrev ids : List SupplyChainRecord → List (ℤ × SupplyChainRecord)
ids = map λ r. (r.block_id, r)

abbrev batches : List SupplyChainRecord → List (Text × SupplyChainRecord)
batches = map λ r. (r.batch_id, r)

find_batch-batches :
    (k : Text) (seen : List SupplyChainRecord) → find_batch k (batches seen) ≡ latest_of k seen
unfolding find_batch
find_batch-batches k [] = refl
find_batch-batches k (r ∷ seen) = rw (find_batch-batches k seen)

-- Two refusals, neither of them made.
both_passed :
    (a b : Bool) (x y : ChainError)
    → (if not a then some x else if not b then some y else none) ≡ none
    → (a ≡ true) × (b ≡ true)
both_passed a b x y h = ground arith

-- The three tests of check_links, passed.
links_passed :
    (a b c e : Bool) (x y z : ChainError)
    → (if not (a && b) then some x else if e then some y else if not c then some z else none) ≡ none
    → (a ≡ true) × (b ≡ true) × (c ≡ true)
links_passed a b c e x y z h = ground arith

module _ (d : Digest) where
  -- A record at place `i`, after the records `seen`: its number, its Merkle data, its link to the
  -- newest block of its batch (or to GENESIS, where there is none), its hash.
  pub record IsGood (seen : List SupplyChainRecord) (i : ℕ) (r : SupplyChainRecord) : Type 0 where
    pub id_eq : r.block_id ≡ pos i
    pub merkle_eq : build_block_merkle d r.merkle_fields ≡ some (stored_merkle r)
    pub parent_id_eq : r.parent_block_id ≡ expected_parent_id (latest_of r.batch_id seen)
    pub parent_hash_eq : r.parent_block_hash ≡ expected_parent_hash (latest_of r.batch_id seen)
    pub hash_eq : r.block_hash ≡ calculate_block_hash d r

  abbrev pub AllGood : List SupplyChainRecord → ℕ → List SupplyChainRecord → Type 0
  AllGood seen i [] = Unit {0}
  AllGood seen i (r ∷ records) = IsGood seen i r × AllGood (r ∷ seen) (suc i) records

  check_merkle→eq :
      (r : SupplyChainRecord)
      → check_merkle d r ≡ none
      → build_block_merkle d r.merkle_fields ≡ some (stored_merkle r)
  unfolding check_merkle
  check_merkle→eq r h = elim (Option-cases (build_block_merkle d r.merkle_fields)) [
    | inl missing ↦ absurd (let no = rw (missing, check_merkle) at h in ground arith)
    | inr (m, e) ↦
        let passed = both_passed _ _ _ _ (rw (e, check_merkle) at h) in
        e ∙ ap some (merkle_matches→eq m r passed.0 passed.1)
  ]

  check_links→eq :
      (previous parent : Option SupplyChainRecord) (r : SupplyChainRecord)
      → check_links d previous parent r ≡ none
      → (r.parent_block_id ≡ expected_parent_id previous)
        × (r.parent_block_hash ≡ expected_parent_hash previous)
        × (r.block_hash ≡ calculate_block_hash d r)
  unfolding check_links
  check_links→eq previous parent r h =
      let (a, b, c) = links_passed _ _ _ _ _ _ _ h in
      (eqb_ℤ→eq _ _ a, text_eq→eq _ _ b, sym (text_eq→eq _ _ c))

  -- What the first loop has passed for its first record.
  pub record Passed (index : ℕ) (by_id : List (ℤ × SupplyChainRecord))
      (by_batch : List (Text × SupplyChainRecord)) (r : SupplyChainRecord)
      (records : List SupplyChainRecord) : Type 0 where
    pub id_ok : eqb_ℤ r.block_id (pos index) ≡ true
    pub merkle_ok : check_merkle d r ≡ none
    pub links_ok :
        check_links d (find_batch r.batch_id by_batch) (find_block r.parent_block_id by_id) r ≡ none
    pub rest_ok :
        check_records d (suc index) ((r.block_id, r) ∷ by_id) ((r.batch_id, r) ∷ by_batch) records
        ≡ none

  check_records-Passed :
      (index : ℕ) (by_id : List (ℤ × SupplyChainRecord))
      (by_batch : List (Text × SupplyChainRecord)) (r : SupplyChainRecord)
      (records : List SupplyChainRecord)
      → check_records d index by_id by_batch (r ∷ records) ≡ none
      → Passed index by_id by_batch r records
  unfolding check_records
  check_records-Passed index by_id by_batch r records h = ground arith

  check_records-AllGood :
      (i : ℕ) (seen records : List SupplyChainRecord)
      → check_records d i (ids seen) (batches seen) records ≡ none
      → AllGood seen i records
  check_records-AllGood i seen [] h = tt
  check_records-AllGood i seen (r ∷ records) h =
      let p = check_records-Passed i (ids seen) (batches seen) r records h in
      let (id, hash, block) = check_links→eq _ _ r p.links_ok in
      let latest = find_batch-batches r.batch_id seen in
      (
        record {
          id_eq = eqb_ℤ→eq _ _ p.id_ok;
          merkle_eq = check_merkle→eq r p.merkle_ok;
          parent_id_eq = id ∙ ap expected_parent_id latest;
          parent_hash_eq = hash ∙ ap expected_parent_hash latest;
          hash_eq = block;
        },
        check_records-AllGood (suc i) (r ∷ seen) records p.rest_ok,
      )

  accepted_parts :
      (records : List SupplyChainRecord) (edges : List BlockEdge)
      → validate_stored_chain d records edges ≡ none
      → (check_records d 0 [] [] records ≡ none) × (check_record_edges edges records ≡ none)
  unfolding validate_stored_chain
  accepted_parts records edges h = ground arith

  -- An accepted chain: each record is good after those before it.
  pub validate_stored_chain-AllGood :
      (records : List SupplyChainRecord) (edges : List BlockEdge)
      → validate_stored_chain d records edges ≡ none
      → AllGood [] 0 records
  validate_stored_chain-AllGood records edges h =
      check_records-AllGood 0 [] records (accepted_parts records edges h).0

  -- An accepted chain, record by record: the numbers run from 0, the Merkle data is what the fields
  -- give, the parent is the newest earlier block of the batch (or GENESIS), the block hash is that
  -- of the contents; and the edges that lead to a record are the one from its parent, or none.
  pub validate_stored_chain_sound :
      (records : List SupplyChainRecord) (edges : List BlockEdge)
      → validate_stored_chain d records edges ≡ none
      → AllGood [] 0 records × All (λ r. edges_to r.block_id edges ≡ expected_edges r) records
  validate_stored_chain_sound records edges h = (
    validate_stored_chain-AllGood records edges h,
    check_record_edges_lem edges records (accepted_parts records edges h).1,
  )
