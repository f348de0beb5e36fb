-- ===== src/BlockMerkle/Leaves.antt =====
-- `build_block_merkle` of Code/PrivateChain/Server/block_merkle.cpp, on every list of fields.
use hybrid_blockchain_for_re.Prelude.{
  ℕ, suc, ◌≡◌, refl, ap, ◌∙◌, sym, true, false, none, some, List, [], ◌∷◌, ◌++◌, append-nil,
  append_assoc, map, Text, length, arith, All, inl, inr, is_empty, pos, get_elem?, not, Bool-cases,
  Option-cases, subst, length-append, ◌||◌,
}
use hybrid_blockchain_for_re.Sha256.{Digest, sha256}
use hybrid_blockchain_for_re.MerkleTree.{
  MerkleTree, new_tree, append, get_root_hash, build_from_blocks, root_hash_of,
}
use hybrid_blockchain_for_re.MerkleTree.Prover.{prover_block}
use hybrid_blockchain_for_re.MerkleTree.Levels.{
  IsBuilt, build_from_blocks_total, length-hash_of, build_from_blocks-IsHashed,
}
use hybrid_blockchain_for_re.MerkleTree.Complete.{verify-prover_block}
use hybrid_blockchain_for_re.MerkleTree.Object.{append-Stored, new_tree-IsBuilt}
use hybrid_blockchain_for_re.BlockMerkle.Checker.{verify_proof-verify}
use hybrid_blockchain_for_re.BlockMerkle.{
  MerkleField, MerkleLeafRecord, BlockMerkleResult, leaf_input, canonical_record_from_fields,
  append_fields, leaf_records, all_verified, build_block_merkle, sha256_value,
}

abbrev pub IsNamed : MerkleField → Type 0
IsNamed f = is_empty f.name ≡ false

get_elem?-append_length {ℓ} :
    {A : Type ℓ} (xs : List A) (y : A) (ys : List A) → get_elem? (xs ++ y ∷ ys) (length xs) ≡ some y
get_elem?-append_length [] y ys = refl
get_elem?-append_length (x ∷ xs) y ys = get_elem?-append_length xs y ys

text_cons : (s t : Text) → is_empty s ≡ false → (c : ℕ) × (r : Text) × (s ++ t ≡ c ∷ r)
text_cons [] t e = absurd (cc)
text_cons (c ∷ s) t e = (c, s ++ t, refl)

leaf_input-cons : (f : MerkleField) → IsNamed f → (c : ℕ) × (r : Text) × (leaf_input f ≡ c ∷ r)
unfolding leaf_input
leaf_input-cons f e = text_cons f.name _ e

module _ (d : Digest) where
  -- Appending fields that have names: all of them become blocks.
  append_fields-named :
      (t : MerkleTree) (fs : List MerkleField)
      → IsBuilt d t
      → All IsNamed fs
      → (u : MerkleTree) × (append_fields d t fs ≡ some u)
        × IsBuilt d u
        × (u.blocks ≡ t.blocks ++ map leaf_input fs)
  unfolding append_fields
  append_fields-named t [] v n = (t, refl, v, sym (append-nil t.blocks))
  append_fields-named t (f ∷ fs) v (named, n) =
      let (c, r, e) = leaf_input-cons f named in
      let s = append-Stored d t c r in
      let (u, run, built, blocks) = append_fields-named (append d t (c ∷ r)).1 fs s.is_built n in
      (
        u,
        rw (e, s.succeeds, named) run,
        built,
        blocks
            ∙ ap (λ (bs : List Text). bs ++ map leaf_input fs) s.blocks_eq
            ∙ append_assoc t.blocks ((c ∷ r) ∷ []) (map leaf_input fs)
            ∙ ap (λ b. t.blocks ++ b ∷ map leaf_input fs) (sym e),
      )

  -- The records of the leaves, all verified.
  abbrev pub expected_leaves : MerkleTree → ℕ → List MerkleField → List MerkleLeafRecord
  expected_leaves t i [] = []
  expected_leaves t i (f ∷ fs) =
      record {
        leaf_index = pos i;
        field_name = f.name;
        leaf_value = f.value;
        leaf_hash = sha256 d (leaf_input f);
        proof = prover_block t (pos i);
        verified = true;
      }
      ∷ expected_leaves t (suc i) fs

  leaf_records-expected :
      (t : MerkleTree) (before : List Text) (i : ℕ) (fs : List MerkleField)
      → IsBuilt d t
      → t.blocks ≡ before ++ map leaf_input fs
      → length before ≡ i
      → leaf_records d t i fs ≡ expected_leaves t i fs
  unfolding leaf_records sha256_value
  leaf_records-expected t before i [] v e l = refl
  leaf_records-expected t before i (f ∷ fs) v e l =
      let found : get_elem? t.blocks i ≡ some (leaf_input f) =
        rw (e, ← l) (get_elem?-append_length before (leaf_input f) (map leaf_input fs)) in
      let checked =
        verify_proof-verify d t (prover_block t (pos i)) v
        ∙ (verify-prover_block d t i (leaf_input f) v found).0 in
      let rest =
        leaf_records-expected t (before ++ leaf_input f ∷ []) (suc i) fs v
          (e ∙ sym (append_assoc before (leaf_input f ∷ []) (map leaf_input fs)))
          (omega (arith, length-append before (leaf_input f ∷ []), l)) in
      rw (checked, rest)

  all_verified-expected :
      (t : MerkleTree) (i : ℕ) (fs : List MerkleField)
      → all_verified (expected_leaves t i fs) ≡ true
  unfolding all_verified
  all_verified-expected t i [] = refl
  all_verified-expected t i (f ∷ fs) = all_verified-expected t (suc i) fs

  -- What is built from fields: the tree of their inputs, its root hash, a verified record for each
  -- field, and the canonical record.
  pub record Describes (fs : List MerkleField) (r : BlockMerkleResult) : Type 0 where
    pub tree : MerkleTree
    pub is_built : IsBuilt d tree
    pub blocks_eq : tree.blocks ≡ map leaf_input fs
    pub root_eq : r.root_hash ≡ get_root_hash tree
    pub leaves_eq : r.leaves ≡ expected_leaves tree 0 fs
    pub verified_eq : r.verified ≡ true
    pub canonical_eq : r.canonical_record ≡ canonical_record_from_fields fs

  -- One field or more, each with a name: the result has the canonical record and the root hash of
  -- the tree of the fields' inputs, and one verified record for each field, with its name, value, hash
  -- and proof.
  pub build_block_merkle-named :
      (f : MerkleField) (fs : List MerkleField)
      → All IsNamed (f ∷ fs)
      → (r : BlockMerkleResult) × (build_block_merkle d (f ∷ fs) ≡ some r) × Describes (f ∷ fs) r
  unfolding build_block_merkle
  build_block_merkle-named f fs n =
      let (u, run, built, blocks) =
        append_fields-named (new_tree (pos 1)) (f ∷ fs) (new_tree-IsBuilt d (pos 1)) n in
      let fields : u.blocks ≡ map leaf_input (f ∷ fs) = unfold new_tree in blocks in
      let leaves = leaf_records-expected u [] 0 (f ∷ fs) built fields refl in
      (
        record {
          canonical_record = canonical_record_from_fields (f ∷ fs);
          root_hash = get_root_hash u;
          verified = true;
          leaves = expected_leaves u 0 (f ∷ fs);
        },
        rw (run, leaves, all_verified-expected u 0 (f ∷ fs)),
        record {
          tree = u;
          is_built = built;
          blocks_eq = fields;
          root_eq = refl;
          leaves_eq = refl;
          verified_eq = refl;
          canonical_eq = refl;
        },
      )

  append_fields-unnamed :
      (t : MerkleTree) (before : List MerkleField) (f : MerkleField) (after : List MerkleField)
      → is_empty f.name ≡ true
      → append_fields d t (before ++ f ∷ after) ≡ none
  unfolding append_fields
  append_fields-unnamed t [] f after e = rw e
  append_fields-unnamed t (g ∷ before) f after e =
      rw (append_fields-unnamed (append d t (leaf_input g)).1 before f after e) (ground arith)

  -- No fields, or a field with no name among them: nothing is built.
  pub build_block_merkle-unnamed :
      (before : List MerkleField) (f : MerkleField) (after : List MerkleField)
      → is_empty f.name ≡ true
      → (build_block_merkle d [] ≡ none) × (build_block_merkle d (before ++ f ∷ after) ≡ none)
  unfolding build_block_merkle
  build_block_merkle-unnamed before f after e =
      (refl, rw (append_fields-unnamed (new_tree (pos 1)) before f after e) (ground arith))

  append_fields-some :
      (t u : MerkleTree) (fs : List MerkleField) → append_fields d t fs ≡ some u → All IsNamed fs
  unfolding append_fields
  append_fields-some t u [] e = tt
  append_fields-some t u (f ∷ fs) e =
      elim (Bool-cases (is_empty f.name || not (append d t (leaf_input f)).0)) [
        | inl bad ↦ absurd (let no = rw bad at e in ground arith)
        | inr good ↦ (
          ground (arith, good),
          append_fields-some (append d t (leaf_input f)).1 u fs (rw good at e),
        )
      ]

  -- Whatever build_block_merkle returns describes its fields; and it returns nothing for none.
  pub build_block_merkle-some :
      (fs : List MerkleField) (r : BlockMerkleResult)
      → build_block_merkle d fs ≡ some r
      → Describes fs r × (is_empty fs ≡ false)
  unfolding build_block_merkle
  build_block_merkle-some [] r e = cc
  build_block_merkle-some (f ∷ fs) r e =
      elim (Option-cases (append_fields d (new_tree (pos 1)) (f ∷ fs))) [
        | inl missing ↦ absurd (let no = rw missing at e in ground arith)
        | inr (u, run) ↦
            let (r', e', x) =
              build_block_merkle-named f fs
                (append_fields-some (new_tree (pos 1)) u (f ∷ fs) run) in
            let same : r' ≡ r = ground (arith, e, e') in (subst (Describes (f ∷ fs)) same x, refl)
      ]

  -- A Merkle root that build_block_merkle returns is a hash of 64 characters.
  pub length-root_hash :
      (fs : List MerkleField) (r : BlockMerkleResult)
      → build_block_merkle d fs ≡ some r
      → length r.root_hash ≡ 64
  unfolding get_root_hash
  length-root_hash [] r e = absurd (let x = (build_block_merkle-some [] r e).1 in cc)
  length-root_hash (f ∷ fs) r e =
      let x = (build_block_merkle-some (f ∷ fs) r e).0 in
      let (n, built) = build_from_blocks_total d (leaf_input f) (map leaf_input fs) in
      let root =
        x.root_eq
        ∙ ap root_hash_of (x.is_built.root_eq ∙ ap (build_from_blocks d) x.blocks_eq ∙ built) in
      ap length root ∙ length-hash_of d n (build_from_blocks-IsHashed d _ n built)
