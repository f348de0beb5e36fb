-- ===== src/BlockMerkle/Encoding.antt =====
-- What the texts and the root of Code/PrivateChain/Server/block_merkle.cpp say of the fields: the
-- canonical record gives them back, and the root binds them.
use hybrid_blockchain_for_re.Prelude.{
  ℕ, suc, ◌<◌, ◌≡◌, refl, ap, ◌∙◌, sym, some, List, [], ◌∷◌, ◌++◌, map, Text, length, arith, All,
  inl, inr, ◌⊎◌, ◌≢◌, decimal, decimal-IsDigit, IsDigit, length-map, subst, split_injective,
  decimal_injective,
}
use hybrid_blockchain_for_re.Sha256.{Digest}
use hybrid_blockchain_for_re.Sha256.Hex.{Collision}
use hybrid_blockchain_for_re.MerkleTree.{Node, build_from_blocks, get_root_hash, root_hash_of}
use hybrid_blockchain_for_re.MerkleTree.Levels.{build_from_blocks_total}
use hybrid_blockchain_for_re.MerkleTree.Binding.{append_injective}
use hybrid_blockchain_for_re.MerkleTree.Roots.{hashed_texts, root_binds}
use hybrid_blockchain_for_re.BlockMerkle.{
  MerkleField, BlockMerkleResult, colon, leaf_input, canonical_record_from_fields,
  build_block_merkle,
}
use hybrid_blockchain_for_re.BlockMerkle.Leaves.{Describes, IsNamed, build_block_merkle-named}

append-ne-nil : (a : Text) (c : ℕ) (r : Text) → a ++ c ∷ r ≢ []
append-ne-nil [] c r e = ground arith
append-ne-nil (x ∷ a) c r e = ground arith

digits-ne : (c : ℕ) (s : Text) → 57 < c → All IsDigit s → All (λ x. x ≢ c) s
digits-ne c [] h ds = tt
digits-ne c (x ∷ s) h ds = ((omega arith), digits-ne c s h ds.1)

-- A field name that leaf_input can be read back from.
abbrev pub IsPlain : MerkleField → Type 0
IsPlain f = All (λ x. x ≢ colon) f.name

-- A name, a size and what follows, taken apart.
header_injective :
    (f g : MerkleField) (r s : Text)
    → IsPlain f
    → IsPlain g
    → f.name ++ colon ∷ (decimal (length f.value) ++ colon ∷ r)
      ≡ g.name ++ colon ∷ (decimal (length g.value) ++ colon ∷ s)
    → (f.name ≡ g.name) × (length f.value ≡ length g.value) × (r ≡ s)
header_injective f g r s pf pg e =
    let (names, rest) = split_injective colon f.name g.name _ _ pf pg e in
    let sizes =
      split_injective colon (decimal (length f.value)) (decimal (length g.value)) r s
        (digits-ne colon _ (omega arith) (decimal-IsDigit (length f.value)))
        (digits-ne colon _ (omega arith) (decimal-IsDigit (length g.value))) rest in
    (names, decimal_injective _ _ sizes.0, sizes.1)

pub leaf_input_injective :
    (f g : MerkleField) → IsPlain f → IsPlain g → leaf_input f ≡ leaf_input g → f ≡ g
unfolding leaf_input
leaf_input_injective f g pf pg e =
    let (names, sizes, values) = header_injective f g f.value g.value pf pg e in
    λ i. record { name = names i; value = values i }

-- Where no name of a field holds a colon (`IsPlain`), the canonical record determines the fields,
-- their number and order included.
pub canonical_record_injective :
    (fs gs : List MerkleField)
    → All IsPlain fs
    → All IsPlain gs
    → canonical_record_from_fields fs ≡ canonical_record_from_fields gs
    → fs ≡ gs
unfolding canonical_record_from_fields
canonical_record_injective [] [] pf pg e = refl
canonical_record_injective [] (g ∷ gs) pf pg e = absurd (append-ne-nil g.name _ _ (sym e))
canonical_record_injective (f ∷ fs) [] pf pg e = absurd (append-ne-nil f.name _ _ e)
canonical_record_injective (f ∷ fs) (g ∷ gs) pf pg e =
    let (names, sizes, rest) = header_injective f g _ _ pf.0 pg.0 e in
    let (values, tails) = append_injective f.value g.value _ _ sizes rest in
    let same : f ≡ g = λ i. record { name = names i; value = values i } in
    let ih = canonical_record_injective fs gs pf.1 pg.1 (ground (arith, tails)) in cc

leaf_inputs_injective :
    (fs gs : List MerkleField)
    → All IsPlain fs
    → All IsPlain gs
    → map leaf_input fs ≡ map leaf_input gs
    → fs ≡ gs
leaf_inputs_injective [] [] pf pg e = refl
leaf_inputs_injective [] (g ∷ gs) pf pg e = cc
leaf_inputs_injective (f ∷ fs) [] pf pg e = cc
leaf_inputs_injective (f ∷ fs) (g ∷ gs) pf pg e =
    ground (arith, leaf_input_injective f g pf.0 pg.0, leaf_inputs_injective fs gs pf.1 pg.1)

module _ (d : Digest) where
  Describes-binds :
      (fs gs : List MerkleField) (r s : BlockMerkleResult) (m n : Node)
      → Describes d fs r
      → Describes d gs s
      → build_from_blocks d (map leaf_input fs) ≡ some m
      → build_from_blocks d (map leaf_input gs) ≡ some n
      → All IsPlain fs
      → All IsPlain gs
      → length fs ≡ length gs
      → r.root_hash ≡ s.root_hash
      → (fs ≡ gs)
        ⊎ Collision d (hashed_texts d (map leaf_input fs)) (hashed_texts d (map leaf_input gs))
  unfolding get_root_hash
  Describes-binds fs gs r s m n x y em en pf pg l e =
      let left =
        x.root_eq
        ∙ ap root_hash_of (x.is_built.root_eq ∙ ap (build_from_blocks d) x.blocks_eq ∙ em) in
      let right =
        y.root_eq
        ∙ ap root_hash_of (y.is_built.root_eq ∙ ap (build_from_blocks d) y.blocks_eq ∙ en) in
      elim (root_binds d (map leaf_input fs) (map leaf_input gs) m n
        (length-map leaf_input fs ∙ l ∙ sym (length-map leaf_input gs)) em en
        (sym left ∙ e ∙ right)) [
          | inl same ↦ inl (leaf_inputs_injective fs gs pf pg same)
          | inr c ↦ inr c
        ]

  -- Blocks of as many fields, with names that are not empty and hold no colon (`IsNamed`,
  -- `IsPlain`), and with one Merkle root have the same fields, or two different texts that the two
  -- trees hash at one place have one digest.
  pub root_hash_binds :
      (f g : MerkleField) (fs gs : List MerkleField) (r s : BlockMerkleResult)
      → All IsNamed (f ∷ fs)
      → All IsNamed (g ∷ gs)
      → All IsPlain (f ∷ fs)
      → All IsPlain (g ∷ gs)
      → length fs ≡ length gs
      → build_block_merkle d (f ∷ fs) ≡ some r
      → build_block_merkle d (g ∷ gs) ≡ some s
      → r.root_hash ≡ s.root_hash
      → (f ∷ fs ≡ g ∷ gs)
        ⊎ Collision d
            (hashed_texts d (map leaf_input (f ∷ fs)))
            (hashed_texts d (map leaf_input (g ∷ gs)))
  root_hash_binds f g fs gs r s nf ng pf pg l er es e =
      let (r', er', x) = build_block_merkle-named d f fs nf in
      let (s', es', y) = build_block_merkle-named d g gs ng in
      let left : r' ≡ r = ground (arith, er, er') in
      let right : s' ≡ s = ground (arith, es, es') in
      let (m, em) = build_from_blocks_total d (leaf_input f) (map leaf_input fs) in
      let (n, en) = build_from_blocks_total d (leaf_input g) (map leaf_input gs) in
      Describes-binds (f ∷ fs) (g ∷ gs) r s m n (subst (Describes d (f ∷ fs)) left x)
        (subst (Describes d (g ∷ gs)) right y) em en pf pg (ap suc l) e
