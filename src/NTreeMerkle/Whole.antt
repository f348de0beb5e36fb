-- ===== src/NTreeMerkle/Whole.antt =====
-- Code/MerkleTreeNTree/src/NTreeMerkle.cpp: a built tree, and the proofs of its leaves.
use hybrid_blockchain_for_re.Prelude.{
  some_injective, ℕ, zero, suc, ◌≤◌, ◌≡◌, refl, ap, subst, sym, ◌∙◌, Option, none, some, List, [],
  ◌∷◌, Text, true, length, get_elem?, get_elem?-lt, get_elem?-some_lt, arith, inl, inr, ◌>>=◌,
}
use hybrid_blockchain_for_re.Sha256.{Digest, sha256}
use hybrid_blockchain_for_re.NTreeMerkle.{Proof, verify_proof}
use hybrid_blockchain_for_re.NTreeMerkle.Generate.{
  Node, NTree, generate_proof, built_root_hash, parts_of, hash_of,
}
use hybrid_blockchain_for_re.NTreeMerkle.Accept.{IsNTree}
use hybrid_blockchain_for_re.NTreeMerkle.Walk.{proof_for-inr, from_ids-inr}
use hybrid_blockchain_for_re.NTreeMerkle.Total.{generate_proof-accepted}
use hybrid_blockchain_for_re.NTreeMerkle.Build.{
  Building, BuildResult, make_leaves, whole_tree, result_of, finish, build,
}
use hybrid_blockchain_for_re.NTreeMerkle.Grow.{
  IsBuilding, LeavesAt, LeavesAt-Extends, make_leaves-IsBuilding,
}
use hybrid_blockchain_for_re.NTreeMerkle.Levels.{build_levels-IsBuilding}

-- The proof of a leaf carries the value of its node.
generate_proof-value :
    (tree : NTree) (i id : ℕ) (leaf : Node) (p : Proof)
    → generate_proof tree i ≡ inr p
    → get_elem? tree.leaf_ids i ≡ some id
    → get_elem? tree.nodes id ≡ some leaf
    → p.leaf_value ≡ leaf.value
unfolding generate_proof
generate_proof-value tree i id leaf p e at_i at_id =
    let (root, id', _, at_i', made) =
      from_ids-inr tree i tree.root_id (get_elem? tree.leaf_ids i) p e in
    let (leaf', top, steps, at_id', _, _, parts) =
      proof_for-inr tree i root (get_elem? tree.nodes id') (get_elem? tree.nodes root) p made in
    let ids : ◌≡◌ {A = Option ℕ} (some id') (some id) = sym at_i' ∙ at_i in
    let same_id : id' ≡ id = cc ids in
    let leaves : ◌≡◌ {A = Option Node} (some leaf') (some leaf) =
      sym at_id' ∙ ap (get_elem? tree.nodes) same_id ∙ at_id in
    let same_leaf : leaf' ≡ leaf = cc leaves in
    let whole : parts_of i leaf' top steps ≡ p = cc parts in
    ap (λ q. q.leaf_value) (sym whole) ∙ ap (λ n. n.value) same_leaf

root_hash-whole_tree :
    (b : Building) (ids : List ℕ) (root : ℕ) (top : Node)
    → get_elem? b.nodes root ≡ some top
    → built_root_hash (whole_tree b ids root) ≡ some top.hash
unfolding built_root_hash
root_hash-whole_tree b ids root top e = ap hash_of e

finish-whole_tree :
    (d : Digest) (arity : ℕ) (b : Building) (ids : List ℕ) (root : ℕ) (top : Node)
    → get_elem? b.nodes root ≡ some top
    → finish d arity ids (b, root) ≡ some (whole_tree b ids root, result_of d arity ids b top)
finish-whole_tree d arity b ids root top e =
    ap (λ m. m >>= λ t. some (whole_tree b ids root, result_of d arity ids b t)) e

module _ (d : Digest) where
  LeavesAt-get_elem? :
      (b : Building) (vs : List Text) (ids : List ℕ) (i id : ℕ)
      → LeavesAt d b vs ids
      → get_elem? ids i ≡ some id
      → (v : Text) × (n : Node) × (get_elem? vs i ≡ some v)
        × (get_elem? b.nodes id ≡ some n)
        × (n.value ≡ v)
        × (n.hash ≡ sha256 d v)
  LeavesAt-get_elem? b [] [] i id h e = absurd (let bad = e in cc bad)
  LeavesAt-get_elem? b [] (x ∷ ids) i id h e = absurd h
  LeavesAt-get_elem? b (v ∷ vs) [] i id h e = absurd h
  LeavesAt-get_elem? b (v ∷ vs) (x ∷ ids) zero id ((n, stands, val, hash), h) e =
      let same : x ≡ id = cc e in
      (v, n, refl, ap (get_elem? b.nodes) (sym same) ∙ stands, val, hash)
  LeavesAt-get_elem? b (v ∷ vs) (x ∷ ids) (suc i) id (first, h) e =
      LeavesAt-get_elem? b vs ids i id h e

  module _ (n : ℕ) (leaves : List Text) (b : Building) (ids : List ℕ) (root : ℕ)
      (built : IsBuilding d (suc (suc n)) b (λ i. i ≡ root)) (at : LeavesAt d b leaves ids) where
    built-IsNTree : IsNTree d (suc (suc n)) (whole_tree b ids root)
    built-IsNTree = record {
      at_id = built.at_id;
      hashed = λ i id m at_i at_id.
          let (v, m', _, stands, val, hash) = LeavesAt-get_elem? b leaves ids i id at at_i in
          let both : ◌≡◌ {A = Option Node} (some m') (some m) = sym stands ∙ at_id in
          let same : m' ≡ m = cc both in
          subst (λ x. x.hash ≡ sha256 d x.value) same (hash ∙ ap (sha256 d) (sym val));
      linked = built.linked;
      rooted = λ r m at_root at_id. built.named r m at_id;
      climbs = λ r id m at_root at_id other. elim (built.climbs id m at_id) [
        | inl e ↦
            let top : root ≡ r = some_injective root r at_root in
            absurd (ground (arith, e, top, other))
        | inr c ↦ c
      ];
      there = λ i id at_i.
          let (v, m', _, stands, _, _) = LeavesAt-get_elem? b leaves ids i id at at_i in
          get_elem?-some_lt b.nodes id m' stands;
      has_root = (root, refl, built.inside root refl);
    }

    whole_accepted :
        length ids ≡ length leaves
        → (i : ℕ) (v : Text) → get_elem? leaves i ≡ some v
        → (p : Proof) × (generate_proof (whole_tree b ids root) i ≡ inr p)
          × (p.leaf_value ≡ v)
          × (verify_proof d (suc (suc n)) (built_root_hash (whole_tree b ids root)) p ≡ none)
    whole_accepted size i v at_i =
        let in_leaves = get_elem?-some_lt leaves i v at_i in
        let (p, made, accepted) =
          generate_proof-accepted d (suc (suc n)) (whole_tree b ids root) i built-IsNTree
            (omega (arith, in_leaves, size)) in
        let (id, at_id) = get_elem?-lt ids i (omega (arith, in_leaves, size)) in
        let (v', m, at_v, stands, val, _) = LeavesAt-get_elem? b leaves ids i id at at_id in
        (
          p,
          made,
          generate_proof-value (whole_tree b ids root) i id m p made at_id stands
              ∙ val
              ∙ some_injective v' v (sym at_v ∙ at_i),
          accepted,
        )

  abbrev nothing_built : Building
  nothing_built = record { nodes = []; links = [] }

  nothing_built-IsBuilding : (arity : ℕ) → IsBuilding d arity nothing_built (λ i. ⊥)
  nothing_built-IsBuilding arity = record {
    at_id = λ i n e. absurd (let bad = e in cc bad);
    named = λ i n e. absurd (let bad = e in cc bad);
    linked = tt;
    climbs = λ i n e. absurd (let bad = e in cc bad);
    inside = λ i q. absurd q;
  }

  -- For a branching factor of at least two and one leaf or more, build ends and succeeds with as
  -- many leaves as it is given, and for every leaf generate_proof returns a proof of its value that
  -- verify_proof accepts.
  pub build_accepted :
      (arity : ℕ) (value : Text) (leaves : List Text)
      → 2 ≤ arity
      → (tree : NTree) × (r : BuildResult) × (build d arity (value ∷ leaves) ≡ some (tree, r))
        × (r.success ≡ true)
        × (r.leaf_count ≡ suc (length leaves))
        × (built_root_hash tree ≡ some r.root_hash)
        × ((i : ℕ) (v : Text)
            → get_elem? (value ∷ leaves) i ≡ some v
            → (p : Proof) × (generate_proof tree i ≡ inr p)
              × (p.leaf_value ≡ v)
              × (verify_proof d arity (built_root_hash tree) p ≡ none))
  unfolding build
  build_accepted zero value leaves two = absurd (omega (arith, two))
  build_accepted (suc zero) value leaves two = absurd (omega (arith, two))
  build_accepted (suc (suc n)) value leaves two =
      let z = make_leaves d 0 (value ∷ leaves) nothing_built in
      let (grown, _, at, size) =
        make_leaves-IsBuilding d (suc (suc n)) 0 (value ∷ leaves) nothing_built (λ i. ⊥)
          (nothing_built-IsBuilding (suc (suc n))) in
      let (y, done, built, extends) =
        build_levels-IsBuilding d n (length z.1) 0 z.1 z.0 (omega (arith, size)) (omega arith)
          grown in
      let (top, at_root) = get_elem?-lt y.0.nodes y.1 (built.inside y.1 refl) in
      (
        whole_tree y.0 z.1 y.1,
        result_of d (suc (suc n)) z.1 y.0 top,
        ap (λ m. m >>= finish d (suc (suc n)) z.1) done
            ∙ finish-whole_tree d (suc (suc n)) y.0 z.1 y.1 top at_root,
        refl,
        size,
        root_hash-whole_tree y.0 z.1 y.1 top at_root,
        whole_accepted n (value ∷ leaves) y.0 z.1 y.1 built
            (LeavesAt-Extends d z.0 y.0 (value ∷ leaves) z.1 extends at) size,
      )
