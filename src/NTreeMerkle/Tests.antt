-- ===== src/NTreeMerkle/Tests.antt =====
-- Runs of `generate_proof` and `verify_proof` of Code/MerkleTreeNTree/src/NTreeMerkle.cpp on trees
-- of two leaves, and each theorem at an input.
use hybrid_blockchain_for_re.Prelude.{
  some_injective, ℕ, zero, suc, ◌≡◌, refl, ap, subst, sym, ◌∙◌, true, false, Option, none, some, [],
  ◌∷◌, ◌++◌, Text, codes, text_eq, is_empty, get_elem?, ◌<◌, ◌==◌, ◌⊎◌, inl, inr, arith, ◌>>=◌,
}
use hybrid_blockchain_for_re.Sha256.{Digest, sha256}
use hybrid_blockchain_for_re.Sha256.Hex.{Collision}
use hybrid_blockchain_for_re.Sha256.Sample.{sample_digest, sample_hash}
use hybrid_blockchain_for_re.NTreeMerkle.{
  ProofStep, Proof, wrong_children, place_children, join_hashes, replay, verify_proof,
}
use hybrid_blockchain_for_re.NTreeMerkle.Generate.{
  Node, ParentLink, NTree, find_link, unavailable, hashes_of, sibling_hashes_of, find_parent,
  steps_to_root, generate_proof, built_root_hash,
}
use hybrid_blockchain_for_re.NTreeMerkle.Accept.{IsNTree}
use hybrid_blockchain_for_re.NTreeMerkle.Build.{
  BuildResult, back, make_leaves, pad_group, set_links, add_parent, build_groups, build_levels,
  build,
}
use hybrid_blockchain_for_re.NTreeMerkle.Whole.{build_accepted}
use hybrid_blockchain_for_re.NTreeMerkle.Total.{generate_proof-accepted}
use hybrid_blockchain_for_re.NTreeMerkle.Binding.{
  proof_texts, verify_proof_binds, raised, verify_proof-raised,
}

program : Unit {0}
unfolding text_eq sha256 sample_hash place_children join_hashes replay verify_proof hashes_of
    sibling_hashes_of find_parent steps_to_root generate_proof built_root_hash back make_leaves
    pad_group set_links add_parent build_groups build_levels build
program = tt

abbrev d : Digest
d = sample_digest

abbrev root : Text
root = sha256 d (sha256 d (codes "a") ++ sha256 d (codes "b"))

abbrev step : ProofStep
step = record { level = 1; child_index = 0; sibling_hashes = sha256 d (codes "b") ∷ [] }

abbrev proof : Proof
proof = record {
  leaf_index = 0;
  leaf_value = codes "a";
  leaf_hash = sha256 d (codes "a");
  root_hash = root;
  steps = step ∷ [];
}

accepted : verify_proof d 2 (some root) proof ≡ none
unfolding program
accepted = refl

three_refused : verify_proof d 3 (some root) proof ≡ some wrong_children
unfolding program
three_refused = refl

verify_proof_binds_example :
    ◌≡◌ {A = Text} (codes "a") (codes "a")
    ⊎ Collision d (proof_texts d 2 proof) (proof_texts d 2 proof)
unfolding program
verify_proof_binds_example =
    verify_proof_binds d 2 (some root) none proof proof accepted refl refl
      (refl, (refl, tt), (refl, tt), tt)

verify_proof-raised_example : verify_proof d 2 (some root) (raised d 2 proof step []) ≡ none
verify_proof-raised_example = verify_proof-raised d 2 (some root) proof step [] refl accepted

-- A tree of two leaves with arity three, a padding node among its nodes.
abbrev hash_a : Text
hash_a = sha256 d (codes "a")

abbrev hash_b : Text
hash_b = sha256 d (codes "b")

abbrev leaf : ℕ → Text → Node
leaf i value = record {
  id = i;
  level = 0;
  index = i;
  leaf = true;
  padding = false;
  value = value;
  hash = sha256 d value;
  children = [];
  duplicate_of = none;
}

abbrev padding_node : Node
padding_node = record {
  id = 2;
  level = 0;
  index = 2;
  leaf = false;
  padding = true;
  value = [];
  hash = hash_b;
  children = [];
  duplicate_of = some 1;
}

abbrev top_node : Node
top_node = record {
  id = 3;
  level = 1;
  index = 0;
  leaf = false;
  padding = false;
  value = [];
  hash = sha256 d (hash_a ++ hash_b ++ hash_b);
  children = 0 ∷ 1 ∷ 2 ∷ [];
  duplicate_of = none;
}

abbrev tree : NTree
tree = record {
  nodes = leaf 0 (codes "a") ∷ leaf 1 (codes "b") ∷ padding_node ∷ top_node ∷ [];
  leaf_ids = 0 ∷ 1 ∷ [];
  root_id = some 3;
  parent_links =
      (2, record { parent_id = 3; child_index = 2 })
      ∷ (1, record { parent_id = 3; child_index = 1 })
      ∷ (0, record { parent_id = 3; child_index = 0 })
      ∷ [];
}

abbrev tree_proof : Proof
tree_proof = record {
  leaf_index = 1;
  leaf_value = codes "b";
  leaf_hash = hash_b;
  root_hash = sha256 d (hash_a ++ hash_b ++ hash_b);
  steps = record { level = 1; child_index = 1; sibling_hashes = hash_a ∷ hash_b ∷ [] } ∷ [];
}

generated : generate_proof tree 1 ≡ inr tree_proof
unfolding program
generated = refl

no_third_leaf : generate_proof tree 2 ≡ inl unavailable
unfolding program
no_third_leaf = refl

tree-at_id : (i : ℕ) (n : Node) → get_elem? tree.nodes i ≡ some n → n.id ≡ i
tree-at_id zero n e = ap (λ m. m.id) (sym (some_injective (leaf 0 (codes "a")) n e))
tree-at_id (suc zero) n e = ap (λ m. m.id) (sym (some_injective (leaf 1 (codes "b")) n e))
tree-at_id (suc (suc zero)) n e = ap (λ m. m.id) (sym (some_injective padding_node n e))
tree-at_id (suc (suc (suc zero))) n e = ap (λ m. m.id) (sym (some_injective top_node n e))
tree-at_id (suc (suc (suc (suc i)))) n e = absurd (let bad = e in cc bad)

hashed-node : (m n : Node) → m ≡ n → m.hash ≡ sha256 d m.value → n.hash ≡ sha256 d n.value
hashed-node m n same h = subst (λ x. x.hash ≡ sha256 d x.value) same h

top_node-named : is_empty top_node.hash ≡ false
unfolding program
top_node-named = refl

tree-rooted :
    (root : ℕ) (n : Node)
    → tree.root_id ≡ some root
    → get_elem? tree.nodes root ≡ some n
    → is_empty n.hash ≡ false
tree-rooted root n e f =
    let found : ◌≡◌ {A = Option Node} (some top_node) (some n) =
      ap (get_elem? tree.nodes) (some_injective 3 root e) ∙ f in
    subst (λ x. is_empty x.hash ≡ false) (some_injective top_node n found) top_node-named

tree-hashed :
    (i id : ℕ) (n : Node)
    → get_elem? tree.leaf_ids i ≡ some id
    → get_elem? tree.nodes id ≡ some n
    → n.hash ≡ sha256 d n.value
tree-hashed zero id n e f =
    let first : ◌≡◌ {A = Option Node} (some (leaf 0 (codes "a"))) (some n) =
      ap (get_elem? tree.nodes) (some_injective 0 id e) ∙ f in
    hashed-node (leaf 0 (codes "a")) n (some_injective (leaf 0 (codes "a")) n first) refl
tree-hashed (suc zero) id n e f =
    let second : ◌≡◌ {A = Option Node} (some (leaf 1 (codes "b"))) (some n) =
      ap (get_elem? tree.nodes) (some_injective 1 id e) ∙ f in
    hashed-node (leaf 1 (codes "b")) n (some_injective (leaf 1 (codes "b")) n second) refl
tree-hashed (suc (suc i)) id n e f = absurd (let bad = e in cc bad)

tree-climbs :
    (root id : ℕ) (n : Node)
    → tree.root_id ≡ some root
    → get_elem? tree.nodes id ≡ some n
    → (id == root) ≡ false
    → (link : ParentLink) × (find_link id tree.parent_links ≡ some link) × (id < link.parent_id)
tree-climbs root zero n e f other = (record { parent_id = 3; child_index = 0 }, refl, omega arith)
tree-climbs root (suc zero) n e f other =
    (record { parent_id = 3; child_index = 1 }, refl, omega arith)
tree-climbs root (suc (suc zero)) n e f other =
    (record { parent_id = 3; child_index = 2 }, refl, omega arith)
tree-climbs root (suc (suc (suc zero))) n e f other =
    let same = some_injective 3 root e in absurd (ground (arith, same, other))
tree-climbs root (suc (suc (suc (suc i)))) n e f other = absurd (let bad = f in cc bad)

tree-there : (i id : ℕ) → get_elem? tree.leaf_ids i ≡ some id → id < 4
tree-there zero id e = omega (arith, some_injective 0 id e)
tree-there (suc zero) id e = omega (arith, some_injective 1 id e)
tree-there (suc (suc i)) id e = absurd (let bad = e in cc bad)

tree-IsNTree : IsNTree d 3 tree
unfolding program
tree-IsNTree = record {
  at_id = tree-at_id;
  hashed = tree-hashed;
  linked = (
    (top_node, hash_a ∷ hash_b ∷ hash_b ∷ [], refl, refl, refl, refl, omega arith, refl),
    (
      (top_node, hash_a ∷ hash_b ∷ hash_b ∷ [], refl, refl, refl, refl, omega arith, refl),
      ((top_node, hash_a ∷ hash_b ∷ hash_b ∷ [], refl, refl, refl, refl, omega arith, refl), tt),
    ),
  );
  rooted = tree-rooted;
  climbs = tree-climbs;
  there = tree-there;
  has_root = (3, refl, omega arith);
}

-- The tree is the one that is built.
tree_built : (build d 3 (codes "a" ∷ codes "b" ∷ []) >>= λ z. some z.0) ≡ some tree
unfolding program
tree_built = refl

-- Three leaves in pairs: three leaves, one copy, two parents and the root.
three_leaves :
    (build d 2 (codes "a" ∷ codes "b" ∷ codes "c" ∷ []) >>= λ z. some z.1.node_count) ≡ some 7
unfolding program
three_leaves = refl

three_levels :
    (build d 2 (codes "a" ∷ codes "b" ∷ codes "c" ∷ []) >>= λ z. some z.1.height) ≡ some 3
unfolding program
three_levels = refl

no_leaves : (build d 2 [] >>= λ z. some z.1.success) ≡ some false
unfolding program
no_leaves = refl

generated_accepted :
    (p : Proof) × (generate_proof tree 1 ≡ inr p)
    × (verify_proof d 3 (built_root_hash tree) p ≡ none)
generated_accepted = generate_proof-accepted d 3 tree 1 tree-IsNTree (omega arith)

build_accepted_example :
    (t : NTree) × (r : BuildResult) × (build d 3 (codes "a" ∷ codes "b" ∷ []) ≡ some (t, r))
    × (r.success ≡ true)
    × (r.leaf_count ≡ 2)
    × (built_root_hash t ≡ some r.root_hash)
    × ((i : ℕ) (v : Text)
        → get_elem? (codes "a" ∷ codes "b" ∷ []) i ≡ some v
        → (p : Proof) × (generate_proof t i ≡ inr p)
          × (p.leaf_value ≡ v)
          × (verify_proof d 3 (built_root_hash t) p ≡ none))
build_accepted_example = build_accepted d 3 (codes "a") (codes "b" ∷ []) (omega arith)
