-- ===== src/NTreeMerkle/Accept.antt =====
-- Code/MerkleTreeNTree/src/NTreeMerkle.cpp: `verify_proof` on what `generate_proof` returns.
use hybrid_blockchain_for_re.Prelude.{
  ℕ, zero, suc, ◌+◌, ◌<◌, ◌≡◌, refl, ap, subst, sym, ◌∙◌, true, false, Option, none, some, List, [],
  ◌∷◌, Text, text_eq, text_eq_refl, is_empty, length, get_elem?, All, arith, ◌==◌, Bool-cases, ◌⊎◌,
  inl, inr, ltb,
}
use hybrid_blockchain_for_re.Sha256.{Digest, sha256}
use hybrid_blockchain_for_re.NTreeMerkle.{
  ProofStep, Proof, place_children, join_hashes, replay, verify_proof,
}
use hybrid_blockchain_for_re.NTreeMerkle.Generate.{
  Node, ParentLink, NTree, GenerateError, find_link, hashes_of, sibling_hashes_of, find_parent,
  with_steps, parts_of, steps_to_root, generate_proof, built_root_hash,
}
use hybrid_blockchain_for_re.NTreeMerkle.Restore.{
  get_elem?-hashes_of, place_children-sibling_hashes_of,
}
use hybrid_blockchain_for_re.NTreeMerkle.Walk.{
  parent_at-inr, and_step-inr, same_node, sum_cases, proof_for-inr, from_ids-inr,
  built_root_hash-some,
}

module _ (d : Digest) (arity : ℕ) where
  -- The link of the node `id` names a node that has `id` among its `arity` children, at the place
  -- of the link, and whose hash is that of the children's hashes.
  abbrev pub GoodLink : List Node → ℕ → ParentLink → Type 0
  GoodLink nodes id link =
      (parent : Node) × (hs : List Text) × (get_elem? nodes link.parent_id ≡ some parent)
      × (hashes_of nodes parent.children ≡ some hs)
      × (parent.hash ≡ sha256 d (join_hashes hs))
      × (length parent.children ≡ arity)
      × (link.child_index < arity)
      × (get_elem? parent.children link.child_index ≡ some id)

  -- A node stands at its id, leaves hold the hashes of their values, every node below the root has
  -- a link, and the links lead to parents, which have greater ids.
  pub record IsNTree (tree : NTree) : Type 0 where
    pub at_id : (i : ℕ) (n : Node) → get_elem? tree.nodes i ≡ some n → n.id ≡ i
    pub hashed :
        (i id : ℕ) (n : Node)
        → get_elem? tree.leaf_ids i ≡ some id
        → get_elem? tree.nodes id ≡ some n
        → n.hash ≡ sha256 d n.value
    pub linked : All (λ l. GoodLink tree.nodes l.0 l.1) tree.parent_links
    pub rooted :
        (root : ℕ) (n : Node)
        → tree.root_id ≡ some root
        → get_elem? tree.nodes root ≡ some n
        → is_empty n.hash ≡ false
    pub climbs :
        (root id : ℕ) (n : Node)
        → tree.root_id ≡ some root
        → get_elem? tree.nodes id ≡ some n
        → (id == root) ≡ false
        → (link : ParentLink) × (find_link id tree.parent_links ≡ some link) × (id < link.parent_id)
    pub there : (i id : ℕ) → get_elem? tree.leaf_ids i ≡ some id → id < length tree.nodes
    pub has_root : (root : ℕ) × (tree.root_id ≡ some root) × (root < length tree.nodes)

  pub find_link-GoodLink :
      (nodes : List Node) (id : ℕ) (links : List (ℕ × ParentLink)) (link : ParentLink)
      → All (λ l. GoodLink nodes l.0 l.1) links
      → find_link id links ≡ some link
      → GoodLink nodes id link
  find_link-GoodLink nodes id [] link good e = absurd (let bad = e in cc bad)
  find_link-GoodLink nodes id ((child, l) ∷ links) link good e = elim (Bool-cases (child == id)) [
    | inl here ↦
        let found : ◌≡◌ {A = Option ParentLink} (some l) (some link) = rw here at e in
        let same : l ≡ link = cc found in
        let key : child ≡ id = ground (arith, here) in
        subst (λ k. GoodLink nodes id k) same (subst (λ c. GoodLink nodes c l) key good.0)
    | inr other ↦ find_link-GoodLink nodes id links link good.1 (rw other at e)
  ]

  find_parent-GoodLink :
      (tree : NTree) (id : ℕ) (link : ParentLink) (parent : Node)
      → IsNTree tree
      → find_parent tree id ≡ inr (link, parent)
      → GoodLink tree.nodes id link × (get_elem? tree.nodes link.parent_id ≡ some parent)
  unfolding find_parent
  find_parent-GoodLink tree id link parent good e =
      let (found, stands) =
        parent_at-inr tree.nodes (find_link id tree.parent_links) link parent e in
      (find_link-GoodLink tree.nodes id tree.parent_links link good.linked found, stands)

  replay-cons :
      (h k : Text) (s : ProofStep) (rest : List ProofStep) (x : Text)
      → s.child_index < arity
      → arity ≡ suc (length s.sibling_hashes)
      → sha256 d (join_hashes (place_children arity 0 s.child_index h s.sibling_hashes)) ≡ k
      → replay d arity k rest ≡ inr x
      → replay d arity h (s ∷ rest) ≡ inr x
  unfolding replay
  replay-cons h k s rest x inside size joined later =
      let low : ltb s.child_index arity ≡ true = ground (arith, inside) in
      let full : (length s.sibling_hashes + 1 == arity) ≡ true = ground (arith, size) in
      rw (low, full) (ap (λ c. replay d arity c rest) joined ∙ later)

  -- One step of the proof leads verify_proof from the hash of a node to that of its parent.
  replay-find_parent :
      (tree : NTree) (id : ℕ) (node parent : Node) (link : ParentLink) (s : ProofStep)
      (rest : List ProofStep) (x : Text)
      → IsNTree tree
      → get_elem? tree.nodes id ≡ some node
      → find_parent tree id ≡ inr (link, parent)
      → s.child_index ≡ link.child_index
      → sibling_hashes_of tree.nodes 0 link.child_index parent.children ≡ some s.sibling_hashes
      → replay d arity parent.hash rest ≡ inr x
      → replay d arity node.hash (s ∷ rest) ≡ inr x
  replay-find_parent tree id node parent link s rest x good at_id up place others later =
      let ((p, hs, stands, children, hashed, size, inside, here), found) =
        find_parent-GoodLink tree id link parent good up in
      let both : ◌≡◌ {A = Option Node} (some parent) (some p) = sym found ∙ stands in
      let same : parent ≡ p = cc both in
      let siblings =
        ap (λ q. sibling_hashes_of tree.nodes 0 link.child_index q.children) (sym same) ∙ others in
      let (group, count) =
        place_children-sibling_hashes_of tree.nodes p.children 0 link.child_index link.child_index
          node.hash hs s.sibling_hashes (omega arith) children siblings
          (get_elem?-hashes_of tree.nodes p.children hs link.child_index id node children here
            at_id) in
      let joined =
        ap (λ n. place_children n 0 s.child_index node.hash s.sibling_hashes) (sym size)
        ∙ ap (λ c. place_children (length p.children) 0 c node.hash s.sibling_hashes) place
        ∙ group in
      replay-cons node.hash parent.hash s rest x (omega (arith, place, inside)) (sym size ∙ count)
        (ap (λ l. sha256 d (join_hashes l)) joined ∙ sym hashed ∙ ap (λ q. q.hash) (sym same)) later

  replay_ended :
      (h x : Text) (steps : List ProofStep)
      → ◌≡◌ {A = GenerateError ⊎ List ProofStep} (inr []) (inr steps)
      → h ≡ x
      → replay d arity h steps ≡ inr x
  unfolding replay
  replay_ended h x [] e same = ap inr same
  replay_ended h x (s ∷ steps) e same = absurd (let bad = e in cc bad)

  -- The walk of generate_proof, followed by the loop of verify_proof.
  replay-steps_to_root :
      (tree : NTree) (root fuel id : ℕ) (node top : Node) (steps : List ProofStep)
      → IsNTree tree
      → get_elem? tree.nodes root ≡ some top
      → get_elem? tree.nodes id ≡ some node
      → steps_to_root tree root fuel id ≡ inr steps
      → replay d arity node.hash steps ≡ inr top.hash
  unfolding steps_to_root
  replay-steps_to_root tree root zero id node top steps good at_root at_id e =
      elim (Bool-cases (id == root)) [
        | inl here ↦
            replay_ended node.hash top.hash steps (rw here at e)
              (same_node tree.nodes id root node top here at_id at_root)
        | inr other ↦ absurd (let bad = rw other at e in cc bad)
      ]
  replay-steps_to_root tree root (suc fuel) id node top steps good at_root at_id e =
      elim (Bool-cases (id == root)) [
        | inl here ↦
            replay_ended node.hash top.hash steps (rw here at e)
              (same_node tree.nodes id root node top here at_id at_root)
        | inr other ↦ elim (sum_cases (find_parent tree id)) [
          | inl (x, up) ↦ absurd (let bad = rw (other, up) at e in cc bad)
          | inr ((link, parent), up) ↦
              let (hashes, rest, siblings, later, split) =
                and_step-inr parent.level link.child_index
                  (sibling_hashes_of tree.nodes 0 link.child_index parent.children)
                  (steps_to_root tree root fuel parent.id) steps (rw (other, up) at e) in
              let (_, found) = find_parent-GoodLink tree id link parent good up in
              let stands =
                ap (get_elem? tree.nodes) (good.at_id link.parent_id parent found) ∙ found in
              ap (replay d arity node.hash) (sym split)
              ∙ replay-find_parent tree id node parent link
                  (record {
                    level = parent.level;
                    child_index = link.child_index;
                    sibling_hashes = hashes;
                  })
                  rest top.hash good at_id up refl siblings
                  (replay-steps_to_root tree root fuel parent.id parent top rest good at_root stands
                    later)
        ]
      ]

  accepted_parts :
      (i : ℕ) (leaf top : Node) (steps : List ProofStep) (p : Proof)
      → leaf.hash ≡ sha256 d leaf.value
      → is_empty top.hash ≡ false
      → replay d arity leaf.hash steps ≡ inr top.hash
      → with_steps i leaf top (inr steps) ≡ inr p
      → verify_proof d arity (some top.hash) p ≡ none
  unfolding verify_proof
  accepted_parts i leaf top steps p hashed named run e =
      let whole = text_eq_refl leaf.hash in
      let digest : text_eq leaf.hash (sha256 d leaf.value) ≡ true =
        ap (text_eq leaf.hash) (sym hashed) ∙ whole in
      let same : parts_of i leaf top steps ≡ p = cc e in
      subst (λ q. verify_proof d arity (some top.hash) q ≡ none) same
        (rw (digest, named, run, text_eq_refl top.hash) refl)

  -- A proof that generate_proof returns for a well-formed tree is accepted by the verify_proof of
  -- that tree.
  pub verify_proof-generate_proof :
      (tree : NTree) (leaf_index : ℕ) (p : Proof)
      → IsNTree tree
      → generate_proof tree leaf_index ≡ inr p
      → verify_proof d arity (built_root_hash tree) p ≡ none
  unfolding generate_proof
  verify_proof-generate_proof tree leaf_index p good e =
      let (root, id, top_id, leaf_id, made) =
        from_ids-inr tree leaf_index tree.root_id (get_elem? tree.leaf_ids leaf_index) p e in
      let (leaf, top, steps, at_leaf, at_root, walked, parts) =
        proof_for-inr tree leaf_index root (get_elem? tree.nodes id) (get_elem? tree.nodes root) p
          made in
      let stands = ap (get_elem? tree.nodes) (good.at_id id leaf at_leaf) ∙ at_leaf in
      ap (λ r. verify_proof d arity r p) (built_root_hash-some tree root top top_id at_root)
      ∙ accepted_parts leaf_index leaf top steps p (good.hashed leaf_index id leaf leaf_id at_leaf)
          (good.rooted root top top_id at_root)
          (replay-steps_to_root tree root (length tree.nodes) leaf.id leaf top steps good at_root
            stands walked)
          parts
