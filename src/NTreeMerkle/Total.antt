-- ===== src/NTreeMerkle/Total.antt =====
-- Code/MerkleTreeNTree/src/NTreeMerkle.cpp: `generate_proof` returns a proof for every leaf.
use hybrid_blockchain_for_re.Prelude.{
  ℕ, zero, suc, ◌+◌, ◌≤◌, ◌<◌, ◌≡◌, refl, ap, ap₂, ◌∙◌, none, some, List, [], ◌∷◌, Text, length,
  get_elem?, get_elem?-lt, get_elem?-some_lt, arith, ◌==◌, Bool-cases, inl, inr,
}
use hybrid_blockchain_for_re.Sha256.{Digest}
use hybrid_blockchain_for_re.NTreeMerkle.{ProofStep, Proof, verify_proof}
use hybrid_blockchain_for_re.NTreeMerkle.Generate.{
  Node, ParentLink, NTree, find_link, hashes_of, sibling_hashes_of, with_parent, parent_at,
  find_parent, and_step, parts_of, with_steps, proof_for, from_ids, steps_to_root, generate_proof,
  built_root_hash,
}
use hybrid_blockchain_for_re.NTreeMerkle.Restore.{with_hash-some}
use hybrid_blockchain_for_re.NTreeMerkle.Accept.{
  IsNTree, find_link-GoodLink, verify_proof-generate_proof,
}

sibling_hashes_of-some :
    (nodes : List Node) (ids : List ℕ) (i child : ℕ) (hs : List Text)
    → hashes_of nodes ids ≡ some hs
    → (ss : List Text) × (sibling_hashes_of nodes i child ids ≡ some ss)
unfolding hashes_of sibling_hashes_of
sibling_hashes_of-some nodes [] i child hs e = ([], refl)
sibling_hashes_of-some nodes (id ∷ ids) i child hs e =
    let (n, t, first, more, _) = with_hash-some (get_elem? nodes id) (hashes_of nodes ids) hs e in
    let (ss, rest) = sibling_hashes_of-some nodes ids (suc i) child t more in
    elim (Bool-cases (i == child)) [
      | inl here ↦ (ss, rw here rest)
      | inr other ↦ (n.hash ∷ ss, rw (other, first, rest) refl)
    ]

module _ (d : Digest) (arity : ℕ) where
  find_parent-found :
      (tree : NTree) (id : ℕ) (link : ParentLink) (parent : Node)
      → find_link id tree.parent_links ≡ some link
      → get_elem? tree.nodes link.parent_id ≡ some parent
      → find_parent tree id ≡ inr (link, parent)
  unfolding find_parent
  find_parent-found tree id link parent e f = ap (parent_at tree.nodes) e ∙ ap (with_parent link) f

  steps_to_root_total :
      (tree : NTree) (root fuel id : ℕ) (n : Node)
      → IsNTree d arity tree
      → tree.root_id ≡ some root
      → get_elem? tree.nodes id ≡ some n
      → length tree.nodes ≤ id + fuel
      → (steps : List ProofStep) × (steps_to_root tree root fuel id ≡ inr steps)
  unfolding steps_to_root
  steps_to_root_total tree root zero id n good top at_id enough =
      let inside = get_elem?-some_lt tree.nodes id n at_id in absurd (omega arith)
  steps_to_root_total tree root (suc fuel) id n good top at_id enough =
      elim (Bool-cases (id == root)) [
        | inl here ↦ ([], rw here refl)
        | inr other ↦
            let (link, linked, up) = good.climbs root id n top at_id other in
            let (p, hs, stands, children, _, _, _, _) =
              find_link-GoodLink d arity tree.nodes id tree.parent_links link good.linked linked in
            let found = find_parent-found tree id link p linked stands in
            let place = good.at_id link.parent_id p stands in
            let (ss, siblings) =
              sibling_hashes_of-some tree.nodes p.children 0 link.child_index hs children in
            let (steps, walked) =
              steps_to_root_total tree root fuel p.id p good top
                (ap (get_elem? tree.nodes) place ∙ stands) (omega arith) in
            (
              record { level = p.level; child_index = link.child_index; sibling_hashes = ss }
                  ∷ steps,
              rw (other, found)
                  (ap (λ o. and_step p.level link.child_index o (steps_to_root tree root fuel p.id))
                      siblings
                    ∙ ap (and_step p.level link.child_index (some ss)) walked),
            )
      ]

  -- In a well-formed tree (`IsNTree`: nodes at their ids, leaves with the hashes of their values,
  -- and every node below the root linked to a parent that has a greater id, `arity` children with
  -- the node at the link's place, and the hash of their hashes) generate_proof returns a proof for
  -- every index of a leaf: the walk ends at the root within as many steps as there are nodes. The
  -- verify_proof of that tree accepts the proof.
  pub generate_proof-accepted :
      (tree : NTree) (leaf_index : ℕ)
      → IsNTree d arity tree
      → leaf_index < length tree.leaf_ids
      → (p : Proof) × (generate_proof tree leaf_index ≡ inr p)
        × (verify_proof d arity (built_root_hash tree) p ≡ none)
  unfolding generate_proof
  generate_proof-accepted tree leaf_index good inside =
      let (root, top_id, root_inside) = good.has_root in
      let (id, leaf_id) = get_elem?-lt tree.leaf_ids leaf_index inside in
      let (top, at_root) = get_elem?-lt tree.nodes root root_inside in
      let (leaf, at_leaf) = get_elem?-lt tree.nodes id (good.there leaf_index id leaf_id) in
      let stands = ap (get_elem? tree.nodes) (good.at_id id leaf at_leaf) ∙ at_leaf in
      let (steps, walked) =
        steps_to_root_total tree root (length tree.nodes) leaf.id leaf good top_id stands
          (omega arith) in
      let made : generate_proof tree leaf_index ≡ inr (parts_of leaf_index leaf top steps) =
        ap₂ (from_ids tree leaf_index) top_id leaf_id
        ∙ ap₂ (proof_for tree leaf_index root) at_leaf at_root
        ∙ ap (with_steps leaf_index leaf top) walked in
      (
        parts_of leaf_index leaf top steps,
        made,
        verify_proof-generate_proof d arity tree leaf_index (parts_of leaf_index leaf top steps)
            good made,
      )
