-- ===== src/NTreeMerkle/Links.antt =====
-- Code/MerkleTreeNTree/src/NTreeMerkle.cpp, `build`: a parent and the links of its children.
use hybrid_blockchain_for_re.Prelude.{
  ℕ, suc, ◌+◌, ◌<◌, ◌≡◌, refl, subst, some, List, [], ◌∷◌, ◌++◌, true, length, get_elem?,
  get_elem?-some_lt, All, arith, ◌⊎◌, inl, inr, ◌==◌, Bool-cases,
}
use hybrid_blockchain_for_re.Sha256.{Digest}
use hybrid_blockchain_for_re.NTreeMerkle.{join_hashes}
use hybrid_blockchain_for_re.NTreeMerkle.Generate.{Node, ParentLink, find_link}
use hybrid_blockchain_for_re.NTreeMerkle.Accept.{GoodLink}
use hybrid_blockchain_for_re.NTreeMerkle.Build.{Building, parent_node, set_links, add_parent}
use hybrid_blockchain_for_re.NTreeMerkle.Nodes.{
  In, get_elem?-append_length, hashes_of-append, hashes_of_total, GoodLinks-append,
}
use hybrid_blockchain_for_re.NTreeMerkle.Grow.{
  IsBuilding, IsBuilding-push, Extends, Extends-push, has_hash,
}

abbrev Climbs : ℕ → List (ℕ × ParentLink) → Type 0
Climbs id links = (link : ParentLink) × (find_link id links ≡ some link) × (id < link.parent_id)

linked_or :
    (parent i id child : ℕ) (group : List ℕ) (links : List (ℕ × ParentLink))
    → child < parent
    → In id (child ∷ group) ⊎ Climbs id links
    → In id group ⊎ Climbs id ((child, record { parent_id = parent; child_index = i }) ∷ links)
linked_or parent i id child group links below (inl (inr h)) = inl h
linked_or parent i id child group links below (inl (inl e)) =
    let here : (child == id) ≡ true = ground (arith, e) in
    inr (record { parent_id = parent; child_index = i }, rw here refl, omega (arith, e))
linked_or parent i id child group links below (inr (link, found, up)) =
    elim (Bool-cases (child == id)) [
      | inl here ↦
          inr (record { parent_id = parent; child_index = i }, rw here refl, ground (arith, here))
      | inr other ↦ inr (link, rw other found, up)
    ]

-- Every child of a group gets a link upwards, and the other nodes keep theirs.
set_links-Climbs :
    (parent i id : ℕ) (group : List ℕ) (links : List (ℕ × ParentLink))
    → ((x : ℕ) → In x group → x < parent)
    → In id group ⊎ Climbs id links
    → Climbs id (set_links parent i group links)
unfolding set_links
set_links-Climbs parent i id [] links below (inl h) = absurd h
set_links-Climbs parent i id [] links below (inr c) = c
set_links-Climbs parent i id (child ∷ group) links below h =
    set_links-Climbs parent (suc i) id group
      ((child, record { parent_id = parent; child_index = i }) ∷ links) (λ x m. below x (inr m))
      (linked_or parent i id child group links (below child (inl refl)) h)

module _ (d : Digest) (arity : ℕ) where
  -- The links of a group are good where the group's children are those of the parent.
  set_links-GoodLinks :
      (nodes : List Node) (parent i : ℕ) (group : List ℕ) (links : List (ℕ × ParentLink))
      → ((k c j : ℕ)
          → get_elem? group k ≡ some c
          → j ≡ i + k
          → GoodLink d arity nodes c (record { parent_id = parent; child_index = j }))
      → All (λ l. GoodLink d arity nodes l.0 l.1) links
      → All (λ l. GoodLink d arity nodes l.0 l.1) (set_links parent i group links)
  unfolding set_links
  set_links-GoodLinks nodes parent i [] links good h = h
  set_links-GoodLinks nodes parent i (child ∷ group) links good h =
      set_links-GoodLinks nodes parent (suc i) group
        ((child, record { parent_id = parent; child_index = i }) ∷ links)
        (λ k c j e place. good (suc k) c j e (omega (arith, place)))
        (good 0 child i refl (omega arith), h)

  pub add_parent-IsBuilding :
      (level index : ℕ) (group : List ℕ) (b : Building) (P : ℕ → Type 0)
      → length group ≡ arity
      → IsBuilding d arity b (λ i. In i group ⊎ P i)
      → (z : Building × ℕ) × (add_parent d level index group b ≡ some z)
        × IsBuilding d arity z.0 (λ i. (i ≡ z.1) ⊎ P i)
        × Extends b z.0
  unfolding add_parent
  add_parent-IsBuilding level index group b P full v =
      let (hashes, read) = hashes_of_total b.nodes group (λ x h. v.inside x (inl h)) in
      let parent = parent_node d (length b.nodes) (suc level) index group hashes in
      let b' : Building = record {
        nodes = b.nodes ++ parent ∷ [];
        links = set_links parent.id 0 group b.links;
      } in
      let pushed =
        IsBuilding-push d arity b (λ i. In i group ⊎ P i) parent v refl
          (has_hash d (join_hashes hashes)) in
      (
        (b', parent.id),
        rw read refl,
        record {
          at_id = pushed.at_id;
          named = pushed.named;
          linked =
              set_links-GoodLinks b'.nodes parent.id 0 group b.links
                (λ k c j e place. (
                  parent,
                  hashes,
                  get_elem?-append_length b.nodes parent,
                  hashes_of-append b.nodes (parent ∷ []) group hashes read,
                  refl,
                  full,
                  omega (arith, place, full, get_elem?-some_lt group k c e),
                  subst (λ m. get_elem? group m ≡ some c) (omega (arith, place)) e,
                ))
                (GoodLinks-append d arity b.nodes (parent ∷ []) b.links v.linked);
          climbs = λ i n e.
              let below : (x : ℕ) → In x group → x < parent.id = λ x h. v.inside x (inl h) in
              elim (pushed.climbs i n e) [
                | inl (inl same) ↦ inl (inl same)
                | inl (inr (inl h)) ↦
                    inr (set_links-Climbs parent.id 0 i group b.links below (inl h))
                | inl (inr (inr p)) ↦ inl (inr p)
                | inr c ↦ inr (set_links-Climbs parent.id 0 i group b.links below (inr c))
              ];
          inside = λ i q. elim q [
            | inl same ↦ pushed.inside i (inl same)
            | inr p ↦ pushed.inside i (inr (inr p))
          ];
        },
        Extends-push d arity b parent,
      )
