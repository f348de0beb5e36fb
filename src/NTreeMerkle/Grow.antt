-- ===== src/NTreeMerkle/Grow.antt =====
-- Code/MerkleTreeNTree/src/NTreeMerkle.cpp, `build`: the tree while it grows, with leaves and
-- padding.
use hybrid_blockchain_for_re.Prelude.{
  ℕ, zero, suc, ◌+◌, ◌<◌, ◌≡◌, refl, ap, sym, ◌∙◌, some, List, [], ◌∷◌, ◌++◌, Text, false, length,
  length-append, get_elem?, get_elem?-lt, is_empty, All, arith, ◌⊎◌, inl, inr,
}
use hybrid_blockchain_for_re.Sha256.{Digest, sha256}
use hybrid_blockchain_for_re.Sha256.Hex.{length-sha256}
use hybrid_blockchain_for_re.NTreeMerkle.Generate.{Node, ParentLink, find_link}
use hybrid_blockchain_for_re.NTreeMerkle.Accept.{GoodLink}
use hybrid_blockchain_for_re.NTreeMerkle.Build.{
  Building, back, push, leaf_node, padding_node, make_leaves, pad_group,
}
use hybrid_blockchain_for_re.NTreeMerkle.Nodes.{
  In, In-push_or, In-unpush_or, back-In, get_elem?-append, get_elem?-append_length, get_elem?-push,
  GoodLinks-append,
}

-- What stood in the nodes stands there still.
abbrev pub Extends : Building → Building → Type 0
Extends b b' = (i : ℕ) (n : Node) → get_elem? b.nodes i ≡ some n → get_elem? b'.nodes i ≡ some n

named_hash : (s : Text) → length s ≡ 64 → is_empty s ≡ false
named_hash [] e = absurd (omega (arith, e))
named_hash (x ∷ s) e = refl

swap_sum : {A B C : Type 0} → A ⊎ (B ⊎ C) → (B ⊎ A) ⊎ C
swap_sum (inl a) = inl (inr a)
swap_sum (inr (inl b)) = inl (inl b)
swap_sum (inr (inr c)) = inr c

swap_back : {A B C : Type 0} → (B ⊎ A) ⊎ C → A ⊎ (B ⊎ C)
swap_back (inl (inr a)) = inl a
swap_back (inl (inl b)) = inr (inl b)
swap_back (inr c) = inr (inr c)

pub has_hash : (d : Digest) (s : Text) → is_empty (sha256 d s) ≡ false
has_hash d s = named_hash (sha256 d s) (length-sha256 d s)

module _ (d : Digest) where
  -- The leaves: each value stands at its id, with its hash.
  abbrev pub LeavesAt : Building → List Text → List ℕ → Type 0
  LeavesAt b [] [] = Unit {0}
  LeavesAt b [] (id ∷ ids) = ⊥
  LeavesAt b (v ∷ vs) [] = ⊥
  LeavesAt b (v ∷ vs) (id ∷ ids) =
      ((n : Node) × (get_elem? b.nodes id ≡ some n) × (n.value ≡ v) × (n.hash ≡ sha256 d v))
      × LeavesAt b vs ids

  pub LeavesAt-Extends :
      (b b' : Building) (vs : List Text) (ids : List ℕ)
      → Extends b b'
      → LeavesAt b vs ids
      → LeavesAt b' vs ids
  LeavesAt-Extends b b' [] [] x h = tt
  LeavesAt-Extends b b' [] (id ∷ ids) x h = h
  LeavesAt-Extends b b' (v ∷ vs) [] x h = h
  LeavesAt-Extends b b' (v ∷ vs) (id ∷ ids) x ((n, e, val, hash), h) =
      ((n, x id n e, val, hash), LeavesAt-Extends b b' vs ids x h)

module _ (d : Digest) (arity : ℕ) where
  -- The tree while it is built: nodes stand at their ids and have hashes, the links are good, and
  -- a node that has none is one of the pending ones.
  pub record IsBuilding (b : Building) (Pending : ℕ → Type 0) : Type 0 where
    pub at_id : (i : ℕ) (n : Node) → get_elem? b.nodes i ≡ some n → n.id ≡ i
    pub named : (i : ℕ) (n : Node) → get_elem? b.nodes i ≡ some n → is_empty n.hash ≡ false
    pub linked : All (λ l. GoodLink d arity b.nodes l.0 l.1) b.links
    pub climbs :
        (i : ℕ) (n : Node)
        → get_elem? b.nodes i ≡ some n
        → Pending i
          ⊎ ((link : ParentLink) × (find_link i b.links ≡ some link) × (i < link.parent_id))
    pub inside : (i : ℕ) → Pending i → i < length b.nodes

  pub IsBuilding-weaken :
      (b : Building) (P Q : ℕ → Type 0)
      → ((i : ℕ) → P i → Q i)
      → ((i : ℕ) → Q i → P i)
      → IsBuilding b P
      → IsBuilding b Q
  IsBuilding-weaken b P Q to from v = record {
    at_id = v.at_id;
    named = v.named;
    linked = v.linked;
    climbs = λ i n e. elim (v.climbs i n e) [ inl p ↦ inl (to i p) | inr l ↦ inr l ];
    inside = λ i q. v.inside i (from i q);
  }

  pub IsBuilding-push :
      (b : Building) (P : ℕ → Type 0) (n : Node)
      → IsBuilding b P
      → n.id ≡ length b.nodes
      → is_empty n.hash ≡ false
      → IsBuilding (push b n) (λ i. (i ≡ n.id) ⊎ P i)
  IsBuilding-push b P n v own hash = record {
    at_id = λ i m e. elim (get_elem?-push b.nodes n i m e) [
      | inl old ↦ v.at_id i m old
      | inr (place, same) ↦ ap (λ x. x.id) (sym same) ∙ own ∙ sym place
    ];
    named = λ i m e. elim (get_elem?-push b.nodes n i m e) [
      | inl old ↦ v.named i m old
      | inr (place, same) ↦ ap (λ x. is_empty x.hash) (sym same) ∙ hash
    ];
    linked = GoodLinks-append d arity b.nodes (n ∷ []) b.links v.linked;
    climbs = λ i m e. elim (get_elem?-push b.nodes n i m e) [
      | inl old ↦ elim (v.climbs i m old) [ inl p ↦ inl (inr p) | inr l ↦ inr l ]
      | inr (place, same) ↦ inl (inl (place ∙ sym own))
    ];
    inside = λ i q.
        let more = length-append b.nodes (n ∷ []) in
        elim q [ inl e ↦ omega (arith, own, e, more) | inr p ↦ omega (arith, v.inside i p, more) ];
  }

  pub Extends-push : (b : Building) (n : Node) → Extends b (push b n)
  Extends-push b n i m e = get_elem?-append b.nodes (n ∷ []) i m e

  pub make_leaves-IsBuilding :
      (index : ℕ) (vs : List Text) (b : Building) (P : ℕ → Type 0)
      → IsBuilding b P
      → let z = make_leaves d index vs b in
        IsBuilding z.0 (λ i. In i z.1 ⊎ P i)
        × Extends b z.0
        × LeavesAt d z.0 vs z.1
        × (length z.1 ≡ length vs)
  unfolding make_leaves
  make_leaves-IsBuilding index [] b P v = (
    IsBuilding-weaken b P (λ i. ⊥ ⊎ P i) (λ i p. inr p)
        (λ i q. elim q [ inl x ↦ absurd x | inr p ↦ p ]) v,
    λ i n e. e,
    tt,
    refl,
  )
  make_leaves-IsBuilding index (value ∷ vs) b P v =
      let leaf = leaf_node d (length b.nodes) index value in
      let b' = push b leaf in
      let z = make_leaves d (suc index) vs b' in
      let (built, extends, leaves, size) =
        make_leaves-IsBuilding (suc index) vs b' (λ i. (i ≡ leaf.id) ⊎ P i)
          (IsBuilding-push b P leaf v refl (has_hash d value)) in
      (
        IsBuilding-weaken z.0 (λ i. In i z.1 ⊎ ((i ≡ leaf.id) ⊎ P i))
            (λ i. ((i ≡ leaf.id) ⊎ In i z.1) ⊎ P i) (λ i. swap_sum) (λ i. swap_back) built,
        λ i n e. extends i n (Extends-push b leaf i n e),
        (
          (leaf, extends (length b.nodes) leaf (get_elem?-append_length b.nodes leaf), refl, refl),
          leaves,
        ),
        ap suc size,
      )

  -- A group is completed: its last child is a node, and so are the copies.
  pub pad_group-IsBuilding :
      (missing level index x : ℕ) (group : List ℕ) (b : Building) (P : ℕ → Type 0)
      → IsBuilding b (λ i. In i (x ∷ group) ⊎ P i)
      → (z : Building × List ℕ) × (pad_group missing level index (x ∷ group) b ≡ some z)
        × IsBuilding z.0 (λ i. In i z.1 ⊎ P i)
        × Extends b z.0
        × (length z.1 ≡ suc (length group) + missing)
  unfolding pad_group
  pad_group-IsBuilding zero level index x group b P v =
      ((b, x ∷ group), refl, v, λ i n e. e, omega arith)
  pad_group-IsBuilding (suc missing) level index x group b P v =
      let last = back (x ∷ group) in
      let (source, found) = get_elem?-lt b.nodes last (v.inside last (inl (back-In x group))) in
      let padding = padding_node (length b.nodes) level index last source.hash in
      let b' = push b padding in
      let (z, done, built, extends, size) =
        pad_group-IsBuilding missing level (suc index) x (group ++ padding.id ∷ []) b' P (
          IsBuilding-weaken b' (λ i. (i ≡ padding.id) ⊎ (In i (x ∷ group) ⊎ P i))
            (λ i. In i (x ∷ group ++ padding.id ∷ []) ⊎ P i)
            (λ i. In-push_or i padding.id (x ∷ group)) (λ i. In-unpush_or i padding.id (x ∷ group))
            (IsBuilding-push b (λ i. In i (x ∷ group) ⊎ P i) padding v refl
              (v.named last source found))) in
      (
        z,
        rw found done,
        built,
        λ i n e. extends i n (Extends-push b padding i n e),
        omega (arith, size, length-append group (padding.id ∷ [])),
      )
