-- ===== src/Chain/Edges.antt =====
-- What the second loop of `validate_stored_chain` (Code/PrivateChain/Server/server.cpp) says of the edges.
use hybrid_blockchain_for_re.Prelude.{
  ℕ, zero, suc, ◌+◌, ◌≡◌, refl, ap₂, ◌∙◌, Bool, true, false, ◌||◌, not, Option, none, some, List,
  [], ◌∷◌, codes, ℤ, pos, text_eq, text_eq→eq, eqb_ℤ, eqb_ℤ_iff, ltb_ℤ, arith, Bool-cases,
  Option-cases, inl, inr, ◌⊎◌, if◌then◌else◌, ◌==◌, All, replicate,
}
use hybrid_blockchain_for_re.Records.{SupplyChainRecord, BlockEdge}
use hybrid_blockchain_for_re.Chain.{ChainError, count_edges, check_record_edges}

-- The edges that lead to a block.
abbrev pub edges_to : ℤ → List BlockEdge → List BlockEdge
edges_to id [] = []
edges_to id (e ∷ edges) =
    if eqb_ℤ e.to_block_id id then e ∷ edges_to id edges else edges_to id edges

-- The one edge that a block with a parent should have.
abbrev pub link_of : SupplyChainRecord → BlockEdge
link_of r = record {
  from_block_id = r.parent_block_id;
  to_block_id = r.block_id;
  batch_id = r.batch_id;
  relation = codes "continues";
}

abbrev pub expected_edges : SupplyChainRecord → List BlockEdge
expected_edges r = if ltb_ℤ r.parent_block_id (pos 0) then [] else link_of r ∷ []

four_passed :
    (a b c e : Bool)
    → (a || (not b || (not c || not e))) ≡ false
    → (a ≡ false) × (b ≡ true) × (c ≡ true) × (e ≡ true)
four_passed a b c e h = ground arith

edge_passed :
    (r : SupplyChainRecord) (e : BlockEdge)
    → eqb_ℤ e.to_block_id r.block_id ≡ true
    → (ltb_ℤ r.parent_block_id (pos 0)
        || (not (eqb_ℤ e.from_block_id r.parent_block_id)
            || (not (text_eq e.batch_id r.batch_id)
                || not (text_eq e.relation (codes "continues")))))
      ≡ false
    → (e ≡ link_of r) × (ltb_ℤ r.parent_block_id (pos 0) ≡ false)
edge_passed r e to h =
    let parts =
      four_passed (ltb_ℤ r.parent_block_id (pos 0)) (eqb_ℤ e.from_block_id r.parent_block_id)
        (text_eq e.batch_id r.batch_id) (text_eq e.relation (codes "continues")) h in
    let to' = (eqb_ℤ_iff e.to_block_id r.block_id).0 to in
    let from' = (eqb_ℤ_iff e.from_block_id r.parent_block_id).0 parts.1 in
    let batch' = text_eq→eq e.batch_id r.batch_id parts.2 in
    let relation' = text_eq→eq e.relation (codes "continues") parts.3 in
    (
      λ i. record {
        from_block_id = from' i;
        to_block_id = to' i;
        batch_id = batch' i;
        relation = relation' i;
      },
      parts.0,
    )

-- A count that is returned is of edges that all are the expected one.
count_edges_lem :
    (r : SupplyChainRecord) (edges : List BlockEdge) (n m : ℕ)
    → count_edges r edges n ≡ some m
    → (k : ℕ) × (m ≡ n + k)
      × (edges_to r.block_id edges ≡ replicate k (link_of r))
      × ((k ≡ 0) ⊎ (ltb_ℤ r.parent_block_id (pos 0) ≡ false))
unfolding count_edges
count_edges_lem r [] n m h = (0, ground (arith, h), refl, inl refl)
count_edges_lem r (e ∷ edges) n m h = elim (Bool-cases (eqb_ℤ e.to_block_id r.block_id)) [
  | inr other ↦ rw other (count_edges_lem r edges n m (rw other at h))
  | inl to ↦
      elim (Bool-cases (
        ltb_ℤ r.parent_block_id (pos 0)
        || (not (eqb_ℤ e.from_block_id r.parent_block_id)
            || (not (text_eq e.batch_id r.batch_id)
                || not (text_eq e.relation (codes "continues")))))) [
                  | inl wrong ↦ absurd (let no = rw (to, wrong) at h in ground arith)
                  | inr fits ↦
                      let (link, child) = edge_passed r e to fits in
                      let (k, count, links, _) =
                        count_edges_lem r edges (suc n) m (rw (to, fits) at h) in
                      (suc k, omega (arith, count), rw to (ap₂ ◌∷◌ link links), inr child)
                ]
]

count_passed :
    (n : ℕ) (orphan : Bool) (x : ChainError) (rest : Option ChainError)
    → (let expected : ℕ = if orphan then 0 else 1 in if not (n == expected) then some x else rest)
      ≡ none
    → (n ≡ (if orphan then 0 else 1)) × (rest ≡ none)
count_passed n orphan x rest h = ground arith

expected_links :
    (link : BlockEdge) (orphan : Bool) (n k : ℕ)
    → n ≡ 0 + k
    → n ≡ (if orphan then 0 else 1)
    → (k ≡ 0) ⊎ (orphan ≡ false)
    → replicate k link ≡ (if orphan then [] else link ∷ [])
expected_links link true n zero count number child = refl
expected_links link true n (suc k) count number child = absurd (omega arith)
expected_links link false n zero count number child = absurd (omega arith)
expected_links link false n (suc zero) count number child = refl
expected_links link false n (suc (suc k)) count number child = absurd (omega arith)

-- Every record has the edge from its parent and no other, or none at all if it has no parent.
pub check_record_edges_lem :
    (edges : List BlockEdge) (records : List SupplyChainRecord)
    → check_record_edges edges records ≡ none
    → All (λ r. edges_to r.block_id edges ≡ expected_edges r) records
unfolding check_record_edges
check_record_edges_lem edges [] h = tt
check_record_edges_lem edges (r ∷ records) h = elim (Option-cases (count_edges r edges 0)) [
  | inl wrong ↦ absurd (let no = rw (wrong, check_record_edges) at h in ground arith)
  | inr (n, counted) ↦
      let (k, count, links, child) = count_edges_lem r edges 0 n counted in
      let (number, rest) =
        count_passed n (ltb_ℤ r.parent_block_id (pos 0)) _ _
          (rw (counted, check_record_edges) at h) in
      (
        links ∙ expected_links (link_of r) (ltb_ℤ r.parent_block_id (pos 0)) n k count number child,
        check_record_edges_lem edges records rest,
      )
]
