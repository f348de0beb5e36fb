-- ===== src/NTreeMerkle/Binding.antt =====
-- Code/MerkleTreeNTree/src/NTreeMerkle.cpp, `verify_proof`: what an accepted proof binds.
use hybrid_blockchain_for_re.Prelude.{
  ℕ, zero, suc, ◌+◌, ◌≤◌, ◌<◌, ◌≡◌, refl, ap, sym, ◌∙◌, Bool, true, false, not, Option, none, some,
  List, [], ◌∷◌, Text, text_eq, text_eq→eq, text_eq_refl, length, All, arith, ◌==◌, if◌then◌else◌,
  is_empty, Bool-cases, inl, inr, ◌⊎◌,
}
use hybrid_blockchain_for_re.Sha256.{Digest, sha256}
use hybrid_blockchain_for_re.Sha256.Hex.{Collision, sha256-Clash, length-sha256}
use hybrid_blockchain_for_re.MerkleTree.Binding.{append_injective}
use hybrid_blockchain_for_re.NTreeMerkle.{
  ProofStep, Proof, ProofError, place_children, join_hashes, replay, compare_roots, verify_proof,
}

-- Texts as long as a printed hash.
abbrev pub Hashes : List Text → Type 0
Hashes hashes = All (λ h. length h ≡ 64) hashes

-- Steps at the same places, with hashes for siblings.
abbrev pub SamePlaces : List ProofStep → List ProofStep → Type 0
SamePlaces [] [] = Unit {0}
SamePlaces [] (t ∷ ts) = ⊥
SamePlaces (s ∷ ss) [] = ⊥
SamePlaces (s ∷ ss) (t ∷ ts) =
    (s.child_index ≡ t.child_index)
    × Hashes s.sibling_hashes
    × Hashes t.sibling_hashes
    × SamePlaces ss ts

-- Two groups of hashes with one concatenation, in which the current hash has one place.
place_children-same :
    (left i child : ℕ) (h k : Text) (ss ts : List Text)
    → length h ≡ 64
    → length k ≡ 64
    → Hashes ss
    → Hashes ts
    → left ≡ suc (length ss)
    → left ≡ suc (length ts)
    → i ≤ child
    → child < i + left
    → join_hashes (place_children left i child h ss)
      ≡ join_hashes (place_children left i child k ts)
    → h ≡ k
unfolding place_children join_hashes
place_children-same zero i child h k ss ts lh lk hs ht ls lt low high e = absurd (omega arith)
place_children-same (suc left) i child h k [] (t ∷ ts) lh lk hs ht ls lt low high e =
    absurd (omega arith)
place_children-same (suc left) i child h k (s ∷ ss) [] lh lk hs ht ls lt low high e =
    absurd (omega arith)
place_children-same (suc left) i child h k [] [] lh lk hs ht ls lt low high e =
    let here : (i == child) ≡ true = ground (arith, ls, low, high) in
    (append_injective h k _ _ (lh ∙ sym lk) (rw here at e)).0
place_children-same (suc left) i child h k (s ∷ ss) (t ∷ ts) lh lk hs ht ls lt low high e =
    elim (Bool-cases (i == child)) [
      | inl here ↦ (append_injective h k _ _ (lh ∙ sym lk) (rw here at e)).0
      | inr other ↦
          place_children-same left (suc i) child h k ss ts lh lk hs.1 ht.1 (omega (arith, ls))
            (omega (arith, lt)) (ground (arith, other, low)) (omega (arith, high))
            (append_injective s t _ _ (hs.0 ∙ sym ht.0) (rw other at e)).1
    ]

compare_roots-same :
    (root : Option Text) (p : Proof) (r : ProofError ⊎ Text)
    → compare_roots root p r ≡ none
    → r ≡ inr p.root_hash
compare_roots-same none p (inl x) e = absurd (let bad = e in cc bad)
compare_roots-same (some root) p (inl x) e = absurd (let bad = e in cc bad)
compare_roots-same none p (inr h) e = elim (Bool-cases (text_eq h p.root_hash)) [
  | inl same ↦ ap inr (text_eq→eq h p.root_hash same)
  | inr differ ↦ absurd (let bad = rw differ at e in cc bad)
]
compare_roots-same (some root) p (inr h) e = elim (Bool-cases (text_eq h p.root_hash)) [
  | inl same ↦ ap inr (text_eq→eq h p.root_hash same)
  | inr differ ↦ absurd (let bad = rw differ at e in cc bad)
]

two_tests :
    (a b : Bool) (x y : ProofError) (o : Option ProofError)
    → (if not a then some x else if b then some y else o) ≡ none
    → (a ≡ true) × (o ≡ none)
two_tests true false x y o e = (refl, e)
two_tests true true x y o e = absurd (let bad = e in cc bad)
two_tests false b x y o e = absurd (let bad = e in cc bad)

module _ (d : Digest) (arity : ℕ) where
  -- What a step of the loop has tested.
  replay-step :
      (h : Text) (s : ProofStep) (ss : List ProofStep) (x : Text)
      → replay d arity h (s ∷ ss) ≡ inr x
      → (s.child_index < arity)
        × (arity ≡ suc (length s.sibling_hashes))
        × (replay d arity
              (sha256 d (join_hashes (place_children arity 0 s.child_index h s.sibling_hashes)))
              ss
            ≡ inr x)
  unfolding replay
  replay-step h s ss x e = ground arith

  -- What a step hashes.
  abbrev pub material : Text → ProofStep → Text
  material h s = join_hashes (place_children arity 0 s.child_index h s.sibling_hashes)

  -- The texts that the loop hashes, step by step.
  pub replayed : Text → List ProofStep → List Text
  replayed h [] = []
  replayed h (s ∷ ss) = material h s ∷ replayed (sha256 d (material h s)) ss

  -- Two runs of the loop at the same places to one hash set out from one hash, or two texts that
  -- they hash in one step clash.
  replay_binds :
      (ss ts : List ProofStep) (h k x : Text)
      → length h ≡ 64
      → length k ≡ 64
      → SamePlaces ss ts
      → replay d arity h ss ≡ inr x
      → replay d arity k ts ≡ inr x
      → (h ≡ k) ⊎ Collision d (replayed h ss) (replayed k ts)
  unfolding replay replayed
  replay_binds [] [] h k x lh lk p eh ek = inl (ground (arith, eh, ek))
  replay_binds [] (t ∷ ts) h k x lh lk p eh ek = absurd p
  replay_binds (s ∷ ss) [] h k x lh lk p eh ek = absurd p
  replay_binds (s ∷ ss) (t ∷ ts) h k x lh lk (place, hs, ht, p) eh ek =
      let (inside, size, run) = replay-step h s ss x eh in
      let (_, size', run') = replay-step k t ts x ek in
      let a = join_hashes (place_children arity 0 s.child_index h s.sibling_hashes) in
      let b = join_hashes (place_children arity 0 t.child_index k t.sibling_hashes) in
      elim (replay_binds ss ts (sha256 d a) (sha256 d b) x (length-sha256 d a) (length-sha256 d b) p
        run run') [
          | inr c ↦ inr (inr c)
          | inl parents ↦ elim (sha256-Clash d a b parents) [
            | inr c ↦ inr (inl c)
            | inl same ↦ inl (
                place_children-same arity 0 s.child_index h k s.sibling_hashes t.sibling_hashes lh
                  lk hs ht size size' (omega arith) (omega (arith, inside))
                  (same
                    ∙ ap (λ c. join_hashes (place_children arity 0 c k t.sibling_hashes))
                        (sym place)))
          ]
        ]

  -- What verify_proof has found when it accepts.
  verify_proof-accepted :
      (root : Option Text) (p : Proof)
      → verify_proof d arity root p ≡ none
      → (p.leaf_hash ≡ sha256 d p.leaf_value)
        × (replay d arity p.leaf_hash p.steps ≡ inr p.root_hash)
  unfolding verify_proof
  verify_proof-accepted root p e =
      let (hashed, roots) =
        two_tests (text_eq p.leaf_hash (sha256 d p.leaf_value)) (is_empty p.root_hash) _ _ _ e in
      (
        text_eq→eq p.leaf_hash (sha256 d p.leaf_value) hashed,
        compare_roots-same root p (replay d arity p.leaf_hash p.steps) roots,
      )

  -- The texts that verify_proof hashes.
  abbrev pub proof_texts : Proof → List Text
  proof_texts p = p.leaf_value ∷ replayed p.leaf_hash p.steps

  -- Two accepted proofs for one root hash, at the same places of the tree and with siblings as long
  -- as hashes: they are for one leaf value, or two different texts that verify_proof hashes in one
  -- step of the two runs have one digest.
  pub verify_proof_binds :
      (r s : Option Text) (p q : Proof)
      → verify_proof d arity r p ≡ none
      → verify_proof d arity s q ≡ none
      → p.root_hash ≡ q.root_hash
      → SamePlaces p.steps q.steps
      → (p.leaf_value ≡ q.leaf_value) ⊎ Collision d (proof_texts p) (proof_texts q)
  verify_proof_binds r s p q ep eq roots places =
      let (leaf, run) = verify_proof-accepted r p ep in
      let (leaf', run') = verify_proof-accepted s q eq in
      elim (replay_binds p.steps q.steps p.leaf_hash q.leaf_hash p.root_hash
        (ap length leaf ∙ length-sha256 d p.leaf_value)
        (ap length leaf' ∙ length-sha256 d q.leaf_value) places run (run' ∙ ap inr (sym roots))) [
          | inr c ↦ inr (inr c)
          | inl same ↦ elim (sha256-Clash d p.leaf_value q.leaf_value (sym leaf ∙ same ∙ leaf')) [
            | inl value ↦ inl value
            | inr c ↦ inr (inl c)
          ]
        ]

  named_root :
      (root : Option Text) (p : Proof)
      → verify_proof d arity root p ≡ none
      → is_empty p.root_hash ≡ false
  unfolding verify_proof
  named_root root p e = ground (arith, e)

  -- The node above the leaf of a proof, as a leaf of its own: its value is the hashes of its
  -- children.
  abbrev pub raised : Proof → ProofStep → List ProofStep → Proof
  raised p s ss =
      let material =
        join_hashes (place_children arity 0 s.child_index p.leaf_hash s.sibling_hashes) in
      record {
        leaf_index = p.leaf_index;
        leaf_value = material;
        leaf_hash = sha256 d material;
        root_hash = p.root_hash;
        steps = ss;
      }

  compare_raised :
      (root : Option Text) (p q : Proof) (h : Text)
      → p.root_hash ≡ q.root_hash
      → compare_roots root p (inr h) ≡ none
      → compare_roots root q (inr h) ≡ none
  compare_raised none p q h e c = rw e at c
  compare_raised (some root) p q h e c = rw e at c

  -- A proof with a step that is accepted gives another that is: without its first step, for the
  -- joined hashes of the leaf and its siblings as the value of a leaf.
  pub verify_proof-raised :
      (root : Option Text) (p : Proof) (s : ProofStep) (ss : List ProofStep)
      → p.steps ≡ s ∷ ss
      → verify_proof d arity root p ≡ none
      → verify_proof d arity root (raised p s ss) ≡ none
  unfolding verify_proof
  verify_proof-raised root p s ss split e =
      let (_, run) = verify_proof-accepted root p e in
      let (_, _, later) =
        replay-step p.leaf_hash s ss p.root_hash
          (ap (replay d arity p.leaf_hash) (sym split) ∙ run) in
      let (_, roots) =
        two_tests (text_eq p.leaf_hash (sha256 d p.leaf_value)) (is_empty p.root_hash) _ _ _ e in
      rw (text_eq_refl (raised p s ss).leaf_hash, named_root root p e, later)
        (compare_raised root p (raised p s ss) p.root_hash refl (rw run at roots))
