-- ===== src/MerkleTree/Binding.antt =====
-- What an accepted proof and a root hash bind (Code/PrivateChain/MerkleTree/MerkleTree_Proof.cpp and
-- MerkleTree_Build.cpp), up to collisions of the digest; and what a root does not bind.
use hybrid_blockchain_for_re.Prelude.{
  ℕ, zero, suc, ◌-◌, ◌*◌, ◌/◌, ◌%◌, ◌≡◌, refl, ap, ◌∙◌, sym, Bool, true, false, Option, none, some,
  List, subst, [], ◌∷◌, ◌++◌, Text, length, arith, take, drop, text_eq→eq, text_eq, length-take,
  length-drop, Bool-cases, inl, inr, ◌⊎◌, ltb, ◌==◌, ◌||◌, not, if◌then◌else◌, Option-cases,
}
use hybrid_blockchain_for_re.Sha256.{Digest, sha256}
use hybrid_blockchain_for_re.Sha256.Hex.{Clash, Collision, sha256-Clash, length-sha256}
use hybrid_blockchain_for_re.MerkleTree.{Node, hash_of, MerkleTree}
use hybrid_blockchain_for_re.MerkleTree.Prover.{
  left_mark, hash_size, entry_size, is_mark, verify_loop, matches_root, verify,
}

-- Two texts of one length that start equal sums are equal part by part.
pub append_injective : (a b r s : Text) → length a ≡ length b → a ++ r ≡ b ++ s → (a ≡ b) × (r ≡ s)
append_injective [] [] r s l e = (refl, e)
append_injective [] (y ∷ b) r s l e = absurd (omega arith)
append_injective (x ∷ a) [] r s l e = absurd (omega arith)
append_injective (x ∷ a) (y ∷ b) r s l e = ground (arith, append_injective a b r s)

-- The same marks in each of the next `n` entries: the same place in a tree.
abbrev pub SameMarks : ℕ → Text → Text → Type 0
SameMarks zero r s = Unit
SameMarks (suc n) r s = (take 2 r ≡ take 2 s) × SameMarks n (drop entry_size r) (drop entry_size s)

-- The hash of the block that a proof is for.
abbrev pub claimed_hash : Text → Text
claimed_hash proof = take hash_size (drop 2 proof)

-- The tests of Verify, all passed.
guards_passed :
    (a b c : Bool)
    → (if a then false else if b then c else false) ≡ true
    → (a ≡ false) × (b ≡ true) × (c ≡ true)
guards_passed a b c h = ground arith

sizes_passed : (n : ℕ) → (ltb n 66 || not (n % 66 == 0)) ≡ false → n ≡ 66 * suc (n / 66 - 1)
sizes_passed n h = ground arith

module _ (d : Digest) where
  -- Two hashes joined in one order: both pairs are the same, or the joined texts clash.
  pub pair_Clash :
      (a b r s : Text)
      → length a ≡ length b
      → sha256 d (a ++ r) ≡ sha256 d (b ++ s)
      → ((a ≡ b) × (r ≡ s)) ⊎ Clash d (a ++ r) (b ++ s)
  pair_Clash a b r s l e = elim (sha256-Clash d (a ++ r) (b ++ s) e) [
    | inl same ↦ inl (append_injective a b r s l same)
    | inr c ↦ inr c
  ]

  -- What a round of Verify's loop hashes.
  abbrev pub joined : Text → Text → Text → Text
  joined info sibling h = if text_eq info left_mark then sibling ++ h else h ++ sibling

  join : Text → Text → Text → Text
  join info sibling h = sha256 d (joined info sibling h)

  -- The texts that Verify's loop hashes, round by round.
  pub climbed : ℕ → Text → Text → List Text
  unfolding join
  climbed zero rest h = []
  climbed (suc n) rest h =
      let info = take 2 rest in
      let sibling = take hash_size (drop 2 rest) in
      joined info sibling h ∷ climbed n (drop entry_size rest) (join info sibling h)

  join-Clash :
      (info r s h k : Text)
      → length r ≡ length s
      → length h ≡ length k
      → join info r h ≡ join info s k
      → (h ≡ k) ⊎ Clash d (joined info r h) (joined info s k)
  unfolding join
  join-Clash info r s h k lr lh e = elim (Bool-cases (text_eq info left_mark)) [
    | inl left ↦
        rw left
          (elim (pair_Clash r s h k lr (rw left at e)) [ inl (_, same) ↦ inl same | inr c ↦ inr c ])
    | inr right ↦
        rw right (elim (pair_Clash h k r s lh (rw right at e)) [
          | inl (same, _) ↦ inl same
          | inr c ↦ inr c
        ])
  ]

  length-join : (info r h : Text) → length (join info r h) ≡ 64
  unfolding join
  length-join info r h = length-sha256 d (joined info r h)

  verify_loop-some :
      (n : ℕ) (r h x : Text)
      → verify_loop d (suc n) r h ≡ some x
      → verify_loop d n (drop entry_size r) (join (take 2 r) (take hash_size (drop 2 r)) h) ≡ some x
  unfolding verify_loop join
  verify_loop-some n r h x e = elim (Bool-cases (is_mark (take 2 r))) [
    | inl mark ↦ elim (Bool-cases (text_eq (take 2 r) left_mark)) [
      | inl left ↦ rw left (rw (mark, left) at e)
      | inr right ↦ rw right (rw (mark, right) at e)
    ]
    | inr bad ↦ absurd (let no = rw bad at e in cc no)
  ]

  middle_sized : (n : ℕ) (r : Text) → length r ≡ 66 * suc n → length (take 64 (drop 2 r)) ≡ 64
  middle_sized n r l = length-take 64 (drop 2 r) (omega (arith, length-drop 2 r, l))

  -- Two runs of Verify's loop over entries with the same marks, to one hash: they set out from
  -- one hash, or two texts that they hash in one round clash.
  pub verify_loop_binds :
      (n : ℕ) (r s h k x : Text)
      → length r ≡ 66 * n
      → length s ≡ 66 * n
      → length h ≡ length k
      → SameMarks n r s
      → verify_loop d n r h ≡ some x
      → verify_loop d n s k ≡ some x
      → (h ≡ k) ⊎ Collision d (climbed n r h) (climbed n s k)
  unfolding climbed join
  verify_loop_binds zero r s h k x lr ls lh m er es =
      unfold verify_loop in inl (ground (arith, er, es))
  verify_loop_binds (suc n) r s h k x lr ls lh (mark, m) er es =
      let a = take 64 (drop 2 r) in
      let b = take 64 (drop 2 s) in
      let step =
        verify_loop_binds n (drop 66 r) (drop 66 s) (join (take 2 r) a h) (join (take 2 s) b k) x
          (omega (arith, length-drop 66 r, lr)) (omega (arith, length-drop 66 s, ls))
          (length-join (take 2 r) a h ∙ sym (length-join (take 2 s) b k)) m
          (verify_loop-some n r h x er) (verify_loop-some n s k x es) in
      elim step [
        | inr c ↦ inr (inr c)
        | inl same ↦
            elim (join-Clash (take 2 r) a b h k (middle_sized n r lr ∙ sym (middle_sized n s ls)) lh
              (same ∙ ap (λ i. join i b k) (sym mark))) [
                | inl start ↦ inl start
                | inr c ↦
                    inr (inl (subst (λ i. Clash d (joined (take 2 r) a h) (joined i b k)) mark c))
              ]
      ]

  -- What an accepted proof has gone through.
  pub record Accepted (t : MerkleTree) (proof : Text) : Type 0 where
    pub top : Node
    pub built : t.root ≡ some top
    pub entries : ℕ
    pub size : length proof ≡ 66 * suc entries
    pub run :
        verify_loop d entries (drop entry_size proof) (claimed_hash proof) ≡ some (hash_of top)

  matches_root→eq : (o : Option Text) (n : Node) → matches_root o n ≡ true → o ≡ some (hash_of n)
  unfolding matches_root
  matches_root→eq none n e = cc
  matches_root→eq (some h) n e = ap some (text_eq→eq h (hash_of n) e)

  pub verify-Accepted : (t : MerkleTree) (proof : Text) → verify d t proof ≡ true → Accepted t proof
  unfolding verify
  verify-Accepted t proof e = elim (Option-cases t.root) [
    | inl missing ↦ absurd (let no = rw (missing, verify) at e in cc no)
    | inr (top, built) ↦
        let (fits, mark, same) = guards_passed _ _ _ (rw (built, verify) at e) in
        record {
          top = top;
          built = built;
          entries = length proof / 66 - 1;
          size = sizes_passed (length proof) fits;
          run = matches_root→eq _ top same;
        }
  ]

  -- The texts that Verify hashes for a proof.
  abbrev pub verified_texts : Text → List Text
  verified_texts p = climbed (length p / entry_size - 1) (drop entry_size p) (claimed_hash p)

  -- A proof at the place of another accepted proof (the same marks), with as many entries, is for
  -- the same hash, or two different texts that Verify hashes in one round of the two runs have one
  -- digest.
  pub verify_binds :
      (t : MerkleTree) (p q : Text)
      → verify d t p ≡ true
      → verify d t q ≡ true
      → length p ≡ length q
      → SameMarks (length p / entry_size) p q
      → (claimed_hash p ≡ claimed_hash q) ⊎ Collision d (verified_texts p) (verified_texts q)
  verify_binds t p q ep eq l m =
      let a = verify-Accepted t p ep in
      let b = verify-Accepted t q eq in
      let n : length p / 66 ≡ suc a.entries = omega (arith, a.size) in
      let same : b.entries ≡ a.entries = omega (arith, a.size, b.size) in
      let top : b.top ≡ a.top = ground (arith, a.built, b.built) in
      let m' : SameMarks (suc a.entries) p q = rw n at m in
      let rounds : length p / 66 - 1 ≡ a.entries = omega (arith, n) in
      let rounds' : length q / 66 - 1 ≡ a.entries = omega (arith, rounds, l) in
      let bound =
        verify_loop_binds a.entries (drop 66 p) (drop 66 q) (claimed_hash p) (claimed_hash q)
          (hash_of a.top) (omega (arith, a.size, length-drop 66 p))
          (omega (arith, a.size, l, length-drop 66 q))
          (middle_sized a.entries p a.size ∙ sym (middle_sized a.entries q (sym l ∙ a.size))) m'.1
          a.run (rw (same, top) at b.run) in
      rw (rounds, rounds') bound
