-- ===== src/MerkleTree/Complete.antt =====
-- ProverBlock against Verify (Code/PrivateChain/MerkleTree/MerkleTree_Proof.cpp): every block of
-- a tree has a proof, and the proof is accepted.
use hybrid_blockchain_for_re.Prelude.{
  ℕ, suc, ◌+◌, ◌-◌, ◌*◌, ◌/◌, ◌%◌, ◌≤◌, ◌<◌, ◌≡◌, refl, ap, ap₂, ◌∙◌, sym, Bool, true, false, some,
  List, [], ◌∷◌, ◌++◌, Text, ℤ, pos, length, arith, All, append_assoc, append-nil, length-append,
  take, drop, take-append_length, drop-append_length, text_eq_refl, text_eq, get_elem?, sub_ℕ,
  get_elem?-some_lt, ge→ltb, if◌then◌else◌,
}
use hybrid_blockchain_for_re.Sha256.{Digest, sha256}
use hybrid_blockchain_for_re.MerkleTree.{Node, hash_of, MerkleTree, build_from_blocks}
use hybrid_blockchain_for_re.MerkleTree.Prover.{
  Frame, Cursor, plug, find_leaf, left_mark, right_mark, own_mark, sibling_mark, climb, locate,
  prover_block, hash_size, entry_size, is_mark, verify_loop, matches_root, verify,
}
use hybrid_blockchain_for_re.MerkleTree.Search.{
  recompute, join_up, find_leaf-LeadsTo, find_leaf-block,
}
use hybrid_blockchain_for_re.MerkleTree.Levels.{
  build_from_blocks-IsHashed, build_from_blocks_total, IsBuilt,
}

abbrev pub IsSized : List Frame → Type 0
IsSized = All (λ f. length (hash_of f.sibling) ≡ 64)

-- The entries of a proof after the first, one for each sibling.
abbrev pub encode : List Frame → Text
encode [] = []
encode (f ∷ up) = (sibling_mark f.is_left ++ hash_of f.sibling) ++ encode up

climb-encode :
    (proof : Text) (n : Node) (up : List Frame) → climb false proof n up ≡ proof ++ encode up
unfolding climb
climb-encode proof n [] = sym (append-nil proof)
climb-encode proof n (f ∷ up) =
    climb-encode (proof ++ (sibling_mark f.is_left ++ hash_of f.sibling)) (plug n f) up
    ∙ append_assoc proof (sibling_mark f.is_left ++ hash_of f.sibling) (encode up)

-- The mark of a proof's first entry: "L:" for a tree of one block.
abbrev pub first_mark : List Frame → Text
first_mark [] = left_mark
first_mark (f ∷ up) = own_mark f.is_left

-- The text that ProverBlock returns for a leaf that it has found.
pub climb_lem :
    (n : Node) (up : List Frame) → climb true [] n up ≡ (first_mark up ++ hash_of n) ++ encode up
unfolding climb
climb_lem n [] = sym (append-nil (left_mark ++ hash_of n))
climb_lem n (f ∷ up) =
    climb-encode
      ((own_mark f.is_left ++ hash_of n) ++ (sibling_mark f.is_left ++ hash_of f.sibling))
      (plug n f) up
    ∙ append_assoc (own_mark f.is_left ++ hash_of n) (sibling_mark f.is_left ++ hash_of f.sibling)
        (encode up)

length-encode : (up : List Frame) → IsSized up → length (encode up) ≡ 66 * length up
length-encode [] s = omega arith
length-encode (f ∷ up) s = omega (
  arith,
  length-append (sibling_mark f.is_left ++ hash_of f.sibling) (encode up),
  length-append (sibling_mark f.is_left) (hash_of f.sibling),
  length-mark f.is_left,
  length-encode up s.1,
  s.0,
)
  where
    length-mark : (b : Bool) → length (sibling_mark b) ≡ 2
    length-mark true = refl
    length-mark false = refl

-- An entry is taken apart as it was put together.
entry_parts :
    (mark hash rest : Text)
    → length mark ≡ 2
    → length hash ≡ 64
    → (take 2 ((mark ++ hash) ++ rest) ≡ mark)
      × (take hash_size (drop 2 ((mark ++ hash) ++ rest)) ≡ hash)
      × (drop entry_size ((mark ++ hash) ++ rest) ≡ rest)
entry_parts mark hash rest m h = (
  rw (append_assoc mark hash rest) (take-append_length 2 mark (hash ++ rest) m),
  rw (append_assoc mark hash rest, drop-append_length 2 mark (hash ++ rest) m)
      (take-append_length 64 hash rest h),
  drop-append_length 66 (mark ++ hash) rest (omega (arith, length-append mark hash)),
)

sub_ℕ_pos : (m n : ℕ) → n < m → sub_ℕ m 1 ≡ pos (m - 1)
sub_ℕ_pos m n h = ground arith

module _ (d : Digest) where
  -- One round of Verify's loop on a well-formed entry.
  verify_loop-entry :
      (n : ℕ) (b : Bool) (hash rest h : Text)
      → length hash ≡ 64
      → verify_loop d (suc n) ((sibling_mark b ++ hash) ++ rest) h
        ≡ verify_loop d n rest (if b then sha256 d (h ++ hash) else sha256 d (hash ++ h))
  unfolding verify_loop text_eq
  verify_loop-entry n true hash rest h size =
      let (mark, middle, after) = entry_parts right_mark hash rest refl size in rw (middle, after)
  verify_loop-entry n false hash rest h size =
      let (mark, middle, after) = entry_parts left_mark hash rest refl size in rw (middle, after)

  -- Verify's loop recomputes the root's hash from the entries.
  pub verify_loop-encode :
      (h : Text) (up : List Frame)
      → IsSized up
      → verify_loop d (length up) (encode up) h ≡ some (recompute d h up)
  verify_loop-encode h [] s = unfold verify_loop in refl
  verify_loop-encode h (f ∷ up) s =
      verify_loop-entry (length up) f.is_left (hash_of f.sibling) (encode up) h s.0
      ∙ verify_loop-encode (join_up d h f) up s.1

  is_mark-first_mark : (up : List Frame) → is_mark (first_mark up) ≡ true
  unfolding text_eq
  is_mark-first_mark [] = refl
  is_mark-first_mark (f ∷ up) = ground arith

  length-first_mark : (up : List Frame) → length (first_mark up) ≡ 2
  length-first_mark [] = refl
  length-first_mark (f ∷ up) = ground arith

  -- Verify on a text of the shape that ProverBlock writes: it compares the recomputed hash.
  pub verify-encode :
      (t : MerkleTree) (root : Node) (h : Text) (up : List Frame)
      → t.root ≡ some root
      → length h ≡ 64
      → IsSized up
      → verify d t ((first_mark up ++ h) ++ encode up) ≡ text_eq (recompute d h up) (hash_of root)
  unfolding verify matches_root
  verify-encode t root h up built size s =
      let (mark, middle, after) =
        entry_parts (first_mark up) h (encode up) (length-first_mark up) size in
      let total =
        length-append (first_mark up ++ h) (encode up)
        ∙ ap₂ ◌+◌ (length-append (first_mark up) h) (length-encode up s) in
      let rounds : length ((first_mark up ++ h) ++ encode up) / 66 - 1 ≡ length up =
        omega (arith, total, length-first_mark up) in
      let whole : length ((first_mark up ++ h) ++ encode up) % 66 ≡ 0 =
        omega (arith, total, length-first_mark up) in
      let big : 66 ≤ length ((first_mark up ++ h) ++ encode up) =
        omega (arith, total, length-first_mark up) in
      rw (built, mark, middle, after, rounds, verify_loop-encode h up s, is_mark-first_mark up)
        (rw (whole, ge→ltb _ _ big))

  prover_block_lem :
      (t : MerkleTree) (n : ℤ) (c : Cursor)
      → locate t n ≡ some c
      → prover_block t n ≡ climb true [] c.focus c.parents
  unfolding prover_block
  prover_block_lem t n c e = rw (e, prover_block)

  build_from_blocks-some :
      (bs : List Text) (n : ℕ) (b : Text)
      → get_elem? bs n ≡ some b
      → (root : Node) × (build_from_blocks d bs ≡ some root)
  build_from_blocks-some [] n b e = cc
  build_from_blocks-some (x ∷ bs) n b e = build_from_blocks_total d x bs

  locate_lem :
      (t : MerkleTree) (root : Node) (n : ℕ)
      → t.root ≡ some root
      → t.block_no ≡ pos (length t.blocks - 1)
      → n < length t.blocks
      → locate t (pos n) ≡ find_leaf root (pos n) []
  unfolding locate
  locate_lem t root n built last h = rw (
    built,
    last,
    ge→ltb (length t.blocks - 1 + 0) (n + 0) (omega arith),
    ge→ltb (n + 0) (0 + 0) (omega arith),
  )

  -- Every block of a built tree, with its proof: the proof opens with the block's own hash, and
  -- Verify accepts it.
  pub verify-prover_block :
      (t : MerkleTree) (n : ℕ) (b : Text)
      → IsBuilt d t
      → get_elem? t.blocks n ≡ some b
      → (verify d t (prover_block t (pos n)) ≡ true)
        × (take hash_size (drop 2 (prover_block t (pos n))) ≡ sha256 d b)
  verify-prover_block t n b v found =
      let built = v.root_eq in
      let last : t.block_no ≡ pos (length t.blocks - 1) =
        v.last_eq ∙ sub_ℕ_pos (length t.blocks) n (get_elem?-some_lt t.blocks n b found) in
      let (root, e) = build_from_blocks-some t.blocks n b found in
      let (c, hit, focus) = find_leaf-block d t.blocks root n b e found in
      let way = find_leaf-LeadsTo d root (pos n) [] c (build_from_blocks-IsHashed d _ root e) hit in
      let own : hash_of c.focus ≡ sha256 d b = ap hash_of focus in
      let path : c.parents ≡ way.path = way.parents_eq ∙ append-nil way.path in
      let located : locate t (pos n) ≡ some c =
        locate_lem t root n (built ∙ e) last (get_elem?-some_lt t.blocks n b found) ∙ hit in
      rw (prover_block_lem t (pos n) c located, path, climb_lem c.focus way.path)
        (
          verify-encode t root (hash_of c.focus) way.path (built ∙ e) way.focus_sized way.sized
              ∙ rw (way.leads) (text_eq_refl (hash_of root)),
          (entry_parts (first_mark way.path) (hash_of c.focus) (encode way.path)
                (length-first_mark way.path) way.focus_sized).1
              ∙ own,
        )
