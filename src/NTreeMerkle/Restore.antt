-- ===== src/NTreeMerkle/Restore.antt =====
-- Code/MerkleTreeNTree/src/NTreeMerkle.cpp: the loop of `verify_proof` puts together again the
-- group of children that `generate_proof` has taken apart.
use hybrid_blockchain_for_re.Prelude.{
  ℕ, zero, suc, ◌+◌, ◌<◌, ◌≡◌, refl, ap, ap₂, sym, ◌∙◌, true, false, Option, none, some, List, [],
  ◌∷◌, Text, length, get_elem?, arith, ◌==◌,
}
use hybrid_blockchain_for_re.NTreeMerkle.{place_children}
use hybrid_blockchain_for_re.NTreeMerkle.Generate.{Node, with_hash, hashes_of, sibling_hashes_of}

pub with_hash-some :
    (o : Option Node) (r : Option (List Text)) (hs : List Text)
    → with_hash o r ≡ some hs
    → (n : Node) × (t : List Text) × (o ≡ some n) × (r ≡ some t) × (n.hash ∷ t ≡ hs)
with_hash-some none r hs e = absurd (let bad = e in cc bad)
with_hash-some (some n) none hs e = absurd (let bad = e in cc bad)
with_hash-some (some n) (some t) hs e = (n, t, refl, refl, cc e)

pub length-hashes_of :
    (nodes : List Node) (ids : List ℕ) (hs : List Text)
    → hashes_of nodes ids ≡ some hs
    → length hs ≡ length ids
unfolding hashes_of
length-hashes_of nodes [] [] e = refl
length-hashes_of nodes [] (h ∷ hs) e = absurd (let bad = e in cc bad)
length-hashes_of nodes (id ∷ ids) hs e =
    let (n, t, _, more, whole) = with_hash-some (get_elem? nodes id) (hashes_of nodes ids) hs e in
    ap length (sym whole) ∙ ap suc (length-hashes_of nodes ids t more)

pub get_elem?-hashes_of :
    (nodes : List Node) (ids : List ℕ) (hs : List Text) (k id : ℕ) (n : Node)
    → hashes_of nodes ids ≡ some hs
    → get_elem? ids k ≡ some id
    → get_elem? nodes id ≡ some n
    → get_elem? hs k ≡ some n.hash
unfolding hashes_of
get_elem?-hashes_of nodes [] hs k id n e at_k at_id = absurd (let bad = at_k in cc bad)
get_elem?-hashes_of nodes (x ∷ ids) hs zero id n e at_k at_id =
    let (m, t, first, _, whole) = with_hash-some (get_elem? nodes x) (hashes_of nodes ids) hs e in
    let same : x ≡ id = cc at_k in
    let found : ◌≡◌ {A = Option Node} (some m) (some n) =
      sym first ∙ ap (get_elem? nodes) same ∙ at_id in
    let node : m ≡ n = cc found in ap (λ l. get_elem? l 0) (sym whole) ∙ ap (λ o. some o.hash) node
get_elem?-hashes_of nodes (x ∷ ids) hs (suc k) id n e at_k at_id =
    let (m, t, _, more, whole) = with_hash-some (get_elem? nodes x) (hashes_of nodes ids) hs e in
    ap (λ l. get_elem? l (suc k)) (sym whole)
    ∙ get_elem?-hashes_of nodes ids t k id n more at_k at_id

-- Past the place of the current hash all the hashes are siblings.
sibling_hashes_of-after :
    (nodes : List Node) (ids : List ℕ) (i child : ℕ)
    → child < i
    → sibling_hashes_of nodes i child ids ≡ hashes_of nodes ids
unfolding hashes_of sibling_hashes_of
sibling_hashes_of-after nodes [] i child past = refl
sibling_hashes_of-after nodes (id ∷ ids) i child past =
    let other : (i == child) ≡ false = ground (arith, past) in
    rw other (
      ap (with_hash (get_elem? nodes id))
        (sibling_hashes_of-after nodes ids (suc i) child (omega (arith, past))))

place_children-after :
    (i child : ℕ) (h : Text) (hs : List Text)
    → child < i
    → place_children (length hs) i child h hs ≡ hs
unfolding place_children
place_children-after i child h [] past = refl
place_children-after i child h (x ∷ hs) past =
    let other : (i == child) ≡ false = ground (arith, past) in
    rw other (ap (◌∷◌ x) (place_children-after (suc i) child h hs (omega (arith, past))))

place_children-here :
    (left i child : ℕ) (h : Text) (ss : List Text)
    → (i == child) ≡ true
    → place_children (suc left) i child h ss ≡ h ∷ place_children left (suc i) child h ss
unfolding place_children
place_children-here left i child h [] here = rw here refl
place_children-here left i child h (s ∷ ss) here = rw here refl

place_children-there :
    (left i child : ℕ) (h s : Text) (ss : List Text)
    → (i == child) ≡ false
    → place_children (suc left) i child h (s ∷ ss) ≡ s ∷ place_children left (suc i) child h ss
unfolding place_children
place_children-there left i child h s ss other = rw other refl

-- The hashes of a group, from those of the siblings and the one at the place `i + k`.
pub place_children-sibling_hashes_of :
    (nodes : List Node) (ids : List ℕ) (i k child : ℕ) (h : Text) (hs ss : List Text)
    → child ≡ i + k
    → hashes_of nodes ids ≡ some hs
    → sibling_hashes_of nodes i child ids ≡ some ss
    → get_elem? hs k ≡ some h
    → (place_children (length ids) i child h ss ≡ hs) × (length ids ≡ suc (length ss))
unfolding hashes_of sibling_hashes_of
place_children-sibling_hashes_of nodes [] i k child h [] ss place e f at_k =
    absurd (let bad = at_k in cc bad)
place_children-sibling_hashes_of nodes [] i k child h (x ∷ hs) ss place e f at_k =
    absurd (let bad = e in cc bad)
place_children-sibling_hashes_of nodes (id ∷ ids) i zero child h hs ss place e f at_k =
    let (n, t, first, more, whole) =
      with_hash-some (get_elem? nodes id) (hashes_of nodes ids) hs e in
    let here : (i == child) ≡ true = ground (arith, place) in
    let later : hashes_of nodes ids ≡ some ss =
      sym (sibling_hashes_of-after nodes ids (suc i) child (omega (arith, place)))
      ∙ (rw here at f) in
    let size = length-hashes_of nodes ids ss later in
    let found : ◌≡◌ {A = Option (List Text)} (some t) (some ss) = sym more ∙ later in
    let rest : t ≡ ss = cc found in
    let head : ◌≡◌ {A = Option Text} (some n.hash) (some h) =
      ap (λ l. get_elem? l 0) whole ∙ at_k in
    let first_hash : n.hash ≡ h = cc head in
    (
      place_children-here (length ids) i child h ss here
          ∙ ap (λ m. h ∷ place_children m (suc i) child h ss) (sym size)
          ∙ ap (◌∷◌ h) (place_children-after (suc i) child h ss (omega (arith, place)))
          ∙ sym (ap₂ (λ a l. a ∷ l) first_hash rest)
          ∙ whole,
      ap suc (sym size),
    )
place_children-sibling_hashes_of nodes (id ∷ ids) i (suc k) child h hs ss place e f at_k =
    let (n, t, first, more, whole) =
      with_hash-some (get_elem? nodes id) (hashes_of nodes ids) hs e in
    let other : (i == child) ≡ false = ground (arith, place) in
    let (n', t', first', more', whole') =
      with_hash-some (get_elem? nodes id) (sibling_hashes_of nodes (suc i) child ids) ss
        (rw other at f) in
    let found : ◌≡◌ {A = Option Node} (some n') (some n) = sym first' ∙ first in
    let node : n' ≡ n = cc found in
    let (whole_rest, size) =
      place_children-sibling_hashes_of nodes ids (suc i) k child h t t' (omega (arith, place)) more
        more' (ap (λ l. get_elem? l (suc k)) whole ∙ at_k) in
    (
      ap (place_children (suc (length ids)) i child h) (sym whole')
          ∙ place_children-there (length ids) i child h n'.hash t' other
          ∙ ap₂ (λ a l. a ∷ l) (ap (λ o. o.hash) node) whole_rest
          ∙ whole,
      ap suc (size ∙ ap length whole'),
    )
