-- ===== src/NTreeMerkle/Nodes.antt =====
-- Code/MerkleTreeNTree/src/NTreeMerkle.cpp: what stays true of the nodes when one is pushed.
use hybrid_blockchain_for_re.Prelude.{
  ℕ, zero, suc, ◌<◌, ◌≡◌, refl, ap, some, List, [], ◌∷◌, ◌++◌, Text, length, get_elem?,
  get_elem?-lt, take, drop, All, ◌⊎◌, inl, inr,
}
use hybrid_blockchain_for_re.Sha256.{Digest}
use hybrid_blockchain_for_re.NTreeMerkle.Generate.{Node, ParentLink, hashes_of}
use hybrid_blockchain_for_re.NTreeMerkle.Restore.{with_hash-some}
use hybrid_blockchain_for_re.NTreeMerkle.Accept.{GoodLink}
use hybrid_blockchain_for_re.NTreeMerkle.Build.{back}

abbrev pub In : ℕ → List ℕ → Type 0
In x [] = ⊥
In x (y ∷ ys) = (x ≡ y) ⊎ In x ys

pub In-take-drop : (n x : ℕ) (xs : List ℕ) → In x xs → In x (take n xs) ⊎ In x (drop n xs)
In-take-drop zero x xs h = inr h
In-take-drop (suc n) x [] h = absurd h
In-take-drop (suc n) x (y ∷ xs) (inl e) = inl (inl e)
In-take-drop (suc n) x (y ∷ xs) (inr h) = elim (In-take-drop n x xs h) [
  | inl t ↦ inl (inr t)
  | inr r ↦ inr r
]

pub In-push : (x y : ℕ) (xs : List ℕ) → (x ≡ y) ⊎ In x xs → In x (xs ++ y ∷ [])
In-push x y [] (inl e) = inl e
In-push x y [] (inr h) = absurd h
In-push x y (z ∷ xs) (inl e) = inr (In-push x y xs (inl e))
In-push x y (z ∷ xs) (inr (inl e)) = inl e
In-push x y (z ∷ xs) (inr (inr h)) = inr (In-push x y xs (inr h))

In-unpush : (x y : ℕ) (xs : List ℕ) → In x (xs ++ y ∷ []) → (x ≡ y) ⊎ In x xs
In-unpush x y [] (inl e) = inl e
In-unpush x y [] (inr h) = absurd h
In-unpush x y (z ∷ xs) (inl e) = inr (inl e)
In-unpush x y (z ∷ xs) (inr h) = elim (In-unpush x y xs h) [
  | inl e ↦ inl e
  | inr old ↦ inr (inr old)
]

pub In-push_or :
    (x y : ℕ) (xs : List ℕ) {P : Type 0} → (x ≡ y) ⊎ (In x xs ⊎ P) → In x (xs ++ y ∷ []) ⊎ P
In-push_or x y xs (inl e) = inl (In-push x y xs (inl e))
In-push_or x y xs (inr (inl h)) = inl (In-push x y xs (inr h))
In-push_or x y xs (inr (inr p)) = inr p

pub In-unpush_or :
    (x y : ℕ) (xs : List ℕ) {P : Type 0} → In x (xs ++ y ∷ []) ⊎ P → (x ≡ y) ⊎ (In x xs ⊎ P)
In-unpush_or x y xs (inl h) = elim (In-unpush x y xs h) [ inl e ↦ inl e | inr old ↦ inr (inl old) ]
In-unpush_or x y xs (inr p) = inr (inr p)

pub back-In : (x : ℕ) (xs : List ℕ) → In (back (x ∷ xs)) (x ∷ xs)
unfolding back
back-In x [] = inl refl
back-In x (y ∷ xs) = inr (back-In y xs)

module _ {A : Type 0} where
  pub get_elem?-append :
      (xs ys : List A) (i : ℕ) (a : A) → get_elem? xs i ≡ some a → get_elem? (xs ++ ys) i ≡ some a
  get_elem?-append [] ys i a e = absurd (let bad = e in cc bad)
  get_elem?-append (x ∷ xs) ys zero a e = e
  get_elem?-append (x ∷ xs) ys (suc i) a e = get_elem?-append xs ys i a e

  pub get_elem?-append_length :
      (xs : List A) (a : A) → get_elem? (xs ++ a ∷ []) (length xs) ≡ some a
  get_elem?-append_length [] a = refl
  get_elem?-append_length (x ∷ xs) a = get_elem?-append_length xs a

  -- What stands in a list with one element more.
  pub get_elem?-push :
      (xs : List A) (x : A) (i : ℕ) (a : A)
      → get_elem? (xs ++ x ∷ []) i ≡ some a
      → (get_elem? xs i ≡ some a) ⊎ ((i ≡ length xs) × (x ≡ a))
  get_elem?-push [] x zero a e = inr (refl, cc e)
  get_elem?-push [] x (suc i) a e = absurd (let bad = e in cc bad)
  get_elem?-push (y ∷ xs) x zero a e = inl e
  get_elem?-push (y ∷ xs) x (suc i) a e = elim (get_elem?-push xs x i a e) [
    | inl old ↦ inl old
    | inr (place, same) ↦ inr (ap suc place, same)
  ]

pub hashes_of-append :
    (nodes more : List Node) (ids : List ℕ) (hs : List Text)
    → hashes_of nodes ids ≡ some hs
    → hashes_of (nodes ++ more) ids ≡ some hs
unfolding hashes_of
hashes_of-append nodes more [] hs e = e
hashes_of-append nodes more (id ∷ ids) hs e =
    let (n, t, first, rest, whole) =
      with_hash-some (get_elem? nodes id) (hashes_of nodes ids) hs e in
    rw (get_elem?-append nodes more id n first, hashes_of-append nodes more ids t rest)
      (ap some whole)

-- The children of a group are nodes: their hashes can be read.
pub hashes_of_total :
    (nodes : List Node) (ids : List ℕ)
    → ((x : ℕ) → In x ids → x < length nodes)
    → (hs : List Text) × (hashes_of nodes ids ≡ some hs)
unfolding hashes_of
hashes_of_total nodes [] inside = ([], refl)
hashes_of_total nodes (id ∷ ids) inside =
    let (n, first) = get_elem?-lt nodes id (inside id (inl refl)) in
    let (hs, rest) = hashes_of_total nodes ids (λ x h. inside x (inr h)) in
    (n.hash ∷ hs, rw (first, rest) refl)

module _ (d : Digest) (arity : ℕ) where
  pub GoodLink-append :
      (nodes more : List Node) (id : ℕ) (link : ParentLink)
      → GoodLink d arity nodes id link
      → GoodLink d arity (nodes ++ more) id link
  GoodLink-append nodes more id link (p, hs, stands, children, hashed, size, inside, here) = (
    p,
    hs,
    get_elem?-append nodes more link.parent_id p stands,
    hashes_of-append nodes more p.children hs children,
    hashed,
    size,
    inside,
    here,
  )

  pub GoodLinks-append :
      (nodes more : List Node) (links : List (ℕ × ParentLink))
      → All (λ l. GoodLink d arity nodes l.0 l.1) links
      → All (λ l. GoodLink d arity (nodes ++ more) l.0 l.1) links
  GoodLinks-append nodes more [] h = tt
  GoodLinks-append nodes more ((id, link) ∷ links) h =
      (GoodLink-append nodes more id link h.0, GoodLinks-append nodes more links h.1)
