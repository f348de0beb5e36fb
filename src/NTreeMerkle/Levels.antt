-- ===== src/NTreeMerkle/Levels.antt =====
-- Code/MerkleTreeNTree/src/NTreeMerkle.cpp, `build`: the loops over the groups and the levels end,
-- and leave one node without a link.
use hybrid_blockchain_for_re.Prelude.{
  ℕ, zero, suc, ◌+◌, ◌-◌, ◌*◌, ◌≤◌, ◌≡◌, refl, some, List, [], ◌∷◌, length, take, drop, arith, ◌⊎◌,
  inl, inr,
}
use hybrid_blockchain_for_re.Sha256.{Digest}
use hybrid_blockchain_for_re.NTreeMerkle.Build.{Building, build_groups, build_levels}
use hybrid_blockchain_for_re.NTreeMerkle.Nodes.{In, In-take-drop}
use hybrid_blockchain_for_re.NTreeMerkle.Grow.{
  IsBuilding, IsBuilding-weaken, Extends, pad_group-IsBuilding,
}
use hybrid_blockchain_for_re.NTreeMerkle.Links.{add_parent-IsBuilding}

In-take : (n x : ℕ) (xs : List ℕ) → In x (take n xs) → In x xs
In-take zero x xs h = absurd h
In-take (suc n) x [] h = absurd h
In-take (suc n) x (y ∷ xs) (inl e) = inl e
In-take (suc n) x (y ∷ xs) (inr h) = inr (In-take n x xs h)

In-drop : (n x : ℕ) (xs : List ℕ) → In x (drop n xs) → In x xs
In-drop zero x xs h = h
In-drop (suc n) x [] h = absurd h
In-drop (suc n) x (y ∷ xs) h = inr (In-drop n x xs h)

-- A group of a list with one node has one, of a longer list two or more, and at most the arity.
length-take_group :
    (n : ℕ) (xs : List ℕ)
    → (length (take n xs) ≤ n)
      × (length (take n xs) + length (drop n xs) ≡ length xs)
      × ((n ≤ length (take n xs)) ⊎ (length (drop n xs) ≡ 0))
length-take_group zero xs = (omega arith, omega arith, inl (omega arith))
length-take_group (suc n) [] = (omega arith, omega arith, inr refl)
length-take_group (suc n) (x ∷ xs) =
    let (most, whole, some_end) = length-take_group n xs in
    (omega arith, omega arith, elim some_end [ inl full ↦ inl (omega arith) | inr done ↦ inr done ])

split_group :
    (n i : ℕ) (xs : List ℕ) {P : Type 0} → In i xs ⊎ P → In i (take n xs) ⊎ (In i (drop n xs) ⊎ P)
split_group n i xs (inr p) = inr (inr p)
split_group n i xs (inl h) = elim (In-take-drop n i xs h) [ inl t ↦ inl t | inr r ↦ inr (inl r) ]

join_group :
    (n i : ℕ) (xs : List ℕ) {P : Type 0} → In i (take n xs) ⊎ (In i (drop n xs) ⊎ P) → In i xs ⊎ P
join_group n i xs (inl t) = inl (In-take n i xs t)
join_group n i xs (inr (inl r)) = inl (In-drop n i xs r)
join_group n i xs (inr (inr p)) = inr p

move_in : {A B C : Type 0} → A ⊎ (B ⊎ C) → B ⊎ (A ⊎ C)
move_in (inl a) = inr (inl a)
move_in (inr (inl b)) = inl b
move_in (inr (inr c)) = inr (inr c)

move_out : {A B C : Type 0} → B ⊎ (A ⊎ C) → A ⊎ (B ⊎ C)
move_out (inr (inl a)) = inl a
move_out (inl b) = inr (inl b)
move_out (inr (inr c)) = inr (inr c)

gather : {A B C : Type 0} → A ⊎ (B ⊎ C) → (B ⊎ A) ⊎ C
gather (inl a) = inl (inr a)
gather (inr (inl b)) = inl (inl b)
gather (inr (inr c)) = inr c

scatter : {A B C : Type 0} → (B ⊎ A) ⊎ C → A ⊎ (B ⊎ C)
scatter (inl (inr a)) = inl a
scatter (inl (inl b)) = inr (inl b)
scatter (inr c) = inr (inr c)

group_some : (n x : ℕ) (xs : List ℕ) → 1 ≤ length (take (suc (suc n)) (x ∷ xs))
group_some n x xs = omega arith

only : {A : Type 0} → (A ⊎ ⊥) ⊎ ⊥ → A
only (inl (inl a)) = a
only (inl (inr x)) = absurd x
only (inr x) = absurd x

at_least : (n m : ℕ) → (suc (suc n) ≡ 0) ⊎ (1 ≤ m) → 1 ≤ m
at_least n m (inl e) = absurd (omega (arith, e))
at_least n m (inr h) = h

-- A level has at most half as many parents, rounded up.
halved :
    (next rest group whole n : ℕ)
    → 2 * next ≤ rest + 1
    → group + rest ≡ whole
    → 1 ≤ group
    → (suc (suc n) ≤ group) ⊎ (rest ≡ 0)
    → 2 * suc next ≤ whole + 1
halved next rest group whole n half parts some_group (inl full) = omega arith
halved next rest group whole n half parts some_group (inr last) = omega arith

module _ (d : Digest) (n : ℕ) where
  -- `suc (suc n)` is the arity.
  build_groups-IsBuilding :
      (fuel level width padded index : ℕ) (current : List ℕ) (b : Building) (P : ℕ → Type 0)
      → length current ≤ fuel
      → IsBuilding d (suc (suc n)) b (λ i. In i current ⊎ P i)
      → (z : Building × List ℕ) × (build_groups d
            (suc (suc n))
            fuel
            level
            width
            padded
            index
            current
            b
          ≡ some z)
        × IsBuilding d (suc (suc n)) z.0 (λ i. In i z.1 ⊎ P i)
        × Extends b z.0
        × (2 * length z.1 ≤ length current + 1)
        × ((length current ≡ 0) ⊎ (1 ≤ length z.1))
  unfolding build_groups
  build_groups-IsBuilding fuel level width padded index [] b P enough v =
      ((b, []), refl, v, λ i m e. e, omega arith, inl refl)
  build_groups-IsBuilding zero level width padded index (x ∷ current) b P enough v =
      absurd (omega (arith, enough))
  build_groups-IsBuilding (suc fuel) level width padded index (x ∷ current) b P enough v =
      let whole = x ∷ current in
      let group = take (suc n) current in
      let rest = drop (suc (suc n)) whole in
      let (most, parts, ends) = length-take_group (suc (suc n)) whole in
      let (z1, done1, built1, extends1, size1) =
        pad_group-IsBuilding d (suc (suc n)) (suc (suc n) - length (x ∷ group)) level
          (width + padded) x group b (λ i. In i rest ⊎ P i)
          (IsBuilding-weaken d (suc (suc n)) b (λ i. In i whole ⊎ P i)
            (λ i. In i (x ∷ group) ⊎ (In i rest ⊎ P i)) (λ i. split_group (suc (suc n)) i whole)
            (λ i. join_group (suc (suc n)) i whole) v) in
      let (z2, done2, built2, extends2) =
        add_parent-IsBuilding d (suc (suc n)) level index z1.1 z1.0 (λ i. In i rest ⊎ P i)
          (omega (arith, size1, most)) built1 in
      let (z3, done3, built3, extends3, half, some_next) =
        build_groups-IsBuilding fuel level width (padded + (suc (suc n) - length (x ∷ group)))
          (suc index) rest z2.0 (λ i. (i ≡ z2.1) ⊎ P i)
          (omega (arith, enough, parts, group_some n x current))
          (IsBuilding-weaken d (suc (suc n)) z2.0 (λ i. (i ≡ z2.1) ⊎ (In i rest ⊎ P i))
            (λ i. In i rest ⊎ ((i ≡ z2.1) ⊎ P i)) (λ i. move_in) (λ i. move_out) built2) in
      (
        (z3.0, z2.1 ∷ z3.1),
        rw (done1, done2, done3) refl,
        IsBuilding-weaken d (suc (suc n)) z3.0 (λ i. In i z3.1 ⊎ ((i ≡ z2.1) ⊎ P i))
            (λ i. In i (z2.1 ∷ z3.1) ⊎ P i) (λ i. gather) (λ i. scatter) built3,
        λ i m e. extends3 i m (extends2 i m (extends1 i m e)),
        halved (length z3.1) (length rest) (length (take (suc (suc n)) whole)) (length whole) n half
            parts (group_some n x current) ends,
        inr (omega arith),
      )

  pub build_levels-IsBuilding :
      (fuel level : ℕ) (current : List ℕ) (b : Building)
      → 1 ≤ length current
      → length current ≤ suc fuel
      → IsBuilding d (suc (suc n)) b (λ i. In i current ⊎ ⊥)
      → (z : Building × ℕ) × (build_levels d (suc (suc n)) fuel level current b ≡ some z)
        × IsBuilding d (suc (suc n)) z.0 (λ i. i ≡ z.1)
        × Extends b z.0
  unfolding build_levels
  build_levels-IsBuilding fuel level [] b some_node enough v = absurd (omega (arith, some_node))
  build_levels-IsBuilding fuel level (root ∷ []) b some_node enough v = (
    (b, root),
    refl,
    IsBuilding-weaken d (suc (suc n)) b (λ i. In i (root ∷ []) ⊎ ⊥) (λ i. i ≡ root) (λ i. only)
        (λ i e. inl (inl e)) v,
    λ i m e. e,
  )
  build_levels-IsBuilding zero level (x ∷ y ∷ current) b some_node enough v =
      absurd (omega (arith, enough))
  build_levels-IsBuilding (suc fuel) level (x ∷ y ∷ current) b some_node enough v =
      let width = length (x ∷ y ∷ current) in
      let (z, done, built, extends, half, some_next) =
        build_groups-IsBuilding width level width 0 0 (x ∷ y ∷ current) b (λ i. ⊥) (omega arith)
          v in
      let (z', done', built', extends') =
        build_levels-IsBuilding fuel (suc level) z.1 z.0
          (at_least (length current) (length z.1) some_next) (omega (arith, half, enough)) built in
      (z', rw (done, done') refl, built', λ i m e. extends' i m (extends i m e))
