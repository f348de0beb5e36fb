-- ===== src/SnapshotStore/Lookups.antt =====
-- Code/SnapshotStorage: what `ORDER BY revision DESC LIMIT 1` finds after an UPDATE.
use hybrid_blockchain_for_re.Prelude.{
  ◌≤◌, ◌≡◌, refl, ap, ◌∙◌, Bool, true, false, none, some, [], ◌∷◌, map, All, arith, Bool-cases, inl,
  inr,
}
use hybrid_blockchain_for_re.SnapshotStore.{SnapshotRecord, Rows}
use hybrid_blockchain_for_re.SnapshotStore.Table.{count, newest, newer_of}

abbrev Test : Type 0
Test = SnapshotRecord → Bool

pub newest-none : (p : Test) (rows : Rows) → All (λ r. p r ≡ false) rows → newest p rows ≡ none
unfolding newest
newest-none p [] h = refl
newest-none p (r ∷ rows) h = rw (h.0) (newest-none p rows h.1)

-- An UPDATE that touches no row of the condition.
pub newest-map :
    (p : Test) (g : SnapshotRecord → SnapshotRecord) (rows : Rows)
    → All (λ r. (p (g r) ≡ p r) × (p r ≡ true → g r ≡ r)) rows
    → newest p (map g rows) ≡ newest p rows
unfolding newest
newest-map p g [] h = refl
newest-map p g (r ∷ rows) h = elim (Bool-cases (p r)) [
  | inl yes_p ↦
      rw (h.0.0, yes_p)
        (ap some (
          ap (λ x. newer_of x (newest p (map g rows))) (h.0.1 yes_p)
          ∙ ap (newer_of r) (newest-map p g rows h.1)))
  | inr no_p ↦ rw (h.0.0, no_p) (newest-map p g rows h.1)
]

newer_of_self : (r : SnapshotRecord) → newer_of r (some r) ≡ r
unfolding newer_of
newer_of_self r = ground arith

newer_of-none : (r : SnapshotRecord) → newer_of r none ≡ r
unfolding newer_of
newer_of-none r = refl

newest-none_or :
    (p : Test) (r : SnapshotRecord) (rows : Rows)
    → All (λ x. p x ≡ true → x ≡ r) rows
    → newer_of r (newest p rows) ≡ r
unfolding newest
newest-none_or p r [] h = newer_of-none r
newest-none_or p r (x ∷ rows) h = elim (Bool-cases (p x)) [
  | inl yes_p ↦ rw yes_p (
      ap (λ y. newer_of r (some y))
        (ap (λ y. newer_of y (newest p rows)) (h.0 yes_p) ∙ newest-none_or p r rows h.1)
      ∙ newer_of_self r)
  | inr no_p ↦ rw no_p (newest-none_or p r rows h.1)
]

-- All rows of the condition are one row.
pub newest-only :
    (p : Test) (r : SnapshotRecord) (rows : Rows)
    → All (λ x. p x ≡ true → x ≡ r) rows
    → 1 ≤ count p rows
    → newest p rows ≡ some r
unfolding newest count
newest-only p r [] h c = absurd (omega arith)
newest-only p r (x ∷ rows) h c = elim (Bool-cases (p x)) [
  | inl yes_p ↦
      rw yes_p
        (ap some (ap (λ y. newer_of y (newest p rows)) (h.0 yes_p) ∙ newest-none_or p r rows h.1))
  | inr no_p ↦ rw no_p (newest-only p r rows h.1 (let less = rw no_p at c in omega (arith, less)))
]
