-- ===== src/SnapshotStore/Counts.antt =====
-- Code/SnapshotStorage: the rows that meet a condition, and how an UPDATE changes their number.
use hybrid_blockchain_for_re.Prelude.{
  ◌+◌, ◌≤◌, ◌≡◌, refl, ap, sym, ◌∙◌, Bool, true, false, Option, none, some, [], ◌∷◌, map, Text, All,
  arith, if◌then◌else◌, Bool-cases, inl, inr,
}
use hybrid_blockchain_for_re.SnapshotStore.{SnapshotRecord, Rows}
use hybrid_blockchain_for_re.SnapshotStore.Table.{has_id, any, count, row_with_id}

abbrev Test : Type 0
Test = SnapshotRecord → Bool

pub All-every :
    (P : SnapshotRecord → Type 0) → ((r : SnapshotRecord) → P r) → (rows : Rows) → All P rows
All-every P h [] = tt
All-every P h (r ∷ rows) = (h r, All-every P h rows)

pub All-weaken :
    (P Q : SnapshotRecord → Type 0)
    → ((r : SnapshotRecord) → P r → Q r)
    → (rows : Rows) → All P rows
    → All Q rows
All-weaken P Q h [] a = tt
All-weaken P Q h (r ∷ rows) a = (h r a.0, All-weaken P Q h rows a.1)

pub All-map_rows :
    (P Q : SnapshotRecord → Type 0) (g : SnapshotRecord → SnapshotRecord)
    → ((r : SnapshotRecord) → P r → Q (g r))
    → (rows : Rows) → All P rows
    → All Q (map g rows)
All-map_rows P Q g h [] a = tt
All-map_rows P Q g h (r ∷ rows) a = (h r a.0, All-map_rows P Q g h rows a.1)

pub All-apply :
    (P Q : SnapshotRecord → Type 0) (rows : Rows)
    → All (λ r. P r → Q r) rows
    → All P rows
    → All Q rows
All-apply P Q [] f a = tt
All-apply P Q (r ∷ rows) f a = (f.0 a.0, All-apply P Q rows f.1 a.1)

pub count-le :
    (p q : Test) (rows : Rows)
    → All (λ r. p r ≡ true → q r ≡ true) rows
    → count p rows ≤ count q rows
unfolding count
count-le p q [] h = omega arith
count-le p q (r ∷ rows) h = elim (Bool-cases (p r)) [
  | inl yes_p ↦ rw (yes_p, h.0 yes_p) (omega (arith, count-le p q rows h.1))
  | inr no_p ↦ rw no_p (omega (arith, count-le p q rows h.1))
]

pub count-map :
    (p : Test) (g : SnapshotRecord → SnapshotRecord) (rows : Rows)
    → count p (map g rows) ≡ count (λ r. p (g r)) rows
unfolding count
count-map p g [] = refl
count-map p g (r ∷ rows) = ap (λ n. (if p (g r) then 1 else 0) + n) (count-map p g rows)

pub any_false→All : (p : Test) (rows : Rows) → any p rows ≡ false → All (λ r. p r ≡ false) rows
unfolding any
any_false→All p [] e = tt
any_false→All p (r ∷ rows) e = elim (Bool-cases (p r)) [
  | inl yes_p ↦ absurd (let bad = rw yes_p at e in cc bad)
  | inr no_p ↦ (no_p, any_false→All p rows (rw no_p at e))
]

pub count-none : (p : Test) (rows : Rows) → All (λ r. p r ≡ false) rows → count p rows ≡ 0
unfolding count
count-none p [] h = refl
count-none p (r ∷ rows) h = rw (h.0) (omega (arith, count-none p rows h.1))

pub count_zero→All : (p : Test) (rows : Rows) → count p rows ≤ 0 → All (λ r. p r ≡ false) rows
unfolding count
count_zero→All p [] h = tt
count_zero→All p (r ∷ rows) h = elim (Bool-cases (p r)) [
  | inl yes_p ↦ absurd (let bad = rw yes_p at h in omega (arith, bad))
  | inr no_p ↦ (no_p, count_zero→All p rows (let less = rw no_p at h in omega (arith, less)))
]

-- The row that is read is the only one with the id.
pub read-only :
    (rows : Rows) (id : Text) (r : SnapshotRecord)
    → count (has_id id) rows ≤ 1
    → row_with_id rows id ≡ some r
    → All (λ x. has_id id x ≡ true → x ≡ r) rows
unfolding count row_with_id
read-only [] id r h e = tt
read-only (x ∷ rows) id r h e = elim (Bool-cases (has_id id x)) [
  | inl here ↦
      let found : ◌≡◌ {A = Option SnapshotRecord} (some x) (some r) = rw here at e in
      let same : x ≡ r = cc found in
      let rest = count_zero→All (has_id id) rows (let less = rw here at h in omega (arith, less)) in
      (
        λ _. same,
        All-weaken (λ y. has_id id y ≡ false) (λ y. has_id id y ≡ true → y ≡ r)
            (λ y absent present. absurd (let a = absent in let b = present in cc (a, b))) rows rest,
      )
  | inr other ↦ (
    λ present. absurd (let a = other in let b = present in cc (a, b)),
    read-only rows id r (let less = rw other at h in omega (arith, less)) (rw other at e),
  )
]

pub read-has_id :
    (rows : Rows) (id : Text) (r : SnapshotRecord)
    → row_with_id rows id ≡ some r
    → has_id id r ≡ true
unfolding row_with_id
read-has_id [] id r e = absurd (let bad = e in cc bad)
read-has_id (x ∷ rows) id r e = elim (Bool-cases (has_id id x)) [
  | inl here ↦
      let found : ◌≡◌ {A = Option SnapshotRecord} (some x) (some r) = rw here at e in
      let same : x ≡ r = cc found in ap (has_id id) (sym same) ∙ here
  | inr other ↦ read-has_id rows id r (rw other at e)
]

pub read-none :
    (rows : Rows) (id : Text) → row_with_id rows id ≡ none → All (λ r. has_id id r ≡ false) rows
unfolding row_with_id
read-none [] id e = tt
read-none (x ∷ rows) id e = elim (Bool-cases (has_id id x)) [
  | inl here ↦ absurd (let bad = rw here at e in cc bad)
  | inr other ↦ (other, read-none rows id (rw other at e))
]
