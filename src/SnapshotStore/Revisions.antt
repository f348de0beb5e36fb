-- ===== src/SnapshotStore/Revisions.antt =====
-- Code/SnapshotStorage/src/snapshot_storage.cpp: the revision of a new row, as it is read by sqlite3_column_int.
use hybrid_blockchain_for_re.Prelude.{
  ℤ, pos, negsuc, pos_part, eqb_ℤ, ltb_ℤ, ltb, suc, ℕ, ◌+◌, ◌%◌, ◌<◌, ◌≤◌, ◌≡◌, refl, ap, subst,
  sym, ◌∙◌, true, false, Option, none, some, [], ◌∷◌, Text, text_eq, All, arith, Bool-cases, inl,
  inr,
}
use hybrid_blockchain_for_re.SnapshotStore.{SnapshotRecord, Rows}
use hybrid_blockchain_for_re.SnapshotStore.Table.{
  at_revision, larger, max_revision, after_revision, column_int,
}

-- The revision is a natural number that an int holds with its successor.
abbrev pub IsCounted : ℤ → Type 0
IsCounted n = (k : ℕ) × (n ≡ pos k) × (k < 2147483647)

abbrev pub IsTop : Option ℤ → Type 0
IsTop none = Unit {0}
IsTop (some n) = IsCounted n

abbrev pub top_of : Option ℤ → ℕ
top_of none = 0
top_of (some n) = pos_part n

larger-IsTop : (n : ℤ) (m : Option ℤ) → IsCounted n → IsTop m → IsTop (larger n m)
larger-IsTop n none h g = h
larger-IsTop n (some m) h g = elim (Bool-cases (ltb_ℤ m n)) [
  | inl more ↦ rw more h
  | inr less ↦ rw less g
]

pub max_revision-IsTop :
    (rows : Rows) (b : Text) → All (λ r. IsCounted r.revision) rows → IsTop (max_revision rows b)
unfolding max_revision
max_revision-IsTop [] b h = tt
max_revision-IsTop (r ∷ rows) b h =
    let rest = max_revision-IsTop rows b h.1 in
    elim (Bool-cases (text_eq r.batch_id b)) [
      | inl own ↦ rw own (larger-IsTop r.revision (max_revision rows b) h.0 rest)
      | inr other ↦ rw other rest
    ]

column_int-pos : (k : ℕ) → k < 2147483648 → column_int (pos k) ≡ pos k
column_int-pos k h =
    let low : (k % 4294967296) ≡ k = omega arith in
    let small : ltb (k % 4294967296) 2147483648 ≡ true = ground (arith, low) in
    rw small (ap pos low)

pub column_int-top : (m : Option ℤ) → IsTop m → column_int (after_revision m) ≡ pos (top_of m + 1)
column_int-top none h = refl
column_int-top (some n) (k, is, small) =
    subst (λ n. column_int (after_revision (some n)) ≡ pos (top_of (some n) + 1)) (sym is)
      (column_int-pos (suc k) (omega arith) ∙ ap pos (omega arith))

larger-le :
    (n : ℤ) (m : Option ℤ) (t : ℕ)
    → IsCounted n
    → IsTop m
    → top_of (larger n m) ≤ t
    → (pos_part n ≤ t) × (top_of m ≤ t)
larger-le n none t h g le = (le, omega arith)
larger-le n (some m) t (k, is, _) (j, is', _) le =
    let at_pos : top_of (larger (pos k) (some (pos j))) ≤ t =
      subst (λ m. top_of (larger (pos k) (some m)) ≤ t) is'
        (subst (λ n. top_of (larger n (some m)) ≤ t) is le) in
    let two : (k ≤ t) × (j ≤ t) = ground (arith, at_pos) in (rw is two.0, rw is' two.1)

eqb_ℤ-above : (n : ℤ) (t : ℕ) → pos_part n ≤ t → eqb_ℤ n (pos (t + 1)) ≡ false
eqb_ℤ-above (pos k) t le = ground arith
eqb_ℤ-above (negsuc k) t le = refl

at_revision-above :
    (r : SnapshotRecord) (b : Text) (t : ℕ)
    → pos_part r.revision ≤ t
    → at_revision b (pos (t + 1)) r ≡ false
unfolding at_revision
at_revision-above r b t le = rw (eqb_ℤ-above r.revision t le) (ground arith)

-- No row of the batch has the next revision.
pub revisions-le :
    (rows : Rows) (b : Text) (t : ℕ)
    → All (λ r. IsCounted r.revision) rows
    → top_of (max_revision rows b) ≤ t
    → All (λ r. at_revision b (pos (t + 1)) r ≡ false) rows
unfolding max_revision at_revision
revisions-le [] b t h le = tt
revisions-le (r ∷ rows) b t h le = elim (Bool-cases (text_eq r.batch_id b)) [
  | inl own ↦
      let two =
        larger-le r.revision (max_revision rows b) t h.0 (max_revision-IsTop rows b h.1)
          (rw own at le) in
      (at_revision-above r b t two.0, revisions-le rows b t h.1 two.1)
  | inr other ↦ (rw other refl, revisions-le rows b t h.1 (rw other at le))
]
