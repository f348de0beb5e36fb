-- ===== src/SnapshotStore/Updates.antt =====
-- Code/SnapshotStorage: what the UPDATE statements do to one row.
use hybrid_blockchain_for_re.Prelude.{
  ◌≡◌, ◌≢◌, refl, ap, sym, ◌∙◌, Bool, true, false, not, ◌&&◌, ◌||◌, Text, text_eq, text_eq→eq,
  text_eq-ne, text_eq_refl, arith, if◌then◌else◌, Bool-cases, inl, inr,
}
use hybrid_blockchain_for_re.SnapshotStore.{SnapshotRecord, SnapshotState, superseded, invalidated}
use hybrid_blockchain_for_re.SnapshotStore.Table.{
  has_id, is_active, active_in, preview_in, with_state, published,
}

abbrev Test : Type 0
Test = SnapshotRecord → Bool

pub has_id-with_state :
    (p : Test) (s : SnapshotState) (i : Text) (r : SnapshotRecord)
    → has_id i (if p r then with_state s r else r) ≡ has_id i r
unfolding has_id
has_id-with_state p s i r = ground arith

pub batch-with_state :
    (p : Test) (s : SnapshotState) (r : SnapshotRecord)
    → (if p r then with_state s r else r).batch_id ≡ r.batch_id
batch-with_state p s r = ground arith

pub has_id-published :
    (p : Test) (v : SnapshotRecord) (i : Text) (r : SnapshotRecord)
    → has_id i (if p r then published v r else r) ≡ has_id i r
unfolding has_id
has_id-published p v i r = ground arith

pub has_id→eq : (i : Text) (r : SnapshotRecord) → has_id i r ≡ true → r.snapshot_id ≡ i
unfolding has_id
has_id→eq i r e = text_eq→eq r.snapshot_id i e

-- A row is active in one batch.
pub active_in-batch : (b : Text) (r : SnapshotRecord) → active_in b r ≡ true → r.batch_id ≡ b
unfolding active_in
active_in-batch b r e = ground (arith, text_eq→eq r.batch_id b)

pub active_in-state :
    (b : Text) (r : SnapshotRecord) → active_in b r ≡ true → is_active r.state ≡ true
unfolding active_in
active_in-state b r e = ground (arith, e)

pub active_in-other : (b : Text) (r : SnapshotRecord) → r.batch_id ≢ b → active_in b r ≡ false
unfolding active_in
active_in-other b r e = ground (arith, text_eq-ne r.batch_id b)

pub active_in-here :
    (b : Text) (r : SnapshotRecord)
    → r.batch_id ≡ b
    → is_active r.state ≡ true
    → active_in b r ≡ true
unfolding active_in
active_in-here b r e act =
    rw act (ground (arith, ap (text_eq r.batch_id) e, text_eq_refl r.batch_id))

pub active_in-inactive :
    (b : Text) (r : SnapshotRecord) → is_active r.state ≡ false → active_in b r ≡ false
unfolding active_in
active_in-inactive b r e = rw e (ground arith)

-- The UPDATE of mark_published, for a batch of its own and for another.
pub supersede_active_rows-inside :
    (b id : Text) (r : SnapshotRecord)
    → has_id id r ≡ false
    → active_in b (if active_in b r && not (has_id id r) then with_state superseded r else r)
      ≡ false
unfolding active_in
supersede_active_rows-inside b id r e = ground arith

pub supersede_active_rows-outside :
    (b c id : Text) (r : SnapshotRecord)
    → b ≢ c
    → let r' = if active_in b r && not (has_id id r) then with_state superseded r else r in
      (active_in c r' ≡ active_in c r) × (active_in c r ≡ true → r' ≡ r)
unfolding active_in
supersede_active_rows-outside b c id r ne = elim (Bool-cases (text_eq r.batch_id b)) [
  | inl here ↦
      let at_b = text_eq→eq r.batch_id b here in
      let other : text_eq r.batch_id c ≡ false = text_eq-ne r.batch_id c (λ e. ne (sym at_b ∙ e)) in
      (ground (arith, other), λ e. absurd (ground (arith, other, e)))
  | inr there ↦ (rw there refl, λ e. rw there refl)
]

pub supersede_active_rows-same :
    (b id : Text) (r : SnapshotRecord)
    → has_id id r ≡ true
    → (if active_in b r && not (has_id id r) then with_state superseded r else r) ≡ r
supersede_active_rows-same b id r e = ground arith

-- The UPDATE of save_preview makes no active row and no inactive one.
pub supersede_preview_rows-active :
    (b c id : Text) (r : SnapshotRecord)
    → let r' = if preview_in b r && not (has_id id r) then with_state superseded r else r in
      (active_in c r' ≡ active_in c r) × (active_in c r ≡ true → r' ≡ r)
unfolding active_in preview_in
supersede_preview_rows-active b c id r = (ground arith, λ e. ground (arith, e))

pub invalidate_rows-inside :
    (b : Text) (r : SnapshotRecord)
    → active_in b (if active_in b r || preview_in b r then with_state invalidated r else r) ≡ false
unfolding active_in preview_in
invalidate_rows-inside b r = ground arith

pub invalidate_rows-outside :
    (b c : Text) (r : SnapshotRecord)
    → b ≢ c
    → let r' = if active_in b r || preview_in b r then with_state invalidated r else r in
      (active_in c r' ≡ active_in c r) × (active_in c r ≡ true → r' ≡ r)
unfolding active_in preview_in
invalidate_rows-outside b c r ne = elim (Bool-cases (text_eq r.batch_id b)) [
  | inl here ↦
      let at_b = text_eq→eq r.batch_id b here in
      let other : text_eq r.batch_id c ≡ false = text_eq-ne r.batch_id c (λ e. ne (sym at_b ∙ e)) in
      (ground (arith, other), λ e. absurd (ground (arith, other, e)))
  | inr there ↦ (rw there refl, λ e. rw there refl)
]
