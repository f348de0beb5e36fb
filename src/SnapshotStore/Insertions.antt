-- ===== src/SnapshotStore/Insertions.antt =====
-- Code/SnapshotStorage/src/snapshot_storage.cpp: an insertion and the changes of states keep the table well
-- formed.
use hybrid_blockchain_for_re.Prelude.{
  ◌≤◌, ◌≡◌, refl, ap, sym, subst, ◌∙◌, Bool, true, false, not, ◌&&◌, ◌||◌, some, ◌∷◌, map, Text,
  All, arith, if◌then◌else◌, Bool-cases, inl, inr,
}
use hybrid_blockchain_for_re.SnapshotStore.{
  SnapshotState, SnapshotRecord, Rows, superseded, invalidated,
}
use hybrid_blockchain_for_re.SnapshotStore.Table.{
  has_id, is_active, active_in, preview_in, any, count, with_state, insert_row,
  supersede_active_rows, supersede_preview_rows, invalidate_rows,
}
use hybrid_blockchain_for_re.SnapshotStore.Counts.{
  All-every, All-weaken, count-le, count-map, count-none, any_false→All,
}
use hybrid_blockchain_for_re.SnapshotStore.Updates.{
  has_id→eq, has_id-with_state, active_in-batch, active_in-state, active_in-inactive,
}
use hybrid_blockchain_for_re.SnapshotStore.Activation.{insert_row-some, inactive_rest}

-- No two rows have one id, and no two active rows are in one batch.
pub record IsTable (rows : Rows) : Type 0 where
  pub ids : (i : Text) → count (has_id i) rows ≤ 1
  pub actives : (b : Text) → count (active_in b) rows ≤ 1

-- An UPDATE of which every row keeps its id and none becomes active.
abbrev pub Calm : (SnapshotRecord → SnapshotRecord) → SnapshotRecord → Type 0
Calm g r =
    ((i : Text) → has_id i (g r) ≡ true → has_id i r ≡ true)
    × ((b : Text) → active_in b (g r) ≡ true → active_in b r ≡ true)

pub count-map_le :
    (p q : SnapshotRecord → Bool) (g : SnapshotRecord → SnapshotRecord) (rows : Rows)
    → All (λ r. p (g r) ≡ true → q r ≡ true) rows
    → count p (map g rows) ≤ count q rows
count-map_le p q g rows h = rw (count-map p g rows) (count-le (λ r. p (g r)) q rows h)

pub IsTable-map :
    (g : SnapshotRecord → SnapshotRecord) (rows : Rows)
    → All (Calm g) rows
    → IsTable rows
    → IsTable (map g rows)
IsTable-map g rows calm t = record {
  ids = λ i.
      let less = count-map_le (has_id i) (has_id i) g rows (
        All-weaken (Calm g) (λ r. has_id i (g r) ≡ true → has_id i r ≡ true) (λ r h. h.0 i) rows
          calm) in
      let at_most = t.ids i in omega arith;
  actives = λ b.
      let less = count-map_le (active_in b) (active_in b) g rows (
        All-weaken (Calm g) (λ r. active_in b (g r) ≡ true → active_in b r ≡ true) (λ r h. h.1 b)
          rows calm) in
      let at_most = t.actives b in omega arith;
}

Calm-with_state :
    (p : SnapshotRecord → Bool) (s : SnapshotState) (r : SnapshotRecord)
    → is_active s ≡ false
    → Calm (λ x. if p x then with_state s x else x) r
Calm-with_state p s r idle = (
  λ i e. sym (has_id-with_state p s i r) ∙ e,
  λ c e. elim (Bool-cases (p r)) [
    | inl changed ↦ absurd (
        let no_more = active_in-inactive c (with_state s r) idle in
        let still = rw changed at e in cc (no_more, still))
    | inr kept ↦ rw kept at e
  ],
)

IsTable-with_state :
    (p : SnapshotRecord → Bool) (s : SnapshotState) (rows : Rows)
    → is_active s ≡ false
    → IsTable rows
    → IsTable (map (λ x. if p x then with_state s x else x) rows)
IsTable-with_state p s rows idle =
    IsTable-map (λ x. if p x then with_state s x else x) rows
      (All-every (Calm (λ x. if p x then with_state s x else x)) (λ r. Calm-with_state p s r idle)
        rows)

pub IsTable-supersede_active_rows :
    (rows : Rows) (b id : Text) → IsTable rows → IsTable (supersede_active_rows rows b id)
unfolding supersede_active_rows
IsTable-supersede_active_rows rows b id =
    IsTable-with_state (λ r. active_in b r && not (has_id id r)) superseded rows refl

pub IsTable-supersede_preview_rows :
    (rows : Rows) (b id : Text) → IsTable rows → IsTable (supersede_preview_rows rows b id)
unfolding supersede_preview_rows
IsTable-supersede_preview_rows rows b id =
    IsTable-with_state (λ r. preview_in b r && not (has_id id r)) superseded rows refl

pub IsTable-invalidate_rows :
    (rows : Rows) (b : Text) → IsTable rows → IsTable (invalidate_rows rows b)
unfolding invalidate_rows
IsTable-invalidate_rows rows b =
    IsTable-with_state (λ r. active_in b r || preview_in b r) invalidated rows refl

-- A new row, where no row has its id; no row of its batch is active if it is.
IsTable-insert :
    (rows : Rows) (r : SnapshotRecord)
    → any (has_id r.snapshot_id) rows ≡ false
    → (is_active r.state ≡ true → All (λ x. active_in r.batch_id x ≡ false) rows)
    → IsTable rows
    → IsTable (r ∷ rows)
unfolding count
IsTable-insert rows r fresh alone t = record {
  ids = λ i. elim (Bool-cases (has_id i r)) [
    | inl here ↦
        let none_left =
          count-none (has_id r.snapshot_id) rows
            (any_false→All (has_id r.snapshot_id) rows fresh) in
        let at_i = ap (λ k. count (has_id k) rows) (has_id→eq i r here) in
        rw here (omega (arith, none_left, at_i))
    | inr other ↦ rw other (omega (arith, t.ids i))
  ];
  actives = λ b. elim (Bool-cases (active_in b r)) [
    | inl here ↦
        let idle = count-none (active_in r.batch_id) rows (alone (active_in-state b r here)) in
        let at_b = ap (λ k. count (active_in k) rows) (active_in-batch b r here) in
        rw here (omega (arith, idle, at_b))
    | inr other ↦ rw other (omega (arith, t.actives b))
  ];
}

pub insert-preview_IsTable :
    (rows rows' : Rows) (r : SnapshotRecord) (b id : Text)
    → is_active r.state ≡ false
    → insert_row (supersede_preview_rows rows b id) r ≡ some rows'
    → IsTable rows
    → IsTable rows'
insert-preview_IsTable rows rows' r b id idle e t =
    let (fresh, split) = insert_row-some (supersede_preview_rows rows b id) rows' r e in
    subst IsTable split (
      IsTable-insert (supersede_preview_rows rows b id) r fresh
        (λ act. absurd (let i = idle in let a = act in cc (i, a)))
        (IsTable-supersede_preview_rows rows b id t))

pub insert-published_IsTable :
    (rows rows' : Rows) (r : SnapshotRecord)
    → insert_row (supersede_active_rows rows r.batch_id r.snapshot_id) r ≡ some rows'
    → IsTable rows
    → IsTable rows'
insert-published_IsTable rows rows' r e t =
    let (fresh, split) =
      insert_row-some (supersede_active_rows rows r.batch_id r.snapshot_id) rows' r e in
    subst IsTable split (
      IsTable-insert (supersede_active_rows rows r.batch_id r.snapshot_id) r fresh
        (λ _. inactive_rest rows r.batch_id r.snapshot_id fresh)
        (IsTable-supersede_active_rows rows r.batch_id r.snapshot_id t))
