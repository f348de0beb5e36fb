-- ===== src/SnapshotStore/Previews.antt =====
-- Code/SnapshotStorage: the rows that save_preview and invalidate_batch write, read as a map from
-- batches to their active snapshot.
use hybrid_blockchain_for_re.Prelude.{
  ◌≤◌, ◌≡◌, refl, ap, sym, ◌∙◌, Bool, true, false, not, ◌&&◌, ◌||◌, none, some, ◌∷◌, map, Text,
  text_eq, text_eq→eq, text_eq_false→ne, All, if◌then◌else◌, Bool-cases, inl, inr, subst,
}
use hybrid_blockchain_for_re.SnapshotStore.{SnapshotRecord, Rows, superseded, invalidated}
use hybrid_blockchain_for_re.SnapshotStore.Table.{
  has_id, is_active, active_in, preview_in, at_revision, any, count, newest, active_row, with_state,
  cleared, insert_row, update_preview_row, supersede_preview_rows, invalidate_rows, row_with_id,
}
use hybrid_blockchain_for_re.SnapshotStore.Counts.{All-every, All-map_rows, All-weaken, read-only}
use hybrid_blockchain_for_re.SnapshotStore.Lookups.{newest-none, newest-map}
use hybrid_blockchain_for_re.SnapshotStore.Updates.{
  has_id-with_state, active_in-inactive, supersede_preview_rows-active, invalidate_rows-inside,
  invalidate_rows-outside,
}
use hybrid_blockchain_for_re.SnapshotStore.Activation.{insert_row-some, put_active}

pub active_row-supersede_preview_rows :
    (rows : Rows) (b c id : Text)
    → active_row (supersede_preview_rows rows b id) c ≡ active_row rows c
unfolding active_row supersede_preview_rows
active_row-supersede_preview_rows rows b c id =
    newest-map (active_in c)
      (λ r. if preview_in b r && not (has_id id r) then with_state superseded r else r) rows
      (All-every
        (λ r.
          let r' = if preview_in b r && not (has_id id r) then with_state superseded r else r in
          (active_in c r' ≡ active_in c r) × (active_in c r ≡ true → r' ≡ r))
        (λ r. supersede_preview_rows-active b c id r) rows)

active_row-cons :
    (rows : Rows) (r : SnapshotRecord) (c : Text)
    → is_active r.state ≡ false
    → active_row (r ∷ rows) c ≡ active_row rows c
unfolding active_row newest
active_row-cons rows r c idle = rw (active_in-inactive c r idle) refl

pub insert-preview :
    (rows rows' : Rows) (r : SnapshotRecord) (b id : Text)
    → is_active r.state ≡ false
    → insert_row (supersede_preview_rows rows b id) r ≡ some rows'
    → (c : Text) → active_row rows' c ≡ active_row rows c
insert-preview rows rows' r b id idle e c =
    let (_, split) = insert_row-some (supersede_preview_rows rows b id) rows' r e in
    ap (λ l. active_row l c) (sym split)
    ∙ active_row-cons (supersede_preview_rows rows b id) r c idle
    ∙ active_row-supersede_preview_rows rows b c id

permitted :
    (a : Bool) (rows rows' : Rows) → (if a then none else some rows) ≡ some rows' → rows ≡ rows'
permitted true rows rows' e = absurd (let bad = e in cc bad)
permitted false rows rows' e = cc e

pub update_preview_row-some :
    (rows rows' : Rows) (r : SnapshotRecord) (id : Text)
    → r.snapshot_id ≡ id
    → update_preview_row rows r ≡ some rows'
    → map (λ x. if has_id id x then cleared r else x) rows ≡ rows'
unfolding update_preview_row
update_preview_row-some rows rows' r id same e =
    subst (λ i. map (λ x. if has_id i x then cleared r else x) rows ≡ rows') same
      (permitted
        (any (λ x. not (has_id r.snapshot_id x) && at_revision r.batch_id r.revision x) rows) _
        rows' e)

-- The rows with the id are not active.
abbrev pub Idle : Text → SnapshotRecord → Type 0
Idle id y = (c : Text) → has_id id y ≡ true → active_in c y ≡ false

pub supersede_preview_rows-Idle :
    (rows : Rows) (b id : Text) (old : SnapshotRecord)
    → is_active old.state ≡ false
    → All (λ x. has_id id x ≡ true → x ≡ old) rows
    → All (Idle id) (supersede_preview_rows rows b id)
unfolding supersede_preview_rows
supersede_preview_rows-Idle rows b id old idle only =
    All-map_rows (λ x. has_id id x ≡ true → x ≡ old) (Idle id)
      (λ r. if preview_in b r && not (has_id id r) then with_state superseded r else r)
      (λ x h c e.
        let here =
          sym (has_id-with_state (λ r. preview_in b r && not (has_id id r)) superseded id x) ∙ e in
        (supersede_preview_rows-active b c id x).0
        ∙ active_in-inactive c x (ap (λ y. is_active y.state) (h here) ∙ idle))
      rows only

All-Idle :
    (rows : Rows) (id : Text) (v : SnapshotRecord) (c : Text)
    → active_in c v ≡ false
    → All (Idle id) rows
    → All
        (λ y.
          let y' = if has_id id y then v else y in
          (active_in c y' ≡ active_in c y) × (active_in c y ≡ true → y' ≡ y))
        rows
All-Idle rows id v c idle all =
    All-weaken (Idle id)
      (λ y.
        let y' = if has_id id y then v else y in
        (active_in c y' ≡ active_in c y) × (active_in c y ≡ true → y' ≡ y))
      (λ y h. elim (Bool-cases (has_id id y)) [
        | inl here ↦
            let gone = h c here in
            (rw here (idle ∙ sym gone), λ e. absurd (let a = gone in let z = e in cc (a, z)))
        | inr other ↦ (rw other refl, λ e. rw other refl)
      ])
      rows all

pub update-preview :
    (rows rows' : Rows) (r old : SnapshotRecord) (b id : Text)
    → count (has_id id) rows ≤ 1
    → row_with_id rows id ≡ some old
    → is_active old.state ≡ false
    → is_active r.state ≡ false
    → r.snapshot_id ≡ id
    → update_preview_row (supersede_preview_rows rows b id) r ≡ some rows'
    → (c : Text) → active_row rows' c ≡ active_row rows c
unfolding active_row
update-preview rows rows' r old b id unique found idle idle' same e c =
    ap (newest (active_in c))
      (sym (update_preview_row-some (supersede_preview_rows rows b id) rows' r id same e))
    ∙ newest-map (active_in c) (λ x. if has_id id x then cleared r else x)
        (supersede_preview_rows rows b id)
        (All-Idle (supersede_preview_rows rows b id) id (cleared r) c
          (active_in-inactive c (cleared r) idle')
          (supersede_preview_rows-Idle rows b id old idle (read-only rows id old unique found)))
    ∙ active_row-supersede_preview_rows rows b c id

pub active_row-invalidate_rows :
    (rows : Rows) (b c : Text) → active_row (invalidate_rows rows b) c ≡ put_active rows b none c
unfolding active_row invalidate_rows
active_row-invalidate_rows rows b c = elim (Bool-cases (text_eq b c)) [
  | inl here ↦ rw here (
      ap (λ k. newest (active_in k) (invalidate_rows rows b)) (sym (text_eq→eq b c here))
      ∙ newest-none (active_in b) (invalidate_rows rows b) (
          All-map_rows (λ x. Unit {0}) (λ x. active_in b x ≡ false)
            (λ r. if active_in b r || preview_in b r then with_state invalidated r else r)
            (λ x _. invalidate_rows-inside b x) rows (All-every (λ x. Unit {0}) (λ x. tt) rows)))
  | inr other ↦ rw other (
      newest-map (active_in c)
        (λ r. if active_in b r || preview_in b r then with_state invalidated r else r) rows
        (All-every
          (λ r.
            let r' = if active_in b r || preview_in b r then with_state invalidated r else r in
            (active_in c r' ≡ active_in c r) × (active_in c r ≡ true → r' ≡ r))
          (λ r. invalidate_rows-outside b c r (text_eq_false→ne b c other)) rows))
]
