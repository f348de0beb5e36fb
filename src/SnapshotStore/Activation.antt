-- ===== src/SnapshotStore/Activation.antt =====
-- Code/SnapshotStorage/src/snapshot_storage.cpp: the active snapshots after the row of a publication is
-- inserted.
use hybrid_blockchain_for_re.Prelude.{
  ℕ, ◌≡◌, ◌≢◌, refl, ap, sym, subst, ◌∙◌, Bool, true, false, not, ◌&&◌, ◌||◌, Option, none, some,
  ◌∷◌, map, Text, text_eq, text_eq→eq, text_eq_false→ne, All, arith, ◌==◌, if◌then◌else◌,
  Bool-cases, inl, inr,
}
use hybrid_blockchain_for_re.SnapshotStore.{SnapshotRecord, Rows, superseded}
use hybrid_blockchain_for_re.SnapshotStore.Table.{
  has_id, is_active, active_in, at_revision, any, count, newest, newer_of, active_row, with_state,
  published, insert_row, update_publication_row, supersede_active_rows,
}
use hybrid_blockchain_for_re.SnapshotStore.Counts.{
  All-apply, All-every, All-map_rows, any_false→All,
}
use hybrid_blockchain_for_re.SnapshotStore.Lookups.{newest-none, newest-map}
use hybrid_blockchain_for_re.SnapshotStore.Updates.{
  has_id-with_state, active_in-here, active_in-other, supersede_active_rows-inside,
  supersede_active_rows-outside,
}

refusal :
    (a b : Bool) (rows rows' : Rows)
    → (if a || b then none else some rows) ≡ some rows'
    → (a ≡ false) × (rows ≡ rows')
refusal true b rows rows' e = absurd (let bad = e in cc bad)
refusal false true rows rows' e = absurd (let bad = e in cc bad)
refusal false false rows rows' e = (refl, cc e)

one_change :
    (n : ℕ) (rows rows' : Rows)
    → (if n == 1 then some rows else none) ≡ some rows'
    → (n ≡ 1) × (rows ≡ rows')
one_change n rows rows' e = elim (Bool-cases (n == 1)) [
  | inl one ↦
      let found : ◌≡◌ {A = Option Rows} (some rows) (some rows') = rw one at e in
      (ground (arith, one), cc found)
  | inr other ↦ absurd (let bad = rw other at e in cc bad)
]

-- The map from batches to active snapshots, with one entry changed.
abbrev pub put_active : Rows → Text → Option SnapshotRecord → Text → Option SnapshotRecord
put_active rows b value c = if text_eq b c then value else active_row rows c

pub active_row-supersede_active_rows :
    (rows : Rows) (b c id : Text)
    → b ≢ c
    → active_row (supersede_active_rows rows b id) c ≡ active_row rows c
unfolding active_row supersede_active_rows
active_row-supersede_active_rows rows b c id ne =
    newest-map (active_in c)
      (λ r. if active_in b r && not (has_id id r) then with_state superseded r else r) rows
      (All-every
        (λ r.
          let r' = if active_in b r && not (has_id id r) then with_state superseded r else r in
          (active_in c r' ≡ active_in c r) × (active_in c r ≡ true → r' ≡ r))
        (λ r. supersede_active_rows-outside b c id r ne) rows)

pub insert_row-some :
    (rows rows' : Rows) (r : SnapshotRecord)
    → insert_row rows r ≡ some rows'
    → (any (has_id r.snapshot_id) rows ≡ false) × (r ∷ rows ≡ rows')
unfolding insert_row
insert_row-some rows rows' r e =
    refusal (any (has_id r.snapshot_id) rows) (any (at_revision r.batch_id r.revision) rows)
      (r ∷ rows) rows' e

pub update_publication_row-some :
    (rows rows' : Rows) (r : SnapshotRecord) (id : Text)
    → r.snapshot_id ≡ id
    → update_publication_row rows r ≡ some rows'
    → (count (has_id id) rows ≡ 1)
      × (map (λ x. if has_id id x then published r x else x) rows ≡ rows')
unfolding update_publication_row
update_publication_row-some rows rows' r id same e =
    subst
      (λ i.
        (count (has_id i) rows ≡ 1)
        × (map (λ x. if has_id i x then published r x else x) rows ≡ rows'))
      same
      (one_change (count (has_id r.snapshot_id) rows)
        (map (λ x. if has_id r.snapshot_id x then published r x else x) rows) rows' e)

supersede_active_rows-inactive :
    (rows : Rows) (b id : Text)
    → All (λ x. has_id id x ≡ false → active_in b x ≡ false) (supersede_active_rows rows b id)
unfolding supersede_active_rows
supersede_active_rows-inactive rows b id =
    All-map_rows (λ x. Unit {0}) (λ x. has_id id x ≡ false → active_in b x ≡ false)
      (λ r. if active_in b r && not (has_id id r) then with_state superseded r else r)
      (λ x _ e.
        supersede_active_rows-inside b id x
          (sym (has_id-with_state (λ r. active_in b r && not (has_id id r)) superseded id x) ∙ e))
      rows (All-every (λ x. Unit {0}) (λ x. tt) rows)

pub inactive_rest :
    (rows : Rows) (b id : Text)
    → any (has_id id) (supersede_active_rows rows b id) ≡ false
    → All (λ x. active_in b x ≡ false) (supersede_active_rows rows b id)
inactive_rest rows b id e =
    All-apply (λ x. has_id id x ≡ false) (λ x. active_in b x ≡ false)
      (supersede_active_rows rows b id) (supersede_active_rows-inactive rows b id)
      (any_false→All (has_id id) (supersede_active_rows rows b id) e)

active_row-insert :
    (rows : Rows) (r : SnapshotRecord)
    → is_active r.state ≡ true
    → All
        (λ x. active_in r.batch_id x ≡ false)
        (supersede_active_rows rows r.batch_id r.snapshot_id)
    → (c : Text)
    → active_row (r ∷ supersede_active_rows rows r.batch_id r.snapshot_id) c
      ≡ put_active rows r.batch_id (some r) c
unfolding active_row newest newer_of
active_row-insert rows r act rest c = elim (Bool-cases (text_eq r.batch_id c)) [
  | inl here ↦
      let same = text_eq→eq r.batch_id c here in
      let mine = active_in-here c r same act in
      let none_left =
        newest-none (active_in c) (supersede_active_rows rows r.batch_id r.snapshot_id) (
          subst
            (λ b.
              All (λ x. active_in b x ≡ false)
                (supersede_active_rows rows r.batch_id r.snapshot_id))
            same rest) in
      rw (here, mine, none_left) refl
  | inr other ↦
      let ne = text_eq_false→ne r.batch_id c other in
      rw (other, active_in-other c r ne)
        (active_row-supersede_active_rows rows r.batch_id c r.snapshot_id ne)
]

-- A new record, where no row has its id.
pub insert-published :
    (rows rows' : Rows) (r : SnapshotRecord)
    → is_active r.state ≡ true
    → insert_row (supersede_active_rows rows r.batch_id r.snapshot_id) r ≡ some rows'
    → (c : Text) → active_row rows' c ≡ put_active rows r.batch_id (some r) c
insert-published rows rows' r act e c =
    let (fresh, split) =
      insert_row-some (supersede_active_rows rows r.batch_id r.snapshot_id) rows' r e in
    let rest = inactive_rest rows r.batch_id r.snapshot_id fresh in
    ap (λ l. active_row l c) (sym split) ∙ active_row-insert rows r act rest c
