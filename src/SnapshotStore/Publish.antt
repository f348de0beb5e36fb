-- ===== src/SnapshotStore/Publish.antt =====
-- Code/SnapshotStorage: the rows that mark_published writes, read as a map from batches to their
-- active snapshot.
use hybrid_blockchain_for_re.Prelude.{
  ◌≤◌, ◌≡◌, ◌≢◌, refl, ap, sym, ◌∙◌, true, false, not, ◌&&◌, some, map, Text, text_eq, text_eq→eq,
  text_eq_false→ne, All, arith, if◌then◌else◌, Bool-cases, inl, inr,
}
use hybrid_blockchain_for_re.SnapshotStore.{SnapshotRecord, Rows, superseded}
use hybrid_blockchain_for_re.SnapshotStore.Table.{
  has_id, is_active, active_in, count, active_row, with_state, published, update_publication_row,
  supersede_active_rows, row_with_id,
}
use hybrid_blockchain_for_re.SnapshotStore.Counts.{
  All-weaken, All-map_rows, count-le, count-map, read-only, read-has_id,
}
use hybrid_blockchain_for_re.SnapshotStore.Lookups.{newest-map, newest-only}
use hybrid_blockchain_for_re.SnapshotStore.Updates.{
  has_id-with_state, has_id→eq, active_in-here, active_in-other, supersede_active_rows-inside,
  supersede_active_rows-same,
}
use hybrid_blockchain_for_re.SnapshotStore.Activation.{
  put_active, active_row-supersede_active_rows, update_publication_row-some,
}

-- A row of the batch after the first UPDATE: it has the id, or it is not active.
abbrev pub Settled : Text → Text → SnapshotRecord → SnapshotRecord → Type 0
Settled b id old y = (has_id id y ≡ true → y ≡ old) × (has_id id y ≡ false → active_in b y ≡ false)

pub supersede_active_rows-Settled :
    (rows : Rows) (b id : Text) (old : SnapshotRecord)
    → All (λ x. has_id id x ≡ true → x ≡ old) rows
    → All (Settled b id old) (supersede_active_rows rows b id)
unfolding supersede_active_rows
supersede_active_rows-Settled rows b id old only =
    All-map_rows (λ x. has_id id x ≡ true → x ≡ old) (Settled b id old)
      (λ r. if active_in b r && not (has_id id r) then with_state superseded r else r)
      (λ x h.
        let same_id = has_id-with_state (λ r. active_in b r && not (has_id id r)) superseded id x in
        (
          λ e. supersede_active_rows-same b id x (sym same_id ∙ e) ∙ h (sym same_id ∙ e),
          λ e. supersede_active_rows-inside b id x (sym same_id ∙ e),
        ))
      rows only

module _ (rows : Rows) (id b : Text) (old r : SnapshotRecord)
    (settled : All (Settled b id old) rows) (at_b : old.batch_id ≡ b)
    (act : is_active r.state ≡ true) (whole : published r old ≡ r) where
  published_only :
      All
        (λ x. active_in b x ≡ true → x ≡ r)
        (map (λ x. if has_id id x then published r x else x) rows)
  published_only =
      All-map_rows (Settled b id old) (λ x. active_in b x ≡ true → x ≡ r)
        (λ x. if has_id id x then published r x else x)
        (λ y h. elim (Bool-cases (has_id id y)) [
          | inl here ↦ λ _. rw here (ap (published r) (h.0 here) ∙ whole)
          | inr other ↦ λ e. absurd (let a = h.1 other in let c = rw other at e in cc (a, c))
        ])
        rows settled

  published_active :
      count (has_id id) rows ≡ 1
      → 1 ≤ count (active_in b) (map (λ x. if has_id id x then published r x else x) rows)
  published_active one =
      rw (count-map (active_in b) (λ x. if has_id id x then published r x else x) rows) (
        omega (
          arith,
          count-le (has_id id) (λ x. active_in b (if has_id id x then published r x else x)) rows
              (All-weaken (Settled b id old)
                (λ x.
                  has_id id x ≡ true
                  → active_in b (if has_id id x then published r x else x) ≡ true)
                (λ y h here. rw here (
                  ap (λ x. active_in b (published r x)) (h.0 here)
                  ∙ ap (active_in b) whole
                  ∙ active_in-here b r (ap (λ x. x.batch_id) (sym whole) ∙ at_b) act))
                rows settled),
        ))

  published_found :
      count (has_id id) rows ≡ 1
      → active_row (map (λ x. if has_id id x then published r x else x) rows) b ≡ some r
  unfolding active_row
  published_found one =
      newest-only (active_in b) r (map (λ x. if has_id id x then published r x else x) rows)
        published_only (published_active one)

  published_others :
      (c : Text)
      → b ≢ c
      → active_row (map (λ x. if has_id id x then published r x else x) rows) c ≡ active_row rows c
  unfolding active_row
  published_others c ne =
      newest-map (active_in c) (λ x. if has_id id x then published r x else x) rows
        (All-weaken (Settled b id old)
          (λ y.
            let y' = if has_id id y then published r y else y in
            (active_in c y' ≡ active_in c y) × (active_in c y ≡ true → y' ≡ y))
          (λ y h. elim (Bool-cases (has_id id y)) [
            | inl here ↦
                let batch : y.batch_id ≡ b = ap (λ x. x.batch_id) (h.0 here) ∙ at_b in
                let away : y.batch_id ≢ c = λ e. ne (sym batch ∙ e) in
                let gone = active_in-other c y away in
                let gone' = active_in-other c (published r y) away in
                (rw here (gone' ∙ sym gone), λ e. absurd (let a = gone in let z = e in cc (a, z)))
            | inr other ↦ (rw other refl, λ e. rw other refl)
          ])
          rows settled)

-- The row that has the id, which is in the batch.
pub update-published :
    (rows rows' : Rows) (id b : Text) (old r : SnapshotRecord)
    → count (has_id id) rows ≤ 1
    → row_with_id rows id ≡ some old
    → old.batch_id ≡ b
    → is_active r.state ≡ true
    → r.snapshot_id ≡ old.snapshot_id
    → published r old ≡ r
    → update_publication_row (supersede_active_rows rows b id) r ≡ some rows'
    → (c : Text) → active_row rows' c ≡ put_active rows b (some r) c
update-published rows rows' id b old r unique found at_b act same_id whole e c =
    let own = same_id ∙ has_id→eq id old (read-has_id rows id old found) in
    let (one, split) =
      update_publication_row-some (supersede_active_rows rows b id) rows' r id own e in
    let settled =
      supersede_active_rows-Settled rows b id old (read-only rows id old unique found) in
    ap (λ l. active_row l c) (sym split) ∙ elim (Bool-cases (text_eq b c)) [
      | inl here ↦
          let same = text_eq→eq b c here in
          rw here (
            ap
              (active_row (
                map (λ x. if has_id id x then published r x else x)
                  (supersede_active_rows rows b id)))
              (sym same)
            ∙ published_found (supersede_active_rows rows b id) id b old r settled at_b act whole
                one)
      | inr other ↦
          let ne = text_eq_false→ne b c other in
          rw other (
            published_others (supersede_active_rows rows b id) id b old r settled at_b act whole c
              ne
            ∙ active_row-supersede_active_rows rows b c id ne)
    ]
