-- ===== src/SnapshotStore/Unique.antt =====
-- Code/SnapshotStorage: the key and the active rows of the table, over the statements that write it.
use hybrid_blockchain_for_re.Prelude.{
  ◌≡◌, ◌≢◌, ap, sym, subst, ◌∙◌, true, false, some, map, Text, text_eq, text_eq→eq,
  text_eq_false→ne, All, arith, if◌then◌else◌, Bool-cases, inl, inr,
}
use hybrid_blockchain_for_re.SnapshotStore.{SnapshotRecord, Rows}
use hybrid_blockchain_for_re.SnapshotStore.Table.{
  has_id, is_active, active_in, count, published, cleared, update_preview_row,
  update_publication_row, supersede_active_rows, supersede_preview_rows, row_with_id,
}
use hybrid_blockchain_for_re.SnapshotStore.Counts.{All-every, All-weaken, read-only, read-has_id}
use hybrid_blockchain_for_re.SnapshotStore.Updates.{
  has_id→eq, has_id-published, active_in-other, active_in-inactive,
}
use hybrid_blockchain_for_re.SnapshotStore.Activation.{update_publication_row-some}
use hybrid_blockchain_for_re.SnapshotStore.Publish.{Settled, supersede_active_rows-Settled}
use hybrid_blockchain_for_re.SnapshotStore.Previews.{update_preview_row-some}
use hybrid_blockchain_for_re.SnapshotStore.Insertions.{
  IsTable, Calm, count-map_le, IsTable-map, IsTable-supersede_active_rows,
  IsTable-supersede_preview_rows,
}

Calm-cleared :
    (r : SnapshotRecord) (id : Text) (x : SnapshotRecord)
    → r.snapshot_id ≡ id
    → is_active r.state ≡ false
    → Calm (λ y. if has_id id y then cleared r else y) x
Calm-cleared r id x same idle = elim (Bool-cases (has_id id x)) [
  | inl here ↦ (
    λ i e.
        let eq : r.snapshot_id ≡ i = has_id→eq i (cleared r) (rw here at e) in
        subst (λ k. has_id k x ≡ true) (sym same ∙ eq) here,
    λ c e. absurd (
        let idle' = active_in-inactive c (cleared r) idle in
        let still = rw here at e in cc (idle', still)),
  )
  | inr other ↦ (λ i e. rw other at e, λ c e. rw other at e)
]

Settled-marked :
    (b id : Text) (old r x : SnapshotRecord)
    → Settled b id old x
    → active_in b (if has_id id x then published r x else x) ≡ true
    → has_id id x ≡ true
Settled-marked b id old r x h e = elim (Bool-cases (has_id id x)) [
  | inl here ↦ here
  | inr other ↦ absurd (let idle = h.1 other in let still = rw other at e in cc (idle, still))
]

Settled-elsewhere :
    (b id c : Text) (old r : SnapshotRecord)
    → old.batch_id ≡ b
    → b ≢ c
    → (x : SnapshotRecord) → Settled b id old x
    → active_in c (if has_id id x then published r x else x) ≡ true
    → active_in c x ≡ true
Settled-elsewhere b id c old r at_b ne x h e = elim (Bool-cases (has_id id x)) [
  | inl here ↦
      let batch : x.batch_id ≡ b = ap (λ y. y.batch_id) (h.0 here) ∙ at_b in
      let idle = active_in-other c (published r x) (λ f. ne (sym batch ∙ f)) in
      absurd (let still = rw here at e in cc (idle, still))
  | inr other ↦ rw other at e
]

IsTable-published :
    (rows : Rows) (id b : Text) (old r : SnapshotRecord)
    → All (Settled b id old) rows
    → old.batch_id ≡ b
    → IsTable rows
    → IsTable (map (λ x. if has_id id x then published r x else x) rows)
IsTable-published rows id b old r settled at_b t = record {
  ids = λ i.
      let less =
        count-map_le (has_id i) (has_id i) (λ x. if has_id id x then published r x else x) rows
          (All-every
            (λ x. has_id i (if has_id id x then published r x else x) ≡ true → has_id i x ≡ true)
            (λ x e. sym (has_id-published (has_id id) r i x) ∙ e) rows) in
      let at_most = t.ids i in omega arith;
  actives = λ c. elim (Bool-cases (text_eq b c)) [
    | inl here ↦
        let less =
          count-map_le (active_in b) (has_id id) (λ x. if has_id id x then published r x else x)
            rows
            (All-weaken (Settled b id old)
              (λ x.
                active_in b (if has_id id x then published r x else x) ≡ true → has_id id x ≡ true)
              (Settled-marked b id old r) rows settled) in
        let at_most = t.ids id in
        let at_c =
          ap (λ k. count (active_in k) (map (λ x. if has_id id x then published r x else x) rows))
            (text_eq→eq b c here) in
        omega (arith, at_c)
    | inr other ↦
        let less =
          count-map_le (active_in c) (active_in c) (λ x. if has_id id x then published r x else x)
            rows
            (All-weaken (Settled b id old)
              (λ x.
                active_in c (if has_id id x then published r x else x) ≡ true
                → active_in c x ≡ true)
              (Settled-elsewhere b id c old r at_b (text_eq_false→ne b c other)) rows settled) in
        let at_most = t.actives c in omega arith
  ];
}

pub update-preview_IsTable :
    (rows rows' : Rows) (r : SnapshotRecord) (b id : Text)
    → is_active r.state ≡ false
    → r.snapshot_id ≡ id
    → update_preview_row (supersede_preview_rows rows b id) r ≡ some rows'
    → IsTable rows
    → IsTable rows'
update-preview_IsTable rows rows' r b id idle same e t =
    subst IsTable (update_preview_row-some (supersede_preview_rows rows b id) rows' r id same e) (
      IsTable-map (λ x. if has_id id x then cleared r else x) (supersede_preview_rows rows b id)
        (All-every (Calm (λ x. if has_id id x then cleared r else x))
          (λ x. Calm-cleared r id x same idle) (supersede_preview_rows rows b id))
        (IsTable-supersede_preview_rows rows b id t))

pub update-published_IsTable :
    (rows rows' : Rows) (id b : Text) (old r : SnapshotRecord)
    → row_with_id rows id ≡ some old
    → old.batch_id ≡ b
    → r.snapshot_id ≡ old.snapshot_id
    → update_publication_row (supersede_active_rows rows b id) r ≡ some rows'
    → IsTable rows
    → IsTable rows'
update-published_IsTable rows rows' id b old r found at_b same e t =
    let own = same ∙ has_id→eq id old (read-has_id rows id old found) in
    let (one, split) =
      update_publication_row-some (supersede_active_rows rows b id) rows' r id own e in
    subst IsTable split (
      IsTable-published (supersede_active_rows rows b id) id b old r
        (supersede_active_rows-Settled rows b id old (read-only rows id old (t.ids id) found)) at_b
        (IsTable-supersede_active_rows rows b id t))
