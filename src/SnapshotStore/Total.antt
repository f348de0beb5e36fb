-- ===== src/SnapshotStore/Total.antt =====
-- Code/SnapshotStorage: mark_published succeeds where the calls of SQLite and of the file system do.
use hybrid_blockchain_for_re.Prelude.{
  ℤ, sym, subst, ℕ, ◌≤◌, ◌≡◌, refl, ap, ◌∙◌, Bool, true, false, not, ◌&&◌, Option, none, some, [],
  ◌∷◌, Text, All, arith, ◌>>=◌, ◌>>◌, guard, guard-true, if◌then◌else◌, Bool-cases, inl, inr, ◌==◌,
}
use hybrid_blockchain_for_re.SnapshotStore.{
  SnapshotPreview, SnapshotRecord, Rows, Store, Outcomes, superseded,
}
use hybrid_blockchain_for_re.SnapshotStore.Table.{
  has_id, active_in, at_revision, any, count, bind_text, bound, max_revision, next_revision,
  read_record_by_snapshot_id, supersede_active, with_state, insert_row, update_publication_row,
  supersede_active_rows, row_with_id, update_where, published,
}
use hybrid_blockchain_for_re.SnapshotStore.Drafts.{
  blank, filled, numbered, as_published, publication_complete,
}
use hybrid_blockchain_for_re.SnapshotStore.Methods.{
  store_publication, publication_transaction, finish_publication, mark_published,
}
use hybrid_blockchain_for_re.SnapshotStore.Counts.{
  All-map_rows, count-le, count-map, read-none, All-every,
}
use hybrid_blockchain_for_re.SnapshotStore.Updates.{has_id-with_state, has_id→eq}
use hybrid_blockchain_for_re.SnapshotStore.Counts.{read-has_id}
use hybrid_blockchain_for_re.SnapshotStore.Bindings.{bind_text_twice}
use hybrid_blockchain_for_re.SnapshotStore.Revisions.{
  IsCounted, top_of, max_revision-IsTop, column_int-top, revisions-le,
}
use hybrid_blockchain_for_re.SnapshotStore.Insertions.{IsTable, IsTable-supersede_active_rows}

-- Every call of SQLite and of the file system succeeds.
abbrev pub Works : Outcomes → Type 0
Works o =
    (o.opened ≡ true)
    × (o.begun ≡ true)
    × (o.found ≡ true)
    × (o.counted ≡ true)
    × (o.updated ≡ true)
    × (o.stored ≡ true)
    × (o.committed ≡ true)
    × (o.archived ≡ true)

All→any_false :
    (p : SnapshotRecord → Bool) (rows : Rows) → All (λ r. p r ≡ false) rows → any p rows ≡ false
unfolding any
All→any_false p [] h = refl
All→any_false p (r ∷ rows) h = rw (h.0) (All→any_false p rows h.1)

at_revision-with_state :
    (p : SnapshotRecord → Bool) (b : Text) (n : ℤ) (r : SnapshotRecord)
    → at_revision b n (if p r then with_state superseded r else r) ≡ at_revision b n r
unfolding at_revision
at_revision-with_state p b n r = ground arith

absent-supersede_active_rows :
    (rows : Rows) (b id : Text)
    → All (λ r. has_id id r ≡ false) rows
    → All (λ r. has_id id r ≡ false) (supersede_active_rows rows b id)
unfolding supersede_active_rows
absent-supersede_active_rows rows b id h =
    All-map_rows (λ r. has_id id r ≡ false) (λ r. has_id id r ≡ false)
      (λ r. if active_in b r && not (has_id id r) then with_state superseded r else r)
      (λ r e. has_id-with_state (λ r. active_in b r && not (has_id id r)) superseded id r ∙ e) rows
      h

unused-supersede_active_rows :
    (rows : Rows) (b c id : Text)
    → All (λ r. IsCounted r.revision) rows
    → All (λ r. at_revision c (next_revision rows c) r ≡ false) (supersede_active_rows rows b id)
unfolding supersede_active_rows next_revision
unused-supersede_active_rows rows b c id counted =
    let next = next_revision rows c in
    let above =
      subst (λ n. All (λ r. at_revision c n r ≡ false) rows)
        (sym (column_int-top (max_revision rows c) (max_revision-IsTop rows c counted)))
        (revisions-le rows c (top_of (max_revision rows c)) counted (omega arith)) in
    All-map_rows (λ r. at_revision c next r ≡ false) (λ r. at_revision c next r ≡ false)
      (λ r. if active_in b r && not (has_id id r) then with_state superseded r else r)
      (λ r e. at_revision-with_state (λ r. active_in b r && not (has_id id r)) c next r ∙ e) rows
      above

insert_row-fresh :
    (rows : Rows) (r : SnapshotRecord) (b id : Text)
    → All (λ r. IsCounted r.revision) rows
    → r.snapshot_id ≡ id
    → row_with_id rows id ≡ none
    → r.revision ≡ next_revision rows r.batch_id
    → insert_row (supersede_active_rows rows b id) r ≡ some (r ∷ supersede_active_rows rows b id)
unfolding insert_row
insert_row-fresh rows r b id counted own absent next =
    let new_id =
      ap (λ i. any (has_id i) (supersede_active_rows rows b id)) own
      ∙ All→any_false (has_id id) (supersede_active_rows rows b id)
          (absent-supersede_active_rows rows b id (read-none rows id absent)) in
    let new_revision =
      ap (λ n. any (at_revision r.batch_id n) (supersede_active_rows rows b id)) next
      ∙ All→any_false (at_revision r.batch_id (next_revision rows r.batch_id))
          (supersede_active_rows rows b id)
          (unused-supersede_active_rows rows b r.batch_id id counted) in
    rw (new_id, new_revision) refl

read-count :
    (rows : Rows) (id : Text) (r : SnapshotRecord)
    → row_with_id rows id ≡ some r
    → 1 ≤ count (has_id id) rows
unfolding row_with_id count
read-count [] id r e = absurd (let bad = e in cc bad)
read-count (x ∷ rows) id r e = elim (Bool-cases (has_id id x)) [
  | inl here ↦ rw here (omega arith)
  | inr other ↦ rw other (omega (arith, read-count rows id r (rw other at e)))
]

count-supersede_active_rows :
    (rows : Rows) (b id : Text)
    → count (has_id id) rows ≤ count (has_id id) (supersede_active_rows rows b id)
unfolding supersede_active_rows
count-supersede_active_rows rows b id =
    let g : SnapshotRecord → SnapshotRecord =
      λ r. if active_in b r && not (has_id id r) then with_state superseded r else r in
    rw (count-map (has_id id) g rows) (
      count-le (has_id id) (λ r. has_id id (g r)) rows
        (All-every (λ r. has_id id r ≡ true → has_id id (g r) ≡ true)
          (λ r e. has_id-with_state (λ r. active_in b r && not (has_id id r)) superseded id r ∙ e)
          rows))

==-one : (n : ℕ) → n ≡ 1 → (n == 1) ≡ true
==-one n e = ground arith

update_publication_row-one :
    (rows : Rows) (r old : SnapshotRecord) (b id : Text)
    → IsTable rows
    → r.snapshot_id ≡ id
    → row_with_id rows id ≡ some old
    → (rows' : Rows) × (update_publication_row (supersede_active_rows rows b id) r ≡ some rows')
unfolding update_publication_row
update_publication_row-one rows r old b id t own found =
    let most = (IsTable-supersede_active_rows rows b id t).ids id in
    let least = read-count rows id old found in
    let kept = count-supersede_active_rows rows b id in
    let one : (count (has_id r.snapshot_id) (supersede_active_rows rows b id) == 1) ≡ true =
      ap (λ i. count (has_id i) (supersede_active_rows rows b id) == 1) own
      ∙ ==-one (count (has_id id) (supersede_active_rows rows b id)) (omega arith) in
    (
      update_where (has_id r.snapshot_id) (published r) (supersede_active_rows rows b id),
      rw one refl,
    )

both : (a b : Bool) → a ≡ true → b ≡ true → (a && b) ≡ true
both a b e f = ground arith

all_three : (a b c : Bool) → a ≡ true → b ≡ true → c ≡ true → (a && b && c) ≡ true
all_three a b c e f g = ground arith

finished :
    (s : Store) (o : Outcomes) (z : SnapshotRecord × Rows)
    → o.archived ≡ true
    → (finish_publication s o (some z)).1 ≡ true
finished s o (r, rows) e = rw e refl

module _ (s : Store) (o : Outcomes) (now : Text) (p : SnapshotPreview) (json hash : Text)
    (t : IsTable s.rows) (counted : All (λ r. IsCounted r.revision) s.rows) (works : Works o) where
  store_publication_total :
      (found : Option SnapshotRecord)
      → read_record_by_snapshot_id s.rows p.snapshot_id ≡ found
      → (z : SnapshotRecord × Rows) × (store_publication s o now p json hash found ≡ some z)
  unfolding store_publication
  store_publication_total none look =
      let r = as_published now json hash (numbered s (filled now p blank)) in
      let stored =
        insert_row-fresh s.rows (bound r) (bind_text p.batch_id) (bind_text p.snapshot_id) counted
          refl look refl in
      (
        (r, bound r ∷ supersede_active s.rows p.batch_id p.snapshot_id),
        guard-true o.counted _ works.3
            ∙ guard-true o.updated _ works.4
            ∙ ap (λ m. m >>= λ rows. some (r, rows)) stored,
      )
  store_publication_total (some old) look =
      let r = as_published now json hash old in
      let id = bind_text p.snapshot_id in
      let own =
        ap bind_text (has_id→eq id old (read-has_id s.rows id old look))
        ∙ bind_text_twice p.snapshot_id in
      let (rows, stored) =
        update_publication_row-one s.rows (bound r) old (bind_text p.batch_id) id t own look in
      ((r, rows), guard-true o.updated _ works.4 ∙ ap (λ m. m >>= λ rows. some (r, rows)) stored)

  publication_transaction_total :
      publication_complete p json ≡ true
      → (z : SnapshotRecord × Rows) × (publication_transaction s o now p json hash ≡ some z)
  unfolding publication_transaction
  publication_transaction_total complete =
      let found = read_record_by_snapshot_id s.rows p.snapshot_id in
      let (z, stored) = store_publication_total found refl in
      (
        z,
        guard-true (publication_complete p json) _ complete
            ∙ guard-true (o.opened && o.begun && o.found) _
                (all_three o.opened o.begun o.found works.0 works.1 works.2)
            ∙ ap (λ m. m >>= λ z. guard (o.stored && o.committed) >> some z) stored
            ∙ guard-true (o.stored && o.committed) (some z)
                (both o.stored o.committed works.5 works.6),
      )

  -- Where no two rows have one id and no two active rows are in one batch (`IsTable`), the revisions
  -- of the rows are natural numbers below 2147483647 (`IsCounted`) and every call of SQLite and of the
  -- file system succeeds (`Works`), mark_published returns true for a preview with its batch, id and
  -- protocol and a publication that is not empty: the new revision is free, and the row of a stored
  -- snapshot is one.
  pub mark_published_total :
      publication_complete p json ≡ true → (mark_published s o now p json hash).1 ≡ true
  unfolding mark_published
  mark_published_total complete =
      let (z, done) = publication_transaction_total complete in
      ap (λ y. (finish_publication s o y).1) done ∙ finished s o z works.7
