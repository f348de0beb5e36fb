-- ===== src/SnapshotStore/Transactions.antt =====
-- Code/SnapshotStorage: what the transactions of save_preview and mark_published commit.
use hybrid_blockchain_for_re.Prelude.{
  some_injective, ◌≡◌, refl, ap, sym, ◌∙◌, subst, false, not, ◌&&◌, Option, none, some, Text, arith,
  ◌>>◌, guard, >>=-some, guard-some,
}
use hybrid_blockchain_for_re.SnapshotStore.{SnapshotPreview, SnapshotRecord, Rows, Store, Outcomes}
use hybrid_blockchain_for_re.SnapshotStore.Table.{
  bind_text, bound, published, is_active, active_row, read_record_by_snapshot_id, insert_record,
  update_preview, update_publication, supersede_active, supersede_previews,
}
use hybrid_blockchain_for_re.SnapshotStore.Bindings.{
  AllBound, bind_text_twice, insert_row-AllBound, update_preview_row-AllBound,
  update_publication_row-AllBound, supersede_active_rows-AllBound, supersede_preview_rows-AllBound,
  row_with_id-IsBound,
}
use hybrid_blockchain_for_re.SnapshotStore.Drafts.{
  blank, filled, numbered, as_preview, as_published, preview_complete, publication_complete,
}
use hybrid_blockchain_for_re.SnapshotStore.Methods.{
  store_preview, preview_transaction, store_publication, publication_transaction,
}
use hybrid_blockchain_for_re.SnapshotStore.Activation.{put_active, insert-published}
use hybrid_blockchain_for_re.SnapshotStore.Publish.{update-published}
use hybrid_blockchain_for_re.SnapshotStore.Previews.{insert-preview, update-preview}
use hybrid_blockchain_for_re.SnapshotStore.Insertions.{
  IsTable, insert-preview_IsTable, insert-published_IsTable,
}
use hybrid_blockchain_for_re.SnapshotStore.Unique.{update-preview_IsTable, update-published_IsTable}

-- The row with the id of a preview, if there is one, is in the batch of the preview; both as they are
-- bound.
abbrev pub SameBatch : Store → SnapshotPreview → Type 0
SameBatch s p =
    (old : SnapshotRecord)
    → read_record_by_snapshot_id s.rows p.snapshot_id ≡ some old
    → old.batch_id ≡ bind_text p.batch_id

-- The rows that mark_published commits, with its record.
abbrev pub Published : Store → SnapshotPreview → SnapshotRecord × Rows → Type 0
Published s p z =
    IsTable z.1
    × AllBound z.1
    × (bind_text z.0.batch_id ≡ bind_text p.batch_id)
    × ((c : Text)
        → active_row z.1 c ≡ put_active s.rows (bind_text p.batch_id) (some (bound z.0)) c)

-- The rows that save_preview commits.
abbrev pub Saved : Store → SnapshotRecord × Rows → Type 0
Saved s z = IsTable z.1 × AllBound z.1 × ((c : Text) → active_row z.1 c ≡ active_row s.rows c)

module _ (s : Store) (o : Outcomes) (now : Text) (p : SnapshotPreview) (table : IsTable s.rows)
    (rows_bound : AllBound s.rows) where
  store_preview-Saved :
      (found : Option SnapshotRecord) (z : SnapshotRecord × Rows)
      → read_record_by_snapshot_id s.rows p.snapshot_id ≡ found
      → store_preview s o now p found ≡ some z
      → Saved s z
  unfolding store_preview
  store_preview-Saved none z look e =
      let r = numbered s (as_preview (filled now p blank)) in
      let (_, e1) = guard-some o.counted _ e in
      let (_, e2) = guard-some o.updated _ e1 in
      let (rows, stored, whole) =
        >>=-some (insert_record (supersede_previews s.rows p.batch_id p.snapshot_id) r)
          (λ rows. some (r, rows)) e2 in
      subst (Saved s) (some_injective (r, rows) z whole) (
        insert-preview_IsTable s.rows rows (bound r) (bind_text p.batch_id)
            (bind_text p.snapshot_id) refl stored table,
        insert_row-AllBound (supersede_previews s.rows p.batch_id p.snapshot_id) rows r stored (
            supersede_preview_rows-AllBound s.rows (bind_text p.batch_id) (bind_text p.snapshot_id)
              rows_bound),
        insert-preview s.rows rows (bound r) (bind_text p.batch_id) (bind_text p.snapshot_id) refl
            stored,
      )
  store_preview-Saved (some old) z look e =
      let r = as_preview (filled now p old) in
      let (idle, e1) = guard-some (not (is_active old.state)) _ e in
      let (_, e2) = guard-some o.updated _ e1 in
      let (rows, stored, whole) =
        >>=-some (update_preview (supersede_previews s.rows p.batch_id p.snapshot_id) r)
          (λ rows. some (r, rows)) e2 in
      let idle' : is_active old.state ≡ false = ground (arith, idle) in
      subst (Saved s) (some_injective (r, rows) z whole) (
        update-preview_IsTable s.rows rows (bound r) (bind_text p.batch_id)
            (bind_text p.snapshot_id) refl refl stored table,
        update_preview_row-AllBound (supersede_previews s.rows p.batch_id p.snapshot_id) rows r
            stored
            (supersede_preview_rows-AllBound s.rows (bind_text p.batch_id) (bind_text p.snapshot_id)
              rows_bound),
        update-preview s.rows rows (bound r) old (bind_text p.batch_id) (bind_text p.snapshot_id)
            (table.ids (bind_text p.snapshot_id)) look idle' refl refl stored,
      )

  pub preview_transaction-Saved :
      (z : SnapshotRecord × Rows) → preview_transaction s o now p ≡ some z → Saved s z
  unfolding preview_transaction
  preview_transaction-Saved z e =
      let (_, e1) = guard-some (preview_complete p) _ e in
      let (_, e2) = guard-some (o.opened && o.begun && o.found) _ e1 in
      let found = read_record_by_snapshot_id s.rows p.snapshot_id in
      let (z', stored, e3) =
        >>=-some (store_preview s o now p found) (λ z. guard (o.stored && o.committed) >> some z)
          e2 in
      let (_, whole) = guard-some (o.stored && o.committed) _ e3 in
      subst (Saved s) (some_injective z' z whole) (store_preview-Saved found z' refl stored)

  module _ (publication_json transaction_hash : Text) (same : SameBatch s p) where
    store_publication-Published :
        (found : Option SnapshotRecord) (z : SnapshotRecord × Rows)
        → read_record_by_snapshot_id s.rows p.snapshot_id ≡ found
        → store_publication s o now p publication_json transaction_hash found ≡ some z
        → Published s p z
    unfolding store_publication
    store_publication-Published none z look e =
        let r =
          as_published now publication_json transaction_hash (numbered s (filled now p blank)) in
        let (_, e1) = guard-some o.counted _ e in
        let (_, e2) = guard-some o.updated _ e1 in
        let (rows, stored, whole) =
          >>=-some (insert_record (supersede_active s.rows p.batch_id p.snapshot_id) r)
            (λ rows. some (r, rows)) e2 in
        subst (Published s p) (some_injective (r, rows) z whole) (
          insert-published_IsTable s.rows rows (bound r) stored table,
          insert_row-AllBound (supersede_active s.rows p.batch_id p.snapshot_id) rows r stored (
              supersede_active_rows-AllBound s.rows (bind_text p.batch_id) (bind_text p.snapshot_id)
                rows_bound),
          refl,
          insert-published s.rows rows (bound r) refl stored,
        )
    store_publication-Published (some old) z look e =
        let r = as_published now publication_json transaction_hash old in
        let (_, e1) = guard-some o.updated _ e in
        let old_bound = row_with_id-IsBound s.rows (bind_text p.snapshot_id) old look rows_bound in
        let own : (bound r).snapshot_id ≡ old.snapshot_id = ap (λ x. x.snapshot_id) old_bound in
        let (rows, stored, whole) =
          >>=-some (update_publication (supersede_active s.rows p.batch_id p.snapshot_id) r)
            (λ rows. some (r, rows)) e1 in
        subst (Published s p) (some_injective (r, rows) z whole) (
          update-published_IsTable s.rows rows (bind_text p.snapshot_id) (bind_text p.batch_id) old
              (bound r) look (same old look) own stored table,
          update_publication_row-AllBound (supersede_active s.rows p.batch_id p.snapshot_id) rows r
              stored
              (supersede_active_rows-AllBound s.rows (bind_text p.batch_id)
                (bind_text p.snapshot_id) rows_bound),
          ap bind_text (same old look) ∙ bind_text_twice p.batch_id,
          update-published s.rows rows (bind_text p.snapshot_id) (bind_text p.batch_id) old
              (bound r) (table.ids (bind_text p.snapshot_id)) look (same old look) refl own
              (ap (published (bound r)) (sym old_bound)) stored,
        )

    pub publication_transaction-Published :
        (z : SnapshotRecord × Rows)
        → publication_transaction s o now p publication_json transaction_hash ≡ some z
        → Published s p z
    unfolding publication_transaction
    publication_transaction-Published z e =
        let (_, e1) = guard-some (publication_complete p publication_json) _ e in
        let (_, e2) = guard-some (o.opened && o.begun && o.found) _ e1 in
        let found = read_record_by_snapshot_id s.rows p.snapshot_id in
        let (z', stored, e3) =
          >>=-some (store_publication s o now p publication_json transaction_hash found)
            (λ z. guard (o.stored && o.committed) >> some z) e2 in
        let (_, whole) = guard-some (o.stored && o.committed) _ e3 in
        subst (Published s p) (some_injective z' z whole)
          (store_publication-Published found z' refl stored)
