-- ===== src/SnapshotStore/Stale.antt =====
-- Code/SnapshotStorage: calls that return false after a part of their work, and what reads return
-- then.
use hybrid_blockchain_for_re.Prelude.{
  ◌≡◌, refl, ap, subst, sym, ◌∙◌, true, false, ◌&&◌, none, some, Text, text_eq_refl, is_empty,
}
use hybrid_blockchain_for_re.SnapshotStore.{SnapshotPreview, SnapshotRecord, Rows, Store, Outcomes}
use hybrid_blockchain_for_re.SnapshotStore.Table.{
  bind_text, bound, load_active, invalidate_snapshots,
}
use hybrid_blockchain_for_re.SnapshotStore.Bindings.{AllBound}
use hybrid_blockchain_for_re.SnapshotStore.Methods.{
  publication_transaction, mark_published, finish_publication, invalidate_batch, active_snapshot,
  cached_or, cache_find,
}
use hybrid_blockchain_for_re.SnapshotStore.Previews.{active_row-invalidate_rows}
use hybrid_blockchain_for_re.SnapshotStore.Insertions.{IsTable}
use hybrid_blockchain_for_re.SnapshotStore.Transactions.{
  SameBatch, publication_transaction-Published,
}

cached_read :
    (s : Store) (o : Outcomes) (batch : Text) (old : SnapshotRecord)
    → cache_find batch s.active_cache ≡ some old
    → (active_snapshot s o batch).1 ≡ some old
unfolding active_snapshot
cached_read s o batch old cached = ap (λ z. (cached_or s o batch z).1) cached

-- Where the first UPDATE succeeds and the schedule's fails, invalidate_batch of a batch that is not
-- empty and has a snapshot in the cache returns false and keeps the cache: the batch has no active
-- row, and a read still returns the cached snapshot.
pub invalidate_batch-stale :
    (s : Store) (o o' : Outcomes) (batch : Text) (old : SnapshotRecord)
    → is_empty batch ≡ false
    → (o.opened && o.updated) ≡ true
    → o.scheduled ≡ false
    → cache_find batch s.active_cache ≡ some old
    → ((invalidate_batch s o batch).1 ≡ false)
      × (load_active (invalidate_batch s o batch).0.rows batch ≡ none)
      × ((active_snapshot (invalidate_batch s o batch).0 o' batch).1 ≡ some old)
unfolding invalidate_batch
invalidate_batch-stale s o o' batch old named works failed cached =
    let s' = record s { rows = invalidate_snapshots s.rows batch } in
    let gone : load_active s'.rows batch ≡ none =
      active_row-invalidate_rows s.rows (bind_text batch) (bind_text batch)
      ∙ (rw (text_eq_refl (bind_text batch)) refl) in
    rw (named, works, failed) (refl, gone, cached_read s' o' batch old cached)

-- Where no two rows have one id, no two active rows are in one batch (`IsTable`), no text of a row has
-- a zero byte (`AllBound`) and the row of the snapshot, if it is stored, is in the batch that the
-- publication names (`SameBatch`): if the publication commits and its archive cannot be written,
-- mark_published returns false and keeps the cache. The active row of the batch is the new record as
-- it is bound, and a read still returns the snapshot that was cached for the batch.
pub mark_published-stale :
    (s : Store) (o o' : Outcomes) (now : Text) (p : SnapshotPreview) (json hash : Text)
    (r old : SnapshotRecord) (rows : Rows)
    → IsTable s.rows
    → AllBound s.rows
    → SameBatch s p
    → publication_transaction s o now p json hash ≡ some (r, rows)
    → o.archived ≡ false
    → cache_find p.batch_id s.active_cache ≡ some old
    → ((mark_published s o now p json hash).1 ≡ false)
      × (load_active (mark_published s o now p json hash).0.rows p.batch_id ≡ some (bound r))
      × ((active_snapshot (mark_published s o now p json hash).0 o' p.batch_id).1 ≡ some old)
unfolding mark_published
mark_published-stale s o o' now p json hash r old rows t kept same done failed cached =
    let s' = record s { rows = rows } in
    let (_, _, _, found) =
      publication_transaction-Published s o now p t kept json hash same (r, rows) done in
    let ends : finish_publication s o (publication_transaction s o now p json hash) ≡ (s', false) =
      ap (finish_publication s o) done ∙ (rw failed refl) in
    subst
      (λ z.
        (z.1 ≡ false)
        × (load_active z.0.rows p.batch_id ≡ some (bound r))
        × ((active_snapshot z.0 o' p.batch_id).1 ≡ some old))
      (sym ends)
      (
        refl,
        found (bind_text p.batch_id) ∙ (rw (text_eq_refl (bind_text p.batch_id)) refl),
        cached_read s' o' p.batch_id old cached,
      )
