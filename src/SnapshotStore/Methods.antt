-- ===== src/SnapshotStore/Methods.antt =====
-- Code/SnapshotStorage/src/snapshot_storage.cpp: the methods of SnapshotStore that write snapshots
-- or read them. What stands between BEGIN and COMMIT is a chain of steps whose failure leaves the
-- tables alone; invalidate_batch has no transaction. `now` is the value of utc_timestamp.
use hybrid_blockchain_for_re.Prelude.{
  Bool, true, false, not, ◌&&◌, ◌||◌, Option, none, some, List, [], ◌∷◌, Text, text_eq, is_empty,
  if◌then◌else◌, ◌>>=◌, ◌>>◌, guard,
}
use hybrid_blockchain_for_re.SnapshotStore.{SnapshotPreview, SnapshotRecord, Rows, Store, Outcomes}
use hybrid_blockchain_for_re.SnapshotStore.Table.{
  is_active, read_record_by_snapshot_id, insert_record, update_preview, update_publication,
  supersede_active, supersede_previews, invalidate_snapshots, bind_text, load_active,
  read_latest_publication,
}
use hybrid_blockchain_for_re.SnapshotStore.Drafts.{
  blank, filled, numbered, as_preview, as_published, preview_complete, publication_complete,
}

-- The record of save_preview and the rows with it, for the row that has the id.
unfoldable pub store_preview :
    Store
    → Outcomes
    → Text
    → SnapshotPreview
    → Option SnapshotRecord
    → Option (SnapshotRecord × Rows)
store_preview s o now p none = do
  guard o.counted
  guard o.updated
  let r = numbered s (as_preview (filled now p blank))
  rows ← insert_record (supersede_previews s.rows p.batch_id p.snapshot_id) r
  some (r, rows)
store_preview s o now p (some old) = do
  guard (not (is_active old.state))
  guard o.updated
  let r = as_preview (filled now p old)
  rows ← update_preview (supersede_previews s.rows p.batch_id p.snapshot_id) r
  some (r, rows)

-- What save_preview commits; `none` where it returns false before that.
unfoldable pub preview_transaction :
    Store → Outcomes → Text → SnapshotPreview → Option (SnapshotRecord × Rows)
preview_transaction s o now p = do
  guard (preview_complete p)
  guard (o.opened && o.begun && o.found)
  stored ← store_preview s o now p (read_record_by_snapshot_id s.rows p.snapshot_id)
  guard (o.stored && o.committed)
  some stored

-- SnapshotStore::save_preview
abbrev pub finish_preview : Store → Outcomes → Option (SnapshotRecord × Rows) → Store × Bool
finish_preview s o none = (s, false)
finish_preview s o (some (r, rows)) =
    if o.archived
    then (record s { rows = rows; archives = r ∷ s.archives }, true)
    else (record s { rows = rows }, false)

unfoldable pub save_preview : Store → Outcomes → Text → SnapshotPreview → Store × Bool
save_preview s o now p = finish_preview s o (preview_transaction s o now p)

unfoldable pub store_publication :
    Store
    → Outcomes
    → Text
    → SnapshotPreview
    → Text
    → Text
    → Option SnapshotRecord
    → Option (SnapshotRecord × Rows)
store_publication s o now p publication_json transaction_hash none = do
  guard o.counted
  guard o.updated
  let r = as_published now publication_json transaction_hash (numbered s (filled now p blank))
  rows ← insert_record (supersede_active s.rows p.batch_id p.snapshot_id) r
  some (r, rows)
store_publication s o now p publication_json transaction_hash (some old) = do
  guard o.updated
  let r = as_published now publication_json transaction_hash old
  rows ← update_publication (supersede_active s.rows p.batch_id p.snapshot_id) r
  some (r, rows)

unfoldable pub publication_transaction :
    Store → Outcomes → Text → SnapshotPreview → Text → Text → Option (SnapshotRecord × Rows)
publication_transaction s o now p publication_json transaction_hash = do
  guard (publication_complete p publication_json)
  guard (o.opened && o.begun && o.found)
  stored ←
      store_publication s o now p publication_json transaction_hash
        (read_record_by_snapshot_id s.rows p.snapshot_id)
  guard (o.stored && o.committed)
  some stored

unfoldable pub erase : Text → List (Text × SnapshotRecord) → List (Text × SnapshotRecord)
erase batch [] = []
erase batch ((b, r) ∷ cache) =
    if text_eq b batch then erase batch cache else (b, r) ∷ erase batch cache

unfoldable pub cache_find : Text → List (Text × SnapshotRecord) → Option SnapshotRecord
cache_find batch [] = none
cache_find batch ((b, r) ∷ cache) = if text_eq b batch then some r else cache_find batch cache

abbrev pub finish_publication : Store → Outcomes → Option (SnapshotRecord × Rows) → Store × Bool
finish_publication s o none = (s, false)
finish_publication s o (some (r, rows)) =
    if o.archived
    then (
      record s {
        rows = rows;
        archives = r ∷ s.archives;
        active_cache = (r.batch_id, r) ∷ erase r.batch_id s.active_cache;
      },
      true,
    )
    else (record s { rows = rows }, false)

-- SnapshotStore::mark_published
unfoldable pub mark_published :
    Store → Outcomes → Text → SnapshotPreview → Text → Text → Store × Bool
mark_published s o now p publication_json transaction_hash =
    finish_publication s o (publication_transaction s o now p publication_json transaction_hash)

-- UPDATE snapshot_refresh_schedule SET next_refresh_at = ''
unfoldable pub reset_schedule : Text → List (Text × Text) → List (Text × Text)
reset_schedule batch [] = []
reset_schedule batch ((b, t) ∷ schedule) =
    (b, if text_eq b batch then [] else t) ∷ reset_schedule batch schedule

-- SnapshotStore::invalidate_batch: each of its two statements commits by itself.
unfoldable pub invalidate_batch : Store → Outcomes → Text → Store × Bool
invalidate_batch s o batch =
    if is_empty batch
    then (s, true)
    else if not (o.opened && o.updated)
    then (s, false)
    else if not o.scheduled
    then (record s { rows = invalidate_snapshots s.rows batch }, false)
    else (
      record s {
        rows = invalidate_snapshots s.rows batch;
        schedule = reset_schedule (bind_text batch) s.schedule;
        active_cache = erase batch s.active_cache;
      },
      true,
    )

abbrev pub remember : Store → Text → Option SnapshotRecord → Store × Option SnapshotRecord
remember s batch none = (s, none)
remember s batch (some r) =
    (record s { active_cache = (batch, r) ∷ erase batch s.active_cache }, some r)

abbrev pub cached_or :
    Store → Outcomes → Text → Option SnapshotRecord → Store × Option SnapshotRecord
cached_or s o batch (some r) = (s, some r)
cached_or s o batch none =
    if o.opened && o.found then remember s batch (load_active s.rows batch) else (s, none)

-- SnapshotStore::active_snapshot
unfoldable pub active_snapshot : Store → Outcomes → Text → Store × Option SnapshotRecord
active_snapshot s o batch = cached_or s o batch (cache_find batch s.active_cache)

-- SnapshotStore::latest_publication
unfoldable pub latest_publication : Store → Outcomes → Text → Option SnapshotRecord
latest_publication s o batch =
    if is_empty batch || not (o.opened && o.found)
    then none
    else read_latest_publication s.rows batch
