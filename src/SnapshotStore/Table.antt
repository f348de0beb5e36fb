-- ===== src/SnapshotStore/Table.antt =====
-- Code/SnapshotStorage/src/snapshot_storage.cpp: the SQL statements on the table snapshot_storage,
-- with its key (snapshot_id) and its UNIQUE (batch_id, revision).
use hybrid_blockchain_for_re.Prelude.{
  ℤ, pos, negsuc, eqb_ℤ, ltb_ℤ, zero, suc, ◌%◌, ◌-◌, ℕ, ◌+◌, Bool, true, false, not, ◌&&◌, ◌||◌,
  Option, none, some, [], ◌∷◌, map, Text, codes, text_eq, ltb, ◌==◌, if◌then◌else◌, ◌≡◌, refl,
}
use hybrid_blockchain_for_re.SnapshotStore.{
  SnapshotState, preview, active, superseded, invalidated, SnapshotRecord, Rows,
}

unfoldable pub state_name : SnapshotState → Text
state_name preview = codes "preview"
state_name active = codes "active"
state_name superseded = codes "superseded"
state_name invalidated = codes "invalidated"

unfoldable pub state_from_name : Text → SnapshotState
state_from_name value =
    if text_eq value (codes "active")
    then active
    else if text_eq value (codes "superseded")
    then superseded
    else if text_eq value (codes "invalidated")
    then invalidated
    else preview

-- A row holds the name of a state: reading it gives the state that was written.
pub state_from_name-state_name : (s : SnapshotState) → state_from_name (state_name s) ≡ s
unfolding state_from_name state_name text_eq
state_from_name-state_name preview = refl
state_from_name-state_name active = refl
state_from_name-state_name superseded = refl
state_from_name-state_name invalidated = refl

abbrev pub is_preview : SnapshotState → Bool
is_preview preview = true
is_preview active = false
is_preview superseded = false
is_preview invalidated = false

abbrev pub is_active : SnapshotState → Bool
is_active preview = false
is_active active = true
is_active superseded = false
is_active invalidated = false

-- What bind_text hands to SQLite, by c_str() and the length -1: the text up to its first zero byte.
unfoldable pub bind_text : Text → Text
bind_text [] = []
bind_text (c ∷ s) = if c == 0 then [] else c ∷ bind_text s

-- The columns that a record is bound to.
abbrev pub bound : SnapshotRecord → SnapshotRecord
bound r = record {
  protocol = bind_text r.protocol;
  snapshot_id = bind_text r.snapshot_id;
  revision = r.revision;
  schema_version = r.schema_version;
  generated_at = bind_text r.generated_at;
  batch_id = bind_text r.batch_id;
  manifest_json = bind_text r.manifest_json;
  public_root = bind_text r.public_root;
  source_block_hash = bind_text r.source_block_hash;
  route_fingerprint = bind_text r.route_fingerprint;
  state = r.state;
  archive_path = bind_text r.archive_path;
  candidate_json = bind_text r.candidate_json;
  publication_json = bind_text r.publication_json;
  transaction_hash = bind_text r.transaction_hash;
  published_at = bind_text r.published_at;
}

unfoldable pub has_id : Text → SnapshotRecord → Bool
has_id id r = text_eq r.snapshot_id id

-- batch_id = ? AND state = 'active'
unfoldable pub active_in : Text → SnapshotRecord → Bool
active_in batch r = text_eq r.batch_id batch && is_active r.state

unfoldable pub preview_in : Text → SnapshotRecord → Bool
preview_in batch r = text_eq r.batch_id batch && is_preview r.state

-- batch_id = ? AND state IN ('active', 'superseded', 'invalidated')
unfoldable pub publication_in : Text → SnapshotRecord → Bool
publication_in batch r = text_eq r.batch_id batch && not (is_preview r.state)

unfoldable pub at_revision : Text → ℤ → SnapshotRecord → Bool
at_revision batch n r = text_eq r.batch_id batch && eqb_ℤ r.revision n

-- WHERE snapshot_id = ? LIMIT 1
unfoldable pub row_with_id : Rows → Text → Option SnapshotRecord
row_with_id [] id = none
row_with_id (r ∷ rows) id = if has_id id r then some r else row_with_id rows id

unfoldable pub newer_of : SnapshotRecord → Option SnapshotRecord → SnapshotRecord
newer_of r none = r
newer_of r (some s) = if ltb_ℤ r.revision s.revision then s else r

-- ORDER BY revision DESC LIMIT 1, of the rows that meet a condition.
unfoldable pub newest : (SnapshotRecord → Bool) → Rows → Option SnapshotRecord
newest p [] = none
newest p (r ∷ rows) = if p r then some (newer_of r (newest p rows)) else newest p rows

unfoldable pub active_row : Rows → Text → Option SnapshotRecord
active_row rows batch = newest (active_in batch) rows

abbrev pub larger : ℤ → Option ℤ → Option ℤ
larger n none = some n
larger n (some m) = if ltb_ℤ m n then some n else some m

-- MAX(revision) of the batch; NULL is `none`.
unfoldable pub max_revision : Rows → Text → Option ℤ
max_revision [] batch = none
max_revision (r ∷ rows) batch =
    let rest = max_revision rows batch in
    if text_eq r.batch_id batch then larger r.revision rest else rest

-- COALESCE(n, 0) + 1
abbrev pub after_revision : Option ℤ → ℤ
after_revision none = pos 1
after_revision (some (pos n)) = pos (suc n)
after_revision (some (negsuc zero)) = pos 0
after_revision (some (negsuc (suc n))) = negsuc n

-- sqlite3_column_int: the low 32 bits, as an int.
abbrev pub column_int : ℤ → ℤ
column_int (pos n) =
    let low : ℕ = n % 4294967296 in
    if ltb low 2147483648 then pos low else negsuc (4294967295 - low)
column_int (negsuc n) =
    let low : ℕ = n % 4294967296 in
    if ltb low 2147483648 then negsuc low else pos (4294967295 - low)

unfoldable pub next_revision : Rows → Text → ℤ
next_revision rows batch = column_int (after_revision (max_revision rows batch))

unfoldable pub any : (SnapshotRecord → Bool) → Rows → Bool
any p [] = false
any p (r ∷ rows) = p r || any p rows

-- INSERT, which the key and the UNIQUE refuse.
unfoldable pub insert_row : Rows → SnapshotRecord → Option Rows
insert_row rows r =
    if any (has_id r.snapshot_id) rows || any (at_revision r.batch_id r.revision) rows
    then none
    else some (r ∷ rows)

abbrev pub update_where : (SnapshotRecord → Bool) → (SnapshotRecord → SnapshotRecord) → Rows → Rows
update_where p f rows = map (λ r. if p r then f r else r) rows

-- The row that update_preview_row writes: all columns but the key, the publication cleared.
abbrev pub cleared : SnapshotRecord → SnapshotRecord
cleared r = record r { publication_json = []; transaction_hash = []; published_at = [] }

unfoldable pub update_preview_row : Rows → SnapshotRecord → Option Rows
update_preview_row rows r =
    if any (λ x. not (has_id r.snapshot_id x) && at_revision r.batch_id r.revision x) rows
    then none
    else some (update_where (has_id r.snapshot_id) (λ x. cleared r) rows)

-- The columns that update_publication_row writes.
abbrev pub published : SnapshotRecord → SnapshotRecord → SnapshotRecord
published r x = record x {
  state = r.state;
  publication_json = r.publication_json;
  transaction_hash = r.transaction_hash;
  published_at = r.published_at;
}

unfoldable pub count : (SnapshotRecord → Bool) → Rows → ℕ
count p [] = 0
count p (r ∷ rows) = (if p r then 1 else 0) + count p rows

-- It fails unless sqlite3_changes is one.
unfoldable pub update_publication_row : Rows → SnapshotRecord → Option Rows
update_publication_row rows r =
    if count (has_id r.snapshot_id) rows == 1
    then some (update_where (has_id r.snapshot_id) (published r) rows)
    else none

abbrev pub with_state : SnapshotState → SnapshotRecord → SnapshotRecord
with_state s r = record r { state = s }

-- The UPDATE of mark_published: other active rows of the batch.
unfoldable pub supersede_active_rows : Rows → Text → Text → Rows
supersede_active_rows rows batch id =
    update_where (λ r. active_in batch r && not (has_id id r)) (with_state superseded) rows

-- The UPDATE of save_preview: other previews of the batch.
unfoldable pub supersede_preview_rows : Rows → Text → Text → Rows
supersede_preview_rows rows batch id =
    update_where (λ r. preview_in batch r && not (has_id id r)) (with_state superseded) rows

-- The UPDATE of invalidate_batch: state IN ('preview', 'active').
unfoldable pub invalidate_rows : Rows → Text → Rows
invalidate_rows rows batch =
    update_where (λ r. active_in batch r || preview_in batch r) (with_state invalidated) rows

-- The statements as the code calls them, with what it binds.
abbrev pub read_record_by_snapshot_id : Rows → Text → Option SnapshotRecord
read_record_by_snapshot_id rows id = row_with_id rows (bind_text id)

abbrev pub load_active : Rows → Text → Option SnapshotRecord
load_active rows batch = active_row rows (bind_text batch)

abbrev pub read_latest_publication : Rows → Text → Option SnapshotRecord
read_latest_publication rows batch = newest (publication_in (bind_text batch)) rows

abbrev pub insert_record : Rows → SnapshotRecord → Option Rows
insert_record rows r = insert_row rows (bound r)

abbrev pub update_preview : Rows → SnapshotRecord → Option Rows
update_preview rows r = update_preview_row rows (bound r)

abbrev pub update_publication : Rows → SnapshotRecord → Option Rows
update_publication rows r = update_publication_row rows (bound r)

abbrev pub supersede_active : Rows → Text → Text → Rows
supersede_active rows batch id = supersede_active_rows rows (bind_text batch) (bind_text id)

abbrev pub supersede_previews : Rows → Text → Text → Rows
supersede_previews rows batch id = supersede_preview_rows rows (bind_text batch) (bind_text id)

abbrev pub invalidate_snapshots : Rows → Text → Rows
invalidate_snapshots rows batch = invalidate_rows rows (bind_text batch)
