-- ===== src/SnapshotStore/Bindings.antt =====
-- Code/SnapshotStorage/src/snapshot_storage.cpp: what is bound to a statement has no zero byte, and so
-- has no row of the table.
use hybrid_blockchain_for_re.Prelude.{
  some_injective, ◌≡◌, refl, ap, subst, Bool, not, ◌&&◌, ◌||◌, some, [], ◌∷◌, Text, ◌==◌, All,
  if◌then◌else◌, Bool-cases, inl, inr,
}
use hybrid_blockchain_for_re.SnapshotStore.{
  SnapshotState, SnapshotRecord, Rows, superseded, invalidated,
}
use hybrid_blockchain_for_re.SnapshotStore.Table.{
  bind_text, bound, has_id, active_in, preview_in, insert_row, update_preview_row,
  update_publication_row, update_where, cleared, published, with_state, supersede_active_rows,
  supersede_preview_rows, invalidate_rows, row_with_id,
}
use hybrid_blockchain_for_re.SnapshotStore.Counts.{All-map_rows}
use hybrid_blockchain_for_re.SnapshotStore.Activation.{insert_row-some, update_publication_row-some}
use hybrid_blockchain_for_re.SnapshotStore.Previews.{update_preview_row-some}

-- No text of the record has a zero byte.
abbrev pub IsBound : SnapshotRecord → Type 0
IsBound r = bound r ≡ r

abbrev pub AllBound : Rows → Type 0
AllBound rows = All IsBound rows

pub bind_text_twice : (s : Text) → bind_text (bind_text s) ≡ bind_text s
unfolding bind_text
bind_text_twice [] = refl
bind_text_twice (c ∷ s) = elim (Bool-cases (c == 0)) [
  | inl ends ↦ rw ends refl
  | inr more ↦ rw (more, more) (ap (◌∷◌ c) (bind_text_twice s))
]

pub bound-IsBound : (r : SnapshotRecord) → IsBound (bound r)
bound-IsBound r = λ i. record {
  protocol = bind_text_twice r.protocol i;
  snapshot_id = bind_text_twice r.snapshot_id i;
  revision = r.revision;
  schema_version = r.schema_version;
  generated_at = bind_text_twice r.generated_at i;
  batch_id = bind_text_twice r.batch_id i;
  manifest_json = bind_text_twice r.manifest_json i;
  public_root = bind_text_twice r.public_root i;
  source_block_hash = bind_text_twice r.source_block_hash i;
  route_fingerprint = bind_text_twice r.route_fingerprint i;
  state = r.state;
  archive_path = bind_text_twice r.archive_path i;
  candidate_json = bind_text_twice r.candidate_json i;
  publication_json = bind_text_twice r.publication_json i;
  transaction_hash = bind_text_twice r.transaction_hash i;
  published_at = bind_text_twice r.published_at i;
}

update_where-AllBound :
    (p : SnapshotRecord → Bool) (f : SnapshotRecord → SnapshotRecord)
    → ((r : SnapshotRecord) → IsBound r → IsBound (f r))
    → (rows : Rows) → AllBound rows
    → AllBound (update_where p f rows)
update_where-AllBound p f h rows a =
    All-map_rows IsBound IsBound (λ r. if p r then f r else r)
      (λ r b. elim (Bool-cases (p r)) [ inl hit ↦ rw hit (h r b) | inr miss ↦ rw miss b ]) rows a

with_state-IsBound : (s : SnapshotState) (r : SnapshotRecord) → IsBound r → IsBound (with_state s r)
with_state-IsBound s r b = ap (with_state s) b

pub supersede_active_rows-AllBound :
    (rows : Rows) (batch id : Text) → AllBound rows → AllBound (supersede_active_rows rows batch id)
unfolding supersede_active_rows
supersede_active_rows-AllBound rows batch id a =
    update_where-AllBound (λ r. active_in batch r && not (has_id id r)) (with_state superseded)
      (with_state-IsBound superseded) rows a

pub supersede_preview_rows-AllBound :
    (rows : Rows) (batch id : Text)
    → AllBound rows
    → AllBound (supersede_preview_rows rows batch id)
unfolding supersede_preview_rows
supersede_preview_rows-AllBound rows batch id a =
    update_where-AllBound (λ r. preview_in batch r && not (has_id id r)) (with_state superseded)
      (with_state-IsBound superseded) rows a

pub invalidate_rows-AllBound :
    (rows : Rows) (batch : Text) → AllBound rows → AllBound (invalidate_rows rows batch)
unfolding invalidate_rows
invalidate_rows-AllBound rows batch a =
    update_where-AllBound (λ r. active_in batch r || preview_in batch r) (with_state invalidated)
      (with_state-IsBound invalidated) rows a

pub insert_row-AllBound :
    (rows rows' : Rows) (r : SnapshotRecord)
    → insert_row rows (bound r) ≡ some rows'
    → AllBound rows
    → AllBound rows'
insert_row-AllBound rows rows' r e a =
    let (_, split) = insert_row-some rows rows' (bound r) e in
    subst AllBound split (bound-IsBound r, a)

cleared-IsBound : (q : SnapshotRecord) → IsBound q → IsBound (cleared q)
unfolding bind_text
cleared-IsBound q b = ap cleared b

pub update_preview_row-AllBound :
    (rows rows' : Rows) (r : SnapshotRecord)
    → update_preview_row rows (bound r) ≡ some rows'
    → AllBound rows
    → AllBound rows'
update_preview_row-AllBound rows rows' r e a =
    subst AllBound (update_preview_row-some rows rows' (bound r) (bind_text r.snapshot_id) refl e) (
      update_where-AllBound (has_id (bind_text r.snapshot_id)) (λ x. cleared (bound r))
        (λ x b. cleared-IsBound (bound r) (bound-IsBound r)) rows a)

published-IsBound : (q x : SnapshotRecord) → IsBound q → IsBound x → IsBound (published q x)
published-IsBound q x b c = λ i. published (b i) (c i)

pub update_publication_row-AllBound :
    (rows rows' : Rows) (r : SnapshotRecord)
    → update_publication_row rows (bound r) ≡ some rows'
    → AllBound rows
    → AllBound rows'
update_publication_row-AllBound rows rows' r e a =
    let (_, split) =
      update_publication_row-some rows rows' (bound r) (bind_text r.snapshot_id) refl e in
    subst AllBound split (
      update_where-AllBound (has_id (bind_text r.snapshot_id)) (published (bound r))
        (λ x b. published-IsBound (bound r) x (bound-IsBound r) b) rows a)

-- A row that is found is one of the table's.
pub row_with_id-IsBound :
    (rows : Rows) (id : Text) (r : SnapshotRecord)
    → row_with_id rows id ≡ some r
    → AllBound rows
    → IsBound r
unfolding row_with_id
row_with_id-IsBound [] id r e a = absurd (let no = e in cc no)
row_with_id-IsBound (x ∷ rows) id r e a = elim (Bool-cases (has_id id x)) [
  | inl hit ↦ subst IsBound (some_injective x r (rw hit at e)) a.0
  | inr miss ↦ row_with_id-IsBound rows id r (rw miss at e) a.1
]
