-- ===== src/SnapshotStore/Drafts.antt =====
-- Code/SnapshotStorage/src/snapshot_storage.cpp: the path of an archive file, and the rows that save_preview and
-- mark_published fill.
use hybrid_blockchain_for_re.Prelude.{
  ℕ, Bool, not, ◌&&◌, ◌||◌, [], ◌∷◌, ◌++◌, map, Text, codes, to_string, pos, is_empty, leb, ◌==◌,
  if◌then◌else◌,
}
use hybrid_blockchain_for_re.SnapshotStore.{preview, active, SnapshotPreview, SnapshotRecord, Store}
use hybrid_blockchain_for_re.SnapshotStore.Table.{bind_text, next_revision}

unfoldable pub safe_character : ℕ → Bool
safe_character c =
    (leb b'0' c && leb c b'9')
    || (leb b'A' c && leb c b'Z')
    || (leb b'a' c && leb c b'z')
    || c == b'-'
    || c == b'_'
    || c == b'.'

unfoldable pub safe_path_component : Text → Text
safe_path_component [] = codes "unknown"
safe_path_component (c ∷ value) = map (λ x. if safe_character x then x else b'_') (c ∷ value)

-- fs::path's operator/, where the right side is a component.
unfoldable pub path_join : Text → Text → Text
path_join [] component = component
path_join (c ∷ []) component = if c == b'/' then c ∷ component else c ∷ b'/' ∷ component
path_join (c ∷ c' ∷ path) component = c ∷ path_join (c' ∷ path) component

unfoldable pub archive_path_for : Text → SnapshotRecord → Text
archive_path_for archive_root r =
    path_join (path_join archive_root (safe_path_component r.batch_id))
      (safe_path_component r.snapshot_id ++ codes "-r" ++ to_string r.revision ++ codes ".json")

-- The `record` of a method before it is looked up.
abbrev pub blank : SnapshotRecord
blank = record {
  protocol = [];
  snapshot_id = [];
  revision = pos 0;
  schema_version = pos 1;
  generated_at = [];
  batch_id = [];
  manifest_json = [];
  public_root = [];
  source_block_hash = [];
  route_fingerprint = [];
  state = preview;
  archive_path = [];
  candidate_json = [];
  publication_json = [];
  transaction_hash = [];
  published_at = [];
}

-- The fields that both methods copy from a preview.
abbrev pub filled : Text → SnapshotPreview → SnapshotRecord → SnapshotRecord
filled now p r = record r {
  protocol = p.protocol;
  snapshot_id = p.snapshot_id;
  schema_version = p.schema_version;
  generated_at = if is_empty p.generated_at then now else p.generated_at;
  batch_id = p.batch_id;
  manifest_json = p.manifest_json;
  public_root = p.public_root;
  source_block_hash = p.source_block_hash;
  route_fingerprint = p.route_fingerprint;
  candidate_json = p.candidate_json;
}

-- The revision and the path of a record that is new.
abbrev pub numbered : Store → SnapshotRecord → SnapshotRecord
numbered s r =
    let r' = record r { revision = next_revision s.rows (bind_text r.batch_id) } in
    record r' { archive_path = archive_path_for s.archive_root r' }

abbrev pub as_preview : SnapshotRecord → SnapshotRecord
as_preview r = record r {
  state = preview;
  publication_json = [];
  transaction_hash = [];
  published_at = [];
}

abbrev pub as_published : Text → Text → Text → SnapshotRecord → SnapshotRecord
as_published now publication_json transaction_hash r = record r {
  state = active;
  publication_json = publication_json;
  transaction_hash = transaction_hash;
  published_at = now;
}

abbrev pub preview_complete : SnapshotPreview → Bool
preview_complete p = not (
    is_empty p.batch_id
    || is_empty p.snapshot_id
    || is_empty p.protocol
    || is_empty p.manifest_json
    || is_empty p.public_root)

abbrev pub publication_complete : SnapshotPreview → Text → Bool
publication_complete p publication_json = not (
    is_empty p.batch_id
    || is_empty p.snapshot_id
    || is_empty p.protocol
    || is_empty publication_json)
