-- ===== src/SnapshotStore/Tests.antt =====
-- Runs of the methods of Code/SnapshotStorage on two snapshots of one batch, and each theorem at an
-- input.
use hybrid_blockchain_for_re.Prelude.{
  some_injective, All, ◌≡◌, refl, ap, subst, sym, ◌∙◌, true, false, Option, none, some, List, [],
  ◌∷◌, Text, codes, text_eq, pos, arith, decimal, to_string, ◌>>=◌,
}
use hybrid_blockchain_for_re.SnapshotStore.{SnapshotPreview, SnapshotRecord, Rows, Store, Outcomes}
use hybrid_blockchain_for_re.SnapshotStore.Table.{
  bind_text, bound, has_id, active_in, preview_in, at_revision, row_with_id, newer_of, newest,
  active_row, load_active, max_revision, next_revision, any, insert_row, update_preview_row, count,
  update_publication_row, supersede_active_rows, supersede_preview_rows, invalidate_rows,
}
use hybrid_blockchain_for_re.SnapshotStore.Drafts.{
  safe_character, safe_path_component, path_join, archive_path_for, as_published, as_preview,
  filled, numbered, blank,
}
use hybrid_blockchain_for_re.SnapshotStore.Methods.{
  store_preview, preview_transaction, save_preview, store_publication, publication_transaction,
  erase, cache_find, mark_published, reset_schedule, invalidate_batch, active_snapshot,
  latest_publication,
}
use hybrid_blockchain_for_re.SnapshotStore.Insertions.{IsTable}
use hybrid_blockchain_for_re.SnapshotStore.Transactions.{SameBatch}
use hybrid_blockchain_for_re.SnapshotStore.Revisions.{IsCounted}
use hybrid_blockchain_for_re.SnapshotStore.Runs.{
  Call, save, publish, step, run, effect, effects, AllNamed, run-refines,
}
use hybrid_blockchain_for_re.SnapshotStore.Agreement.{Agrees, AllWhole}
use hybrid_blockchain_for_re.SnapshotStore.Bindings.{IsBound, AllBound}
use hybrid_blockchain_for_re.SnapshotStore.Cache.{active_snapshot-effects}
use hybrid_blockchain_for_re.SnapshotStore.Total.{mark_published_total}
use hybrid_blockchain_for_re.SnapshotStore.Stale.{invalidate_batch-stale, mark_published-stale}

program : Unit {0}
unfolding text_eq to_string bind_text has_id active_in preview_in at_revision row_with_id newer_of
    newest active_row max_revision next_revision any insert_row update_preview_row count
    update_publication_row supersede_active_rows supersede_preview_rows invalidate_rows
    safe_character safe_path_component path_join archive_path_for store_preview preview_transaction
    save_preview store_publication publication_transaction erase cache_find mark_published
    reset_schedule invalidate_batch active_snapshot latest_publication step run effect effects
    decimal
program = tt

abbrev empty_store : Store
empty_store = record {
  archive_root = codes "archive";
  rows = [];
  schedule = [];
  active_cache = [];
  archives = [];
}

abbrev all_work : Outcomes
all_work = record {
  opened = true;
  begun = true;
  found = true;
  counted = true;
  updated = true;
  stored = true;
  committed = true;
  archived = true;
  scheduled = true;
}

abbrev preview_of : Text → SnapshotPreview
preview_of id = record {
  protocol = codes "v1";
  snapshot_id = id;
  schema_version = pos 1;
  generated_at = codes "t0";
  batch_id = codes "B1";
  manifest_json = codes "{}";
  public_root = codes "root";
  source_block_hash = codes "hash";
  route_fingerprint = codes "route";
  candidate_json = codes "{}";
}

abbrev first_save : Call
first_save = save all_work (codes "t1") (preview_of (codes "S1"))

abbrev first_publication : Call
first_publication =
    publish all_work (codes "t2") (preview_of (codes "S1")) (codes "{}") (codes "0x1")

abbrev second_publication : Call
second_publication =
    publish all_work (codes "t3") (preview_of (codes "S2")) (codes "{}") (codes "0x2")

abbrev calls : List Call
calls = first_save ∷ first_publication ∷ second_publication ∷ []

abbrev final : Store
final = run empty_store calls

-- The second publication supersedes the first.
final_ids : (active_row final.rows (codes "B1") >>= λ r. some r.snapshot_id) ≡ some (codes "S2")
unfolding program
final_ids = refl

final_path :
    (active_row final.rows (codes "B1") >>= λ r. some r.archive_path)
    ≡ some (codes "archive/B1/S2-r2.json")
unfolding program
final_path = refl

final_revision : (active_row final.rows (codes "B1") >>= λ r. some r.revision) ≡ some (pos 2)
unfolding program
final_revision = refl

empty-IsTable : IsTable []
unfolding count
empty-IsTable = record { ids = λ i. omega arith; actives = λ b. omega arith }

no_row :
    (z : Option SnapshotRecord) (b : Text)
    → z ≡ none
    → (old : SnapshotRecord) → z ≡ some old
    → old.batch_id ≡ b
no_row z b e old f = absurd (let bad = sym e ∙ f in cc bad)

one_row :
    (z : Option SnapshotRecord) (b : Text)
    → (z >>= λ r. some r.batch_id) ≡ some b
    → (old : SnapshotRecord) → z ≡ some old
    → old.batch_id ≡ b
one_row z b e old f =
    let both : ◌≡◌ {A = Option Text} (some old.batch_id) (some b) =
      ap (λ y. y >>= λ r. some r.batch_id) (sym f) ∙ e in
    cc both

calls-AllNamed : AllNamed empty_store calls
unfolding program
calls-AllNamed = (
  tt,
  (
    one_row (row_with_id (step empty_store first_save).rows (codes "S1")) (codes "B1") refl,
    (no_row none (codes "B1") refl, tt),
  ),
)

codes-bound : bind_text (codes "B1") ≡ codes "B1"
unfolding program
codes-bound = refl

-- The store with the first snapshot active, and the outcomes that leave it stale.
abbrev one_active : Store
one_active = run empty_store (first_save ∷ first_publication ∷ [])

abbrev cached : SnapshotRecord
cached =
    as_published (codes "t2") (codes "{}") (codes "0x1")
      (numbered empty_store (as_preview (filled (codes "t1") (preview_of (codes "S1")) blank)))

abbrev newer : SnapshotRecord
newer =
    as_published (codes "t3") (codes "{}") (codes "0x2")
      (numbered one_active (filled (codes "t3") (preview_of (codes "S2")) blank))

-- The record that a call to mark_published commits.
whole_record :
    (z : Option (SnapshotRecord × Rows)) (q : SnapshotRecord)
    → (z >>= λ x. some x.0) ≡ some q
    → IsBound q
    → (x : SnapshotRecord × Rows) → z ≡ some x
    → IsBound x.0
whole_record z q e b x f =
    let same : ◌≡◌ {A = Option SnapshotRecord} (some x.0) (some q) =
      ap (λ y. y >>= λ x. some x.0) (sym f) ∙ e in
    subst IsBound (sym (some_injective x.0 q same)) b

calls-AllWhole : AllWhole empty_store calls
unfolding program
calls-AllWhole = (tt, (whole_record _ cached refl refl, (whole_record _ newer refl refl, tt)))

empty-Agrees : Agrees [] (active_row [])
unfolding cache_find
empty-Agrees b r e = absurd (let bad = e in cc bad)

run-refines_example :
    IsTable (run empty_store calls).rows
    × AllBound (run empty_store calls).rows
    × ((b : Text)
        → active_row (run empty_store calls).rows b
          ≡ effects empty_store calls (active_row empty_store.rows) b)
run-refines_example = run-refines empty_store calls empty-IsTable tt calls-AllNamed

active_snapshot-effects_example :
    (active_snapshot (run empty_store calls) all_work (codes "B1")).1
    ≡ effects empty_store calls (active_row empty_store.rows) (codes "B1")
active_snapshot-effects_example =
    active_snapshot-effects empty_store calls all_work (codes "B1") empty-IsTable tt empty-Agrees
      calls-AllNamed (tt, (refl, (refl, tt))) calls-AllWhole codes-bound refl

found_cached : cache_find (codes "B1") one_active.active_cache ≡ some cached
unfolding program
found_cached = refl

invalidate_batch-stale_example :
    let o = record all_work { scheduled = false } in
    ((invalidate_batch one_active o (codes "B1")).1 ≡ false)
    × (load_active (invalidate_batch one_active o (codes "B1")).0.rows (codes "B1") ≡ none)
    × ((active_snapshot (invalidate_batch one_active o (codes "B1")).0 all_work (codes "B1")).1
        ≡ some cached)
invalidate_batch-stale_example =
    invalidate_batch-stale one_active (record all_work { scheduled = false }) all_work (codes "B1")
      cached refl refl refl found_cached

abbrev no_archive : Outcomes
no_archive = record all_work { archived = false }

abbrev newer_rows : Rows
newer_rows = newer ∷ supersede_active_rows one_active.rows (codes "B1") (codes "S2")

one_active-IsTable : IsTable one_active.rows
one_active-IsTable =
    (run-refines empty_store (first_save ∷ first_publication ∷ []) empty-IsTable tt
      (tt, (calls-AllNamed.1.0, tt))).0

one_active-AllBound : AllBound one_active.rows
unfolding program
one_active-AllBound = (refl, tt)

one_active-IsCounted : All (λ r. IsCounted r.revision) one_active.rows
unfolding program
one_active-IsCounted = ((1, refl, omega arith), tt)

newer_committed :
    publication_transaction one_active no_archive
      (codes "t3")
      (preview_of (codes "S2"))
      (codes "{}")
      (codes "0x2")
    ≡ some (newer, newer_rows)
unfolding program
newer_committed = refl

one_active-SameBatch : SameBatch one_active (preview_of (codes "S2"))
unfolding program
one_active-SameBatch = no_row none (codes "B1") refl

mark_published-stale_example :
    let s =
      (mark_published one_active no_archive
        (codes "t3")
        (preview_of (codes "S2"))
        (codes "{}")
        (codes "0x2")) in
    (s.1 ≡ false)
    × (load_active s.0.rows (codes "B1") ≡ some (bound newer))
    × ((active_snapshot s.0 all_work (codes "B1")).1 ≡ some cached)
mark_published-stale_example =
    mark_published-stale one_active no_archive all_work (codes "t3") (preview_of (codes "S2"))
      (codes "{}") (codes "0x2") newer cached newer_rows one_active-IsTable one_active-AllBound
      one_active-SameBatch newer_committed refl found_cached

mark_published_total_example :
    (mark_published one_active all_work
      (codes "t3")
      (preview_of (codes "S2"))
      (codes "{}")
      (codes "0x2")).1
    ≡ true
mark_published_total_example =
    mark_published_total one_active all_work (codes "t3") (preview_of (codes "S2")) (codes "{}")
      (codes "0x2") one_active-IsTable one_active-IsCounted
      (refl, refl, refl, refl, refl, refl, refl, refl) refl
