-- ===== src/SnapshotStore/Cache.antt =====
-- Code/SnapshotStorage: the map `active_cache_` against the table, over sequences of calls.
use hybrid_blockchain_for_re.Prelude.{
  ◌≡◌, refl, ap, subst, sym, fun_ext, ◌∙◌, true, ◌&&◌, Option, none, some, List, [], ◌∷◌, Text,
}
use hybrid_blockchain_for_re.SnapshotStore.{SnapshotRecord, Store, Outcomes}
use hybrid_blockchain_for_re.SnapshotStore.Table.{bind_text, active_row, load_active}
use hybrid_blockchain_for_re.SnapshotStore.Bindings.{AllBound}
use hybrid_blockchain_for_re.SnapshotStore.Methods.{
  preview_transaction, save_preview, publication_transaction, mark_published, active_snapshot,
  cached_or, remember, cache_find,
}
use hybrid_blockchain_for_re.SnapshotStore.Insertions.{IsTable}
use hybrid_blockchain_for_re.SnapshotStore.Transactions.{publication_transaction-Published}
use hybrid_blockchain_for_re.SnapshotStore.Runs.{
  Call, save, publish, invalidate, read, step, run, effect, effects, IsNamed, AllNamed,
  step-Follows, run-refines,
}
use hybrid_blockchain_for_re.SnapshotStore.Agreement.{
  Agrees, IsClean, AllClean, IsWhole, AllWhole, cache-finish_preview, finish_publication-Agrees,
  invalidate_batch-Agrees, cached_or-Agrees,
}

step-Agrees :
    (s : Store) (c : Call)
    → IsTable s.rows
    → AllBound s.rows
    → IsNamed s c
    → IsClean c
    → IsWhole s c
    → Agrees s.active_cache (active_row s.rows)
    → Agrees (step s c).active_cache (effect s c (active_row s.rows))
unfolding step effect save_preview mark_published active_snapshot
step-Agrees s (save o now p) t kept named clean whole h =
    subst (λ c. Agrees c (active_row s.rows))
      (sym (cache-finish_preview s o (preview_transaction s o now p))) h
step-Agrees s (publish o now p json hash) t kept named clean whole h =
    finish_publication-Agrees s o p (publication_transaction s o now p json hash) clean
      (λ z e. (publication_transaction-Published s o now p t kept json hash named z e).2) whole
      (active_row s.rows) h
step-Agrees s (invalidate o batch) t kept named clean whole h =
    invalidate_batch-Agrees s o batch (active_row s.rows) clean whole h
step-Agrees s (read o batch) t kept named clean whole h =
    cached_or-Agrees s o batch (cache_find batch s.active_cache) whole h

run-Agrees :
    (s : Store) (calls : List Call)
    → IsTable s.rows
    → AllBound s.rows
    → AllNamed s calls
    → AllClean calls
    → AllWhole s calls
    → Agrees s.active_cache (active_row s.rows)
    → Agrees (run s calls).active_cache (active_row (run s calls).rows)
unfolding run
run-Agrees s [] t kept named clean whole h = h
run-Agrees s (c ∷ calls) t kept named clean whole h =
    let (t', kept', one) = step-Follows s c t kept named.0 in
    run-Agrees (step s c) calls t' kept' named.1 clean.1 whole.1 (
      subst (Agrees (step s c).active_cache) (sym (fun_ext one))
        (step-Agrees s c t kept named.0 clean.0 whole.0 h))

remember-result :
    (s : Store) (batch : Text) (z : Option SnapshotRecord) → (remember s batch z).1 ≡ z
remember-result s batch none = refl
remember-result s batch (some r) = refl

active_snapshot-active_row :
    (s : Store) (o : Outcomes) (batch : Text) (z : Option SnapshotRecord)
    → cache_find batch s.active_cache ≡ z
    → bind_text batch ≡ batch
    → Agrees s.active_cache (active_row s.rows)
    → (o.opened && o.found) ≡ true
    → (cached_or s o batch z).1 ≡ active_row s.rows batch
active_snapshot-active_row s o batch (some r) look whole h works = sym (h batch r look)
active_snapshot-active_row s o batch none look whole h works =
    rw works (remember-result s batch (load_active s.rows batch) ∙ ap (active_row s.rows) whole)

-- After calls of which no archive write and no reset of the schedule fails, a read that reaches the
-- database returns, from the cache or from the table, what the effects of the calls leave for its
-- batch: the record of the last committed publication, or none where an invalidation came after it.
-- At the start no two rows have one id, no two active rows are in one batch (`IsTable`), no text of a
-- row has a zero byte (`AllBound`) and the cache holds active rows only. Each publication of a stored
-- snapshot names the batch of its row, and no text of a record that is committed, of a batch that is
-- invalidated or of one that is read has a zero byte (`AllWhole`).
pub active_snapshot-effects :
    (s : Store) (calls : List Call) (o : Outcomes) (batch : Text)
    → IsTable s.rows
    → AllBound s.rows
    → Agrees s.active_cache (active_row s.rows)
    → AllNamed s calls
    → AllClean calls
    → AllWhole s calls
    → bind_text batch ≡ batch
    → (o.opened && o.found) ≡ true
    → (active_snapshot (run s calls) o batch).1 ≡ effects s calls (active_row s.rows) batch
unfolding active_snapshot
active_snapshot-effects s calls o batch t kept h named clean whole own works =
    active_snapshot-active_row (run s calls) o batch (cache_find batch (run s calls).active_cache)
      refl own (run-Agrees s calls t kept named clean whole h) works
    ∙ (run-refines s calls t kept named).2 batch
