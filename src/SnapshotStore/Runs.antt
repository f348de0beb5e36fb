-- ===== src/SnapshotStore/Runs.antt =====
-- Code/SnapshotStorage: sequences of calls of a store, against the map from batches to active
-- snapshots that they stand for.
use hybrid_blockchain_for_re.Prelude.{
  ◌≡◌, fun_ext, refl, ap, sym, subst, ◌∙◌, not, ◌&&◌, ◌||◌, Option, none, some, List, [], ◌∷◌, Text,
  text_eq, arith, is_empty, if◌then◌else◌, Bool-cases, inl, inr,
}
use hybrid_blockchain_for_re.SnapshotStore.{SnapshotPreview, SnapshotRecord, Rows, Store, Outcomes}
use hybrid_blockchain_for_re.SnapshotStore.Table.{
  bind_text, bound, active_row, load_active, invalidate_snapshots,
}
use hybrid_blockchain_for_re.SnapshotStore.Bindings.{AllBound, invalidate_rows-AllBound}
use hybrid_blockchain_for_re.SnapshotStore.Methods.{
  preview_transaction, save_preview, finish_preview, publication_transaction, mark_published,
  finish_publication, invalidate_batch, active_snapshot, cached_or, remember, cache_find,
}
use hybrid_blockchain_for_re.SnapshotStore.Previews.{active_row-invalidate_rows}
use hybrid_blockchain_for_re.SnapshotStore.Insertions.{IsTable, IsTable-invalidate_rows}
use hybrid_blockchain_for_re.SnapshotStore.Transactions.{
  SameBatch, Published, Saved, preview_transaction-Saved, publication_transaction-Published,
}

-- The calls, with the outcomes of their parts and the time.
pub data Call : Type 0 where
  save : Outcomes → Text → SnapshotPreview → Call
  publish : Outcomes → Text → SnapshotPreview → Text → Text → Call
  invalidate : Outcomes → Text → Call
  read : Outcomes → Text → Call

unfoldable pub step : Store → Call → Store
step s (save o now p) = (save_preview s o now p).0
step s (publish o now p json hash) = (mark_published s o now p json hash).0
step s (invalidate o batch) = (invalidate_batch s o batch).0
step s (read o batch) = (active_snapshot s o batch).0

unfoldable pub run : Store → List Call → Store
run s [] = s
run s (c ∷ calls) = run (step s c) calls

-- The map from batches to active snapshots.
abbrev pub Actives : Type 0
Actives = Text → Option SnapshotRecord

abbrev pub put : Text → Option SnapshotRecord → Actives → Actives
put b value v c = if text_eq b c then value else v c

abbrev pub put_published : SnapshotPreview → Option (SnapshotRecord × Rows) → Actives → Actives
put_published p none v = v
put_published p (some (r, rows)) v = put (bind_text p.batch_id) (some (bound r)) v

-- What a call does to the map, in which batches and records are as they are bound: a publication
-- that commits puts its record in the place of the batch's, an invalidation whose first statement
-- succeeds clears the place.
unfoldable pub effect : Store → Call → Actives → Actives
effect s (save o now p) v = v
effect s (publish o now p json hash) v =
    put_published p (publication_transaction s o now p json hash) v
effect s (invalidate o batch) v =
    if is_empty batch || not (o.opened && o.updated) then v else put (bind_text batch) none v
effect s (read o batch) v = v

unfoldable pub effects : Store → List Call → Actives → Actives
effects s [] v = v
effects s (c ∷ calls) v = effects (step s c) calls (effect s c v)

-- A publication of a stored snapshot names the batch of its row.
abbrev pub IsNamed : Store → Call → Type 0
IsNamed s (save o now p) = Unit {0}
IsNamed s (publish o now p json hash) = SameBatch s p
IsNamed s (invalidate o batch) = Unit {0}
IsNamed s (read o batch) = Unit {0}

abbrev pub AllNamed : Store → List Call → Type 0
AllNamed s [] = Unit {0}
AllNamed s (c ∷ calls) = IsNamed s c × AllNamed (step s c) calls

-- The rows after a transaction.
abbrev committed_rows : Store → Option (SnapshotRecord × Rows) → Rows
committed_rows s none = s.rows
committed_rows s (some (r, rows)) = rows

rows-finish_preview :
    (s : Store) (o : Outcomes) (z : Option (SnapshotRecord × Rows))
    → (finish_preview s o z).0.rows ≡ committed_rows s z
rows-finish_preview s o none = refl
rows-finish_preview s o (some (r, rows)) = elim (Bool-cases o.archived) [
  | inl done ↦ rw done refl
  | inr failed ↦ rw failed refl
]

rows-finish_publication :
    (s : Store) (o : Outcomes) (z : Option (SnapshotRecord × Rows))
    → (finish_publication s o z).0.rows ≡ committed_rows s z
rows-finish_publication s o none = refl
rows-finish_publication s o (some (r, rows)) = elim (Bool-cases o.archived) [
  | inl done ↦ rw done refl
  | inr failed ↦ rw failed refl
]

rows-save_preview :
    (s : Store) (o : Outcomes) (now : Text) (p : SnapshotPreview)
    → (save_preview s o now p).0.rows ≡ committed_rows s (preview_transaction s o now p)
unfolding save_preview
rows-save_preview s o now p = rows-finish_preview s o (preview_transaction s o now p)

rows-mark_published :
    (s : Store) (o : Outcomes) (now : Text) (p : SnapshotPreview) (json hash : Text)
    → (mark_published s o now p json hash).0.rows
      ≡ committed_rows s (publication_transaction s o now p json hash)
unfolding mark_published
rows-mark_published s o now p json hash =
    rows-finish_publication s o (publication_transaction s o now p json hash)

-- What the rows after a call must be.
abbrev pub Follows : Store → Actives → Rows → Type 0
Follows s v rows = IsTable rows × AllBound rows × ((b : Text) → active_row rows b ≡ v b)

committed-Saved :
    (s : Store) (z : Option (SnapshotRecord × Rows))
    → ((x : SnapshotRecord × Rows) → z ≡ some x → Saved s x)
    → IsTable s.rows
    → AllBound s.rows
    → Follows s (active_row s.rows) (committed_rows s z)
committed-Saved s none h t bound_rows = (t, bound_rows, λ b. refl)
committed-Saved s (some (r, rows)) h t bound_rows = h (r, rows) refl

committed-Published :
    (s : Store) (p : SnapshotPreview) (z : Option (SnapshotRecord × Rows))
    → ((x : SnapshotRecord × Rows) → z ≡ some x → Published s p x)
    → IsTable s.rows
    → AllBound s.rows
    → Follows s (put_published p z (active_row s.rows)) (committed_rows s z)
committed-Published s p none h t bound_rows = (t, bound_rows, λ b. refl)
committed-Published s p (some (r, rows)) h t bound_rows =
    let (table, kept, _, found) = h (r, rows) refl in (table, kept, found)

rows-invalidate_batch :
    (s : Store) (o : Outcomes) (batch : Text)
    → (invalidate_batch s o batch).0.rows ≡ (
        if is_empty batch || not (o.opened && o.updated)
        then s.rows
        else invalidate_snapshots s.rows batch)
unfolding invalidate_batch
rows-invalidate_batch s o batch = ground arith

rows-remember :
    (s : Store) (batch : Text) (z : Option SnapshotRecord) → (remember s batch z).0.rows ≡ s.rows
rows-remember s batch none = refl
rows-remember s batch (some r) = refl

rows-cached_or :
    (s : Store) (o : Outcomes) (batch : Text) (z : Option SnapshotRecord)
    → (cached_or s o batch z).0.rows ≡ s.rows
rows-cached_or s o batch (some r) = refl
rows-cached_or s o batch none = elim (Bool-cases (o.opened && o.found)) [
  | inl found ↦ rw found (rows-remember s batch (load_active s.rows batch))
  | inr failed ↦ rw failed refl
]

rows-active_snapshot :
    (s : Store) (o : Outcomes) (batch : Text) → (active_snapshot s o batch).0.rows ≡ s.rows
unfolding active_snapshot
rows-active_snapshot s o batch = rows-cached_or s o batch (cache_find batch s.active_cache)

pub step-Follows :
    (s : Store) (c : Call)
    → IsTable s.rows
    → AllBound s.rows
    → IsNamed s c
    → Follows s (effect s c (active_row s.rows)) (step s c).rows
unfolding step effect
step-Follows s (save o now p) t kept named =
    subst (Follows s (active_row s.rows)) (sym (rows-save_preview s o now p)) (
      committed-Saved s (preview_transaction s o now p) (preview_transaction-Saved s o now p t kept)
        t kept)
step-Follows s (publish o now p json hash) t kept named =
    subst
      (Follows s
        (put_published p (publication_transaction s o now p json hash) (active_row s.rows)))
      (sym (rows-mark_published s o now p json hash))
      (committed-Published s p (publication_transaction s o now p json hash)
        (publication_transaction-Published s o now p t kept json hash named) t kept)
step-Follows s (invalidate o batch) t kept named =
    subst (Follows s (effect s (invalidate o batch) (active_row s.rows)))
      (sym (rows-invalidate_batch s o batch))
      (elim (Bool-cases (is_empty batch || not (o.opened && o.updated))) [
        | inl nothing ↦ rw nothing (t, kept, λ b. refl)
        | inr cleared ↦ rw cleared (
          IsTable-invalidate_rows s.rows (bind_text batch) t,
          invalidate_rows-AllBound s.rows (bind_text batch) kept,
          active_row-invalidate_rows s.rows (bind_text batch),
        )
      ])
step-Follows s (read o batch) t kept named =
    subst (Follows s (active_row s.rows)) (sym (rows-active_snapshot s o batch))
      (t, kept, λ b. refl)

-- Where at the start no two rows have one id, no two active rows are in one batch (`IsTable`) and no
-- text of a row has a zero byte (`AllBound`), and each publication of a stored snapshot names the
-- batch of its row: after any calls, whichever of their parts fail, the same holds of the rows, and
-- the active row of each batch is what the effects of the calls leave: the record of the batch's last
-- committed publication, its texts and the batch cut at the first zero byte as they are bound, or
-- none where an invalidation came after it.
pub run-refines :
    (s : Store) (calls : List Call)
    → IsTable s.rows
    → AllBound s.rows
    → AllNamed s calls
    → IsTable (run s calls).rows
      × AllBound (run s calls).rows
      × ((b : Text) → active_row (run s calls).rows b ≡ effects s calls (active_row s.rows) b)
unfolding run effects
run-refines s [] t kept named = (t, kept, λ b. refl)
run-refines s (c ∷ calls) t kept named =
    let (t', kept', one) = step-Follows s c t kept named.0 in
    let (t'', kept'', rest) = run-refines (step s c) calls t' kept' named.1 in
    (t'', kept'', λ b. rest b ∙ ap (λ v. effects (step s c) calls v b) (fun_ext one))
