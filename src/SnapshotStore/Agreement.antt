-- ===== src/SnapshotStore/Agreement.antt =====
-- Code/SnapshotStorage/src/snapshot_storage.cpp: each method keeps the cache to the active rows.
use hybrid_blockchain_for_re.Prelude.{
  ◌≡◌, refl, ap, subst, sym, ◌∙◌, true, not, ◌&&◌, ◌||◌, Option, none, some, List, [], ◌∷◌, Text,
  text_eq, text_eq→eq, text_eq_refl, arith, is_empty, if◌then◌else◌, Bool-cases, inl, inr,
}
use hybrid_blockchain_for_re.SnapshotStore.{SnapshotPreview, SnapshotRecord, Rows, Store, Outcomes}
use hybrid_blockchain_for_re.SnapshotStore.Table.{bind_text, bound, active_row, load_active}
use hybrid_blockchain_for_re.SnapshotStore.Bindings.{IsBound}
use hybrid_blockchain_for_re.SnapshotStore.Methods.{
  finish_preview, publication_transaction, finish_publication, invalidate_batch, cached_or,
  remember, erase, cache_find,
}
use hybrid_blockchain_for_re.SnapshotStore.Runs.{
  Call, save, publish, invalidate, read, Actives, put, put_published, effect, step,
}

-- What the cache holds for a batch is what the table holds.
abbrev pub Agrees : List (Text × SnapshotRecord) → Actives → Type 0
Agrees cache v = (b : Text) (r : SnapshotRecord) → cache_find b cache ≡ some r → v b ≡ some r

cache_find-erase :
    (a b : Text) (cache : List (Text × SnapshotRecord))
    → cache_find b (erase a cache) ≡ (if text_eq a b then none else cache_find b cache)
unfolding cache_find erase
cache_find-erase a b [] = ground arith
cache_find-erase a b ((c, r) ∷ cache) = ground (
  arith,
  cache_find-erase a b cache,
  text_eq→eq c a,
  text_eq→eq c b,
  text_eq→eq a b,
  text_eq_refl b,
)

-- An entry that is set in the cache and in the map.
Agrees-put :
    (a : Text) (r : SnapshotRecord) (cache : List (Text × SnapshotRecord)) (v : Actives)
    → Agrees cache v
    → Agrees ((a, r) ∷ erase a cache) (put a (some r) v)
unfolding cache_find
Agrees-put a r cache v h b x e = elim (Bool-cases (text_eq a b)) [
  | inl here ↦ rw here (rw here at e)
  | inr other ↦
      let kept = sym (cache_find-erase a b cache) ∙ (rw other at e) in
      rw other (h b x (rw other at kept))
]

Agrees-erase :
    (a : Text) (cache : List (Text × SnapshotRecord)) (v : Actives)
    → Agrees cache v
    → Agrees (erase a cache) (put a none v)
Agrees-erase a cache v h b x e = elim (Bool-cases (text_eq a b)) [
  | inl here ↦
      absurd (let f = sym (cache_find-erase a b cache) ∙ e in let bad = rw here at f in cc bad)
  | inr other ↦ let f = sym (cache_find-erase a b cache) ∙ e in rw other (h b x (rw other at f))
]

-- The calls of which no part fails after a statement has changed the active rows.
abbrev pub IsClean : Call → Type 0
IsClean (save o now p) = Unit {0}
IsClean (publish o now p json hash) = o.archived ≡ true
IsClean (invalidate o batch) = o.scheduled ≡ true
IsClean (read o batch) = Unit {0}

abbrev pub AllClean : List Call → Type 0
AllClean [] = Unit {0}
AllClean (c ∷ calls) = IsClean c × AllClean calls

-- The texts of a call that the cache keeps have no zero byte: those of the record that a publication
-- commits, and the batch of an invalidation or a read.
abbrev pub IsWhole : Store → Call → Type 0
IsWhole s (save o now p) = Unit {0}
IsWhole s (publish o now p json hash) =
    (z : SnapshotRecord × Rows) → publication_transaction s o now p json hash ≡ some z → IsBound z.0
IsWhole s (invalidate o batch) = bind_text batch ≡ batch
IsWhole s (read o batch) = bind_text batch ≡ batch

abbrev pub AllWhole : Store → List Call → Type 0
AllWhole s [] = Unit {0}
AllWhole s (c ∷ calls) = IsWhole s c × AllWhole (step s c) calls

pub cache-finish_preview :
    (s : Store) (o : Outcomes) (z : Option (SnapshotRecord × Rows))
    → (finish_preview s o z).0.active_cache ≡ s.active_cache
cache-finish_preview s o none = refl
cache-finish_preview s o (some (r, rows)) = elim (Bool-cases o.archived) [
  | inl done ↦ rw done refl
  | inr failed ↦ rw failed refl
]

cache-finish_publication :
    (s : Store) (o : Outcomes) (r : SnapshotRecord) (rows : Rows)
    → o.archived ≡ true
    → (finish_publication s o (some (r, rows))).0.active_cache
      ≡ (r.batch_id, r) ∷ erase r.batch_id s.active_cache
cache-finish_publication s o r rows done = rw done refl

cache-invalidate_batch :
    (s : Store) (o : Outcomes) (batch : Text)
    → o.scheduled ≡ true
    → (invalidate_batch s o batch).0.active_cache ≡ (
        if is_empty batch || not (o.opened && o.updated)
        then s.active_cache
        else erase batch s.active_cache)
unfolding invalidate_batch
cache-invalidate_batch s o batch done = ground (arith, done)

-- A read row that is set in the cache.
Agrees-remember :
    (s : Store) (batch : Text) (z : Option SnapshotRecord)
    → active_row s.rows batch ≡ z
    → Agrees s.active_cache (active_row s.rows)
    → Agrees (remember s batch z).0.active_cache (active_row s.rows)
Agrees-remember s batch none look h b x e = h b x e
Agrees-remember s batch (some r) look h b x e =
    let set = Agrees-put batch r s.active_cache (active_row s.rows) h b x e in
    elim (Bool-cases (text_eq batch b)) [
      | inl here ↦ ap (active_row s.rows) (sym (text_eq→eq batch b here)) ∙ look ∙ (rw here at set)
      | inr other ↦ rw other at set
    ]

pub finish_publication-Agrees :
    (s : Store) (o : Outcomes) (p : SnapshotPreview) (z : Option (SnapshotRecord × Rows))
    → o.archived ≡ true
    → ((x : SnapshotRecord × Rows) → z ≡ some x → bind_text x.0.batch_id ≡ bind_text p.batch_id)
    → ((x : SnapshotRecord × Rows) → z ≡ some x → IsBound x.0)
    → (v : Actives) → Agrees s.active_cache v
    → Agrees (finish_publication s o z).0.active_cache (put_published p z v)
finish_publication-Agrees s o p none done batch whole v h = h
finish_publication-Agrees s o p (some (r, rows)) done batch whole v h =
    let same : r.batch_id ≡ bind_text p.batch_id =
      sym (ap (λ x. x.batch_id) (whole (r, rows) refl)) ∙ batch (r, rows) refl in
    let cache = (r.batch_id, r) ∷ erase r.batch_id s.active_cache in
    subst (λ c. Agrees c (put (bind_text p.batch_id) (some (bound r)) v))
      (sym (cache-finish_publication s o r rows done))
      (subst (λ q. Agrees cache (put (bind_text p.batch_id) (some q) v))
        (sym (whole (r, rows) refl))
        (subst (λ a. Agrees cache (put a (some r) v)) same
          (Agrees-put r.batch_id r s.active_cache v h)))

pub invalidate_batch-Agrees :
    (s : Store) (o : Outcomes) (batch : Text) (v : Actives)
    → o.scheduled ≡ true
    → bind_text batch ≡ batch
    → Agrees s.active_cache v
    → Agrees (invalidate_batch s o batch).0.active_cache (effect s (invalidate o batch) v)
unfolding effect
invalidate_batch-Agrees s o batch v done whole h =
    subst (λ c. Agrees c (effect s (invalidate o batch) v))
      (sym (cache-invalidate_batch s o batch done))
      (elim (Bool-cases (is_empty batch || not (o.opened && o.updated))) [
        | inl nothing ↦ rw nothing h
        | inr cleared ↦ rw cleared (
            subst (λ a. Agrees (erase batch s.active_cache) (put a none v)) (sym whole)
              (Agrees-erase batch s.active_cache v h))
      ])

pub cached_or-Agrees :
    (s : Store) (o : Outcomes) (batch : Text) (z : Option SnapshotRecord)
    → bind_text batch ≡ batch
    → Agrees s.active_cache (active_row s.rows)
    → Agrees (cached_or s o batch z).0.active_cache (active_row s.rows)
cached_or-Agrees s o batch (some r) whole h = h
cached_or-Agrees s o batch none whole h = elim (Bool-cases (o.opened && o.found)) [
  | inl found ↦
      rw found
        (Agrees-remember s batch (load_active s.rows batch) (ap (active_row s.rows) (sym whole)) h)
  | inr failed ↦ rw failed h
]
