-- ===== src/Store/MemoryDocuments/Recording.antt =====
-- What recording a revision does to a table of revisions.
use memoar.Prelude.{
  ◌≡◌, refl, ◌∙◌, inl, inr, Bool, true, false, ◌||◌, List, [], ◌∷◌, Option, none, some, arith,
}
use memoar.Prelude.Tests.{Bool-cases}
use memoar.Prelude.Lists.{any, find}
use memoar.Prelude.Str.{Str, eq_refl}
use memoar.Prelude.JsMap.{JsMap, has, set, delete_where, values}
use memoar.Canonical.{MemoryRevision, TenantContext}
use memoar.Host.{Host}
use memoar.Store.Tables.{Owned, key}
use memoar.Store.MemoryDocuments.{
  MemoryCapture, of_document, record_revision, keep_revision, records_content, new_revision,
}

module _ (p : Owned MemoryRevision → Bool) where
  pub any-set :
      (k : Str) (r : Owned MemoryRevision) (m : JsMap (Owned MemoryRevision))
      → has k m ≡ false
      → any p (values (set k r m)) ≡ (any p (values m) || p r)
  unfolding any set has
  any-set k r [] h = ground arith
  any-set k r ((j, s) ∷ m) h = ground (arith, any-set k r m)

  pub find-any :
      (l : List (Owned MemoryRevision)) (r : Owned MemoryRevision)
      → find p l ≡ some r
      → any p l ≡ true
  unfolding any find
  find-any [] r h = cc
  find-any (s ∷ l) r h = ground (arith, find-any l r)

  pub any-delete_where :
      (q : Owned MemoryRevision → Bool) (m : JsMap (Owned MemoryRevision))
      → ((r : Owned MemoryRevision) → p r ≡ true → q r ≡ false)
      → any p (values m) ≡ true
      → any p (values (delete_where (λ entry r. q r) m)) ≡ true
  unfolding any delete_where
  any-delete_where q [] spares h = h
  any-delete_where q ((j, r) ∷ m) spares h = elim (Bool-cases (q r)) [
    | inl e ↦ ground (arith, any-delete_where q m spares, spares r)
    | inr e ↦ ground (arith, any-delete_where q m spares)
  ]

module _ (host : Host) (revision_id id : Str) (context : TenantContext) (capture : MemoryCapture)
    (revisions : JsMap (Owned MemoryRevision))
    (fresh : has (key context.tenant_id revision_id) revisions ≡ false) where
  abbrev pub after_record : JsMap (Owned MemoryRevision)
  after_record = (record_revision host revision_id id context capture revisions).0

  abbrev pub wanted : Owned MemoryRevision → Bool
  wanted = records_content context.tenant_id id capture.content_hash

  abbrev kept : Option (Owned MemoryRevision) → JsMap (Owned MemoryRevision)
  kept o = (keep_revision host revision_id id context capture revisions o).0

  keep_revision-text :
      (o : Option (Owned MemoryRevision))
      → find wanted (values revisions) ≡ o
      → any wanted (values (kept o)) ≡ true
  unfolding keep_revision
  keep_revision-text (some r) e = find-any wanted (values revisions) r e
  keep_revision-text none e =
      any-set wanted (key context.tenant_id revision_id)
        (new_revision host revision_id id context capture) revisions fresh
      ∙ unfold new_revision records_content of_document in
        ground (arith, eq_refl context.tenant_id, eq_refl id, eq_refl capture.content_hash)

  keep_revision-keeps :
      (p : Owned MemoryRevision → Bool) (o : Option (Owned MemoryRevision))
      → any p (values revisions) ≡ true
      → any p (values (kept o)) ≡ true
  unfolding keep_revision
  keep_revision-keeps p (some r) h = h
  keep_revision-keeps p none h =
      any-set p (key context.tenant_id revision_id)
        (new_revision host revision_id id context capture) revisions fresh
      ∙ ground (arith, h)

  pub record_revision-text : any wanted (values after_record) ≡ true
  unfolding record_revision
  record_revision-text = keep_revision-text (find wanted (values revisions)) refl

  pub record_revision-keeps :
      (p : Owned MemoryRevision → Bool)
      → any p (values revisions) ≡ true
      → any p (values after_record) ≡ true
  unfolding record_revision
  record_revision-keeps p h = keep_revision-keeps p (find wanted (values revisions)) h
