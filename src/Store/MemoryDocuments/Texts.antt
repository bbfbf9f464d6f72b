-- ===== src/Store/MemoryDocuments/Texts.antt =====
-- The text of every stored memory document is that of one of its revisions.
use memoar.Prelude.{
  ◌≡◌, refl, sym, ap, ◌∙◌, inl, inr, Bool, true, List, [], ◌∷◌, ◌++◌, Option, none, some, arith,
}
use memoar.Prelude.Tests.{Bool-cases, Option-cases}
use memoar.Prelude.Lists.{All, All-filter, All-mono, any}
use memoar.Prelude.Str.{Str, ◌==◌, eq_sound}
use memoar.Prelude.JsMap.{All-set, delete_where, get, JsMap, values}
use memoar.Canonical.{MemoryDocument, MemoryRevision, TenantContext}
use memoar.Host.{Host}
use memoar.Store.Tables.{key, MemoryTables, Owned}
use memoar.Store.MemoryDocuments.{
  delete_memory_document, document_id_of, keep_revision, MemoryCapture, new_revision, of_document,
  record_revision, records_content, review_memory_document, unchanged,
}
use memoar.Store.MemoryDocuments.History.{AllRecorded, IsRecorded, Reach, Reach-AllRecorded, Step}
use memoar.Store.MemoryDocuments.Revisions.{revisions-capture, stored}

-- Every revision states the hash of the text that it holds.
abbrev pub AllGenuine : Host → MemoryTables → Type 0
AllGenuine host tables =
    All (λ (e : Str × Owned MemoryRevision). e.1.row.content_hash ≡ host.sha256 e.1.row.text)
      tables.memory_revisions

-- A revision of the document among the stored ones, and its text: the document's hash is of it.
pub record TextKept (host : Host) (revisions : List (Owned MemoryRevision))
    (d : Owned MemoryDocument) : Type 0 where
  pub front : List (Owned MemoryRevision)
  pub revision : Owned MemoryRevision
  pub back : List (Owned MemoryRevision)
  pub among : revisions ≡ front ++ (revision ∷ back)
  pub of_tenant : revision.tenant_id ≡ d.tenant_id
  pub of_document : revision.row.document_id ≡ d.row.id
  pub text : host.sha256 revision.row.text ≡ d.row.content_hash

any-split :
    (p : Owned MemoryRevision → Bool) (rs : List (Owned MemoryRevision))
    → any p rs ≡ true
    → (front : List (Owned MemoryRevision)) × (r : Owned MemoryRevision) × (back : List
        (Owned MemoryRevision))
      × ((rs ≡ front ++ (r ∷ back)) × (p r ≡ true))
unfolding any
any-split p [] h = cc
any-split p (r ∷ rs) h = elim (Bool-cases (p r)) [
  | inl e ↦ ([], r, rs, (refl, e))
  | inr e ↦
      let (front, x, back, (same, passes)) = any-split p rs (rw e at h) in
      (r ∷ front, x, back, (ap (r ∷◌) same, passes))
]

module _ (host : Host) where
  abbrev Genuine : Owned MemoryRevision → Type 0
  Genuine r = r.row.content_hash ≡ host.sha256 r.row.text

  abbrev GenuineEntry : Str × Owned MemoryRevision → Type 0
  GenuineEntry e = Genuine e.1

  values-Genuine : (m : JsMap (Owned MemoryRevision)) → All GenuineEntry m → All Genuine (values m)
  values-Genuine [] h = tt
  values-Genuine (e ∷ m) h = (h.0, values-Genuine m h.1)

  own_hash :
      (front : List (Owned MemoryRevision)) (r : Owned MemoryRevision)
      (back : List (Owned MemoryRevision))
      → All Genuine (front ++ (r ∷ back))
      → Genuine r
  own_hash [] r back h = h.0
  own_hash (x ∷ front) r back h = own_hash front r back h.1

  module _ (revision_id id : Str) (context : TenantContext) (capture : MemoryCapture)
      (hashed : capture.content_hash ≡ host.sha256 capture.text)
      (revisions : JsMap (Owned MemoryRevision)) (genuine : All GenuineEntry revisions) where
    keep_revision-Genuine :
        (o : Option (Owned MemoryRevision))
        → All GenuineEntry (keep_revision host revision_id id context capture revisions o).0
    unfolding keep_revision new_revision
    keep_revision-Genuine (some r) = genuine
    keep_revision-Genuine none =
        All-set GenuineEntry (key context.tenant_id revision_id) _ revisions hashed genuine

    record_revision-Genuine :
        All GenuineEntry (record_revision host revision_id id context capture revisions).0
    unfolding record_revision
    record_revision-Genuine = keep_revision-Genuine _

  review-revisions :
      (context : TenantContext) (document_id content_hash : Str) (tables : MemoryTables)
      → (review_memory_document context document_id content_hash tables).0.memory_revisions
        ≡ tables.memory_revisions
  unfolding review_memory_document
  review-revisions context document_id content_hash tables =
      elim (Option-cases (get (key context.tenant_id document_id) tables.memory_documents)) [
        | inl e ↦ rw (e, review_memory_document) refl
        | inr (d, e) ↦ elim (Bool-cases (d.row.content_hash == content_hash)) [
          | inl t ↦ rw (e, review_memory_document) (rw t refl)
          | inr f ↦ rw (e, review_memory_document) (rw f refl)
        ]
      ]

  Step-AllGenuine : {t u : MemoryTables} → Step host t u → AllGenuine host t → AllGenuine host u
  unfolding delete_memory_document delete_where
  Step-AllGenuine (Step.capture tables revision_id context c fresh nc hashed) h =
      elim (Bool-cases (unchanged (stored host context c tables) c)) [
        | inl e ↦ rw (revisions-capture host revision_id context c tables, e) h
        | inr e ↦
            rw (revisions-capture host revision_id context c tables, e)
              (record_revision-Genuine revision_id (document_id_of host context c) context c hashed
                tables.memory_revisions h)
      ]
  Step-AllGenuine (Step.review tables context document_id content_hash) h =
      rw (review-revisions context document_id content_hash tables) h
  Step-AllGenuine (Step.discard tables context document_id) h =
      All-filter GenuineEntry _ tables.memory_revisions h

  Reach-AllGenuine : {s t : MemoryTables} → AllGenuine host s → Reach host s t → AllGenuine host t
  Reach-AllGenuine h Reach.here = h
  Reach-AllGenuine h (Reach.next r step) = Step-AllGenuine step (Reach-AllGenuine h r)

  IsRecorded-TextKept :
      (revisions : JsMap (Owned MemoryRevision))
      → All GenuineEntry revisions
      → (e : Str × Owned MemoryDocument) → IsRecorded revisions e
      → TextKept host (values revisions) e.1
  unfolding records_content of_document
  IsRecorded-TextKept revisions genuine (k, d) h =
      let (front, r, back, (same, passes)) =
        any-split (records_content d.tenant_id d.row.id d.row.content_hash) (values revisions)
          h.text in
      let own = own_hash front r back (rw same at (values-Genuine revisions genuine)) in
      record {
        front = front;
        revision = r;
        back = back;
        among = same;
        of_tenant = eq_sound r.tenant_id d.tenant_id (ground (arith, passes));
        of_document = eq_sound r.row.document_id d.row.id (ground (arith, passes));
        text = sym own ∙ eq_sound r.row.content_hash d.row.content_hash (ground (arith, passes));
      }

  -- Captures, whose hashes are of their texts, reviews and deletions may follow one another in any
  -- way: one of the revisions of every stored document holds a text with the hash that the document
  -- states, if at the start the documents' hashes were recorded and the revisions' hashes were of
  -- their texts.
  pub Reach-TextKept :
      {s t : MemoryTables}
      → AllRecorded s
      → AllGenuine host s
      → Reach host s t
      → All
          (λ (e : Str × Owned MemoryDocument). TextKept host (values t.memory_revisions) e.1)
          t.memory_documents
  Reach-TextKept {t = t} recorded genuine path =
      All-mono (IsRecorded-TextKept t.memory_revisions (Reach-AllGenuine genuine path))
        t.memory_documents (Reach-AllRecorded recorded path)
