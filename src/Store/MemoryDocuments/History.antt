-- ===== src/Store/MemoryDocuments/History.antt =====
-- The content hash of every stored memory document is among those of its revisions.
use memoar.Prelude.{◌≡◌, refl, inl, inr, Bool, true, false, [], ◌∷◌, Option, arith}
use memoar.Prelude.Tests.{if◌then◌else◌, Bool-cases, Option-cases}
use memoar.Prelude.Lists.{All, All-mono, any}
use memoar.Prelude.Str.{Str, ◌==◌, eq_iff, eq_refl}
use memoar.Prelude.JsMap.{JsMap, get, has, delete, values, get-All, All-set}
use memoar.Canonical.{MemoryDocument, MemoryRevision, reviewed, TenantContext}
use memoar.Host.{Host}
use memoar.Store.Keys.{NoColon, key-injective}
use memoar.Store.Tables.{MemoryTables, Owned, key}
use memoar.Store.MemoryDocuments.{
  MemoryCapture, capture_memory_document, captured, document_id_of, of_document, record_revision,
  records_content, review_memory_document, delete_memory_document, unchanged,
}
use memoar.Store.MemoryDocuments.Recording.{
  any-delete_where, record_revision-text, record_revision-keeps,
}
use memoar.Store.MemoryDocuments.Revisions.{stored, documents-capture, revisions-capture}

-- Some revision of the table holds the content of the document.
abbrev HasText : JsMap (Owned MemoryRevision) → Owned MemoryDocument → Type 0
HasText revisions d =
    any (records_content d.tenant_id d.row.id d.row.content_hash) (values revisions) ≡ true

-- A document stands under its own key, its tenant has no colon, and its content is recorded.
pub record IsRecorded (revisions : JsMap (Owned MemoryRevision)) (e : Str × Owned MemoryDocument)
    : Type 0 where
  pub keyed : e.0 ≡ key e.1.tenant_id e.1.row.id
  pub tenant : NoColon e.1.tenant_id
  pub text : HasText revisions e.1

abbrev pub AllRecorded : MemoryTables → Type 0
AllRecorded tables = All (IsRecorded tables.memory_revisions) tables.memory_documents

-- A captured document that was there unchanged has its content recorded already.
unchanged-text :
    (id : Str) (context : TenantContext) (capture : MemoryCapture) (tables : MemoryTables)
    → AllRecorded tables
    → NoColon context.tenant_id
    → unchanged (get (key context.tenant_id id) tables.memory_documents) capture ≡ true
    → any
        (records_content context.tenant_id id capture.content_hash)
        (values tables.memory_revisions)
      ≡ true
unchanged-text id context capture tables all nc h =
    elim (Option-cases (get (key context.tenant_id id) tables.memory_documents)) [
      | inl e ↦ unfold unchanged in cc (rw e at h)
      | inr (d, e) ↦
          let rec : IsRecorded tables.memory_revisions (key context.tenant_id id, d) =
            get-All (IsRecorded tables.memory_revisions) (key context.tenant_id id)
              tables.memory_documents all e in
          let (tenants, ids) =
            key-injective context.tenant_id d.tenant_id id d.row.id nc rec.tenant rec.keyed in
          let content : d.row.content_hash ≡ capture.content_hash =
            (eq_iff _ _).0 (unfold unchanged in (rw e at h)) in
          rw (tenants, ids, ← content) rec.text
    ]

-- The table of revisions after a capture.
abbrev chosen :
    Host → Str → TenantContext → MemoryCapture → MemoryTables → Bool → JsMap (Owned MemoryRevision)
chosen host revision_id context capture tables same =
    if same
    then tables.memory_revisions
    else (record_revision host revision_id (document_id_of host context capture) context capture
        tables.memory_revisions).0

module _ (host : Host) (revision_id : Str) (context : TenantContext) (capture : MemoryCapture)
    (tables : MemoryTables)
    (fresh : has (key context.tenant_id revision_id) tables.memory_revisions ≡ false)
    (nc : NoColon context.tenant_id) (all : AllRecorded tables) where
  abbrev old : Option (Owned MemoryDocument)
  old = stored host context capture tables

  chosen-text :
      (b : Bool)
      → unchanged old capture ≡ b
      → any
          (records_content context.tenant_id
            (document_id_of host context capture)
            capture.content_hash)
          (values (chosen host revision_id context capture tables b))
        ≡ true
  chosen-text true e =
      unchanged-text (document_id_of host context capture) context capture tables all nc e
  chosen-text false e =
      record_revision-text host revision_id (document_id_of host context capture) context capture
        tables.memory_revisions fresh

  chosen-keeps :
      (b : Bool) (p : Owned MemoryRevision → Bool)
      → any p (values tables.memory_revisions) ≡ true
      → any p (values (chosen host revision_id context capture tables b)) ≡ true
  chosen-keeps true p h = h
  chosen-keeps false p h =
      record_revision-keeps host revision_id (document_id_of host context capture) context capture
        tables.memory_revisions fresh p h

  IsRecorded-keeps :
      (b : Bool) (e : Str × Owned MemoryDocument)
      → IsRecorded tables.memory_revisions e
      → IsRecorded (chosen host revision_id context capture tables b) e
  IsRecorded-keeps b e h = record {
    keyed = h.keyed;
    tenant = h.tenant;
    text = chosen-keeps b (records_content e.1.tenant_id e.1.row.id e.1.row.content_hash) h.text;
  }

-- Capturing a document keeps every stored document's hash among the revisions, the captured one's
-- included. The tenant has no colon, and the identifier drawn for a new revision is one that no
-- revision has.
pub capture_memory_document-AllRecorded :
    (host : Host) (revision_id : Str) (context : TenantContext) (capture : MemoryCapture)
    (tables : MemoryTables)
    → has (key context.tenant_id revision_id) tables.memory_revisions ≡ false
    → NoColon context.tenant_id
    → AllRecorded tables
    → AllRecorded (capture_memory_document host revision_id context capture tables).0
unfolding captured
capture_memory_document-AllRecorded host revision_id context capture tables fresh nc all =
    let same = unchanged (stored host context capture tables) capture in
    let kept = chosen host revision_id context capture tables same in
    rw
      (
        documents-capture host revision_id context capture tables,
        revisions-capture host revision_id context capture tables,
      )
      (All-set (IsRecorded kept) (key context.tenant_id (document_id_of host context capture)) _
        tables.memory_documents
        (record {
          keyed = refl;
          tenant = nc;
          text = chosen-text host revision_id context capture tables fresh nc all same refl;
        })
        (All-mono (IsRecorded-keeps host revision_id context capture tables fresh nc all same)
          tables.memory_documents all))

-- Completing a review keeps every stored document's hash among the revisions.
pub review_memory_document-AllRecorded :
    (context : TenantContext) (document_id content_hash : Str) (tables : MemoryTables)
    → AllRecorded tables
    → AllRecorded (review_memory_document context document_id content_hash tables).0
unfolding review_memory_document
review_memory_document-AllRecorded context document_id content_hash tables all =
    let k = key context.tenant_id document_id in
    let docs = tables.memory_documents in
    let P = IsRecorded tables.memory_revisions in
    elim (Option-cases (get k docs)) [
      | inl e ↦ rw (e, review_memory_document) all
      | inr (d, e) ↦
          let rec : P (k, d) = get-All P k docs all e in
          elim (Bool-cases (d.row.content_hash == content_hash)) [
            | inl t ↦
                rw (e, review_memory_document)
                  (rw t (
                    All-set P k (record d { row = record d.row { redaction_status = reviewed } })
                      docs (record { keyed = rec.keyed; tenant = rec.tenant; text = rec.text })
                      all))
            | inr f ↦ rw (e, review_memory_document) (rw f all)
          ]
    ]

-- What is left behind a deleted key stands under other keys.
All-delete_ne :
    {V : Type 0} (P : Str × V → Type 0) (k : Str) (m : JsMap V)
    → All P m
    → All (λ (e : Str × V). P e × ((e.0 == k) ≡ false)) (delete k m)
unfolding delete
All-delete_ne P k [] h = tt
All-delete_ne P k ((j, v) ∷ m) h = elim (Bool-cases (j == k)) [
  | inl t ↦ rw t (All-delete_ne P k m h.1)
  | inr f ↦ rw f ((h.0, f), All-delete_ne P k m h.1)
]

other_document :
    (t id : Str) (e : Str × Owned MemoryDocument) (r : Owned MemoryRevision)
    → e.0 ≡ key e.1.tenant_id e.1.row.id
    → (e.0 == key t id) ≡ false
    → records_content e.1.tenant_id e.1.row.id e.1.row.content_hash r ≡ true
    → of_document t id r ≡ false
unfolding records_content of_document
other_document t id e r keyed ne h = ground (
  arith,
  eq_iff r.tenant_id e.1.tenant_id,
  eq_iff r.row.document_id e.1.row.id,
  eq_iff r.tenant_id t,
  eq_iff r.row.document_id id,
  eq_refl (key t id),
)

-- Deleting a document takes its revisions with it and keeps the hash of every other document.
pub delete_memory_document-AllRecorded :
    (context : TenantContext) (document_id : Str) (tables : MemoryTables)
    → AllRecorded tables
    → AllRecorded (delete_memory_document context document_id tables).0
unfolding delete_memory_document
delete_memory_document-AllRecorded context document_id tables all =
    All-mono
      (λ e h. record {
        keyed = h.0.keyed;
        tenant = h.0.tenant;
        text =
            any-delete_where (records_content e.1.tenant_id e.1.row.id e.1.row.content_hash)
              (of_document context.tenant_id document_id) tables.memory_revisions
              (λ r. other_document context.tenant_id document_id e r h.0.keyed h.1) h.0.text;
      })
      (delete (key context.tenant_id document_id) tables.memory_documents)
      (All-delete_ne (IsRecorded tables.memory_revisions) (key context.tenant_id document_id)
        tables.memory_documents all)

-- The calls that write documents. A capture draws an identifier that no revision has, for a tenant
-- without a colon, and comes with the hash of its text (server/src/memory/memory.service.ts).
pub data Step (host : Host) : MemoryTables → MemoryTables → Type 0 where
  capture :
      (tables : MemoryTables) (revision_id : Str) (context : TenantContext) (c : MemoryCapture)
      → has (key context.tenant_id revision_id) tables.memory_revisions ≡ false
      → NoColon context.tenant_id
      → c.content_hash ≡ host.sha256 c.text
      → Step host tables (capture_memory_document host revision_id context c tables).0
  review :
      (tables : MemoryTables) (context : TenantContext) (document_id content_hash : Str)
      → Step host tables (review_memory_document context document_id content_hash tables).0
  discard :
      (tables : MemoryTables) (context : TenantContext) (document_id : Str)
      → Step host tables (delete_memory_document context document_id tables).0

pub data Reach (host : Host) (s : MemoryTables) : MemoryTables → Type 0 where
  here : Reach host s s
  next : {t u : MemoryTables} → Reach host s t → Step host t u → Reach host s u

Step-AllRecorded :
    {host : Host} {t u : MemoryTables} → Step host t u → AllRecorded t → AllRecorded u
Step-AllRecorded {host} (capture tables revision_id context c fresh nc hashed) h =
    capture_memory_document-AllRecorded host revision_id context c tables fresh nc h
Step-AllRecorded (review tables context document_id content_hash) h =
    review_memory_document-AllRecorded context document_id content_hash tables h
Step-AllRecorded (discard tables context document_id) h =
    delete_memory_document-AllRecorded context document_id tables h

-- However captures, reviews and deletions follow one another, the hash of every stored document
-- stays among those of its revisions, if it was so at the start.
pub Reach-AllRecorded :
    {host : Host} {s t : MemoryTables} → AllRecorded s → Reach host s t → AllRecorded t
Reach-AllRecorded h here = h
Reach-AllRecorded h (next r step) = Step-AllRecorded step (Reach-AllRecorded h r)
