-- ===== src/Store/MemoryDocuments/Revisions.antt =====
-- Captures, reviews and revisions of memory documents.
use memoar.Prelude.{◌≡◌, refl, Bool, true, false, ◌&&◌, List, [], Option, none, some, arith}
use memoar.Prelude.Tests.{if◌then◌else◌}
use memoar.Prelude.Str.{Str, ◌==◌, eq_refl}
use memoar.Prelude.JsMap.{get, set, get-set_self}
use memoar.Canonical.{MemoryDocument, TenantContext, is_reviewed}
use memoar.Host.{Host}
use memoar.Store.Tables.{MemoryTables, Owned, key}
use memoar.Store.MemoryDocuments.{
  MemoryCapture, capture_memory_document, captured, document_id_of, record_revision, unchanged,
  verdict,
}

abbrev pub stored :
    Host → TenantContext → MemoryCapture → MemoryTables → Option (Owned MemoryDocument)
stored host context capture tables =
    get (key context.tenant_id (document_id_of host context capture)) tables.memory_documents

abbrev pub was_reviewed : Option (Owned MemoryDocument) → MemoryCapture → Bool
was_reviewed none capture = false
was_reviewed (some d) capture =
    d.row.content_hash == capture.content_hash && is_reviewed d.row.redaction_status

abbrev pub old_findings : Option (Owned MemoryDocument) → List Str
old_findings none = []
old_findings (some d) = d.row.redaction_findings

captured-verdict :
    (id : Str) (old : Option (Owned MemoryDocument)) (context : TenantContext)
    (capture : MemoryCapture)
    → is_reviewed capture.redaction_status ≡ false
    → (is_reviewed (captured id old context capture).row.redaction_status
        ≡ was_reviewed old capture)
      × ((captured id old context capture).row.redaction_findings
          ≡ (if was_reviewed old capture then old_findings old else capture.redaction_findings))
unfolding captured verdict is_reviewed
captured-verdict id none context capture h = (h, refl)
captured-verdict id (some d) context capture h = (ground (arith, h), ground arith)

-- A captured document is stored with the captured content. It counts as reviewed exactly when the
-- same content was stored before and had been reviewed, and then it keeps the findings of that
-- review; a capture never brings a verdict of `reviewed` itself.
pub stored-capture_memory_document :
    (host : Host) (revision_id : Str) (context : TenantContext) (capture : MemoryCapture)
    (tables : MemoryTables)
    → is_reviewed capture.redaction_status ≡ false
    → (d : Owned MemoryDocument) × (stored host context capture
          (capture_memory_document host revision_id context capture tables).0
        ≡ some d)
      × (d.row.content_hash ≡ capture.content_hash)
      × (is_reviewed d.row.redaction_status
          ≡ was_reviewed (stored host context capture tables) capture)
      × (d.row.redaction_findings ≡ (
          if was_reviewed (stored host context capture tables) capture
          then old_findings (stored host context capture tables)
          else capture.redaction_findings))
unfolding capture_memory_document
stored-capture_memory_document host revision_id context capture tables fresh =
    let id = document_id_of host context capture in
    let old = get (key context.tenant_id id) tables.memory_documents in
    let verdicts = captured-verdict id old context capture fresh in
    (
      captured id old context capture,
      ground (
        arith,
        get-set_self (key context.tenant_id id) (captured id old context capture)
            tables.memory_documents,
      ),
      unfold captured in refl,
      verdicts.0,
      verdicts.1,
    )

abbrev pub documents_after :
    Host → Str → TenantContext → MemoryCapture → MemoryTables → MemoryTables
documents_after host revision_id context capture tables =
    (capture_memory_document host revision_id context capture tables).0

pub documents-capture :
    (host : Host) (revision_id : Str) (context : TenantContext) (capture : MemoryCapture)
    (tables : MemoryTables)
    → (documents_after host revision_id context capture tables).memory_documents
      ≡ set
          (key context.tenant_id (document_id_of host context capture))
          (captured
            (document_id_of host context capture)
            (stored host context capture tables)
            context
            capture)
          tables.memory_documents
unfolding capture_memory_document
documents-capture host revision_id context capture tables = ground arith

pub revisions-capture :
    (host : Host) (revision_id : Str) (context : TenantContext) (capture : MemoryCapture)
    (tables : MemoryTables)
    → (documents_after host revision_id context capture tables).memory_revisions ≡ (
        if unchanged (stored host context capture tables) capture
        then tables.memory_revisions
        else (record_revision host revision_id
            (document_id_of host context capture)
            context
            capture
            tables.memory_revisions).0)
unfolding capture_memory_document
revisions-capture host revision_id context capture tables = ground arith

revisions-unchanged :
    (host : Host) (revision_id : Str) (context : TenantContext) (capture : MemoryCapture)
    (tables : MemoryTables)
    → unchanged (stored host context capture tables) capture ≡ true
    → ((documents_after host revision_id context capture tables).memory_revisions
        ≡ tables.memory_revisions)
      × ((capture_memory_document host revision_id context capture tables).2 ≡ none)
unfolding capture_memory_document
revisions-unchanged host revision_id context capture tables h = (ground arith, ground arith)

-- Capturing the same file again with the same content records no second revision, whatever else
-- the second capture says and whatever identifier it would draw.
pub capture_memory_document-again :
    (host : Host) (first second : Str) (context : TenantContext) (capture again : MemoryCapture)
    (tables : MemoryTables)
    → again.machine_id ≡ capture.machine_id
    → again.path ≡ capture.path
    → again.content_hash ≡ capture.content_hash
    → ((documents_after host second context again
          (documents_after host first context capture tables)).memory_revisions
        ≡ (documents_after host first context capture tables).memory_revisions)
      × ((capture_memory_document host second context again
            (documents_after host first context capture tables)).2
          ≡ none)
capture_memory_document-again host first second context capture again tables machine path content =
    let same : document_id_of host context again ≡ document_id_of host context capture =
      unfold document_id_of in rw (machine, path) in
    revisions-unchanged host second context again
      (documents_after host first context capture tables)
      (rw
        (
          same,
          documents-capture host first context capture tables,
          get-set_self (key context.tenant_id (document_id_of host context capture))
              (captured (document_id_of host context capture) (stored host context capture tables)
                context capture)
              tables.memory_documents,
        )
        (unfold captured unchanged in rw content (eq_refl capture.content_hash)))
