-- ===== src/Store/MemoryDocuments.antt =====
-- server/src/store/memory/memory-documents.ts: memory documents and their revisions.
pub mod Revisions
pub mod Recording
pub mod History
pub mod Texts
pub mod Tests
use memoar.Prelude.{
  ℕ, ◌≡◌, Bool, true, false, not, ◌&&◌, ◌||◌, List, [], ◌∷◌, ◌++◌, map, Option, none, some,
  Ordering,
}
use memoar.Prelude.Tests.{if◌then◌else◌, is_some, or_else}
use memoar.Prelude.Lists.{filter, find, sort_by, length}
use memoar.Prelude.Str.{Str, codes, ◌==◌, truthy, truthy?, opt_eq}
use memoar.Prelude.JsMap.{JsMap, get, has, set, delete, delete_where, values}
use memoar.Canonical.{
  MemoryDocument, MemoryRevision, MemoryScope, ProvenanceEntry, RedactionStatus, reviewed,
  TenantContext, Visibility, is_reviewed, same_scope,
}
use memoar.Host.{Host, then_by}
use memoar.Ids.{uuid_v5}
use memoar.Store.Tables.{MemoryTables, Owned, key}

-- server/src/store/interfaces.ts
pub record MemoryCapture : Type 0 where
  pub scope : MemoryScope
  pub machine_id : Str
  pub workspace_path : Option Str
  pub path : Str
  pub title : Str
  pub readers : List Str
  pub content_hash : Str
  pub text : Str
  pub captured_at : Str
  pub visibility : Visibility
  pub redaction_status : RedactionStatus
  pub redaction_findings : List Str
  pub provenance : Option (List ProvenanceEntry)

rows : List (Owned MemoryDocument) → List MemoryDocument
rows = map (λ (d : Owned MemoryDocument). d.row)

documents_for : TenantContext → MemoryTables → List (Owned MemoryDocument)
documents_for context tables =
    filter (λ (d : Owned MemoryDocument). d.tenant_id == context.tenant_id)
      (values tables.memory_documents)

abbrev wants_scope : Option MemoryScope → MemoryScope → Bool
wants_scope none scope = true
wants_scope (some wanted) scope = same_scope scope wanted

pub list_memory_documents :
    Host → TenantContext → Option Str → Option MemoryScope → MemoryTables → List MemoryDocument
unfolding documents_for rows
list_memory_documents host context machine_id scope tables =
    sort_by (λ (left right : MemoryDocument). host.locale_compare left.path right.path)
      (filter
        (λ (d : MemoryDocument).
          (not (truthy? machine_id) || opt_eq (some d.machine_id) machine_id)
          && wants_scope scope d.scope)
        (rows (documents_for context tables)))

pub get_memory_document : TenantContext → Str → MemoryTables → Option MemoryDocument
get_memory_document context document_id tables =
    elim (get (key context.tenant_id document_id) tables.memory_documents) [
      | none ↦ none
      | some d ↦ some d.row
    ]

-- `revision.tenantId === tenantId && revision.documentId === documentId`
pub of_document : Str → Str → Owned MemoryRevision → Bool
of_document tenant document_id r = r.tenant_id == tenant && r.row.document_id == document_id

pub list_memory_revisions : Host → TenantContext → Str → MemoryTables → List MemoryRevision
unfolding of_document
list_memory_revisions host context document_id tables =
    map (λ (r : Owned MemoryRevision). r.row)
      (sort_by
        (λ (left right : Owned MemoryRevision).
          then_by (host.locale_compare right.row.captured_at left.row.captured_at)
            (host.locale_compare right.row.id left.row.id))
        (filter (of_document context.tenant_id document_id) (values tables.memory_revisions)))

-- The identifier is derived from the machine and the path.
pub document_id_of : Host → TenantContext → MemoryCapture → Str
document_id_of host context capture =
    uuid_v5 host
      (context.tenant_id ++ (codes ":memory:" ++ (capture.machine_id ++ (b':' ∷ capture.path))))

-- `existing?.contentHash === capture.contentHash`
pub unchanged : Option (Owned MemoryDocument) → MemoryCapture → Bool
unchanged none capture = false
unchanged (some d) capture = d.row.content_hash == capture.content_hash

-- A completed review survives a capture that found the content unchanged.
pub verdict :
    Option (Owned MemoryDocument)
    → MemoryCapture
    → record { status : RedactionStatus; findings : List Str }
verdict none capture = record {
  status = capture.redaction_status;
  findings = capture.redaction_findings;
}
verdict (some d) capture =
    if d.row.content_hash == capture.content_hash && is_reviewed d.row.redaction_status
    then record { status = reviewed; findings = d.row.redaction_findings }
    else record { status = capture.redaction_status; findings = capture.redaction_findings }

abbrev present : Option Str → Option Str
present none = none
present (some s) = if truthy s then some s else none

pub captured :
    Str → Option (Owned MemoryDocument) → TenantContext → MemoryCapture → Owned MemoryDocument
unfolding verdict
captured id existing context capture = record {
  tenant_id = context.tenant_id;
  row = record {
    id = id;
    scope = capture.scope;
    machine_id = capture.machine_id;
    workspace_path = present capture.workspace_path;
    path = capture.path;
    title = capture.title;
    readers = capture.readers;
    content_hash = capture.content_hash;
    captured_at = capture.captured_at;
    visibility = capture.visibility;
    redaction_status = (verdict existing capture).status;
    redaction_findings = (verdict existing capture).findings;
    provenance = or_else capture.provenance [];
  };
}

pub new_revision : Host → Str → Str → TenantContext → MemoryCapture → Owned MemoryRevision
new_revision host revision_id id context capture = record {
  tenant_id = context.tenant_id;
  row = record {
    id = revision_id;
    document_id = id;
    content_hash = capture.content_hash;
    text = capture.text;
    size = length (host.utf8 capture.text);
    captured_at = capture.captured_at;
  };
}

-- `revision.documentId === id && revision.contentHash === capture.contentHash`, in the tenant
pub records_content : Str → Str → Str → Owned MemoryRevision → Bool
unfolding of_document
records_content tenant id content_hash r =
    of_document tenant id r && r.row.content_hash == content_hash

pub keep_revision :
    Host
    → Str
    → Str
    → TenantContext
    → MemoryCapture
    → JsMap (Owned MemoryRevision)
    → Option (Owned MemoryRevision)
    → JsMap (Owned MemoryRevision) × Option MemoryRevision
unfolding new_revision
keep_revision host revision_id id context capture revisions (some recorded) =
    (revisions, some recorded.row)
keep_revision host revision_id id context capture revisions none =
    let revision = new_revision host revision_id id context capture in
    (set (key context.tenant_id revision_id) revision revisions, some revision.row)

-- The revision that `captureMemoryDocument` answers and the table that it leaves.
pub record_revision :
    Host
    → Str
    → Str
    → TenantContext
    → MemoryCapture
    → JsMap (Owned MemoryRevision)
    → JsMap (Owned MemoryRevision) × Option MemoryRevision
unfolding keep_revision records_content
record_revision host revision_id id context capture revisions =
    keep_revision host revision_id id context capture revisions
      (find (records_content context.tenant_id id capture.content_hash) (values revisions))

-- `revision_id` is the identifier that the call would draw for a new revision.
pub capture_memory_document :
    Host
    → Str
    → TenantContext
    → MemoryCapture
    → MemoryTables
    → MemoryTables × MemoryDocument × Option MemoryRevision
unfolding captured record_revision document_id_of unchanged
capture_memory_document host revision_id context capture tables =
    let id = document_id_of host context capture in
    let existing = get (key context.tenant_id id) tables.memory_documents in
    let document = captured id existing context capture in
    let documents = set (key context.tenant_id id) document tables.memory_documents in
    let recorded = record_revision host revision_id id context capture tables.memory_revisions in
    if unchanged existing capture
    then (record tables { memory_documents = documents }, document.row, none)
    else (
      record tables { memory_documents = documents; memory_revisions = recorded.0 },
      document.row,
      recorded.1,
    )

pub review_memory_document :
    TenantContext → Str → Str → MemoryTables → MemoryTables × Option MemoryDocument
review_memory_document context document_id content_hash tables =
    elim (get (key context.tenant_id document_id) tables.memory_documents) [
      | none ↦ (tables, none)
      | some d ↦
          let row : MemoryDocument = record d.row { redaction_status = reviewed } in
          if not (d.row.content_hash == content_hash) then (tables, none) else (
            record tables {
              memory_documents =
                  set (key context.tenant_id document_id) (record d { row = row })
                    tables.memory_documents;
            },
            some row,
          )
    ]

pub delete_memory_document : TenantContext → Str → MemoryTables → MemoryTables × Bool
unfolding of_document
delete_memory_document context document_id tables = (
  record tables {
    memory_documents = delete (key context.tenant_id document_id) tables.memory_documents;
    memory_revisions =
        delete_where (λ entry r. of_document context.tenant_id document_id r)
          tables.memory_revisions;
  },
  has (key context.tenant_id document_id) tables.memory_documents,
)
