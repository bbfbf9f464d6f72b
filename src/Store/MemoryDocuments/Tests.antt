-- ===== src/Store/MemoryDocuments/Tests.antt =====
-- Runs of the memory documents.
use memoar.Prelude.{◌≡◌, refl, [], none, some}
use memoar.Prelude.Tests.{if◌then◌else◌}
use memoar.Prelude.Str.{codes, Str}
use memoar.Prelude.Lists.{All}
use memoar.Prelude.JsMap.{has, values}
use memoar.Canonical.{clear, is_reviewed, MemoryDocument, MemoryScope}
use memoar.Store.Tables.{MemoryTables, Owned}
use memoar.Store.MemoryDocuments.{capture_memory_document, MemoryCapture}
use memoar.Store.MemoryDocuments.History.{Reach, Step}
use memoar.Store.MemoryDocuments.Texts.{Reach-TextKept, TextKept}
use memoar.Store.MemoryDocuments.Revisions.{
  old_findings, stored, stored-capture_memory_document, was_reviewed,
}
use memoar.Examples.{ann, ann-NoColon, crew, host, tables}

abbrev notes : MemoryCapture
notes = record {
  scope = MemoryScope.project;
  machine_id = codes "m";
  workspace_path = none;
  path = codes "/w/notes";
  title = codes "N";
  readers = [];
  content_hash = codes "text";
  text = codes "text";
  captured_at = codes "1";
  visibility = crew;
  redaction_status = clear;
  redaction_findings = [];
  provenance = none;
}

captured_once : Reach host tables (capture_memory_document host (codes "v") ann notes tables).0
unfolding has
captured_once =
    Reach.next Reach.here (Step.capture tables (codes "v") ann notes refl ann-NoColon refl)

abbrev after_capture : MemoryTables
after_capture = (capture_memory_document host (codes "v") ann notes tables).0

Reach-TextKept_example :
    All
      (λ (e : Str × Owned MemoryDocument).
        TextKept host (values after_capture.memory_revisions) e.1)
      after_capture.memory_documents
Reach-TextKept_example = Reach-TextKept host tt tt captured_once

stored-capture_memory_document_example :
    (d : Owned MemoryDocument) × (stored host ann notes
        (capture_memory_document host (codes "v") ann notes tables).0
      ≡ some d)
    × (d.row.content_hash ≡ codes "text")
    × (is_reviewed d.row.redaction_status ≡ was_reviewed (stored host ann notes tables) notes)
    × (d.row.redaction_findings ≡ (
        if was_reviewed (stored host ann notes tables) notes
        then old_findings (stored host ann notes tables)
        else []))
unfolding is_reviewed
stored-capture_memory_document_example =
    stored-capture_memory_document host (codes "v") ann notes tables refl
