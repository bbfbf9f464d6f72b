-- ===== src/Store/TransferCopy.antt =====
-- server/src/store/transfer-copy.ts and server/src/store/review-digest.ts: the copy of a session
-- for its recipient, and the digest of what a review looked at. `fresh` is the sequence of
-- identifiers that the copy draws: one for each turn, one for each block, one for the session.
use memoar.Prelude.{ℕ, suc, List, [], ◌∷◌, ◌++◌, Option, none, some}
use memoar.Prelude.Tests.{if◌then◌else◌, or_else}
use memoar.Prelude.Str.{Str, truthy}
use memoar.Prelude.JsMap.{JsMap, get, set}
use memoar.Canonical.{
  ArchivedSession, ContentBlock, imported, private, ProvenanceEntry, RedactionStatus, Turn,
}
use memoar.Host.{Host}
use memoar.Redaction.{Engine, ProjectionOptions, apply_redaction_projection}

-- The loop that fills `turnIdMap`, and the number of the next draw.
pub turn_id_map : (ℕ → Str) → ℕ → List Turn → JsMap Str → JsMap Str × ℕ
turn_id_map fresh n [] ids = (ids, n)
turn_id_map fresh n (turn ∷ turns) ids = turn_id_map fresh (suc n) turns (set turn.id (fresh n) ids)

pub copy_blocks : (ℕ → Str) → ℕ → List ContentBlock → List ContentBlock × ℕ
copy_blocks fresh n [] = ([], n)
copy_blocks fresh n (block ∷ blocks) =
    let (rest, m) = copy_blocks fresh (suc n) blocks in (record block { id = fresh n } ∷ rest, m)

-- `turn.parentId ? turnIdMap.get(turn.parentId) ?? turn.parentId : turn.parentId`
pub copy_parent : JsMap Str → Option Str → Option Str
copy_parent ids none = none
copy_parent ids (some parent) =
    some (if truthy parent then or_else (get parent ids) parent else parent)

pub copy_turns : (ℕ → Str) → JsMap Str → ℕ → List Turn → List Turn × ℕ
unfolding copy_blocks copy_parent
copy_turns fresh ids n [] = ([], n)
copy_turns fresh ids n (turn ∷ turns) =
    let (blocks, m) = copy_blocks fresh n turn.blocks in
    let (rest, k) = copy_turns fresh ids m turns in
    (
      record turn {
        id = or_else (get turn.id ids) turn.id;
        parent_id = copy_parent ids turn.parent_id;
        blocks = blocks;
      }
          ∷ rest,
      k,
    )

-- `${provenancePrefix}:${transferId}:${source.id}`
import_entry : Str → Str → Str → Str → ProvenanceEntry
import_entry provenance_prefix transfer_id source_id now = record {
  kind = imported;
  source_id = some (provenance_prefix ++ (b':' ∷ (transfer_id ++ (b':' ∷ source_id))));
  captured_at = now;
  parser_version = none;
  details = none;
}

unfoldable pub copy_transferred_session :
    Engine
    → (ℕ → Str)
    → Str
    → ArchivedSession
    → Str
    → Str
    → Str
    → ProjectionOptions
    → ArchivedSession
unfolding turn_id_map copy_turns import_entry
copy_transferred_session engine fresh now source transfer_id owner_id provenance_prefix projection =
    let clone = apply_redaction_projection engine source projection in
    let (ids, n) = turn_id_map fresh 0 clone.turns [] in
    let (turns, m) = copy_turns fresh ids n clone.turns in
    record clone {
      id = fresh m;
      turns = turns;
      visibility = record { scope = private; owner_id = owner_id; team_id = none; org_id = none };
      provenance =
          clone.provenance ++ import_entry provenance_prefix transfer_id source.id now ∷ [];
    }

pub record Reviewed : Type 0 where
  pub id : Str
  pub updated_at : Str
  pub turns : List Turn
  pub redaction_status : RedactionStatus

-- `stringify` is `JSON.stringify`.
unfoldable pub session_content_digest : Host → (Reviewed → Str) → ArchivedSession → Str
session_content_digest host stringify session = host.sha256 (
    stringify (record {
      id = session.id;
      updated_at = session.updated_at;
      turns = session.turns;
      redaction_status = session.redaction_status;
    }))
