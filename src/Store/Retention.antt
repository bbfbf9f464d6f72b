-- ===== src/Store/Retention.antt =====
-- server/src/store/memory/operations.ts: `applyRetention`.
pub mod Sweep
pub mod Tests
use memoar.Prelude.{
  ℕ, zero, suc, ◌+◌, Bool, true, false, not, ◌&&◌, ◌||◌, List, [], ◌∷◌, ◌++◌, map, Option, none,
  some,
}
use memoar.Prelude.Tests.{if◌then◌else◌, nat_eq}
use memoar.Prelude.Lists.{filter, length}
use memoar.Prelude.Str.{Str, ◌==◌, contains, str_lt}
use memoar.Prelude.JsMap.{JsMap, delete_where, values}
use memoar.Canonical.{ArchivedSession, TenantContext}
use memoar.Store.Keys.{in_tenant}
use memoar.Store.Records.{CollectionRecord, RawArtifactRecord}
use memoar.Store.Tables.{MemoryTables}

-- The sessions that the tenant's collections hold, if those are exempt.
pub collected : TenantContext → Bool → List CollectionRecord → List Str
collected context exempt [] = []
collected context exempt (c ∷ cs) =
    let rest = collected context exempt cs in
    if exempt && c.tenant_id == context.tenant_id then c.session_ids ++ rest else rest

-- `session.updatedAt >= cutoffIso || collected.has(session.id)` spares.
pub is_swept : Str → Str → List Str → Str → ArchivedSession → Bool
is_swept tenant cutoff held entry session =
    in_tenant tenant entry
    && not (not (str_lt session.updated_at cutoff) || contains held session.id)

abbrev add_to_set : List Str → Str → List Str
add_to_set ids id = if contains ids id then ids else ids ++ id ∷ []

-- `deleted`, in the order of the table
pub swept_ids : Str → Str → List Str → JsMap ArchivedSession → List Str → List Str
unfolding is_swept
swept_ids tenant cutoff held [] deleted = deleted
swept_ids tenant cutoff held ((entry, session) ∷ m) deleted =
    swept_ids tenant cutoff held m
      (if is_swept tenant cutoff held entry session then add_to_set deleted session.id else deleted)

-- The loop over the artifacts: the table that it leaves and the number of deletions.
pub sweep_artifacts : Str → List Str → JsMap RawArtifactRecord → JsMap RawArtifactRecord × ℕ
sweep_artifacts tenant deleted [] = ([], 0)
sweep_artifacts tenant deleted ((entry, artifact) ∷ m) =
    let (rest, count) = sweep_artifacts tenant deleted m in
    let left = filter (λ (id : Str). not (contains deleted id)) artifact.session_ids in
    if not (artifact.tenant_id == tenant) || nat_eq (length artifact.session_ids) 0
    then ((entry, artifact) ∷ rest, count)
    else if nat_eq (length left) 0
    then (rest, count + 1)
    else if not (nat_eq (length left) (length artifact.session_ids))
    then ((entry, record artifact { session_ids = left }) ∷ rest, count)
    else ((entry, artifact) ∷ rest, count)

pub record RetentionResult : Type 0 where
  pub deleted_sessions : ℕ
  pub deleted_artifacts : ℕ

pub apply_retention : TenantContext → Str → Bool → MemoryTables → MemoryTables × RetentionResult
unfolding collected is_swept swept_ids sweep_artifacts
apply_retention context cutoff exempt tables =
    let held = collected context exempt (values tables.collections) in
    let deleted = swept_ids context.tenant_id cutoff held tables.sessions [] in
    let (artifacts, count) = sweep_artifacts context.tenant_id deleted tables.artifacts in
    (
      record tables {
        sessions = delete_where (is_swept context.tenant_id cutoff held) tables.sessions;
        artifacts = artifacts;
      },
      record { deleted_sessions = length deleted; deleted_artifacts = count },
    )
