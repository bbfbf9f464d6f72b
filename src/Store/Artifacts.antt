-- ===== src/Store/Artifacts.antt =====
-- server/src/store/memory/operations.ts: `MemoryArtifactStore` and `MemoryJobStore`.
use memoar.Prelude.{
  ℕ, ◌+◌, Bool, true, false, not, List, [], ◌∷◌, map, Option, none, some, Ordering,
}
use memoar.Prelude.Tests.{if◌then◌else◌, or_else}
use memoar.Prelude.Lists.{filter, sort_by}
use memoar.Prelude.Str.{Str, codes, ◌==◌, opt_eq}
use memoar.Prelude.JsMap.{JsMap, get, has, set, values}
use memoar.Canonical.{TenantContext}
use memoar.Host.{Host, then_by}
use memoar.Store.Keys.{in_tenant}
use memoar.Store.Records.{RawArtifactRecord, ArtifactStatus, unknown_format, JobRecord}
use memoar.Store.Tables.{MemoryTables, key, Result, ok, err, tenant_mismatch}
use Prim.Native.Nat.{compare}

pub save_raw_artifact :
    TenantContext → RawArtifactRecord → MemoryTables → MemoryTables × Result Bool
save_raw_artifact context artifact tables =
    if has (key context.tenant_id artifact.sha256) tables.artifacts
    then (tables, ok false)
    else if not (artifact.tenant_id == context.tenant_id)
    then (tables, err tenant_mismatch)
    else (
      record tables {
        artifacts = set (key context.tenant_id artifact.sha256) artifact tables.artifacts;
      },
      ok true,
    )

pub update_raw_artifact :
    TenantContext → RawArtifactRecord → MemoryTables → MemoryTables × Result (Unit {0})
update_raw_artifact context artifact tables =
    if not (artifact.tenant_id == context.tenant_id) then (tables, err tenant_mismatch) else (
      record tables {
        artifacts = set (key context.tenant_id artifact.sha256) artifact tables.artifacts;
      },
      ok tt,
    )

pub get_raw_artifact : TenantContext → Str → MemoryTables → Option RawArtifactRecord
get_raw_artifact context sha256 tables = get (key context.tenant_id sha256) tables.artifacts

-- The hashes of the list that the archive holds; the answer is read as a set.
pub list_artifact_hashes : TenantContext → List Str → MemoryTables → List Str
list_artifact_hashes context hashes tables =
    filter (λ (hash : Str). has (key context.tenant_id hash) tables.artifacts) hashes

pub list_raw_artifacts : TenantContext → MemoryTables → List RawArtifactRecord
list_raw_artifacts context tables =
    values
      (filter (λ (e : Str × RawArtifactRecord). in_tenant context.tenant_id e.0) tables.artifacts)

-- `status !== "unknown_format" && status !== "failed"` skips.
pub is_unparsed : ArtifactStatus → Bool
is_unparsed unknown_format = true
is_unparsed ArtifactStatus.failed = true
is_unparsed _ = false

-- A `Map` whose keys are a diagnostic or null.
abbrev pub Reasons : Type 0
Reasons = List (Option Str × ℕ)

-- `reasons.set(reason, (reasons.get(reason) ?? 0) + 1)`
pub bump : Option Str → Reasons → Reasons
bump reason [] = (reason, 1) ∷ []
bump reason ((r, n) ∷ rest) =
    let more = bump reason rest in if opt_eq r reason then (r, n + 1) ∷ rest else (r, n) ∷ more

pub tally : List RawArtifactRecord → JsMap Reasons → JsMap Reasons
unfolding is_unparsed bump
tally [] by_source = by_source
tally (artifact ∷ rest) by_source = tally rest (
    if is_unparsed artifact.status
    then set artifact.source (bump artifact.diagnostic (or_else (get artifact.source by_source) []))
        by_source
    else by_source)

pub record UnparsedCount : Type 0 where
  pub source : Str
  pub artifacts : ℕ
  pub diagnostic : Option Str

pub total_of : Reasons → ℕ
total_of [] = 0
total_of ((r, n) ∷ rest) = n + total_of rest

-- `String(reason)`
abbrev reason_text : Option Str → Str
reason_text none = codes "null"
reason_text (some s) = s

-- The commonest reason first, and among equals by the reason itself.
pub by_count : Host → Option Str × ℕ → Option Str × ℕ → Ordering
by_count host (a, m) (b, n) =
    then_by (compare n m) (host.locale_compare (reason_text a) (reason_text b))

-- A source has at least one reason, so the `none` of an empty list does not arise.
first_reason : Reasons → Option Str
first_reason [] = none
first_reason ((r, n) ∷ rest) = r

pub summarize : Host → Str × Reasons → UnparsedCount
unfolding total_of by_count first_reason
summarize host (source, reasons) = record {
  source = source;
  artifacts = total_of reasons;
  diagnostic = first_reason (sort_by (by_count host) reasons);
}

pub count_unparsed_artifacts_by_source : Host → TenantContext → MemoryTables → List UnparsedCount
unfolding summarize tally list_raw_artifacts
count_unparsed_artifacts_by_source host context tables =
    sort_by (λ (left right : UnparsedCount). compare right.artifacts left.artifacts)
      (map (summarize host) (tally (list_raw_artifacts context tables) []))

pub save_job : TenantContext → JobRecord → MemoryTables → MemoryTables × Result (Unit {0})
save_job context job tables =
    if not (job.tenant_id == context.tenant_id)
    then (tables, err tenant_mismatch)
    else (record tables { jobs = set (key context.tenant_id job.id) job tables.jobs }, ok tt)

pub get_job : TenantContext → Str → MemoryTables → Option JobRecord
get_job context job_id tables = get (key context.tenant_id job_id) tables.jobs
