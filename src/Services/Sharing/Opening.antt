-- ===== src/Services/Sharing/Opening.antt =====
-- What an opened link rests on, and how much it shows.
use memoar.Prelude.{ℕ, ◌≡◌, Option, some}
use memoar.Prelude.Lists.{find}
use memoar.Prelude.Str.{Str, ◌==◌}
use memoar.Prelude.JsMap.{get, values}
use memoar.Canonical.{ArchivedSession}
use memoar.Redaction.{redaction_patterns, reviewed_masks}
use memoar.Redaction.Projection.{Redacted}
use memoar.Services.{Answer}
use memoar.Services.Sharing.{owner_context, resolve_share_token}
use memoar.Store.Curation.{list_annotations}
use memoar.Store.Records.{GrantStatus, Permission, ShareGrantRecord, ShareTokenLookup}
use memoar.Store.Settings.{get_tenant_settings}
use memoar.Store.Sharing.{get_share_grant_by_token_hash, lookup_of, World}
use memoar.Store.Tables.{key, MemoryTables}
use memoar.Store.TransferCopy.{session_content_digest}
use memoar.Services.Sharing.Standing.{StandingReview, Unexpired}

-- What an opened link rests on: the stored grant with the token's hash, the stored session, and a
-- completed review of its present content; and how much of the session it shows.
pub record Opened (world : World) (now : ℕ) (token : Str) (tables : MemoryTables)
    (shown : ArchivedSession) (permission : Permission) : Type 0 where
  pub grant : ShareGrantRecord
  pub found :
      find
        (λ (g : ShareGrantRecord). g.token_hash == world.host.sha256 token)
        (values tables.grants)
      ≡ some grant
  pub active : grant.status ≡ GrantStatus.active
  pub unexpired : Unexpired world.host now grant.expires_at
  pub session : ArchivedSession
  pub stored : get (key grant.tenant_id grant.session_id) tables.sessions ≡ some session
  pub reviewed :
      StandingReview grant.tenant_id grant.session_id
        (session_content_digest world.host world.stringify session)
        tables
  pub redacted :
      Redacted world.engine
        (redaction_patterns world.engine
          (get_tenant_settings (owner_context (lookup_of grant)) tables).redaction)
        (reviewed_masks world.engine
          (list_annotations (owner_context (lookup_of grant)) (some grant.session_id) tables))
        session
        shown
  pub permitted : permission ≡ grant.permission

module _ (world : World) (now : ℕ) (token : Str) (tables : MemoryTables) where
  abbrev resolved : Answer (ShareTokenLookup × ArchivedSession)
  resolved = resolve_share_token world now token tables

  abbrev by_hash : Option ShareTokenLookup
  by_hash = get_share_grant_by_token_hash (world.host.sha256 token) tables
