-- ===== src/Services/Sharing.antt =====
-- server/src/sharing/sharing.service.ts: reviews, share links and transfers over the stores.
pub mod Gate
pub mod Links
pub mod Opening
pub mod Standing
pub mod Tests
use memoar.Prelude.{
  ℕ, ◌≡◌, Bool, true, false, not, ◌&&◌, ◌||◌, List, [], ◌∷◌, map, Option, none, some,
}
use memoar.Prelude.Tests.{if◌then◌else◌, ltb, or_else}
use memoar.Prelude.Lists.{filter, find}
use memoar.Prelude.Str.{Str, codes, ◌==◌, truthy, truthy?}
use memoar.Canonical.{
  Annotation, ArchivedSession, AuthType, Fields, is_mask, Json, lookup_field, machine, private,
  Scope, string_of, TenantContext, Visibility,
}
use memoar.Host.{Host}
use memoar.Redaction.{
  apply_redaction_projection, Engine, ProjectionOptions, redaction_patterns, reviewed_masks,
}
use memoar.Services.{
  Answer, answered, done, failed, Failure, forbidden, not_found, review_required, review_stale,
  store_failed,
}
use memoar.Store.Curation.{list_annotations}
use memoar.Store.Records.{
  completed, GrantStatus, importer, pending, Permission, RedactionMaskSnapshot,
  RedactionReviewRecord, ShareGrantRecord, ShareTokenLookup, TransferRecord,
}
use memoar.Store.Sessions.{get_session, save_session, update_session_visibility}
use memoar.Store.Settings.{get_tenant_settings}
use memoar.Store.Sharing.{
  accept_transfer_offer, create_transfer_offer, decline_transfer_offer, get_current_review,
  get_review, get_share_grant_by_token_hash, is_completed, list_share_grants, list_transfers,
  save_review, save_share_grant, save_transfer, World,
}
use memoar.Store.Tables.{
  err, Error, MemoryTables, ok, Result, transfer_not_addressed_to_caller, transfer_not_found,
  transfer_review_stale, transfer_session_missing,
}
use memoar.Store.Teams.{is_team_member}
use memoar.Store.TransferCopy.{copy_transferred_session, session_content_digest}

-- `Number(value ?? 0)`, for the offsets of a review's snapshot.
pub record Numbers : Type 0 where
  pub offset : Option Json → ℕ

snapshot_of : Numbers → Annotation → RedactionMaskSnapshot
snapshot_of numbers a = record {
  kind = or_else (string_of (lookup_field (codes "kind") a.value)) (codes "unknown");
  start = numbers.offset (lookup_field (codes "start") a.value);
  stop = numbers.offset (lookup_field (codes "end") a.value);
  preview = or_else (string_of (lookup_field (codes "preview") a.value)) [];
}

-- What a completed review records of the session as it stands.
pub review_of :
    World
    → Numbers
    → TenantContext
    → Str
    → Str
    → ArchivedSession
    → List Annotation
    → RedactionReviewRecord
unfolding snapshot_of
review_of world numbers context id session_id session annotations = record {
  id = id;
  tenant_id = context.tenant_id;
  session_id = session_id;
  reviewer_user_id = context.user_id;
  status = completed;
  content_digest = session_content_digest world.host world.stringify session;
  masks = map (snapshot_of numbers) (filter (λ (a : Annotation). is_mask a.kind) annotations);
  completed_at = some world.now;
}

-- `id` is drawn by the call, as in the calls below.
pub complete_review :
    World
    → Numbers
    → TenantContext
    → Str
    → Str
    → MemoryTables
    → MemoryTables × Answer RedactionReviewRecord
unfolding review_of
complete_review world numbers context id session_id tables =
    elim (get_session context session_id tables) [
      | none ↦ (tables, failed not_found)
      | some session ↦
          let review =
            review_of world numbers context id session_id session
              (list_annotations context (some session_id) tables) in
          let (after, saved) = save_review context review tables in
          elim saved [ err e ↦ (after, failed (store_failed e)) | ok _ ↦ (after, done review) ]
    ]

-- The review of this session that is completed and names the digest.
pub is_review_of : Str → Str → RedactionReviewRecord → Bool
is_review_of session_id digest review =
    review.session_id == session_id
    && (is_completed review.status && review.content_digest == digest)

abbrev reviewed_by : Str → Str → Option RedactionReviewRecord → Bool
reviewed_by session_id digest none = false
reviewed_by session_id digest (some review) = is_review_of session_id digest review

pub require_current_review :
    World → TenantContext → Str → Str → MemoryTables → Answer ArchivedSession
unfolding is_review_of
require_current_review world context session_id review_id tables =
    elim (get_session context session_id tables) [
      | none ↦ failed not_found
      | some session ↦
          if reviewed_by session_id (session_content_digest world.host world.stringify session)
            (get_review context review_id tables)
          then done session
          else failed review_required
    ]

pub record UpdateVisibility : Type 0 where
  pub scope : Scope
  pub team_id : Option Str
  pub org_id : Option Str
  pub redaction_review_id : Option Str

pub is_private : Scope → Bool
is_private private = true
is_private _ = false

-- The session whose visibility may change: any at all for `private`, else a reviewed one.
pub widened : World → TenantContext → Str → UpdateVisibility → MemoryTables → Answer ArchivedSession
unfolding is_private require_current_review
widened world context session_id body tables =
    if is_private body.scope
    then elim (get_session context session_id tables) [
      | none ↦ failed not_found
      | some session ↦ done session
    ]
    else elim body.redaction_review_id [
      | none ↦ failed review_required
      | some review_id ↦
          if truthy review_id
          then require_current_review world context session_id review_id tables
          else failed review_required
    ]

-- `...(x ? { x } : {})`
abbrev pub present : Option Str → Option Str
present none = none
present (some s) = if truthy s then some s else none

-- `body.visibility.teamId && !await this.store.isTeamMember(…)`
pub is_stranger : TenantContext → Option Str → MemoryTables → Bool
is_stranger context none tables = false
is_stranger context (some team_id) tables =
    truthy team_id && not (is_team_member team_id context.user_id tables)

pub update_visibility :
    World → TenantContext → Str → UpdateVisibility → MemoryTables → MemoryTables × Answer Visibility
unfolding widened is_stranger
update_visibility world context session_id body tables =
    elim (widened world context session_id body tables) [
      | failed e ↦ (tables, failed e)
      | done session ↦
          let visibility : Visibility = record {
            scope = body.scope;
            owner_id = session.visibility.owner_id;
            team_id = present body.team_id;
            org_id = present body.org_id;
          } in
          if is_stranger context body.team_id tables
          then (tables, failed forbidden)
          else ((update_session_visibility context session_id visibility tables).0, done visibility)
    ]

pub record CreateShareLink : Type 0 where
  pub session_id : Str
  pub permission : Permission
  pub redaction_review_id : Str
  pub expires_at : Option Str

pub grant_of : World → TenantContext → CreateShareLink → Str → Str → ShareGrantRecord
grant_of world context body id token = record {
  id = id;
  tenant_id = context.tenant_id;
  session_id = body.session_id;
  permission = body.permission;
  token_hash = world.host.sha256 token;
  status = GrantStatus.active;
  created_at = world.now;
  expires_at = body.expires_at;
}

-- The answer is the grant beside the token, which is random.
pub create_link :
    World
    → TenantContext
    → CreateShareLink
    → Str
    → Str
    → MemoryTables
    → MemoryTables × Answer (ShareGrantRecord × Str)
unfolding require_current_review grant_of
create_link world context body id token tables =
    elim (require_current_review world context body.session_id body.redaction_review_id tables) [
      | failed e ↦ (tables, failed e)
      | done _ ↦
          let grant = grant_of world context body id token in
          let (after, saved) = save_share_grant context grant tables in
          elim saved [
            | err e ↦ (after, failed (store_failed e))
            | ok _ ↦ (after, done (grant, token))
          ]
    ]

pub revoke : TenantContext → Str → MemoryTables → MemoryTables × Answer (Unit {0})
unfolding answered
revoke context grant_id tables =
    elim (find (λ (g : ShareGrantRecord). g.id == grant_id) (list_share_grants context tables)) [
      | none ↦ (tables, failed not_found)
      | some grant ↦
          let (after, saved) =
            save_share_grant context (record grant { status = GrantStatus.revoked }) tables in
          (after, answered saved)
    ]

pub record RequestTransfer : Type 0 where
  pub session_id : Str
  pub recipient_email : Str
  pub redaction_review_id : Str

pub request_transfer :
    World
    → TenantContext
    → RequestTransfer
    → Str
    → Str
    → MemoryTables
    → MemoryTables × Answer TransferRecord
unfolding require_current_review
request_transfer world context body sender_email id tables =
    elim (require_current_review world context body.session_id body.redaction_review_id tables) [
      | failed e ↦ (tables, failed e)
      | done _ ↦
          let transfer : TransferRecord = record {
            id = id;
            tenant_id = context.tenant_id;
            session_id = body.session_id;
            sender_email = sender_email;
            recipient_email = body.recipient_email;
            status = pending;
            created_at = world.now;
          } in
          let (after, saved) = save_transfer context transfer tables in
          elim saved [
            | err e ↦ (after, failed (store_failed e))
            | ok _ ↦ (
              create_transfer_offer context id body.session_id body.recipient_email after,
              done transfer,
            )
          ]
    ]

-- An expiry that is no date has passed.
abbrev has_passed : ℕ → Option ℕ → Bool
has_passed now none = true
has_passed now (some deadline) = not (ltb now deadline)

pub expired : Host → ℕ → Option Str → Bool
expired host now none = false
expired host now (some expires_at) = truthy expires_at && has_passed now (host.time_of expires_at)

pub is_active : GrantStatus → Bool
is_active GrantStatus.active = true
is_active _ = false

-- The context in which a link reads its owner's archive.
abbrev pub owner_context : ShareTokenLookup → TenantContext
owner_context grant = record {
  tenant_id = grant.tenant_id;
  user_id = grant.tenant_id;
  org_id = none;
  team_id = none;
  machine_id = none;
  scopes = codes "archive:read" ∷ [];
  auth_type = machine;
  credential_id = none;
}

-- The session behind a grant, if its content is reviewed as it stands.
pub granted_session : World → ShareTokenLookup → MemoryTables → Option ArchivedSession
granted_session world grant tables =
    elim (get_session (owner_context grant) grant.session_id tables) [
      | none ↦ none
      | some session ↦
          elim (get_current_review (owner_context grant) grant.session_id
            (session_content_digest world.host world.stringify session) tables) [
              | none ↦ none
              | some _ ↦ some session
            ]
    ]

-- `now` is the time in milliseconds.
pub resolve_share_token :
    World → ℕ → Str → MemoryTables → Answer (ShareTokenLookup × ArchivedSession)
unfolding expired is_active granted_session
resolve_share_token world now token tables =
    elim (get_share_grant_by_token_hash (world.host.sha256 token) tables) [
      | none ↦ failed not_found
      | some grant ↦
          if not (is_active grant.status) || expired world.host now grant.expires_at
          then failed not_found
          else elim (granted_session world grant tables) [
            | none ↦ failed not_found
            | some session ↦ done (grant, session)
          ]
    ]

pub projection_for : World → TenantContext → Str → MemoryTables → ProjectionOptions
projection_for world context session_id tables = record {
  patterns = redaction_patterns world.engine (get_tenant_settings context tables).redaction;
  masks = reviewed_masks world.engine (list_annotations context (some session_id) tables);
}

-- What a link shows of a session: `canonicalProjection` drops the redaction status besides.
pub projected : World → ShareTokenLookup → ArchivedSession → MemoryTables → ArchivedSession
unfolding projection_for
projected world grant session tables =
    apply_redaction_projection world.engine session
      (projection_for world (owner_context grant) grant.session_id tables)

pub consume_share :
    World → ℕ → Str → MemoryTables → Answer (ArchivedSession × Permission × Option Str)
unfolding resolve_share_token projected
consume_share world now token tables = elim (resolve_share_token world now token tables) [
  | failed e ↦ failed e
  | done (grant, session) ↦
      done (projected world grant session tables, grant.permission, grant.expires_at)
]

is_importer : Permission → Bool
is_importer importer = true
is_importer _ = false

pub import_share :
    World → ℕ → TenantContext → Str → MemoryTables → MemoryTables × Answer ArchivedSession
unfolding resolve_share_token projected is_importer
import_share world now context token tables = elim (resolve_share_token world now token tables) [
  | failed e ↦ (tables, failed e)
  | done (grant, session) ↦
      let copied =
        copy_transferred_session world.engine world.fresh world.now
          (projected world grant session tables) grant.grant_id context.user_id (codes "share")
          (record { patterns = memoar.Redaction.secret_patterns; masks = [] }) in
      if not (is_importer grant.permission)
      then (tables, failed forbidden)
      else (save_session world.host context copied tables, done copied)
]

pub transfer_failure : Error → Failure
transfer_failure transfer_not_found = not_found
transfer_failure transfer_session_missing = not_found
transfer_failure transfer_not_addressed_to_caller = forbidden
transfer_failure transfer_review_stale = review_stale
transfer_failure e = store_failed e

abbrev translated {ℓ} : {A : Type ℓ} → Result A → Answer A
translated (ok a) = done a
translated (err e) = failed (transfer_failure e)

pub decline_transfer : World → TenantContext → Str → MemoryTables → MemoryTables × Answer (Unit {0})
unfolding transfer_failure
decline_transfer world context transfer_id tables =
    let (after, result) = decline_transfer_offer world.host context transfer_id tables in
    (after, translated result)

pub accept_transfer :
    World → TenantContext → Str → MemoryTables → MemoryTables × Answer ArchivedSession
unfolding transfer_failure
accept_transfer world context transfer_id tables =
    let (after, result) = accept_transfer_offer world context transfer_id tables in
    (after, translated result)
