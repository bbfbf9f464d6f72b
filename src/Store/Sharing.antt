-- ===== src/Store/Sharing.antt =====
-- server/src/store/memory/sharing.ts: `MemorySharingStore`, the reviews, grants and transfers.
-- A call that may throw returns the tables as it left them, beside its result.
pub mod Offers
pub mod Accepting
pub mod Interleaving
pub mod Tests
use memoar.Prelude.{
  ℕ, Bool, true, false, not, ◌&&◌, ◌||◌, List, [], ◌∷◌, ◌++◌, map, Option, none, some,
}
use memoar.Prelude.Tests.{if◌then◌else◌, or_else}
use memoar.Prelude.Lists.{filter, find}
use memoar.Prelude.Str.{Str, codes, ◌==◌, contains}
use memoar.Prelude.JsMap.{JsMap, get, set, values}
use memoar.Canonical.{Annotation, ArchivedSession, TenantContext}
use memoar.Host.{Host}
use memoar.Redaction.{Engine, redaction_patterns, reviewed_masks}
use memoar.Store.Records.{
  RedactionReviewRecord, RedactionSettingsRecord, ReviewStatus, completed, ShareGrantRecord,
  ShareTokenLookup, TeamMember, TransferRecord, TransferStatus, pending, accepted, declined,
  default_tenant_settings,
}
use memoar.Store.Tables.{
  MemoryTables, Owned, TransferOffer, key, Result, ok, err, tenant_mismatch,
  transfer_not_addressed_to_caller, transfer_not_found, transfer_session_missing,
  transfer_review_stale,
}
use memoar.Store.TransferCopy.{Reviewed, copy_transferred_session, session_content_digest}

-- What an acceptance takes from outside: the platform, the regular expressions, `JSON.stringify`,
-- the identifiers that it draws and the time.
pub record World : Type 0 where
  pub host : Host
  pub engine : Engine
  pub stringify : Reviewed → Str
  pub fresh : ℕ → Str
  pub now : Str

unfoldable pub get_review : TenantContext → Str → MemoryTables → Option RedactionReviewRecord
get_review context review_id tables = get (key context.tenant_id review_id) tables.reviews

unfoldable pub is_completed : ReviewStatus → Bool
is_completed completed = true
is_completed _ = false

unfoldable pub is_current : Str → Str → Str → RedactionReviewRecord → Bool
unfolding is_completed
is_current tenant session_id digest review =
    (review.tenant_id == tenant && review.session_id == session_id)
    && (is_completed review.status && review.content_digest == digest)

unfoldable pub get_current_review :
    TenantContext → Str → Str → MemoryTables → Option RedactionReviewRecord
unfolding is_current
get_current_review context session_id digest tables =
    find (is_current context.tenant_id session_id digest) (values tables.reviews)

unfoldable pub save_review :
    TenantContext → RedactionReviewRecord → MemoryTables → MemoryTables × Result (Unit {0})
save_review context review tables =
    if not (review.tenant_id == context.tenant_id) then (tables, err tenant_mismatch) else (
      record tables { reviews = set (key context.tenant_id review.id) review tables.reviews },
      ok tt,
    )

unfoldable pub list_share_grants : TenantContext → MemoryTables → List ShareGrantRecord
list_share_grants context tables =
    filter (λ (g : ShareGrantRecord). g.tenant_id == context.tenant_id) (values tables.grants)

unfoldable pub save_share_grant :
    TenantContext → ShareGrantRecord → MemoryTables → MemoryTables × Result (Unit {0})
save_share_grant context grant tables =
    if not (grant.tenant_id == context.tenant_id) then (tables, err tenant_mismatch) else (
      record tables { grants = set (key context.tenant_id grant.id) grant tables.grants },
      ok tt,
    )

unfoldable pub lookup_of : ShareGrantRecord → ShareTokenLookup
lookup_of grant = record {
  grant_id = grant.id;
  tenant_id = grant.tenant_id;
  session_id = grant.session_id;
  permission = grant.permission;
  status = grant.status;
  expires_at = grant.expires_at;
}

unfoldable pub get_share_grant_by_token_hash : Str → MemoryTables → Option ShareTokenLookup
unfolding lookup_of
get_share_grant_by_token_hash token_hash tables =
    elim (find (λ (g : ShareGrantRecord). g.token_hash == token_hash) (values tables.grants)) [
      | none ↦ none
      | some grant ↦ some (lookup_of grant)
    ]

pub save_transfer : TenantContext → TransferRecord → MemoryTables → MemoryTables × Result (Unit {0})
save_transfer context transfer tables =
    if not (transfer.tenant_id == context.tenant_id) then (tables, err tenant_mismatch) else (
      record tables {
        transfers = set (key context.tenant_id transfer.id) transfer tables.transfers;
      },
      ok tt,
    )

-- The addresses of the accounts of the caller.
account_addresses : Host → Str → JsMap TeamMember → List Str
account_addresses host user_id [] = []
account_addresses host user_id ((email, account) ∷ m) =
    let rest = account_addresses host user_id m in
    if account.user_id == user_id then host.to_lower (host.trim email) ∷ rest else rest

-- A set, of which only the membership is read.
pub addresses_for : Host → TenantContext → MemoryTables → List Str
unfolding account_addresses
addresses_for host context tables =
    host.to_lower (context.user_id ++ codes "@local.invalid")
    ∷ account_addresses host context.user_id tables.accounts_by_email

pub is_addressed_to : Host → TenantContext → Str → MemoryTables → Bool
unfolding addresses_for
is_addressed_to host context recipient_email tables =
    contains (addresses_for host context tables) (host.to_lower (host.trim recipient_email))

pub list_transfers : Host → TenantContext → MemoryTables → List TransferRecord
unfolding addresses_for
list_transfers host context tables =
    filter
      (λ (t : TransferRecord).
        t.tenant_id == context.tenant_id
        || contains (addresses_for host context tables) (host.to_lower t.recipient_email))
      (values tables.transfers)

pub get_transfer : TenantContext → Str → MemoryTables → Option TransferRecord
get_transfer context transfer_id tables = get (key context.tenant_id transfer_id) tables.transfers

pub create_transfer_offer : TenantContext → Str → Str → Str → MemoryTables → MemoryTables
create_transfer_offer context id session_id recipient_email tables = record tables {
  transfer_offers =
      set id
        (record {
          id = id;
          sender_tenant_id = context.tenant_id;
          sender_user_id = context.user_id;
          session_id = session_id;
          recipient_email = recipient_email;
          status = pending;
        })
        tables.transfer_offers;
}

is_pending : TransferStatus → Bool
is_pending pending = true
is_pending _ = false

-- The offer that a caller may act on: it is pending, and addressed to the caller.
pub actionable : Host → TenantContext → Str → MemoryTables → Result TransferOffer
unfolding is_pending is_addressed_to
actionable host context transfer_id tables = elim (get transfer_id tables.transfer_offers) [
  | none ↦ err transfer_not_found
  | some offer ↦
      if not (is_pending offer.status)
      then err transfer_not_found
      else if is_addressed_to host context offer.recipient_email tables
      then ok offer
      else err transfer_not_addressed_to_caller
]

-- `offer.status = status`, on the offer in the table
pub set_offer_status : Str → TransferOffer → TransferStatus → MemoryTables → MemoryTables
set_offer_status transfer_id offer status tables = record tables {
  transfer_offers = set transfer_id (record offer { status = status }) tables.transfer_offers;
}

-- `if (transfer) transfer.status = status`
pub set_transfer_status : Str → TransferStatus → MemoryTables → MemoryTables
set_transfer_status entry status tables = elim (get entry tables.transfers) [
  | none ↦ tables
  | some transfer ↦ record tables {
    transfers = set entry (record transfer { status = status }) tables.transfers;
  }
]

pub decline_transfer_offer :
    Host → TenantContext → Str → MemoryTables → MemoryTables × Result (Unit {0})
unfolding actionable set_offer_status set_transfer_status
decline_transfer_offer host context transfer_id tables =
    elim (actionable host context transfer_id tables) [
      | err e ↦ (tables, err e)
      | ok offer ↦ (
        set_transfer_status (key offer.sender_tenant_id transfer_id) declined
            (set_offer_status transfer_id offer declined tables),
        ok tt,
      )
    ]

-- The annotations of the offered session, and the patterns of the sender's settings.
offered_annotations : TransferOffer → MemoryTables → List Annotation
offered_annotations offer tables =
    map (λ (a : Owned Annotation). a.row)
      (filter
        (λ (a : Owned Annotation).
          a.tenant_id == offer.sender_tenant_id && a.row.session_id == offer.session_id)
        (values tables.annotations))

-- `redactionPatterns(undefined)` takes the default settings.
sender_redaction : TransferOffer → MemoryTables → RedactionSettingsRecord
sender_redaction offer tables =
    (or_else (get offer.sender_tenant_id tables.tenant_settings) default_tenant_settings).redaction

pub copied_offer :
    World → TenantContext → TransferOffer → ArchivedSession → MemoryTables → ArchivedSession
unfolding offered_annotations sender_redaction
copied_offer world context offer source tables =
    copy_transferred_session world.engine world.fresh world.now source offer.id context.user_id
      (codes "transfer")
      (record {
        patterns = redaction_patterns world.engine (sender_redaction offer tables);
        masks = reviewed_masks world.engine (offered_annotations offer tables);
      })

pub copy_offered : World → TenantContext → TransferOffer → MemoryTables → Result ArchivedSession
unfolding copied_offer get_current_review
copy_offered world context offer tables =
    elim (get (key offer.sender_tenant_id offer.session_id) tables.sessions) [
      | none ↦ err transfer_session_missing
      | some source ↦
          elim (get_current_review
            (record context { tenant_id = offer.sender_tenant_id; user_id = offer.sender_user_id })
            offer.session_id (session_content_digest world.host world.stringify source) tables) [
              | none ↦ err transfer_review_stale
              | some _ ↦ ok (copied_offer world context offer source tables)
            ]
    ]

-- `acceptTransferOffer` up to its first wait: the offer is claimed.
pub claim_offer : Host → TenantContext → Str → MemoryTables → MemoryTables × Result TransferOffer
unfolding actionable set_offer_status
claim_offer host context transfer_id tables = elim (actionable host context transfer_id tables) [
  | err e ↦ (tables, err e)
  | ok offer ↦ (set_offer_status transfer_id offer accepted tables, ok offer)
]

-- The rest, on the tables as they are then: a failed copy gives the offer back.
pub finish_offer :
    World
    → TenantContext
    → Str
    → TransferOffer
    → MemoryTables
    → MemoryTables × Result ArchivedSession
unfolding copy_offered set_offer_status set_transfer_status
finish_offer world context transfer_id offer tables =
    elim (copy_offered world context offer tables) [
      | err e ↦ (set_offer_status transfer_id offer pending tables, err e)
      | ok copied ↦ (
        set_transfer_status (key offer.sender_tenant_id transfer_id) accepted (record tables {
          sessions = set (key context.tenant_id copied.id) copied tables.sessions;
        }),
        ok copied,
      )
    ]

-- Nothing else runs while it waits.
pub accept_transfer_offer :
    World → TenantContext → Str → MemoryTables → MemoryTables × Result ArchivedSession
unfolding claim_offer finish_offer
accept_transfer_offer world context transfer_id tables =
    let (claimed, result) = claim_offer world.host context transfer_id tables in
    elim result [
      | err e ↦ (claimed, err e)
      | ok offer ↦ finish_offer world context transfer_id offer claimed
    ]
