-- ===== src/Store/Sharing/Accepting.antt =====
-- What a successful acceptance of a transfer establishes.
use memoar.Prelude.{◌≡◌, refl, ap, ◌∙◌, inl, inr, true, some, arith}
use memoar.Prelude.Tests.{Option-cases, is_some}
use memoar.Prelude.Str.{Str}
use memoar.Prelude.JsMap.{JsMap, get, set, get-set_self}
use memoar.Canonical.{ArchivedSession, TenantContext, private}
use memoar.Host.{Host}
use memoar.Store.Records.{pending, accepted}
use memoar.Store.Tables.{
  Result-cases, MemoryTables, TransferOffer, key, Result, ok, err, transfer_not_found,
}
use memoar.Store.Sharing.{
  accept_transfer_offer, actionable, claim_offer, copied_offer, copy_offered,
  decline_transfer_offer, get_current_review, is_addressed_to, is_pending, set_offer_status, World,
}
use memoar.Store.Sharing.Offers.{
  accept_copied, accept_failed, accept_refused, actionable-ok, claimed, set_transfer_status-offers,
}
use memoar.Store.TransferCopy.{copy_transferred_session, session_content_digest}

module _ (world : World) (context : TenantContext) (id : Str) (tables : MemoryTables)
    (copied : ArchivedSession)
    (h : (accept_transfer_offer world context id tables).1 ≡ ok copied) where
  abbrev pub after : MemoryTables
  after = (accept_transfer_offer world context id tables).0

  -- The offer behind a successful acceptance.
  record Accepted : Type 0 where
    offer : TransferOffer
    taken : actionable world.host context id tables ≡ ok offer
    made : copy_offered world context offer (claimed world context id tables offer) ≡ ok copied

  accepted_offer : Accepted
  accepted_offer = elim (Result-cases (actionable world.host context id tables)) [
    | inr (d, a) ↦ cc (accept_refused world context id tables d a)
    | inl (offer, a) ↦
        elim (Result-cases
          (copy_offered world context offer (claimed world context id tables offer))) [
            | inr (d, c) ↦ cc (accept_failed world context id tables offer d a c)
            | inl (s, c) ↦
                let same : ok s ≡ ok copied =
                  cc (accept_copied world context id tables offer s a c) in
                record { offer = offer; taken = a; made = c ∙ same }
          ]
  ]

  after-offers :
      (a : Accepted)
      → (get id after.transfer_offers ≡ some (record a.offer { status = accepted }))
        × (after.sessions ≡ set (key context.tenant_id copied.id) copied tables.sessions)
  unfolding set_offer_status
  after-offers a =
      let e = accept_copied world context id tables a.offer copied a.taken a.made in
      let kept =
        set_transfer_status-offers (key a.offer.sender_tenant_id id) accepted
          (record (claimed world context id tables a.offer) {
            sessions = set (key context.tenant_id copied.id) copied tables.sessions;
          }) in
      (
        ap (λ (r : MemoryTables × Result ArchivedSession). get id r.0.transfer_offers) e
            ∙ ap (λ (m : JsMap TransferOffer). get id m) kept.0
            ∙ get-set_self id (record a.offer { status = accepted }) tables.transfer_offers,
        ap (λ (r : MemoryTables × Result ArchivedSession). r.0.sessions) e ∙ kept.1,
      )

  spent :
      (host : Host) (other : TenantContext)
      → actionable host other id after ≡ err transfer_not_found
  unfolding actionable is_pending
  spent host other = let a = accepted_offer in rw ((after-offers a).0, actionable) refl

-- An offer is accepted once: after a successful acceptance every further answer to it, by whoever
-- it comes, is refused as not found.
pub accept_transfer_offer_once :
    (world again : World) (context other : TenantContext) (id : Str) (tables : MemoryTables)
    (copied : ArchivedSession)
    → (accept_transfer_offer world context id tables).1 ≡ ok copied
    → ((accept_transfer_offer again other id (accept_transfer_offer world context id tables).0).1
        ≡ err transfer_not_found)
      × ((decline_transfer_offer again.host other id
            (accept_transfer_offer world context id tables).0).1
          ≡ err transfer_not_found)
unfolding accept_transfer_offer decline_transfer_offer claim_offer
accept_transfer_offer_once world again context other id tables copied h = (
  ap (λ r. r.1)
      (accept_refused again other id (after world context id tables copied h) transfer_not_found
        (spent world context id tables copied h again.host other)),
  rw (spent world context id tables copied h again.host other, decline_transfer_offer) refl,
)

copy_offered-ok :
    (world : World) (context : TenantContext) (offer : TransferOffer) (tables : MemoryTables)
    (copied : ArchivedSession)
    → copy_offered world context offer tables ≡ ok copied
    → (source : ArchivedSession) × (get
          (key offer.sender_tenant_id offer.session_id)
          tables.sessions
        ≡ some source)
      × (is_some (
            get_current_review
              (record context {
                tenant_id = offer.sender_tenant_id;
                user_id = offer.sender_user_id;
              })
              offer.session_id
              (session_content_digest world.host world.stringify source)
              tables)
          ≡ true)
      × (copied ≡ copied_offer world context offer source tables)
unfolding copy_offered
copy_offered-ok world context offer tables copied h =
    elim (Option-cases (get (key offer.sender_tenant_id offer.session_id) tables.sessions)) [
      | inl e ↦ absurd (ground (arith, e, h))
      | inr (source, e) ↦ (source, e, ground (arith, e, h), ground (arith, e, h))
    ]

copied_offer-owner :
    (world : World) (context : TenantContext) (offer : TransferOffer) (source : ArchivedSession)
    (tables : MemoryTables)
    → ((copied_offer world context offer source tables).visibility.scope ≡ private)
      × ((copied_offer world context offer source tables).visibility.owner_id ≡ context.user_id)
unfolding copied_offer copy_transferred_session
copied_offer-owner world context offer source tables = (refl, refl)

-- What a session was accepted from: an offer that was pending and addressed to the caller, of a
-- session that the sender still holds and of whose present content the sender completed a review.
pub record Backed (world : World) (context : TenantContext) (id : Str) (tables : MemoryTables)
    : Type 0 where
  pub offer : TransferOffer
  pub found : get id tables.transfer_offers ≡ some offer
  pub waiting : offer.status ≡ pending
  pub addressed : is_addressed_to world.host context offer.recipient_email tables ≡ true
  pub source : ArchivedSession
  pub held : get (key offer.sender_tenant_id offer.session_id) tables.sessions ≡ some source
  pub reviewed :
      is_some (
        get_current_review
          (record context { tenant_id = offer.sender_tenant_id; user_id = offer.sender_user_id })
          offer.session_id
          (session_content_digest world.host world.stringify source)
          tables)
      ≡ true

-- A successful acceptance rests on a pending offer addressed to the caller and on a completed
-- review of what the sender's session holds now. Its copy is private, belongs to the caller, and is
-- stored under its identifier in the caller's archive.
pub accept_transfer_offer-Backed :
    (world : World) (context : TenantContext) (id : Str) (tables : MemoryTables)
    (copied : ArchivedSession)
    → (accept_transfer_offer world context id tables).1 ≡ ok copied
    → Backed world context id tables
      × (copied.visibility.scope ≡ private)
      × (copied.visibility.owner_id ≡ context.user_id)
      × (get
            (key context.tenant_id copied.id)
            (accept_transfer_offer world context id tables).0.sessions
          ≡ some copied)
accept_transfer_offer-Backed world context id tables copied h =
    let a = accepted_offer world context id tables copied h in
    let (found, waiting, addressed) = actionable-ok world.host context id tables a.offer a.taken in
    let (source, held, reviewed, made) =
      copy_offered-ok world context a.offer (claimed world context id tables a.offer) copied
        a.made in
    let owner =
      copied_offer-owner world context a.offer source (claimed world context id tables a.offer) in
    let stored = (after-offers world context id tables copied h a).1 in
    (
      unfold set_offer_status get_current_review in
          record {
            offer = a.offer;
            found = found;
            waiting = waiting;
            addressed = addressed;
            source = source;
            held = held;
            reviewed = reviewed;
          },
      ap (λ (s : ArchivedSession). s.visibility.scope) made ∙ owner.0,
      ap (λ (s : ArchivedSession). s.visibility.owner_id) made ∙ owner.1,
      ap (λ (m : JsMap ArchivedSession). get (key context.tenant_id copied.id) m) stored
          ∙ get-set_self (key context.tenant_id copied.id) copied tables.sessions,
    )
