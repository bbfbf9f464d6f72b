-- ===== src/Store/Sharing/Interleaving.antt =====
-- `acceptTransferOffer` with other calls between its claim and its end.
use memoar.Prelude.{◌≡◌, refl, ap, ◌∙◌, inl, inr, some}
use memoar.Prelude.Tests.{if◌then◌else◌}
use memoar.Prelude.Str.{Str, ◌==◌}
use memoar.Prelude.JsMap.{get, get-set, get-set_self}
use memoar.Canonical.{TenantContext}
use memoar.Host.{Host}
use memoar.Store.Records.{accepted, pending}
use memoar.Store.Tables.{
  Result-cases, err, Error, MemoryTables, ok, Result, transfer_not_found, TransferOffer,
}
use memoar.Store.Sharing.{
  actionable, claim_offer, copy_offered, decline_transfer_offer, finish_offer, is_pending,
  set_offer_status, World,
}

claim_offer-ok :
    (host : Host) (context : TenantContext) (id : Str) (tables : MemoryTables)
    (offer : TransferOffer)
    → (claim_offer host context id tables).1 ≡ ok offer
    → claim_offer host context id tables ≡ (set_offer_status id offer accepted tables, ok offer)
unfolding claim_offer
claim_offer-ok host context id tables offer h =
    elim (Result-cases (actionable host context id tables)) [
      | inl (o, e) ↦
          let taken : claim_offer host context id tables
              ≡ (set_offer_status id o accepted tables, ok o) =
            rw (claim_offer, e) refl in
          let same : o ≡ offer = cc (taken, h) in
          taken ∙ ap (λ (p : TransferOffer). (set_offer_status id p accepted tables, ok p)) same
      | inr (d, e) ↦
          let refused : (claim_offer host context id tables).1 ≡ err d = rw (claim_offer, e) refl in
          cc (refused, h)
    ]

claimed-not_found :
    (host : Host) (context : TenantContext) (id : Str) (tables : MemoryTables)
    (offer : TransferOffer)
    → get id tables.transfer_offers ≡ some (record offer { status = accepted })
    → actionable host context id tables ≡ err transfer_not_found
unfolding actionable is_pending
claimed-not_found host context id tables offer h = rw (actionable, h) refl

-- Once one call has claimed an offer, and as long as the offer stays as that call left it, whatever
-- else changes meanwhile: every other acceptance and every refusal, by whoever it comes, is
-- answered with not found and changes nothing.
pub claim_offer-exclusive :
    (host again : Host) (context other : TenantContext) (id : Str) (tables later : MemoryTables)
    (offer : TransferOffer)
    → (claim_offer host context id tables).1 ≡ ok offer
    → get id later.transfer_offers ≡ get id (claim_offer host context id tables).0.transfer_offers
    → (claim_offer again other id later ≡ (later, err transfer_not_found))
      × (decline_transfer_offer again other id later ≡ (later, err transfer_not_found))
unfolding set_offer_status claim_offer decline_transfer_offer
claim_offer-exclusive host again context other id tables later offer h same =
    let claimed =
      ap (λ (r : MemoryTables × Result TransferOffer). get id r.0.transfer_offers)
        (claim_offer-ok host context id tables offer h) in
    let there =
      same
      ∙ (claimed ∙ get-set_self id (record offer { status = accepted }) tables.transfer_offers) in
    let refused = claimed-not_found again other id later offer there in
    (rw (claim_offer, refused) refl, rw (decline_transfer_offer, refused) refl)

-- When the rest of an acceptance fails, on whatever tables it finds by then, the offer is open
-- again as it was claimed, no other offer changes, and the sessions and the transfers stay.
pub finish_offer-reopens :
    (world : World) (context : TenantContext) (id other : Str) (offer : TransferOffer)
    (tables : MemoryTables) (e : Error)
    → (finish_offer world context id offer tables).1 ≡ err e
    → (get other (finish_offer world context id offer tables).0.transfer_offers ≡ (
        if id == other
        then some (record offer { status = pending })
        else get other tables.transfer_offers))
      × ((finish_offer world context id offer tables).0.sessions ≡ tables.sessions)
      × ((finish_offer world context id offer tables).0.transfers ≡ tables.transfers)
unfolding finish_offer set_offer_status
finish_offer-reopens world context id other offer tables e h =
    elim (Result-cases (copy_offered world context offer tables)) [
      | inl (copied, c) ↦
          let done : (finish_offer world context id offer tables).1 ≡ ok copied =
            rw (finish_offer, c) refl in
          cc (done, h)
      | inr (d, c) ↦
          rw (finish_offer, c)
            (
              get-set id other (record offer { status = pending }) tables.transfer_offers,
              refl,
              refl,
            )
    ]
