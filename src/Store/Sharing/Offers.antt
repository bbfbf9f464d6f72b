-- ===== src/Store/Sharing/Offers.antt =====
-- Who may answer a transfer offer, and what an answer leaves behind.
use memoar.Prelude.{◌≡◌, sym, ap, ◌∙◌, inl, inr, true, [], ◌∷◌, some, arith}
use memoar.Prelude.Str.{Str, eq_iff, eq_refl}
use memoar.Prelude.JsMap.{JsMap, get, set}
use memoar.Canonical.{ArchivedSession, TenantContext}
use memoar.Host.{Host}
use memoar.Store.Records.{TransferStatus, pending, accepted}
use memoar.Store.Tables.{Result-cases, MemoryTables, TransferOffer, key, Error, Result, ok, err}
use memoar.Store.Sharing.{
  accept_transfer_offer, actionable, claim_offer, copy_offered, finish_offer, is_addressed_to,
  is_pending, set_offer_status, set_transfer_status, World,
}

-- A write that puts back what was there, after another write to the same key.
set-restore :
    {V : Type 0} (k : Str) (v w : V) (m : JsMap V) → get k m ≡ some v → set k v (set k w m) ≡ m
unfolding get set
set-restore k v w [] h = cc
set-restore k v w ((j, x) ∷ m) h = ground (arith, eq_iff j k, eq_refl k, set-restore k v w m)

pub actionable-ok :
    (host : Host) (context : TenantContext) (id : Str) (tables : MemoryTables)
    (offer : TransferOffer)
    → actionable host context id tables ≡ ok offer
    → (get id tables.transfer_offers ≡ some offer)
      × (offer.status ≡ pending)
      × (is_addressed_to host context offer.recipient_email tables ≡ true)
unfolding actionable is_pending
actionable-ok host context id tables offer h = (ground arith, ground arith, ground arith)

module _ (world : World) (context : TenantContext) (id : Str) (tables : MemoryTables) where
  abbrev pub claimed : TransferOffer → MemoryTables
  claimed offer = set_offer_status id offer accepted tables

  -- The three courses that an acceptance takes.
  pub accept_refused :
      (e : Error)
      → actionable world.host context id tables ≡ err e
      → accept_transfer_offer world context id tables ≡ (tables, err e)
  unfolding accept_transfer_offer claim_offer
  accept_refused e h = ground (arith, h)

  pub accept_failed :
      (offer : TransferOffer) (e : Error)
      → actionable world.host context id tables ≡ ok offer
      → copy_offered world context offer (claimed offer) ≡ err e
      → accept_transfer_offer world context id tables
        ≡ (set_offer_status id offer pending (claimed offer), err e)
  unfolding accept_transfer_offer claim_offer finish_offer
  accept_failed offer e h f = ground (arith, h, f)

  pub accept_copied :
      (offer : TransferOffer) (copied : ArchivedSession)
      → actionable world.host context id tables ≡ ok offer
      → copy_offered world context offer (claimed offer) ≡ ok copied
      → accept_transfer_offer world context id tables ≡ (
        set_transfer_status (key offer.sender_tenant_id id) accepted (record (claimed offer) {
          sessions = set (key context.tenant_id copied.id) copied (claimed offer).sessions;
        }),
        ok copied,
      )
  unfolding accept_transfer_offer claim_offer finish_offer
  accept_copied offer copied h f = ground (arith, h, f)

  restored :
      (offer : TransferOffer)
      → actionable world.host context id tables ≡ ok offer
      → set_offer_status id offer pending (claimed offer) ≡ tables
  unfolding set_offer_status
  restored offer h =
      let (found, waiting, _) = actionable-ok world.host context id tables offer h in
      let back : record offer { status = pending } ≡ offer =
        λ i. record offer { status = sym waiting i } in
      ap (λ (m : JsMap TransferOffer). record tables { transfer_offers = m })
        (ap
            (λ (o : TransferOffer).
              set id o (set id (record offer { status = accepted }) tables.transfer_offers))
            back
          ∙ set-restore id offer (record offer { status = accepted }) tables.transfer_offers found)

-- An acceptance that is refused or fails leaves every table exactly as it was: the claim that it
-- made on the offer is given back.
pub accept_transfer_offer_atomic :
    (world : World) (context : TenantContext) (id : Str) (tables : MemoryTables) (e : Error)
    → (accept_transfer_offer world context id tables).1 ≡ err e
    → (accept_transfer_offer world context id tables).0 ≡ tables
accept_transfer_offer_atomic world context id tables e h =
    elim (Result-cases (actionable world.host context id tables)) [
      | inr (d, a) ↦
          ap (λ (r : MemoryTables × Result ArchivedSession). r.0)
            (accept_refused world context id tables d a)
      | inl (offer, a) ↦
          elim (Result-cases
            (copy_offered world context offer (set_offer_status id offer accepted tables))) [
              | inr (d, c) ↦
                  ap (λ (r : MemoryTables × Result ArchivedSession). r.0)
                    (accept_failed world context id tables offer d a c)
                  ∙ restored world context id tables offer a
              | inl (s, c) ↦ cc (accept_copied world context id tables offer s a c)
            ]
    ]

pub set_transfer_status-offers :
    (k : Str) (status : TransferStatus) (tables : MemoryTables)
    → ((set_transfer_status k status tables).transfer_offers ≡ tables.transfer_offers)
      × ((set_transfer_status k status tables).sessions ≡ tables.sessions)
unfolding set_transfer_status
set_transfer_status-offers k status tables = (ground arith, ground arith)
