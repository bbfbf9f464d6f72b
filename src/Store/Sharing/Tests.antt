-- ===== src/Store/Sharing/Tests.antt =====
-- Runs of `acceptTransferOffer` and of its failures.
use memoar.Store.Tables.{MemoryTables, transfer_session_missing}
use memoar.Store.Sharing.{claim_offer, finish_offer}
use memoar.Store.Sharing.Interleaving.{claim_offer-exclusive}
use memoar.Examples.{offer}
use memoar.Prelude.{◌≡◌, refl, [], ◌∷◌, none, some}
use memoar.Prelude.Str.{codes, ◌==◌, contains}
use memoar.Prelude.Lists.{find}
use memoar.Prelude.JsMap.{get, set}
use memoar.Canonical.{ArchivedSession, imported, private}
use memoar.Store.Tables.{err, key, ok, transfer_not_addressed_to_caller, transfer_not_found}
use memoar.Store.TransferCopy.{copy_transferred_session, session_content_digest}
use memoar.Redaction.{apply_redaction_projection, mask_literals, redaction_patterns}
use memoar.Store.Sharing.{accept_transfer_offer, decline_transfer_offer}
use memoar.Store.Sharing.Accepting.{
  accept_transfer_offer-Backed, accept_transfer_offer_once, Backed,
}
use memoar.Store.Sharing.Offers.{accept_transfer_offer_atomic}
use memoar.Examples.{ann, bob, session, tables, turn, world}

abbrev bobs_copy : ArchivedSession
bobs_copy = record session {
  id = b'n' ∷ 1 ∷ [];
  turns = record turn { id = b'n' ∷ 0 ∷ [] } ∷ [];
  visibility = record { scope = private; owner_id = codes "bob"; team_id = none; org_id = none };
  provenance =
      record {
        kind = imported;
        source_id = some (codes "transfer:o:s");
        captured_at = codes "9";
        parser_version = none;
        details = none;
      }
      ∷ [];
}

accepted : (accept_transfer_offer world bob (codes "o") tables).1 ≡ ok bobs_copy
unfolding accept_transfer_offer copy_transferred_session session_content_digest
    apply_redaction_projection get ◌==◌ contains key find set mask_literals redaction_patterns
accepted = refl

refused :
    (accept_transfer_offer world ann (codes "o") tables).1 ≡ err transfer_not_addressed_to_caller
unfolding accept_transfer_offer get ◌==◌ contains
refused = refl

accept_transfer_offer-Backed_example :
    Backed world bob (codes "o") tables
    × (bobs_copy.visibility.scope ≡ private)
    × (bobs_copy.visibility.owner_id ≡ codes "bob")
    × (get
          (key (codes "bb") bobs_copy.id)
          (accept_transfer_offer world bob (codes "o") tables).0.sessions
        ≡ some bobs_copy)
accept_transfer_offer-Backed_example =
    accept_transfer_offer-Backed world bob (codes "o") tables bobs_copy accepted

accept_transfer_offer_once_example :
    ((accept_transfer_offer world bob
        (codes "o")
        (accept_transfer_offer world bob (codes "o") tables).0).1
      ≡ err transfer_not_found)
    × ((decline_transfer_offer world.host bob
          (codes "o")
          (accept_transfer_offer world bob (codes "o") tables).0).1
        ≡ err transfer_not_found)
accept_transfer_offer_once_example =
    accept_transfer_offer_once world world bob bob (codes "o") tables bobs_copy accepted

accept_transfer_offer_atomic_example :
    (accept_transfer_offer world ann (codes "o") tables).0 ≡ tables
accept_transfer_offer_atomic_example =
    accept_transfer_offer_atomic world ann (codes "o") tables transfer_not_addressed_to_caller
      refused

abbrev without_sessions : MemoryTables
without_sessions = record tables { sessions = [] }

taken : (claim_offer world.host bob (codes "o") tables).1 ≡ ok offer
unfolding claim_offer get ◌==◌ contains
taken = refl

missing :
    (finish_offer world bob (codes "o") offer without_sessions).1 ≡ err transfer_session_missing
unfolding finish_offer get
missing = refl

claim_offer-exclusive_example :
    (claim_offer world.host ann (codes "o") (claim_offer world.host bob (codes "o") tables).0
      ≡ ((claim_offer world.host bob (codes "o") tables).0, err transfer_not_found))
    × (decline_transfer_offer world.host ann
          (codes "o")
          (claim_offer world.host bob (codes "o") tables).0
        ≡ ((claim_offer world.host bob (codes "o") tables).0, err transfer_not_found))
claim_offer-exclusive_example =
    claim_offer-exclusive world.host world.host bob ann (codes "o") tables
      (claim_offer world.host bob (codes "o") tables).0 offer taken refl
