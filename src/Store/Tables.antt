-- ===== src/Store/Tables.antt =====
-- server/src/store/memory/tables.ts: the tables that the in-memory stores share. The records are
-- values, so `copy` is the identity. A thrown error is a value of `Error`.
use memoar.Prelude.{◌⊎◌, ◌≡◌, inl, inr, refl, ◌++◌, ◌∷◌, List}
use memoar.Prelude.Str.{Str}
use memoar.Prelude.JsMap.{JsMap}
use memoar.Canonical.{Annotation, ArchivedSession, MemoryDocument, MemoryRevision}
use memoar.Store.Records.{
  CollectionRecord, DistillationSettings, JobRecord, MachineCommandRecord, MachineRecord,
  MemberStatus, RawArtifactRecord, RedactionReviewRecord, ShareGrantRecord, TeamMember,
  TeamShareOptinRecord, TenantSettingsRecord, TransferRecord, TransferStatus,
}

pub data Error : Type 0 where
  session_not_found tenant_mismatch transfer_not_addressed_to_caller transfer_not_found : Error
  transfer_session_missing transfer_review_stale team_not_found : Error

pub data Result {ℓ} (A : Type ℓ) : Type ℓ where
  ok : A → Result A
  err : Error → Result A

pub Result-cases :
    {A : Type 0} (r : Result A) → ((a : A) × (r ≡ ok a)) ⊎ ((e : Error) × (r ≡ err e))
Result-cases (ok a) = inl (a, refl)
Result-cases (err e) = inr (e, refl)

pub record TransferOffer : Type 0 where
  pub id : Str
  pub sender_tenant_id : Str
  pub sender_user_id : Str
  pub session_id : Str
  pub recipient_email : Str
  pub status : TransferStatus

-- `${tenantId}:${id}`
unfoldable pub key : Str → Str → Str
key tenant_id id = tenant_id ++ (b':' ∷ id)

-- A row of a table whose records are stored with their tenant beside them.
pub record Owned (A : Type 0) : Type 0 where
  pub tenant_id : Str
  pub row : A

pub record Team : Type 0 where
  pub id : Str
  pub org_id : Str
  pub name : Str

pub record Member : Type 0 where
  pub user_id : Str
  pub tenant_id : Str
  pub email : Str
  pub status : MemberStatus

-- `retiredMachines` is a set of keys; the numbers of an embedding are kept as their texts.
pub record MemoryTables : Type 0 where
  pub machines : JsMap MachineRecord
  pub retired_machines : List Str
  pub machine_commands : JsMap MachineCommandRecord
  pub sessions : JsMap ArchivedSession
  pub session_identities : JsMap Str
  pub session_embeddings : JsMap (List Str)
  pub annotations : JsMap (Owned Annotation)
  pub collections : JsMap CollectionRecord
  pub reviews : JsMap RedactionReviewRecord
  pub grants : JsMap ShareGrantRecord
  pub transfers : JsMap TransferRecord
  pub transfer_offers : JsMap TransferOffer
  pub artifacts : JsMap RawArtifactRecord
  pub jobs : JsMap JobRecord
  pub distillation : JsMap DistillationSettings
  pub tenant_settings : JsMap TenantSettingsRecord
  pub teams : JsMap Team
  pub team_members : JsMap (List Member)
  pub team_share_optins : JsMap TeamShareOptinRecord
  pub memory_documents : JsMap (Owned MemoryDocument)
  pub memory_revisions : JsMap (Owned MemoryRevision)
  pub accounts_by_email : JsMap TeamMember
