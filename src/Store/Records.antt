-- ===== src/Store/Records.antt =====
-- server/src/store/records.ts: the records of the archive that are not part of the canonical schema.
use memoar.Prelude.{ℕ, Bool, true, false, List, [], Option, none}
use memoar.Prelude.Str.{Str}
use memoar.Canonical.{Fields}

pub record CollectionRecord : Type 0 where
  pub id : Str
  pub tenant_id : Str
  pub name : Str
  pub description : Option Str
  pub team_id : Option Str
  pub session_ids : List Str
  pub updated_at : Str

pub record TeamRecord : Type 0 where
  pub id : Str
  pub org_id : Str
  pub name : Str
  pub member_count : ℕ

pub record TeamMember : Type 0 where
  pub user_id : Str
  pub tenant_id : Str
  pub email : Str

pub data MemberStatus : Type 0 where
  invited active : MemberStatus

pub record TeamMemberSummary : Type 0 where
  pub user_id : Str
  pub email : Str
  pub status : MemberStatus

pub record TeamInvitation : Type 0 where
  pub team_id : Str
  pub team_name : Str
  pub org_id : Str

-- No machine means every machine of the tenant.
pub record TeamShareOptinRecord : Type 0 where
  pub id : Str
  pub team_id : Str
  pub tenant_id : Str
  pub user_id : Str
  pub machine_id : Option Str
  pub created_at : Str

pub record RedactionMaskSnapshot : Type 0 where
  pub kind : Str
  pub start : ℕ
  pub stop : ℕ
  pub preview : Str

pub data ReviewStatus : Type 0 where
  pending completed superseded : ReviewStatus

pub record RedactionReviewRecord : Type 0 where
  pub id : Str
  pub tenant_id : Str
  pub session_id : Str
  pub reviewer_user_id : Str
  pub status : ReviewStatus
  pub content_digest : Str
  pub masks : List RedactionMaskSnapshot
  pub completed_at : Option Str

pub data Permission : Type 0 where
  viewer importer : Permission

pub data GrantStatus : Type 0 where
  active revoked expired : GrantStatus

pub record ShareGrantRecord : Type 0 where
  pub id : Str
  pub tenant_id : Str
  pub session_id : Str
  pub permission : Permission
  pub token_hash : Str
  pub status : GrantStatus
  pub created_at : Str
  pub expires_at : Option Str

pub record ShareTokenLookup : Type 0 where
  pub grant_id : Str
  pub tenant_id : Str
  pub session_id : Str
  pub permission : Permission
  pub status : GrantStatus
  pub expires_at : Option Str

pub data TransferStatus : Type 0 where
  pending accepted declined expired : TransferStatus

pub record TransferRecord : Type 0 where
  pub id : Str
  pub tenant_id : Str
  pub session_id : Str
  pub sender_email : Str
  pub recipient_email : Str
  pub status : TransferStatus
  pub created_at : Str

pub data ArtifactStatus : Type 0 where
  stored queued parsed unknown_format failed : ArtifactStatus

pub record RawArtifactRecord : Type 0 where
  pub id : Str
  pub tenant_id : Str
  pub session_ids : List Str
  pub sha256 : Str
  pub size : ℕ
  pub object_key : Str
  pub status : ArtifactStatus
  pub source : Str
  pub source_path : Option Str
  pub captured_at : Str
  pub diagnostic : Option Str

pub data JobKind : Type 0 where
  parse index embed secret_scan convert distill materialize : JobKind

pub data JobStatus : Type 0 where
  queued running ready failed : JobStatus

pub record JobRecord : Type 0 where
  pub id : Str
  pub tenant_id : Str
  pub kind : JobKind
  pub status : JobStatus
  pub payload : Fields
  pub result : Option Fields
  pub error : Option Str
  pub created_at : Str
  pub updated_at : Str

pub data DistillationProviderName : Type 0 where
  nothing anthropic : DistillationProviderName

-- Money is in whole cents.
pub record DistillationSettings : Type 0 where
  pub enabled : Bool
  pub provider : DistillationProviderName
  pub model : Option Str
  pub sealed_api_key : Option Str
  pub monthly_budget_cents : ℕ
  pub monthly_spent_cents : ℕ
  pub budget_window_started_at : Str

unfoldable pub default_distillation_settings : Str → DistillationSettings
default_distillation_settings now = record {
  enabled = false;
  provider = nothing;
  model = none;
  sealed_api_key = none;
  monthly_budget_cents = 0;
  monthly_spent_cents = 0;
  budget_window_started_at = now;
}

pub data CommandStatus : Type 0 where
  pending delivered completed failed : CommandStatus

pub record MachineCommandRecord : Type 0 where
  pub id : Str
  pub tenant_id : Str
  pub machine_id : Str
  pub kind : Str
  pub payload : Fields
  pub status : CommandStatus
  pub error : Option Str
  pub created_at : Str
  pub delivered_at : Option Str
  pub acked_at : Option Str

pub record RedactionSettingsRecord : Type 0 where
  pub secret_scan : Bool
  pub path_scan : Bool
  pub email_scan : Bool
  pub custom_patterns : List Str

pub data RetentionPolicy : Type 0 where
  indefinite days : RetentionPolicy

pub record RetentionSettingsRecord : Type 0 where
  pub policy : RetentionPolicy
  pub days : Option ℕ
  pub exempt_collected : Bool

pub record TenantSettingsRecord : Type 0 where
  pub redaction : RedactionSettingsRecord
  pub retention : RetentionSettingsRecord
  pub updated_at : Option Str

abbrev pub default_tenant_settings : TenantSettingsRecord
default_tenant_settings = record {
  redaction = record {
    secret_scan = true;
    path_scan = false;
    email_scan = false;
    custom_patterns = [];
  };
  retention = record { policy = indefinite; days = none; exempt_collected = true };
  updated_at = none;
}

-- `installationId?: string | null`: absent and null are one here, as the comparisons treat them.
pub record MachineRecord : Type 0 where
  pub id : Str
  pub tenant_id : Str
  pub name : Str
  pub platform : Str
  pub agent_version : Option Str
  pub source_settings : Fields
  pub last_seen_at : Option Str
  pub installation_id : Option Str
