-- ===== src/Canonical.antt =====
-- The canonical session schema: server/libs/canonical/src/generated.ts, with the tenant context and
-- the archived session of server/src/store/context.ts. Identifiers, timestamps and texts are
-- strings; an absent optional field is `none`.
pub mod Clean
pub mod NoNul
use memoar.Prelude.{ℕ, Bool, true, false, List, Option, none, some}
use memoar.Prelude.Tests.{nat_eq, if◌then◌else◌}
use memoar.Prelude.Str.{Str, ◌==◌}

-- A value of `unknown` that came out of JSON. A number is kept as its text.
mutual
  pub data Json : Type 0 where
    null : Json
    bool : Bool → Json
    num : Str → Json
    str : Str → Json
    arr : Items → Json
    obj : Fields → Json

  pub data Items : Type 0 where
    nil : Items
    cons : Json → Items → Items

  -- `Record<string, unknown>`
  pub data Fields : Type 0 where
    end : Fields
    field : Str → Json → Fields → Fields

pub record SourceDescriptor : Type 0 where
  pub vendor : Str
  pub tool : Str
  pub version : Str
  pub machine_id : Str
  pub native_session_id : Option Str

pub record WorkspaceDescriptor : Type 0 where
  pub path : Str
  pub git_remote : Option Str
  pub branch : Option Str

pub record TokenTotals : Type 0 where
  pub input : ℕ
  pub output : ℕ
  pub cache_read : Option ℕ
  pub cache_write : Option ℕ

pub data ProvenanceKind : Type 0 where
  native imported conversion distillation : ProvenanceKind

pub record ProvenanceEntry : Type 0 where
  pub kind : ProvenanceKind
  pub source_id : Option Str
  pub captured_at : Str
  pub parser_version : Option Str
  pub details : Option Fields

pub data Scope : Type 0 where
  private team org link : Scope

pub record Visibility : Type 0 where
  pub scope : Scope
  pub owner_id : Str
  pub team_id : Option Str
  pub org_id : Option Str

pub data ContentBlockKind : Type 0 where
  text thinking tool_call tool_result diff artifact attachment system error : ContentBlockKind

pub record ContentBlock : Type 0 where
  pub id : Str
  pub kind : ContentBlockKind
  pub text : Option Str
  pub name : Option Str
  pub call_id : Option Str
  pub language : Option Str
  pub mime_type : Option Str
  pub artifact_ref : Option Str
  pub payload : Option Fields
  pub ext : Option Fields

pub data Role : Type 0 where
  system user assistant tool : Role

pub record Turn : Type 0 where
  pub id : Str
  pub ordinal : ℕ
  pub parent_id : Option Str
  pub role : Role
  pub created_at : Str
  pub model : Option Str
  pub tokens : Option TokenTotals
  pub blocks : List ContentBlock
  pub ext : Option Fields

pub data AnnotationKind : Type 0 where
  tag collection pin note summary redaction_mask : AnnotationKind

-- A stored annotation carries its tenant, which its public form lacks.
pub record Annotation : Type 0 where
  pub id : Str
  pub session_id : Str
  pub turn_id : Option Str
  pub block_id : Option Str
  pub kind : AnnotationKind
  pub value : Fields
  pub created_at : Str
  pub updated_at : Str

pub data RedactionStatus : Type 0 where
  clear findings reviewed : RedactionStatus

pub record ArchivedSession : Type 0 where
  pub id : Str
  pub source : SourceDescriptor
  pub workspace : WorkspaceDescriptor
  pub created_at : Str
  pub updated_at : Str
  pub title : Str
  pub summary : Option Str
  pub models : List Str
  pub token_totals : TokenTotals
  pub provenance : List ProvenanceEntry
  pub visibility : Visibility
  pub turns : List Turn
  pub ext : Option Fields
  pub redaction_status : RedactionStatus

pub data MemoryScope : Type 0 where
  global project : MemoryScope

pub record MemoryDocument : Type 0 where
  pub id : Str
  pub scope : MemoryScope
  pub machine_id : Str
  pub workspace_path : Option Str
  pub path : Str
  pub title : Str
  pub readers : List Str
  pub content_hash : Str
  pub captured_at : Str
  pub visibility : Visibility
  pub redaction_status : RedactionStatus
  pub redaction_findings : List Str
  pub provenance : List ProvenanceEntry

pub record MemoryRevision : Type 0 where
  pub id : Str
  pub document_id : Str
  pub content_hash : Str
  pub text : Str
  pub size : ℕ
  pub captured_at : Str

pub data AuthType : Type 0 where
  browser api_key machine dev mcp : AuthType

pub record TenantContext : Type 0 where
  pub tenant_id : Str
  pub user_id : Str
  pub org_id : Option Str
  pub team_id : Option Str
  pub machine_id : Option Str
  pub scopes : List Str
  pub auth_type : AuthType
  pub credential_id : Option Str

-- `from` and `to` are times, as `Date` holds them: milliseconds since the epoch.
pub record SessionFilter : Type 0 where
  pub agent : Option Str
  pub workspace : Option Str
  pub machine_id : Option Str
  pub model : Option Str
  pub since : Option ℕ
  pub until : Option ℕ
  pub cursor : Option Str
  pub limit : ℕ

pub record SessionPage : Type 0 where
  pub items : List ArchivedSession
  pub total : ℕ
  pub next_cursor : Option Str

-- Comparisons of the enumerations with one of their words.
unfoldable pub is_team : Scope → Bool
is_team team = true
is_team _ = false

unfoldable pub is_mask : AnnotationKind → Bool
is_mask redaction_mask = true
is_mask _ = false

unfoldable pub is_reviewed : RedactionStatus → Bool
is_reviewed reviewed = true
is_reviewed _ = false

-- `kind === "tool_call" || kind === "tool_result"`
unfoldable pub is_tool_payload : ContentBlockKind → Bool
is_tool_payload tool_call = true
is_tool_payload tool_result = true
is_tool_payload _ = false

rank : AnnotationKind → ℕ
rank tag = 0
rank collection = 1
rank pin = 2
rank note = 3
rank summary = 4
rank redaction_mask = 5

-- `left.kind === right.kind`
unfoldable pub same_kind : AnnotationKind → AnnotationKind → Bool
unfolding rank
same_kind a b = nat_eq (rank a) (rank b)

unfoldable pub same_scope : MemoryScope → MemoryScope → Bool
same_scope global global = true
same_scope project project = true
same_scope _ _ = false

-- `o[k]`
unfoldable pub lookup_field : Str → Fields → Option Json
lookup_field k end = none
lookup_field k (field j v fs) = if j == k then some v else lookup_field k fs

-- `o[k] = v`
unfoldable pub set_field : Str → Json → Fields → Fields
set_field k v end = field k v end
set_field k v (field j w fs) =
    let rest = set_field k v fs in if j == k then field k v fs else field j w rest

-- The value of a field that holds a string, as behind `typeof x === "string"`.
unfoldable pub string_of : Option Json → Option Str
string_of (some (str s)) = some s
string_of _ = none
