-- ===== src/Store/TeamOptins.antt =====
-- server/src/store/memory/team-optins.ts: the standing consent to share into a team.
pub mod Resolve
pub mod Revoke
pub mod Tests
use memoar.Prelude.{
  ℕ, suc, ◌+◌, Bool, true, false, not, ◌&&◌, ◌||◌, List, [], ◌∷◌, ◌++◌, map, Option, none, some,
  Ordering,
}
use memoar.Prelude.Tests.{if◌then◌else◌, or_else}
use memoar.Prelude.Lists.{filter, sort_by, length}
use memoar.Prelude.Str.{Str, codes, ◌==◌, opt_eq, truthy?}
use memoar.Prelude.JsMap.{JsMap, get, has, set, delete, update_each, values}
use memoar.Canonical.{ArchivedSession, TenantContext, private}
use memoar.Host.{Host, then_by}
use memoar.Store.Keys.{in_tenant}
use memoar.Store.Records.{TeamShareOptinRecord}
use memoar.Store.Tables.{MemoryTables}
use memoar.Store.TeamVisibility.{is_team_visible}
use memoar.Store.Teams.{is_team_member}

-- `${teamId}:${tenantId}:${machineId ?? "*"}`
pub optin_key : Str → Str → Option Str → Str
optin_key team_id tenant_id machine_id =
    team_id ++ (b':' ∷ (tenant_id ++ (b':' ∷ or_else machine_id (codes "*"))))

pub list_team_optins : Str → Str → MemoryTables → List TeamShareOptinRecord
list_team_optins team_id tenant_id tables =
    filter (λ (o : TeamShareOptinRecord). o.team_id == team_id && o.tenant_id == tenant_id)
      (values tables.team_share_optins)

pub list_tenant_optins : Str → MemoryTables → List TeamShareOptinRecord
list_tenant_optins tenant_id tables =
    filter (λ (o : TeamShareOptinRecord). o.tenant_id == tenant_id)
      (values tables.team_share_optins)

pub create_team_optin : TeamShareOptinRecord → MemoryTables → MemoryTables × Bool
unfolding optin_key
create_team_optin optin tables =
    let entry = optin_key optin.team_id optin.tenant_id optin.machine_id in
    if has entry tables.team_share_optins
    then (tables, false)
    else (record tables { team_share_optins = set entry optin tables.team_share_optins }, true)

pub delete_team_optin : Str → Str → Option Str → MemoryTables → MemoryTables × Bool
unfolding optin_key
delete_team_optin team_id tenant_id machine_id tables =
    let entry = optin_key team_id tenant_id machine_id in
    (
      record tables { team_share_optins = delete entry tables.team_share_optins },
      has entry tables.team_share_optins,
    )

pub still_a_member : MemoryTables → TeamShareOptinRecord → Bool
still_a_member tables optin = is_team_member optin.team_id optin.user_id tables

-- `optin.machineId === null || (machineId !== undefined && optin.machineId === machineId)`
pub covers : Option Str → TeamShareOptinRecord → Bool
covers machine_id optin = elim optin.machine_id [
  | none ↦ true
  | some m ↦ opt_eq (some m) machine_id
]

pub earliest_first : Host → TeamShareOptinRecord → TeamShareOptinRecord → Ordering
earliest_first host left right =
    then_by (host.locale_compare left.created_at right.created_at)
      (host.locale_compare left.id right.id)

pub enrolments : Str → Option Str → MemoryTables → List TeamShareOptinRecord
unfolding still_a_member covers list_tenant_optins
enrolments tenant_id machine_id tables =
    filter (still_a_member tables)
      (filter (covers machine_id) (list_tenant_optins tenant_id tables))

first_team : List TeamShareOptinRecord → Option Str
first_team [] = none
first_team (o ∷ os) = some o.team_id

pub resolve_ingest_team : Host → Str → Option Str → MemoryTables → Option Str
unfolding enrolments earliest_first first_team
resolve_ingest_team host tenant_id machine_id tables =
    first_team (sort_by (earliest_first host) (enrolments tenant_id machine_id tables))

-- The sessions that `revokeTeamVisibility` resets.
pub is_revoked : Str → Str → Option Str → Str → ArchivedSession → Bool
is_revoked tenant team_id machine_id entry session =
    in_tenant tenant entry
    && (is_team_visible session.visibility team_id
        && (not (truthy? machine_id) || opt_eq (some session.source.machine_id) machine_id))

pub made_private : ArchivedSession → ArchivedSession
made_private session = record session {
  visibility = record {
    scope = private;
    owner_id = session.visibility.owner_id;
    team_id = none;
    org_id = none;
  };
}

pub revoke_team_visibility : TenantContext → Str → Option Str → MemoryTables → MemoryTables × ℕ
unfolding is_revoked made_private
revoke_team_visibility context team_id machine_id tables = (
  record tables {
    sessions =
        update_each
          (λ entry session.
            if is_revoked context.tenant_id team_id machine_id entry session
            then made_private session
            else session)
          tables.sessions;
  },
  length (
      filter
        (λ (e : Str × ArchivedSession). is_revoked context.tenant_id team_id machine_id e.0 e.1)
        tables.sessions),
)
