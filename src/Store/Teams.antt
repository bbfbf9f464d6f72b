-- ===== src/Store/Teams.antt =====
-- server/src/store/memory/sharing.ts: `MemoryTeamStore`, the teams, their members and what they see.
pub mod Membership
pub mod Reading
pub mod Tests
use memoar.Prelude.{ℕ, Bool, true, false, not, ◌&&◌, List, [], ◌∷◌, ◌++◌, map, Option, none, some}
use memoar.Prelude.Tests.{if◌then◌else◌, or_else, nat_eq}
use memoar.Prelude.Lists.{filter, find, any, length}
use memoar.Prelude.Str.{Str, ◌==◌, opt_eq, contains}
use memoar.Prelude.JsMap.{JsMap, get, has, set, values}
use memoar.Canonical.{ArchivedSession}
use memoar.Host.{Host}
use memoar.Store.Records.{
  CollectionRecord, MemberStatus, invited, active, TeamInvitation, TeamMember, TeamMemberSummary,
  TeamRecord,
}
use memoar.Store.Settings.{tenant_part}
use memoar.Store.Tables.{MemoryTables, Member, Team, key, Result, ok, err, team_not_found}
use memoar.Store.TeamVisibility.{is_team_visible}

pub is_active : MemberStatus → Bool
is_active active = true
is_active invited = false

pub is_invited : MemberStatus → Bool
is_invited invited = true
is_invited active = false

-- `this.tables.teamMembers.get(teamId) ?? []`
pub members_of : Str → MemoryTables → List Member
members_of team_id tables = or_else (get team_id tables.team_members) []

pub with_status : TeamMember → MemberStatus → Member
with_status m status = record {
  user_id = m.user_id;
  tenant_id = m.tenant_id;
  email = m.email;
  status = status;
}

-- `id` and `org_id` are what the call would draw.
pub create_team :
    Str → Str → Str → Option Str → TeamMember → MemoryTables → MemoryTables × TeamRecord
unfolding with_status
create_team id drawn_org name org_id creator tables =
    let org = or_else org_id drawn_org in
    (
      record tables {
        teams = set id (record { id = id; org_id = org; name = name }) tables.teams;
        team_members = set id (with_status creator active ∷ []) tables.team_members;
      },
      record { id = id; org_id = org; name = name; member_count = 1 },
    )

-- `members.some((member) => member.userId === userId && member.status === "active")`
pub has_active : Str → List Member → Bool
unfolding is_active
has_active user_id = any (λ (m : Member). m.user_id == user_id && is_active m.status)

pub has_invited : Str → List Member → Bool
unfolding is_invited
has_invited user_id = any (λ (m : Member). m.user_id == user_id && is_invited m.status)

pub active_members : List Member → List Member
unfolding is_active
active_members = filter (λ (m : Member). is_active m.status)

teams_for : Str → MemoryTables → List Team → List TeamRecord
unfolding has_active active_members members_of
teams_for user_id tables [] = []
teams_for user_id tables (team ∷ teams) =
    let rest = teams_for user_id tables teams in
    let members = members_of team.id tables in
    if has_active user_id members
    then record {
      id = team.id;
      org_id = team.org_id;
      name = team.name;
      member_count = length (active_members members);
    }
      ∷ rest
    else rest

pub list_teams_for_user : Str → MemoryTables → List TeamRecord
unfolding teams_for
list_teams_for_user user_id tables = teams_for user_id tables (values tables.teams)

unfoldable pub is_team_member : Str → Str → MemoryTables → Bool
unfolding has_active members_of
is_team_member team_id user_id tables = has_active user_id (members_of team_id tables)

pub knows : Str → List Member → Bool
knows user_id = any (λ (m : Member). m.user_id == user_id)

pub invite_team_member : Str → TeamMember → MemoryTables → MemoryTables × Result (Unit {0})
unfolding members_of with_status knows
invite_team_member team_id member tables =
    let members = members_of team_id tables in
    if not (has team_id tables.teams) then (tables, err team_not_found) else (
      record tables {
        team_members =
            set team_id
              (if not (knows member.user_id members)
                then members ++ with_status member invited ∷ []
                else members)
              tables.team_members;
      },
      ok tt,
    )

invitations_for : Str → MemoryTables → List Team → List TeamInvitation
unfolding has_invited members_of
invitations_for user_id tables [] = []
invitations_for user_id tables (team ∷ teams) =
    let rest = invitations_for user_id tables teams in
    if has_invited user_id (members_of team.id tables)
    then record { team_id = team.id; team_name = team.name; org_id = team.org_id } ∷ rest
    else rest

pub list_team_invitations : Str → MemoryTables → List TeamInvitation
unfolding invitations_for
list_team_invitations user_id tables = invitations_for user_id tables (values tables.teams)

pub list_team_members : Str → MemoryTables → List TeamMemberSummary
unfolding members_of
list_team_members team_id tables =
    map (λ (m : Member). record { user_id = m.user_id; email = m.email; status = m.status })
      (members_of team_id tables)

-- `pending.status = "active"`, on the first invitation of the user
pub activate : Str → List Member → List Member
unfolding is_invited
activate user_id [] = []
activate user_id (m ∷ members) =
    let rest = activate user_id members in
    if m.user_id == user_id && is_invited m.status
    then record m { status = active } ∷ members
    else m ∷ rest

pub accept_team_invitation : Str → Str → MemoryTables → MemoryTables × Bool
unfolding activate has_invited members_of
accept_team_invitation team_id user_id tables =
    if has_invited user_id (members_of team_id tables)
    then (
      record tables {
        team_members =
            set team_id (activate user_id (members_of team_id tables)) tables.team_members;
      },
      true,
    )
    else (tables, false)

pub remove_team_member : Str → Str → MemoryTables → MemoryTables × Bool
unfolding members_of
remove_team_member team_id user_id tables =
    let members = members_of team_id tables in
    let remaining = filter (λ (m : Member). not (m.user_id == user_id)) members in
    (
      record tables { team_members = set team_id remaining tables.team_members },
      not (nat_eq (length remaining) (length members)),
    )

pub find_account_by_email : Host → Str → MemoryTables → Option TeamMember
find_account_by_email host email tables =
    get (host.to_lower (host.trim email)) tables.accounts_by_email

email_of : Str → JsMap TeamMember → Option Str
email_of user_id [] = none
email_of user_id ((email, account) ∷ m) =
    if account.user_id == user_id then some email else email_of user_id m

pub get_account_email : Str → MemoryTables → Option Str
unfolding email_of
get_account_email user_id tables = email_of user_id tables.accounts_by_email

-- `[...new Set(tenants)]`
pub distinct : List Str → List Str
distinct [] = []
distinct (t ∷ ts) = let rest = filter (λ (u : Str). not (u == t)) (distinct ts) in t ∷ rest

pub list_team_member_tenants : Str → MemoryTables → List Str
unfolding active_members members_of distinct
list_team_member_tenants team_id tables =
    distinct (map (λ (m : Member). m.tenant_id) (active_members (members_of team_id tables)))

pub list_team_sessions : Str → MemoryTables → List ArchivedSession
unfolding list_team_member_tenants tenant_part
list_team_sessions team_id tables =
    let tenants = list_team_member_tenants team_id tables in
    filter (λ (s : ArchivedSession). is_team_visible s.visibility team_id)
      (values (
        filter (λ (e : Str × ArchivedSession). contains tenants (tenant_part e.0)) tables.sessions))

-- The first of the tenants whose session of that identifier the team may see.
pub seen_in : Str → Str → List Str → JsMap ArchivedSession → Option ArchivedSession
seen_in team_id session_id [] sessions = none
seen_in team_id session_id (t ∷ tenants) sessions =
    let rest = seen_in team_id session_id tenants sessions in
    elim (get (key t session_id) sessions) [
      | none ↦ rest
      | some session ↦ if is_team_visible session.visibility team_id then some session else rest
    ]

pub get_team_session : Str → Str → MemoryTables → Option ArchivedSession
unfolding seen_in list_team_member_tenants
get_team_session team_id session_id tables =
    seen_in team_id session_id (list_team_member_tenants team_id tables) tables.sessions

pub list_team_collections : Str → MemoryTables → List CollectionRecord
list_team_collections team_id tables =
    filter (λ (c : CollectionRecord). opt_eq c.team_id (some team_id)) (values tables.collections)
