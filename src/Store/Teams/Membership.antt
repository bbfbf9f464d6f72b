-- ===== src/Store/Teams/Membership.antt =====
-- How somebody becomes a member of a team, and stops being one.
use memoar.Prelude.{◌≡◌, not, ◌&&◌, ◌||◌, List, [], ◌∷◌, ◌++◌, arith}
use memoar.Prelude.Tests.{or_else}
use memoar.Prelude.Lists.{any, filter}
use memoar.Prelude.Str.{Str, ◌==◌, eq_iff}
use memoar.Prelude.JsMap.{get, get-set}
use memoar.Store.Records.{invited, TeamMember}
use memoar.Store.Tables.{MemoryTables, Member}
use memoar.Store.Teams.{
  accept_team_invitation, activate, has_active, has_invited, invite_team_member, is_active,
  is_invited, is_team_member, members_of, remove_team_member, with_status,
}

has_active-activate :
    (user other : Str) (members : List Member)
    → has_active other (activate user members)
      ≡ ((user == other && has_invited user members) || has_active other members)
unfolding has_active activate has_invited any is_active is_invited
has_active-activate user other [] = ground arith
has_active-activate user other (m ∷ members) = ground (
  arith,
  has_active-activate user other members,
  eq_iff m.user_id user,
  eq_iff m.user_id other,
  eq_iff user other,
)

-- Accepting makes exactly the invited user a member of exactly that team: nobody else's membership
-- of any team changes, one who was not invited stays outside, and the answer says which it was.
pub is_team_member-accept_team_invitation :
    (team user other_team other : Str) (tables : MemoryTables)
    → (is_team_member other_team other (accept_team_invitation team user tables).0 ≡ (
        (team == other_team && (user == other && has_invited user (members_of team tables)))
        || is_team_member other_team other tables))
      × ((accept_team_invitation team user tables).1 ≡ has_invited user (members_of team tables))
unfolding accept_team_invitation is_team_member members_of
is_team_member-accept_team_invitation team user other_team other tables =
    let members = or_else (get team tables.team_members) [] in
    (
      ground (
        arith,
        eq_iff team other_team,
        get-set team other_team (activate user members) tables.team_members,
        has_active-activate user other members,
      ),
      ground arith,
    )

has_active-snoc :
    (other : Str) (members : List Member) (m : TeamMember)
    → has_active other (members ++ with_status m invited ∷ []) ≡ has_active other members
unfolding has_active any with_status is_active
has_active-snoc other [] m = ground arith
has_active-snoc other (n ∷ members) m = ground (arith, has_active-snoc other members m)

-- An invitation makes nobody a member: every membership of every team is as before.
pub is_team_member-invite_team_member :
    (team other_team other : Str) (member : TeamMember) (tables : MemoryTables)
    → is_team_member other_team other (invite_team_member team member tables).0
      ≡ is_team_member other_team other tables
unfolding invite_team_member is_team_member members_of
is_team_member-invite_team_member team other_team other member tables =
    let members = or_else (get team tables.team_members) [] in
    ground (
      arith,
      eq_iff team other_team,
      get-set team other_team (members ++ with_status member invited ∷ []) tables.team_members,
      get-set team other_team members tables.team_members,
      has_active-snoc other members member,
    )

has_active-filter :
    (user other : Str) (members : List Member)
    → has_active other (filter (λ (m : Member). not (m.user_id == user)) members)
      ≡ (not (user == other) && has_active other members)
unfolding has_active any filter
has_active-filter user other [] = ground arith
has_active-filter user other (m ∷ members) = ground (
  arith,
  has_active-filter user other members,
  eq_iff m.user_id user,
  eq_iff m.user_id other,
  eq_iff user other,
)

-- A removed user is no member of the team any more; every other membership is as before.
pub is_team_member-remove_team_member :
    (team user other_team other : Str) (tables : MemoryTables)
    → is_team_member other_team other (remove_team_member team user tables).0
      ≡ (not (team == other_team && user == other) && is_team_member other_team other tables)
unfolding remove_team_member is_team_member members_of
is_team_member-remove_team_member team user other_team other tables =
    let members = or_else (get team tables.team_members) [] in
    ground (
      arith,
      eq_iff team other_team,
      eq_iff user other,
      get-set team other_team (filter (λ (m : Member). not (m.user_id == user)) members)
          tables.team_members,
      has_active-filter user other members,
    )
