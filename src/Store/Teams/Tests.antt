-- ===== src/Store/Teams/Tests.antt =====
-- Runs of the teams and their members.
use memoar.Canonical.{is_team}
use memoar.Prelude.{◌≡◌, refl, true, some}
use memoar.Prelude.Lists.{filter}
use memoar.Prelude.Str.{Str, codes, ◌==◌}
use memoar.Prelude.JsMap.{get}
use memoar.Store.Records.{TeamMember}
use memoar.Store.Tables.{key}
use memoar.Store.TeamVisibility.{is_team_visible}
use memoar.Store.Teams.{get_team_session}
use memoar.Store.Teams.Reading.{get_team_session-visible, HasTenant}
use memoar.Examples.{session, tables}

abbrev bob_account : TeamMember
bob_account = record { user_id = codes "bob"; tenant_id = codes "b"; email = codes "bob@x" }

seen_session : get_team_session (codes "t") (codes "s") tables ≡ some session
unfolding get_team_session filter get ◌==◌ key is_team_visible is_team
seen_session = refl

get_team_session-visible_example :
    (t : Str) × HasTenant (codes "t") t tables
    × (get (key t (codes "s")) tables.sessions ≡ some session)
    × (is_team_visible session.visibility (codes "t") ≡ true)
get_team_session-visible_example =
    get_team_session-visible (codes "t") (codes "s") tables session seen_session
