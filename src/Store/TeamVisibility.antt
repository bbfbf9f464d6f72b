-- ===== src/Store/TeamVisibility.antt =====
-- server/src/store/team-visibility.ts: the predicate that keeps private sessions private.
use memoar.Prelude.{Bool, ◌&&◌, some}
use memoar.Prelude.Str.{Str, opt_eq}
use memoar.Canonical.{Visibility, is_team}

-- `visibility.scope === "team" && visibility.teamId === teamId`
unfoldable pub is_team_visible : Visibility → Str → Bool
is_team_visible visibility team_id =
    is_team visibility.scope && opt_eq visibility.team_id (some team_id)
