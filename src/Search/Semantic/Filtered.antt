-- ===== src/Search/Semantic/Filtered.antt =====
-- The semantic leg of a team's search, and the search over a team with either provider.
use memoar.Prelude.{ℕ, ◌≡◌, true, List, some}
use memoar.Prelude.Lists.{All}
use memoar.Prelude.Str.{Str, truthy}
use memoar.Prelude.JsMap.{get, JsMap}
use memoar.Canonical.{ArchivedSession, TenantContext}
use memoar.Host.{Host}
use memoar.Search.{Scores, SearchFilters}
use memoar.Search.Lexical.{Texts}
use memoar.Search.Visible.{IfResolved}
use memoar.Search.Semantic.{
  Condition, tool_is, workspace_like, captured_from, captured_to, visible_to_team, disabled,
  Provider, vectors, VectorDatabase,
}
use memoar.Store.Tables.{key, MemoryTables}
use memoar.Store.TeamVisibility.{is_team_visible}

-- What the conditions that name a tool or a team mean of a session; the others are not relied on.
abbrev pub Satisfies : ArchivedSession → Condition → Type 0
Satisfies s (tool_is tool) = s.source.tool ≡ tool
Satisfies s (workspace_like path) = Unit
Satisfies s (captured_from time) = Unit
Satisfies s (captured_to time) = Unit
Satisfies s (visible_to_team team_id) = is_team_visible s.visibility team_id ≡ true

-- A row is of a stored session of the tenant that satisfies the conditions.
abbrev pub IsRow : {S : Type 0} → MemoryTables → Str → List Condition → Str × S → Type 0
IsRow tables tenant conditions row =
    (s : ArchivedSession) × ((get (key tenant row.0) tables.sessions ≡ some s)
      × All (Satisfies s) conditions)

-- A database that answers what was asked of it: rows of the sessions that satisfy the conditions.
abbrev pub Selects : {S : Type 0} → MemoryTables → VectorDatabase S → Type 0
Selects {S} tables database =
    (tenant : Str) (conditions : List Condition) (vector : List S) (limit : ℕ)
    → IfResolved (All (IsRow tables tenant conditions))
        (database.select tenant conditions vector limit)

module _ {S : Type 0} (scores : Scores S) (host : Host) (texts : Texts) (tables : MemoryTables)
    (team_id : Str) (named : truthy team_id ≡ true) where
  abbrev Visible : ArchivedSession → Type 0
  Visible s = is_team_visible s.visibility team_id ≡ true

  -- A row of the team's sessions.
  abbrev IsTeamRow : TenantContext → Str → Type 0
  IsTeamRow context id =
      (s : ArchivedSession) × ((get (key context.tenant_id id) tables.sessions ≡ some s)
        × Visible s)

  abbrev filters_for : SearchFilters → SearchFilters
  filters_for filters = record filters { team_id = some team_id }

  -- What is assumed of a provider: nothing, or that its database answers what was asked.
  abbrev pub IsFaithful : Provider scores host texts → Type 0
  IsFaithful disabled = Unit
  IsFaithful (vectors database) = Selects tables database
