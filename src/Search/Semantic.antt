-- ===== src/Search/Semantic.antt =====
-- server/src/search/embeddings.ts: the semantic leg of a search over a PostgreSQL database with
-- vectors. The database and the embedding service are arguments.
pub mod Filtered
pub mod Tests
use memoar.Prelude.{
  ℕ, ◌+◌, ◌≡◌, inl, inr, refl, Bool, true, false, not, List, [], ◌∷◌, ◌++◌, map, Option, none, some,
  Ordering,
}
use memoar.Prelude.Tests.{if◌then◌else◌, Bool-cases, nat_eq, Option-cases}
use memoar.Prelude.Lists.{All, All-mono, All-sort_by, length, sort_by}
use memoar.Prelude.Str.{Str, codes, truthy}
use memoar.Prelude.JsMap.{All-set, get, get-All, JsMap, set}
use memoar.Canonical.{ArchivedSession, TenantContext}
use memoar.Host.{Host, then_by}
use memoar.Search.{
  Leg, message, Mode, rejected, resolved, Scores, SearchCandidate, SearchFilters, SearchResult,
  Settled, team_execute,
}
use memoar.Search.Lexical.{disabled_leg, excerpt_around, lexical_leg, session_text, Texts, words}
use memoar.Search.Visible.{
  disabled_leg-RespectsTeam, Found-team_execute, IfResolved, RespectsTeam, Shows, TeamVisible,
}
use memoar.Store.Sessions.{get_sessions}
use memoar.Store.Tables.{key, MemoryTables}
use memoar.Store.TeamVisibility.{is_team_visible}

-- The conditions of the query besides the tenant's own and that of an embedding: the last is
-- `teamVisibilitySql`, `isTeamVisible` as the database reads it.
pub data Condition : Type 0 where
  tool_is workspace_like : Str → Condition
  captured_from captured_to : ℕ → Condition
  visible_to_team : Str → Condition

pub when_truthy : Option Str → (Str → Condition) → List Condition
when_truthy none condition = []
when_truthy (some s) condition = if truthy s then condition s ∷ [] else []

pub when_some : Option ℕ → (ℕ → Condition) → List Condition
when_some none condition = []
when_some (some n) condition = condition n ∷ []

pub conditions_of : SearchFilters → List Condition
unfolding when_truthy when_some
conditions_of filters =
    when_truthy filters.agent tool_is
    ++ (when_truthy filters.workspace workspace_like
        ++ (when_some filters.since captured_from
            ++ (when_some filters.until captured_to
                ++ when_truthy filters.team_id visible_to_team)))

-- `embed`, the length that it promises, and the rows of the query, each an identifier and a score.
pub record VectorDatabase (S : Type 0) : Type 0 where
  pub embed : Str → Settled (List S)
  pub dimensions : ℕ
  pub select : Str → List Condition → List S → ℕ → Settled (List (Str × S))

pub by_id : List ArchivedSession → JsMap ArchivedSession → JsMap ArchivedSession
by_id [] found = found
by_id (session ∷ rest) found = by_id rest (set session.id session found)

pub row_ids : {S : Type 0} → List (Str × S) → List Str
row_ids = map (λ row. row.0)

module _ {S : Type 0} (scores : Scores S) (host : Host) (texts : Texts) where
  pub by_distance : Str × S → Str × S → Ordering
  by_distance left right =
      then_by (scores.compare right.1 left.1) (host.locale_compare left.0 right.0)

  pub candidates_of : List Str → JsMap ArchivedSession → List (Str × S) → List (SearchCandidate S)
  candidates_of terms sessions [] = []
  candidates_of terms sessions ((id, score) ∷ rows) =
      let rest = candidates_of terms sessions rows in
      elim (get id sessions) [
        | none ↦ rest
        | some session ↦
            record {
              session = session;
              score = score;
              highlight = excerpt_around host texts (session_text session) terms 240;
            }
            ∷ rest
      ]

  -- `PostgresVectorSearchProvider.search`
  unfoldable pub vector_leg : VectorDatabase S → MemoryTables → Leg S
  unfolding conditions_of candidates_of by_id by_distance row_ids
  vector_leg database tables context query filters limit = elim (database.embed query) [
    | rejected reason ↦ rejected reason
    | resolved vector ↦
        if not (nat_eq (length vector) database.dimensions)
        then rejected (message (codes "embedding_dimension_mismatch"))
        else elim (database.select context.tenant_id (conditions_of filters) vector limit) [
          | rejected reason ↦ rejected reason
          | resolved found ↦
              let rows = sort_by by_distance found in
              resolved (
                candidates_of (words texts query)
                  (by_id (get_sessions context (row_ids rows) tables) []) rows)
        ]
  ]

  -- The two semantic providers.
  pub data Provider : Type 0 where
    disabled : Provider
    vectors : VectorDatabase S → Provider

  unfoldable pub semantic_leg : Provider → MemoryTables → Leg S
  unfolding vector_leg
  semantic_leg disabled tables = disabled_leg scores host texts
  semantic_leg (vectors database) tables = vector_leg database tables
