-- ===== src/Search/Semantic/Tests.antt =====
-- A semantic search over a team, with a database that holds one row.
use memoar.Prelude.{true, Bool, ◌&&◌, List, [], ◌∷◌, none, some, ℕ}
use memoar.Prelude.Tests.{if◌then◌else◌}
use memoar.Prelude.Str.{Str, codes, ◌==◌}
use memoar.Prelude.JsMap.{get}
use memoar.Canonical.{ArchivedSession}
use memoar.Examples.{tables}
use memoar.Search.{resolved, SearchResult, semantic}
use memoar.Search.Semantic.{Condition, VectorDatabase, tool_is, visible_to_team}
use memoar.Search.Tests.{found}
use memoar.Store.Tables.{key}
use memoar.Store.TeamVisibility.{is_team_visible}

satisfies : ArchivedSession → Condition → Bool
satisfies s (tool_is tool) = s.source.tool == tool
satisfies s (visible_to_team team_id) = is_team_visible s.visibility team_id
satisfies s _ = true

satisfies_all : ArchivedSession → List Condition → Bool
unfolding satisfies
satisfies_all s [] = true
satisfies_all s (c ∷ conditions) = satisfies s c && satisfies_all s conditions

rows_for : Str → List Condition → List (Str × ℕ)
unfolding satisfies_all
rows_for tenant conditions = elim (get (key tenant (codes "s")) tables.sessions) [
  | none ↦ []
  | some s ↦ if satisfies_all s conditions then (codes "s", 5) ∷ [] else []
]

abbrev database : VectorDatabase ℕ
database = record {
  embed = λ text. resolved (1 ∷ []);
  dimensions = 1;
  select = λ tenant conditions vector limit. resolved (rows_for tenant conditions);
}

abbrev meant : SearchResult ℕ
meant = record {
  candidates = record found { score = 939 } ∷ [];
  requested_mode = semantic;
  realized_mode = semantic;
  semantic_failure = none;
}
