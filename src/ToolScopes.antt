-- ===== src/ToolScopes.antt =====
-- server/src/mcp/tool-scopes.ts: what each tool of the MCP endpoint costs, the scopes of an
-- exchanged token, and the refusal of a call. A lookup of a tool sees the entries of the table only.
pub mod Granted
pub mod Tests
use memoar.Prelude.{Bool, true, false, not, List, [], ◌∷◌, ◌++◌, map, Option, none, some, Ordering}
use memoar.Prelude.Tests.{if◌then◌else◌}
use memoar.Prelude.Lists.{filter, sort_by}
use memoar.Prelude.Str.{Str, codes, ◌==◌, contains, str_lt}
use memoar.Prelude.JsMap.{JsMap, get, values}

pub record McpToolGate : Type 0 where
  pub method : Str
  pub path : Str
  pub scopes : List Str

abbrev pub read : List Str
read = codes "mcp:use" ∷ codes "archive:read" ∷ []

abbrev pub write : List Str
write = codes "mcp:use" ∷ codes "archive:write" ∷ []

abbrev gate : Str → Str → List Str → McpToolGate
gate method path scopes = record { method = method; path = path; scopes = scopes }

unfoldable pub mcp_tool_gates : JsMap McpToolGate
mcp_tool_gates =
    (codes "search_sessions", gate (codes "GET") (codes "/v1/search") read)
    ∷ (codes "list_sessions", gate (codes "GET") (codes "/v1/sessions") read)
    ∷ (codes "get_excerpt", gate (codes "GET") (codes "/v1/sessions/:sessionId") read)
    ∷ (codes "get_session", gate (codes "GET") (codes "/v1/sessions/:sessionId") read)
    ∷ (codes "pack", gate (codes "POST") (codes "/v1/pack") read)
    ∷ (codes "get_memory", gate (codes "POST") (codes "/v1/pack") read)
    ∷ (codes "list_machines", gate (codes "GET") (codes "/v1/machines") read)
    ∷ (codes "list_annotations", gate (codes "GET") (codes "/v1/annotations") read)
    ∷ (codes "save_note", gate (codes "POST") (codes "/v1/annotations") write)
    ∷ (codes "add_annotation", gate (codes "POST") (codes "/v1/annotations") write)
    ∷ (codes "list_collections", gate (codes "GET") (codes "/v1/collections") read)
    ∷ (codes "create_collection", gate (codes "POST") (codes "/v1/collections") write)
    ∷ (
      codes "list_collection_sessions",
      gate (codes "GET") (codes "/v1/collections/:collectionId/sessions") read,
    )
    ∷ (
      codes "add_session_to_collection",
      gate (codes "PUT") (codes "/v1/collections/:collectionId/sessions/:sessionId") write,
    )
    ∷ (
      codes "remove_session_from_collection",
      gate (codes "DELETE") (codes "/v1/collections/:collectionId/sessions/:sessionId") write,
    )
    ∷ (codes "list_share_links", gate (codes "GET") (codes "/v1/sharing/links") read)
    ∷ (codes "list_transfers", gate (codes "GET") (codes "/v1/sharing/transfers") read)
    ∷ (
      codes "export_project_memory",
      gate (codes "POST") (codes "/v1/distillation/projects/export") read,
    )
    ∷ (codes "list_memory_documents", gate (codes "GET") (codes "/v1/memory") read)
    ∷ (codes "get_memory_document", gate (codes "GET") (codes "/v1/memory/:documentId") read)
    ∷ []

-- `new Set(list)`, in the order of its first occurrences
distinct_scopes : List Str → List Str
distinct_scopes [] = []
distinct_scopes (s ∷ ss) =
    let rest = filter (λ (t : Str). not (t == s)) (distinct_scopes ss) in s ∷ rest

all_scopes : List McpToolGate → List Str
all_scopes [] = []
all_scopes (g ∷ gs) = g.scopes ++ all_scopes gs

-- `sort()`
by_code_unit : Str → Str → Ordering
by_code_unit a b =
    if str_lt a b then Ordering.lt else if str_lt b a then Ordering.gt else Ordering.eq

pub mcp_scope_vocabulary : List Str
unfolding mcp_tool_gates distinct_scopes all_scopes by_code_unit
mcp_scope_vocabulary =
    codes "mcp:use"
    ∷ sort_by by_code_unit (
        filter (λ (s : Str). not (s == codes "mcp:use"))
          (distinct_scopes (all_scopes (values mcp_tool_gates))))

pub implied_by_mcp_use : List Str
implied_by_mcp_use = codes "archive:read" ∷ []

pub mcp_token_scopes : List Str → List Str
unfolding mcp_scope_vocabulary
mcp_token_scopes held =
    if contains held (codes "*")
    then mcp_scope_vocabulary
    else filter (λ (scope : Str). contains held scope) mcp_scope_vocabulary

-- The `code` of the problem, with what its detail names.
pub data Refusal : Type 0 where
  tool_not_gated : Refusal
  missing_scope : List Str → Refusal

pub with_implied : List Str → List Str
unfolding implied_by_mcp_use
with_implied scopes =
    if contains scopes (codes "mcp:use") then scopes ++ implied_by_mcp_use else scopes

refuse_missing : List Str → Option Refusal
refuse_missing [] = none
refuse_missing (s ∷ ss) = some (missing_scope (s ∷ ss))

-- The refusal that the call throws, if any.
pub assert_tool_scopes : List Str → Str → Option Refusal
unfolding mcp_tool_gates with_implied refuse_missing
assert_tool_scopes scopes name = elim (get name mcp_tool_gates) [
  | none ↦ some tool_not_gated
  | some gate ↦
      if contains scopes (codes "*")
      then none
      else refuse_missing
          (filter (λ (scope : Str). not (contains (with_implied scopes) scope)) gate.scopes)
]
