-- ===== src/Auth/Parity.antt =====
-- The table of the MCP tools against the prices of the routes.
use memoar.Prelude.{◌≡◌, refl, ◌∷◌, some}
use memoar.Prelude.Lists.{All}
use memoar.Prelude.Str.{Str, codes, includes, ◌==◌}
use memoar.Prelude.JsMap.{get, get-All}
use memoar.Auth.{path_scopes}
use memoar.ToolScopes.{mcp_tool_gates, McpToolGate}

abbrev IsPriced : Str × McpToolGate → Type 0
IsPriced e = e.1.scopes ≡ codes "mcp:use" ∷ path_scopes e.1.path e.1.method

priced : All IsPriced mcp_tool_gates
unfolding mcp_tool_gates path_scopes includes ◌==◌
priced = (
  refl,
  (
    refl,
    (
      refl,
      (
        refl,
        (
          refl,
          (
            refl,
            (
              refl,
              (
                refl,
                (
                  refl,
                  (
                    refl,
                    (
                      refl,
                      (refl, (refl, (refl, (refl, (refl, (refl, (refl, (refl, (refl, tt))))))))),
                    ),
                  ),
                ),
              ),
            ),
          ),
        ),
      ),
    ),
  ),
)

-- Every tool costs what the route costs that it stands for, and `mcp:use` besides: no tool is a
-- cheaper way to do what a route does.
mcp_tool_gates-priced :
    (name : Str) (gate : McpToolGate)
    → get name mcp_tool_gates ≡ some gate
    → gate.scopes ≡ codes "mcp:use" ∷ path_scopes gate.path gate.method
mcp_tool_gates-priced name gate h = get-All IsPriced name mcp_tool_gates priced h
