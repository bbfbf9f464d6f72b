-- ===== src/ToolScopes/Tests.antt =====
-- Runs of the gate.
use memoar.Prelude.{◌≡◌, not, [], ◌∷◌}
use memoar.Prelude.Tests.{is_some}
use memoar.Prelude.Str.{codes}
use memoar.Prelude.JsMap.{get}
use memoar.ToolScopes.{assert_tool_scopes, mcp_tool_gates}
use memoar.ToolScopes.Granted.{assert_tool_scopes-may_run, may_run}

assert_tool_scopes-may_run_example :
    not (is_some (assert_tool_scopes (codes "mcp:use" ∷ []) (codes "save_note")))
    ≡ may_run (codes "mcp:use" ∷ []) (get (codes "save_note") mcp_tool_gates)
assert_tool_scopes-may_run_example =
    assert_tool_scopes-may_run (codes "mcp:use" ∷ []) (codes "save_note")
