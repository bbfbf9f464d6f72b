-- ===== src/ToolScopes/Granted.antt =====
-- What a caller must hold to run a tool.
use memoar.Prelude.{
  ◌≡◌, refl, ap, sym, ◌∙◌, arith, ◌⊎◌, inl, inr, Bool, true, false, not, ◌&&◌, ◌||◌, List, [], ◌∷◌,
  ◌++◌, Option, none, some,
}
use memoar.Prelude.Tests.{if◌then◌else◌, Option-cases, is_some}
use memoar.Prelude.Lists.{All, filter, sort_by}
use memoar.Prelude.Str.{Str, codes, ◌==◌, contains, str_lt}
use memoar.Prelude.JsMap.{get, get-All}
use memoar.ToolScopes.{
  assert_tool_scopes, mcp_scope_vocabulary, mcp_token_scopes, mcp_tool_gates, McpToolGate, read,
  refuse_missing, with_implied, write, implied_by_mcp_use,
}

-- Who may run a tool that reads, and one that writes.
abbrev pub may_read : List Str → Bool
may_read held = contains held (codes "*") || contains held (codes "mcp:use")

abbrev pub may_write : List Str → Bool
may_write held =
    contains held (codes "*")
    || (contains held (codes "mcp:use") && contains held (codes "archive:write"))

abbrev pub may_run : List Str → Option McpToolGate → Bool
may_run held none = false
may_run held (some gate) =
    if contains gate.scopes (codes "archive:write") then may_write held else may_read held

abbrev IsPriced : McpToolGate → Type 0
IsPriced g = (g.scopes ≡ read) ⊎ (g.scopes ≡ write)

gates-IsPriced : All (λ (e : Str × McpToolGate). IsPriced e.1) mcp_tool_gates
unfolding mcp_tool_gates
gates-IsPriced = (
  inl refl,
  (
    inl refl,
    (
      inl refl,
      (
        inl refl,
        (
          inl refl,
          (
            inl refl,
            (
              inl refl,
              (
                inl refl,
                (
                  inr refl,
                  (
                    inr refl,
                    (
                      inl refl,
                      (
                        inr refl,
                        (
                          inl refl,
                          (
                            inr refl,
                            (
                              inr refl,
                              (inl refl, (inl refl, (inl refl, (inl refl, (inl refl, tt))))),
                            ),
                          ),
                        ),
                      ),
                    ),
                  ),
                ),
              ),
            ),
          ),
        ),
      ),
    ),
  ),
)

vocabulary :
    mcp_scope_vocabulary ≡ codes "mcp:use" ∷ codes "archive:read" ∷ codes "archive:write" ∷ []
unfolding mcp_scope_vocabulary sort_by filter ◌==◌ str_lt
vocabulary = refl

is_granted : List Str → List Str → Bool
unfolding refuse_missing with_implied
is_granted held wanted =
    contains held (codes "*")
    || not (
        is_some
          (refuse_missing (filter (λ (s : Str). not (contains (with_implied held) s)) wanted)))

contains-append : (a b : List Str) (s : Str) → contains (a ++ b) s ≡ (contains a s || contains b s)
unfolding contains
contains-append [] b s = refl
contains-append (x ∷ a) b s = ground (arith, contains-append a b s)

implied :
    (held : List Str) (s : Str)
    → contains (with_implied held) s
      ≡ (contains held s || (contains held (codes "mcp:use") && codes "archive:read" == s))
unfolding with_implied implied_by_mcp_use contains
implied held s = ground (arith, contains-append held (codes "archive:read" ∷ []) s)

is_granted-read : (held : List Str) → is_granted held read ≡ may_read held
unfolding is_granted filter refuse_missing ◌==◌
is_granted-read held =
    ground (arith, implied held (codes "mcp:use"), implied held (codes "archive:read"))

is_granted-write : (held : List Str) → is_granted held write ≡ may_write held
unfolding is_granted filter refuse_missing ◌==◌
is_granted-write held =
    ground (arith, implied held (codes "mcp:use"), implied held (codes "archive:write"))

granted_by_price : List Str → List Str → Bool
granted_by_price held scopes =
    if contains scopes (codes "archive:write") then may_write held else may_read held

granted-IsPriced :
    (held : List Str) (g : McpToolGate)
    → IsPriced g
    → is_granted held g.scopes ≡ granted_by_price held g.scopes
unfolding granted_by_price contains ◌==◌
granted-IsPriced held g (inl e) = rw (e, is_granted-read held) refl
granted-IsPriced held g (inr e) = rw (e, is_granted-write held) refl

assert-is_granted :
    (held : List Str) (name : Str) (g : McpToolGate)
    → get name mcp_tool_gates ≡ some g
    → not (is_some (assert_tool_scopes held name)) ≡ is_granted held g.scopes
unfolding assert_tool_scopes is_granted
assert-is_granted held name g e = rw (assert_tool_scopes, e) (ground arith)

not-injective : (a b : Bool) → not a ≡ not b → a ≡ b
not-injective a b e = ground (arith, e)

ungated :
    (held : List Str) (name : Str)
    → get name mcp_tool_gates ≡ none
    → not (is_some (assert_tool_scopes held name)) ≡ false
unfolding assert_tool_scopes
ungated held name e = rw (assert_tool_scopes, e) refl

-- A call is let through exactly when its tool has a gate and the caller holds the wildcard, or
-- `mcp:use` for a tool that reads, or `mcp:use` and `archive:write` for a tool that writes. A tool
-- without a gate is refused to everybody.
pub assert_tool_scopes-may_run :
    (held : List Str) (name : Str)
    → not (is_some (assert_tool_scopes held name)) ≡ may_run held (get name mcp_tool_gates)
unfolding granted_by_price
assert_tool_scopes-may_run held name = elim (Option-cases (get name mcp_tool_gates)) [
  | inl e ↦ ungated held name e ∙ ap (may_run held) (sym e)
  | inr (g, e) ↦
      let priced =
        get-All (λ (f : Str × McpToolGate). IsPriced f.1) name mcp_tool_gates gates-IsPriced e in
      assert-is_granted held name g e ∙ (granted-IsPriced held g priced ∙ ap (may_run held) (sym e))
]

abbrev scopes_of_token : List Str → List Str
scopes_of_token held =
    if contains held (codes "*")
    then codes "mcp:use" ∷ codes "archive:read" ∷ codes "archive:write" ∷ []
    else filter (contains held)
        (codes "mcp:use" ∷ codes "archive:read" ∷ codes "archive:write" ∷ [])

token-scopes : (held : List Str) → mcp_token_scopes held ≡ scopes_of_token held
unfolding mcp_token_scopes
token-scopes held =
    ap (λ (v : List Str). if contains held (codes "*") then v else filter (contains held) v)
      vocabulary

-- The scopes of a token, by the answers about what is held.
abbrev picked : Bool → Bool → Bool → Bool → List Str
picked all uses reads writes =
    if all
    then codes "mcp:use" ∷ codes "archive:read" ∷ codes "archive:write" ∷ []
    else (if uses then codes "mcp:use" ∷ [] else [])
      ++ ((if reads then codes "archive:read" ∷ [] else [])
          ++ (if writes then codes "archive:write" ∷ [] else []))

picked-may :
    (all uses reads writes : Bool)
    → (may_read (picked all uses reads writes) ≡ (all || uses))
      × (may_write (picked all uses reads writes) ≡ (all || (uses && writes)))
unfolding contains ◌==◌
picked-may true uses reads writes = (refl, refl)
picked-may false true true true = (refl, refl)
picked-may false true true false = (refl, refl)
picked-may false true false true = (refl, refl)
picked-may false true false false = (refl, refl)
picked-may false false true true = (refl, refl)
picked-may false false true false = (refl, refl)
picked-may false false false true = (refl, refl)
picked-may false false false false = (refl, refl)

scopes-picked :
    (held : List Str)
    → scopes_of_token held
      ≡ picked
          (contains held (codes "*"))
          (contains held (codes "mcp:use"))
          (contains held (codes "archive:read"))
          (contains held (codes "archive:write"))
unfolding filter
scopes-picked held = ground arith

token-may_run :
    (held : List Str) (o : Option McpToolGate) → may_run (mcp_token_scopes held) o ≡ may_run held o
token-may_run held none = refl
token-may_run held (some g) =
    let same = token-scopes held ∙ scopes-picked held in
    let (reads, writes) =
      picked-may (contains held (codes "*")) (contains held (codes "mcp:use"))
        (contains held (codes "archive:read")) (contains held (codes "archive:write")) in
    let may_w : may_write (mcp_token_scopes held) ≡ may_write held = ap may_write same ∙ writes in
    let may_r : may_read (mcp_token_scopes held) ≡ may_read held = ap may_read same ∙ reads in
    λ i. if contains g.scopes (codes "archive:write") then may_w i else may_r i

-- The token that a credential is exchanged for may run exactly the tools that the credential may
-- run itself, the wildcard included.
pub assert_tool_scopes-mcp_token_scopes :
    (held : List Str) (name : Str)
    → is_some (assert_tool_scopes (mcp_token_scopes held) name)
      ≡ is_some (assert_tool_scopes held name)
assert_tool_scopes-mcp_token_scopes held name =
    let token = assert_tool_scopes-may_run (mcp_token_scopes held) name in
    let own = assert_tool_scopes-may_run held name in
    not-injective _ _ (token ∙ (token-may_run held (get name mcp_tool_gates) ∙ sym own))
