-- ===== src/Auth.antt =====
-- server/src/auth/scopes.ts and auth/auth.guard.ts: the scopes that may be granted, the scopes that
-- a route asks for, and the guard before every route.
pub mod Admitting
pub mod Granting
pub mod Identifying
pub mod Parity
pub mod Sessions
pub mod Tests
pub mod Tokens
use memoar.Prelude.{ℕ, Bool, true, false, not, ◌&&◌, ◌||◌, List, [], ◌∷◌, ◌++◌, Option, none, some}
use memoar.Prelude.Tests.{if◌then◌else◌, is_some, nat_eq, or_else}
use memoar.Prelude.Lists.{any, drop, filter, length}
use memoar.Prelude.Str.{Str, codes, ◌==◌, contains, includes, opt_eq, starts_with, truthy, truthy?}
use memoar.Canonical.{AuthType, dev, machine, mcp, TenantContext}

pub known_scopes : List Str
known_scopes =
    codes "archive:read"
    ∷ codes "archive:write"
    ∷ codes "sharing:write"
    ∷ codes "keys:write"
    ∷ codes "machines:write"
    ∷ codes "ingest:write"
    ∷ codes "machine:heartbeat"
    ∷ codes "materialize:read"
    ∷ codes "mcp:use"
    ∷ []

-- The `code` of the problem, with the scopes that its detail names.
pub data GrantRefusal : Type 0 where
  unknown_scope : List Str → GrantRefusal
  scope_escalation : List Str → GrantRefusal

-- The refusal that the call throws, if any.
pub assert_grantable_scopes : List Str → List Str → Option GrantRefusal
unfolding known_scopes
assert_grantable_scopes requested held =
    let beyond = filter (λ (scope : Str). not (contains held scope)) requested in
    elim (filter (λ (scope : Str). not (contains known_scopes scope)) requested) [
      | scope ∷ scopes ↦ some (unknown_scope (scope ∷ scopes))
      | [] ↦
          if contains held (codes "*")
          then none
          else elim beyond [ [] ↦ none | scope ∷ scopes ↦ some (scope_escalation (scope ∷ scopes)) ]
    ]

-- The parts of a request that the guard reads; of a header that is sent more than once, the first.
pub record RequestLike : Type 0 where
  pub api_key : Option Str
  pub authorization : Option Str
  pub tenant_header : Option Str
  pub user_header : Option Str
  pub method : Option Str
  pub url : Option Str
  pub route_path : Option Str
  pub body_machine_id : Option Str

-- `text.split("?")[0]`
pub before_query : Str → Str
before_query [] = []
before_query (c ∷ text) = let rest = before_query text in if nat_eq c b'?' then [] else c ∷ rest

ends_with : Str → Str → Bool
ends_with [] suffix = [] == suffix
ends_with (c ∷ text) suffix = (c ∷ text) == suffix || ends_with text suffix

first_some : Option Str → Option Str → Option Str
first_some (some s) _ = some s
first_some none other = other

-- The price of a path, by the method in capital letters.
pub path_scopes : Str → Str → List Str
unfolding ends_with
path_scopes path method =
    let reading = method == codes "GET" in
    if includes path (codes "/mcp")
    then codes "mcp:use" ∷ []
    else if includes path (codes "/ingest")
    then codes "ingest:write" ∷ []
    else if includes path (codes "/auth/api-keys")
    then codes "keys:write" ∷ []
    else if includes path (codes "/auth/machine-token")
    then codes "machines:write" ∷ []
    else if includes path (codes "/machines")
    then (if reading then codes "archive:read" ∷ [] else codes "machines:write" ∷ [])
    else if ends_with path (codes "/pack") || includes path (codes "/distillation/projects/export")
    then codes "archive:read" ∷ []
    else if includes path (codes "/teams")
    then (if reading then codes "archive:read" ∷ [] else codes "sharing:write" ∷ [])
    else if includes path (codes "/sharing")
    then (if reading then codes "archive:read" ∷ [] else codes "sharing:write" ∷ [])
    else if reading
    then codes "archive:read" ∷ []
    else codes "archive:write" ∷ []

-- What the guard has from its service and its environment, and `text.toUpperCase()`.
pub record Guard : Type 0 where
  pub to_upper : Str → Str
  pub authenticate_api_key : Str → Option TenantContext
  pub authenticate_bearer : Str → Option TenantContext
  pub development : Bool

pub inferred_scopes : Guard → RequestLike → List Str
unfolding path_scopes before_query first_some
inferred_scopes guard request =
    path_scopes (before_query (or_else (first_some request.url request.route_path) []))
      (elim request.method [ none ↦ codes "GET" | some method ↦ guard.to_upper method ])

pub developer : Str → Str → TenantContext
developer tenant_id user_id = record {
  tenant_id = tenant_id;
  user_id = user_id;
  org_id = none;
  team_id = none;
  machine_id = none;
  scopes = codes "*" ∷ [];
  auth_type = dev;
  credential_id = none;
}

abbrev pub otherwise : Option TenantContext → Option TenantContext → Option TenantContext
otherwise (some context) _ = some context
otherwise none next = next

-- The four ways to be somebody, in their order.
pub by_api_key : Guard → RequestLike → Option TenantContext
by_api_key guard request = elim request.api_key [
  | none ↦ none
  | some api_key ↦ if truthy api_key then guard.authenticate_api_key api_key else none
]

pub by_development_token : Guard → RequestLike → Option TenantContext
unfolding developer
by_development_token guard request =
    if guard.development
      && opt_eq request.authorization (some (codes "Bearer memoar-development-token"))
    then some (
        developer (codes "0191cafe-0000-7000-8000-000000000002")
          (codes "0191cafe-0000-7000-8000-000000000002"))
    else none

pub by_bearer : Guard → RequestLike → Option TenantContext
by_bearer guard request = elim request.authorization [
  | none ↦ none
  | some authorization ↦
      if starts_with authorization (codes "Bearer ")
      then guard.authenticate_bearer (drop 7 authorization)
      else none
]

pub by_development_headers : Guard → RequestLike → Option TenantContext
unfolding developer
by_development_headers guard request =
    if guard.development && (truthy? request.tenant_header && truthy? request.user_header)
    then some (developer (or_else request.tenant_header []) (or_else request.user_header []))
    else none

pub identified : Guard → RequestLike → Option TenantContext
unfolding by_api_key by_development_token by_bearer by_development_headers
identified guard request = otherwise (by_api_key guard request) (
    otherwise (by_development_token guard request)
      (otherwise (by_bearer guard request) (by_development_headers guard request)))

pub is_mcp : AuthType → Bool
is_mcp mcp = true
is_mcp _ = false

pub is_machine : AuthType → Bool
is_machine machine = true
is_machine _ = false

-- `tenantContext.machineId && path.includes(…)`
pub own_command_path : TenantContext → Str → Bool
own_command_path context path = elim context.machine_id [
  | none ↦ false
  | some id ↦ truthy id && includes path (codes "/machines/" ++ (id ++ codes "/commands"))
]

pub capture_path : Str → Bool
capture_path path = includes path (codes "/ingest") || includes path (codes "/memory")

-- A body that names a machine names the credential's.
pub names_own_machine : TenantContext → RequestLike → Bool
names_own_machine context request = elim request.body_machine_id [
  | none ↦ true
  | some id ↦ opt_eq context.machine_id (some id)
]

pub data Denial : Type 0 where
  unauthenticated mcp_restricted machine_restricted machine_mismatch : Denial
  missing_scope : List Str → Denial

pub data Admission : Type 0 where
  open_to_all : Admission
  admitted : TenantContext → Admission
  denied : Denial → Admission

-- Whether a context holds what a route asks for.
pub holds_all : TenantContext → List Str → Bool
holds_all context required =
    contains context.scopes (codes "*")
    || not (any (λ (scope : Str). not (contains context.scopes scope)) required)

abbrev pub path_of : RequestLike → Str
path_of request = before_query (or_else request.url [])

-- The restrictions that go with the kind of credential.
pub restricted : TenantContext → RequestLike → Admission
unfolding is_mcp is_machine own_command_path capture_path names_own_machine
restricted context request =
    if is_mcp context.auth_type && not (includes (path_of request) (codes "/mcp"))
    then denied mcp_restricted
    else if is_machine context.auth_type
        && not (capture_path (path_of request) || own_command_path context (path_of request))
    then denied machine_restricted
    else if is_machine context.auth_type && not (names_own_machine context request)
    then denied machine_mismatch
    else admitted context

-- `is_public` and `required` are the decorators of the route.
pub can_activate : Guard → Bool → Option (List Str) → RequestLike → Admission
unfolding inferred_scopes identified holds_all restricted
can_activate guard is_public required request =
    let scopes = or_else required (inferred_scopes guard request) in
    if is_public then open_to_all else elim (identified guard request) [
      | none ↦ denied unauthenticated
      | some context ↦
          if not (holds_all context scopes)
          then denied (missing_scope scopes)
          else restricted context request
    ]
