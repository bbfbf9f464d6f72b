-- ===== src/RateLimits.antt =====
-- server/src/rate-limit.ts: the counting store that a single process uses, the guard in front of
-- every route, and the record of failed credential attempts. The store behind Redis is a call of
-- that service. Budgets are whole numbers here.
pub mod Counting
pub mod Tests
use memoar.Prelude.{
  ℕ, ◌+◌, ◌-◌, ◌*◌, Bool, true, false, not, ◌&&◌, ◌||◌, List, [], ◌∷◌, ◌++◌, Option, none, some,
}
use memoar.Prelude.Tests.{if◌then◌else◌, leb, ltb, nat_eq, or_else}
use memoar.Prelude.Lists.{drop, length}
use memoar.Prelude.Str.{Str, codes, starts_with, truthy}
use memoar.Prelude.JsMap.{JsMap, delete_where, get, set}

pub record RateLimit : Type 0 where
  pub limit : ℕ
  pub window_seconds : ℕ

pub data BudgetName : Type 0 where
  ordinary credential : BudgetName

-- What the module calls: the trimmed and lowered text of an address, `Number` of a part of a
-- setting if it is a finite number above 0, and the string `sub` in the JSON of an encoded
-- payload, if it parses.
pub record Platform : Type 0 where
  pub environment : Str → Option Str
  pub number : Str → Option ℕ
  pub normalize : Str → Str
  pub subject : Str → Option Str

-- The parts of a text between the separators, the first of them and the rest.
pub split_on : ℕ → Str → Str × List Str
split_on c [] = ([], [])
split_on c (d ∷ s) =
    let rest = split_on c s in if nat_eq d c then ([], rest.0 ∷ rest.1) else (d ∷ rest.0, rest.1)

second_part : List Str → Option Str
second_part [] = none
second_part (s ∷ ss) = some s

number_of : Platform → Option Str → Option ℕ
number_of platform none = none
number_of platform (some s) = platform.number s

-- `raw.split("/", 2)`: what stands behind a second separator is dropped.
parse_budget : Platform → Str → RateLimit → RateLimit
unfolding split_on second_part number_of
parse_budget platform raw fallback =
    let parts = split_on b'/' raw in
    elim (platform.number parts.0) [
      | none ↦ fallback
      | some limit ↦ record {
        limit = limit;
        window_seconds = or_else (number_of platform (second_part parts.1)) fallback.window_seconds;
      }
    ]

budget_from_env : Platform → Str → RateLimit → RateLimit
unfolding parse_budget
budget_from_env platform name fallback = elim (platform.environment name) [
  | none ↦ fallback
  | some raw ↦ if truthy raw then parse_budget platform raw fallback else fallback
]

pub budget_for : Platform → BudgetName → RateLimit
unfolding budget_from_env
budget_for platform credential =
    budget_from_env platform (codes "MEMOAR_CREDENTIAL_RATE_LIMIT")
      (record { limit = 10; window_seconds = 300 })
budget_for platform ordinary =
    budget_from_env platform (codes "MEMOAR_RATE_LIMIT")
      (record { limit = 300; window_seconds = 60 })

-- Times are in milliseconds.
pub record Window : Type 0 where
  pub count : ℕ
  pub expires_at : ℕ

pub is_expired : ℕ → Window → Bool
is_expired now window = leb window.expires_at now

-- The first hit of a window opens it, and expired windows go when there are many.
pub open_window : Str → ℕ → ℕ → JsMap Window → JsMap Window
unfolding is_expired
open_window key window_seconds now windows =
    let opened = set key (record { count = 1; expires_at = now + window_seconds * 1000 }) windows in
    if ltb 10000 (length opened)
    then delete_where (λ candidate window. is_expired now window) opened
    else opened

pub hit : Str → ℕ → ℕ → JsMap Window → JsMap Window × ℕ
unfolding open_window
hit key window_seconds now windows = elim (get key windows) [
  | none ↦ (open_window key window_seconds now windows, 1)
  | some existing ↦
      if is_expired now existing
      then (open_window key window_seconds now windows, 1)
      else (set key (record existing { count = existing.count + 1 }) windows, existing.count + 1)
]

pub peek : Str → ℕ → JsMap Window → ℕ
unfolding is_expired
peek key now windows = elim (get key windows) [
  | none ↦ 0
  | some window ↦ if is_expired now window then 0 else window.count
]

-- `route` is `request.route?.path`; the other options are absent or no strings when none.
pub record Request : Type 0 where
  pub method : Str
  pub route : Option Str
  pub path : Str
  pub ip : Option Str
  pub tenant_id : Option Str
  pub email : Option Str
  pub machine_id : Option Str
  pub authorization : Option Str

payload_of : List Str → Option Str
payload_of [] = none
payload_of (payload ∷ rest) = if truthy payload then some payload else none

pub bearer_subject : Platform → Request → Option Str
unfolding payload_of split_on
bearer_subject platform request = elim request.authorization [
  | none ↦ none
  | some header ↦
      if not (starts_with header (codes "Bearer "))
      then none
      else elim (payload_of (split_on b'.' (drop 7 header)).1) [
        | none ↦ none
        | some payload ↦ platform.subject payload
      ]
]

-- A value that is no empty string, behind its label.
labelled : Str → Option Str → Option Str
labelled label none = none
labelled label (some s) = if truthy s then some (label ++ s) else none

normalized : Platform → Option Str → Option Str
normalized platform none = none
normalized platform (some s) = some (platform.normalize s)

pub credential_subject : Platform → Request → Str
unfolding labelled bearer_subject normalized
credential_subject platform request =
    or_else (labelled (codes "email:") (normalized platform request.email)) (
      or_else (labelled (codes "machine:") request.machine_id) (
        or_else (labelled (codes "account:") (bearer_subject platform request))
          (codes "anonymous")))

pub caller_key : Request → Str
unfolding labelled
caller_key request =
    or_else (labelled (codes "tenant:") request.tenant_id)
      (codes "ip:" ++ or_else request.ip (codes "unknown"))

pattern_of : Request → Str
pattern_of request = or_else request.route request.path

pub credential_failure_key : Platform → Request → Str
unfolding credential_subject pattern_of
credential_failure_key platform request =
    codes "memoar:rate-limit:failed:"
    ++ (pattern_of request ++ (b':' ∷ credential_subject platform request))

-- `${RATE_LIMIT_KEY}:${route}:${callerKey(request)}`
pub flood_key : Request → Str
unfolding pattern_of caller_key
flood_key request =
    codes "memoar:rate-limit:"
    ++ (request.method ++ (b':' ∷ (pattern_of request ++ (b':' ∷ caller_key request))))

-- The answer of the guard with its headers; a refusal names the window of `Retry-After`.
pub record Verdict : Type 0 where
  pub retry_after : Option ℕ
  pub limit : ℕ
  pub remaining : ℕ

-- A budget by its name, for a request over HTTP.
pub can_activate : Platform → BudgetName → Request → ℕ → JsMap Window → JsMap Window × Verdict
unfolding flood_key credential_failure_key hit peek
can_activate platform name request now windows =
    let flood = budget_for platform ordinary in
    let (after, count) = hit (flood_key request) flood.window_seconds now windows in
    let passed : Verdict = record {
      retry_after = none;
      limit = flood.limit;
      remaining = flood.limit - count;
    } in
    if ltb flood.limit count
    then (after, record passed { retry_after = some flood.window_seconds })
    else elim name [
      | ordinary ↦ (after, passed)
      | credential ↦
          let budget = budget_for platform credential in
          if leb budget.limit (peek (credential_failure_key platform request) now after)
          then (
            after,
            record {
              retry_after = some budget.window_seconds;
              limit = budget.limit;
              remaining = 0;
            },
          )
          else (after, passed)
    ]

-- The interceptor, on the status of the error that a handler threw over HTTP.
pub record_failure : Platform → BudgetName → Request → ℕ → ℕ → JsMap Window → JsMap Window
unfolding credential_failure_key hit
record_failure platform ordinary request status now windows = windows
record_failure platform credential request status now windows =
    if nat_eq status 401 || nat_eq status 403
    then (hit (credential_failure_key platform request)
        (budget_for platform credential).window_seconds now windows).0
    else windows
