-- ===== src/Store/Sessions.antt =====
-- server/src/store/memory/sessions.ts: the table of sessions.
pub mod Isolation
pub mod Paging
pub mod Saved
pub mod Tests
use memoar.Prelude.{
  ℕ, ◌+◌, Bool, true, false, not, ◌&&◌, ◌||◌, List, [], ◌∷◌, ◌++◌, map, Option, none, some,
  Ordering,
}
use memoar.Prelude.Tests.{if◌then◌else◌, ltb}
use memoar.Prelude.Lists.{length, filter, sort_by, take, last?}
use memoar.Prelude.Str.{Str, ◌==◌, truthy, includes, contains, str_lt}
use memoar.Prelude.JsMap.{JsMap, get, has, set, delete, values}
use memoar.Host.{Host, then_by, at_or_after, at_or_before}
use memoar.Canonical.{ArchivedSession, SessionFilter, SessionPage, TenantContext, Turn, Visibility}
use memoar.Canonical.Clean.{without_nul_bytes}
use memoar.Store.Keys.{in_tenant}
use memoar.Store.Tables.{MemoryTables, key}
use memoar.Store.TurnIdentity.{scope_colliding_turns}

turn_ids : List Turn → List Str
turn_ids turns = map (λ (turn : Turn). turn.id) turns

-- The identifiers of the turns that the tenant's other sessions hold.
taken_elsewhere : Str → Str → JsMap ArchivedSession → List Str
unfolding turn_ids
taken_elsewhere tenant id [] = []
taken_elsewhere tenant id ((entry, other) ∷ m) =
    let rest = taken_elsewhere tenant id m in
    if not (in_tenant tenant entry) || other.id == id then rest else turn_ids other.turns ++ rest

-- What `saveSession` stores.
pub stored_form : Host → TenantContext → MemoryTables → ArchivedSession → ArchivedSession
unfolding taken_elsewhere
stored_form host context tables captured =
    let cleaned = without_nul_bytes captured in
    scope_colliding_turns host cleaned
      (taken_elsewhere context.tenant_id cleaned.id tables.sessions)

pub save_session : Host → TenantContext → ArchivedSession → MemoryTables → MemoryTables
unfolding stored_form
save_session host context captured tables =
    let cleaned = without_nul_bytes captured in
    record tables {
      sessions =
          set (key context.tenant_id cleaned.id) (stored_form host context tables captured)
            tables.sessions;
    }

pub record Identity : Type 0 where
  pub source_tool : Str
  pub source_version : Str
  pub native_session_id : Str

identity_key : TenantContext → Identity → Str
identity_key context identity =
    key context.tenant_id (identity.source_tool ++ (b':' ∷ identity.native_session_id))

-- An empty identifier counts as none.
pub resolve_session_identity : TenantContext → Identity → Str → MemoryTables → MemoryTables × Str
unfolding identity_key
resolve_session_identity context identity proposed tables =
    elim (get (identity_key context identity) tables.session_identities) [
      | none ↦ fresh
      | some existing ↦ if truthy existing then (tables, existing) else fresh
    ]
  where
    fresh : MemoryTables × Str
    fresh = (
      record tables {
        session_identities = set (identity_key context identity) proposed tables.session_identities;
      },
      proposed,
    )

pub save_session_embedding : TenantContext → Str → List Str → MemoryTables → MemoryTables
save_session_embedding context session_id vector tables = record tables {
  session_embeddings = set (key context.tenant_id session_id) vector tables.session_embeddings;
}

pub get_session_embedding : TenantContext → Str → MemoryTables → Option (List Str)
get_session_embedding context session_id tables =
    get (key context.tenant_id session_id) tables.session_embeddings

unfoldable pub update_session_visibility :
    TenantContext → Str → Visibility → MemoryTables → MemoryTables × Bool
update_session_visibility context session_id visibility tables =
    elim (get (key context.tenant_id session_id) tables.sessions) [
      | none ↦ (tables, false)
      | some session ↦ (
        record tables {
          sessions =
              set (key context.tenant_id session_id) (record session { visibility = visibility })
                tables.sessions;
        },
        true,
      )
    ]

-- `!option || test(option)`, for an option that is a string
abbrev unless : Option Str → (Str → Bool) → Bool
unless none test = true
unless (some s) test = not (truthy s) || test s

abbrev unless_time : Option ℕ → (ℕ → Bool) → Bool
unless_time none test = true
unless_time (some t) test = test t

-- The six filters of `listSessions`.
pub matches : Host → SessionFilter → ArchivedSession → Bool
matches host filters session =
    unless filters.agent (λ agent. session.source.tool == agent)
    && (unless filters.workspace (λ workspace. includes session.workspace.path workspace)
        && (unless filters.machine_id (λ machine_id. session.source.machine_id == machine_id)
            && (unless filters.model (λ model. contains session.models model)
                && (unless_time filters.since (λ t. at_or_after (host.time_of session.updated_at) t)
                    && unless_time filters.until
                        (λ t. at_or_before (host.time_of session.updated_at) t)))))

-- Newest first.
newest_first : Host → ArchivedSession → ArchivedSession → Ordering
newest_first host left right =
    then_by (host.locale_compare right.updated_at left.updated_at)
      (host.locale_compare right.id left.id)

-- `${session.updatedAt}|${session.id}`
pub position : ArchivedSession → Str
position session = session.updated_at ++ (b'|' ∷ session.id)

-- The sessions of the tenant, in the order of the table.
pub tenant_sessions : Str → JsMap ArchivedSession → List ArchivedSession
tenant_sessions tenant m = values (filter (λ (e : Str × ArchivedSession). in_tenant tenant e.0) m)

-- The items that the filters leave, sorted.
pub matching : Host → TenantContext → SessionFilter → MemoryTables → List ArchivedSession
unfolding tenant_sessions newest_first
matching host context filters tables =
    sort_by (newest_first host)
      (filter (matches host filters) (tenant_sessions context.tenant_id tables.sessions))

-- `filter.cursor ? decode(filter.cursor) : null`
decoded_cursor : Host → Option Str → Option Str
decoded_cursor host none = none
decoded_cursor host (some c) = if truthy c then some (host.from_base64url c) else none

past_cursor : Option Str → ArchivedSession → Bool
unfolding position
past_cursor none session = true
past_cursor (some cursor) session = not (truthy cursor) || str_lt (position session) cursor

-- The items behind the cursor, of which a page is the first part.
pub after_cursor : Host → TenantContext → SessionFilter → MemoryTables → List ArchivedSession
unfolding matching decoded_cursor past_cursor
after_cursor host context filters tables =
    filter (past_cursor (decoded_cursor host filters.cursor)) (matching host context filters tables)

next_page : Host → Bool → Option ArchivedSession → Option Str
unfolding position
next_page host true (some last) = some (host.to_base64url (position last))
next_page host _ _ = none

unfoldable pub list_sessions : Host → TenantContext → SessionFilter → MemoryTables → SessionPage
unfolding after_cursor matching next_page
list_sessions host context filters tables =
    let rest = after_cursor host context filters tables in
    let page = take filters.limit rest in
    record {
      items = page;
      total = length (matching host context filters tables);
      next_cursor = next_page host (ltb (length page) (length rest)) (last? page);
    }

unfoldable pub get_session : TenantContext → Str → MemoryTables → Option ArchivedSession
get_session context session_id tables = get (key context.tenant_id session_id) tables.sessions

pub record MachineSourceCount : Type 0 where
  pub machine_id : Str
  pub tool : Str
  pub sessions : ℕ

count_one : ArchivedSession → JsMap MachineSourceCount → JsMap MachineSourceCount
count_one session counts =
    if truthy session.source.machine_id
    then elim (get name counts) [
      | none ↦
          set name
            (record {
              machine_id = session.source.machine_id;
              tool = session.source.tool;
              sessions = 1;
            })
            counts
      | some existing ↦ set name (record existing { sessions = existing.sessions + 1 }) counts
    ]
    else counts
  where
    name : Str
    name = session.source.machine_id ++ (b':' ∷ session.source.tool)

count_each : Str → JsMap ArchivedSession → JsMap MachineSourceCount → JsMap MachineSourceCount
unfolding count_one
count_each tenant [] counts = counts
count_each tenant ((entry, session) ∷ m) counts =
    count_each tenant m (if in_tenant tenant entry then count_one session counts else counts)

pub count_sessions_by_machine_source : TenantContext → MemoryTables → List MachineSourceCount
unfolding count_each
count_sessions_by_machine_source context tables =
    values (count_each context.tenant_id tables.sessions [])

pub session_exists : TenantContext → Str → MemoryTables → Bool
session_exists context session_id tables = has (key context.tenant_id session_id) tables.sessions

unfoldable pub get_sessions : TenantContext → List Str → MemoryTables → List ArchivedSession
get_sessions context [] tables = []
get_sessions context (session_id ∷ ids) tables =
    let rest = get_sessions context ids tables in
    elim (get (key context.tenant_id session_id) tables.sessions) [
      | none ↦ rest
      | some session ↦ session ∷ rest
    ]

pub delete_session : TenantContext → Str → MemoryTables → MemoryTables × Bool
delete_session context session_id tables = (
  record tables { sessions = delete (key context.tenant_id session_id) tables.sessions },
  has (key context.tenant_id session_id) tables.sessions,
)
