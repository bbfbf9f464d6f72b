-- ===== src/Store/Sessions/Saved.antt =====
-- What the single calls on sessions do within a tenant.
use memoar.Prelude.{◌≡◌, refl, inl, inr, Bool, true, false, Option, none, some, arith}
use memoar.Prelude.Tests.{if◌then◌else◌, Option-cases, is_some}
use memoar.Prelude.Str.{Str, ◌==◌, eq_iff, truthy}
use memoar.Prelude.JsMap.{get, get-set_self, get-set, get-delete, has-get}
use memoar.Host.{Host}
use memoar.Canonical.{ArchivedSession, TenantContext, Visibility}
use memoar.Canonical.Clean.{without_nul_bytes}
use memoar.Store.Keys.{key_same}
use memoar.Store.Tables.{MemoryTables, key}
use memoar.Store.Sessions.{
  identity_key, save_session, stored_form, get_session, Identity, resolve_session_identity,
  update_session_visibility, delete_session,
}
use mathlib.Core.Option

-- A saved session is found under its cleaned identifier as the form that was stored, and no other
-- session of the tenant changes.
pub get_session-save_session :
    (host : Host) (context : TenantContext) (session : ArchivedSession) (id : Str)
    (tables : MemoryTables)
    → get_session context id (save_session host context session tables) ≡ (
        if (without_nul_bytes session).id == id
        then some (stored_form host context tables session)
        else get_session context id tables)
unfolding get_session save_session
get_session-save_session host context session id tables =
    rw
      (
        get-set (key context.tenant_id (without_nul_bytes session).id) (key context.tenant_id id)
            (stored_form host context tables session) tables.sessions,
        key_same,
      )
      refl

-- A deleted session is gone, the answer says whether it was there, and no other session of the
-- tenant changes.
pub get_session-delete_session :
    (context : TenantContext) (deleted id : Str) (tables : MemoryTables)
    → (get_session context id (delete_session context deleted tables).0
        ≡ (if deleted == id then none else get_session context id tables))
      × ((delete_session context deleted tables).1 ≡ is_some (get_session context deleted tables))
unfolding get_session delete_session
get_session-delete_session context deleted id tables = (
  rw
      (
        get-delete (key context.tenant_id deleted) (key context.tenant_id id) tables.sessions,
        key_same,
      )
      refl,
  has-get (key context.tenant_id deleted) tables.sessions,
)

abbrev pub seen : Visibility → Bool → Option ArchivedSession → Option ArchivedSession
seen v true o = Option.map (λ (s : ArchivedSession). record s { visibility = v }) o
seen v false o = o

-- Changing the visibility of a session changes nothing else of it and no other session, and the
-- answer says whether the session was there.
pub get_session-update_session_visibility :
    (context : TenantContext) (changed id : Str) (visibility : Visibility) (tables : MemoryTables)
    → (get_session context id (update_session_visibility context changed visibility tables).0
        ≡ seen visibility (changed == id) (get_session context id tables))
      × ((update_session_visibility context changed visibility tables).1
          ≡ is_some (get_session context changed tables))
unfolding get_session update_session_visibility
get_session-update_session_visibility context changed id visibility tables =
    elim (Option-cases (get (key context.tenant_id changed) tables.sessions)) [
      | inl e ↦ ground (arith, e, eq_iff changed id)
      | inr (s, e) ↦ ground (
        arith,
        e,
        eq_iff changed id,
        key_same context.tenant_id changed id,
        get-set (key context.tenant_id changed) (key context.tenant_id id)
            (record s { visibility = visibility }) tables.sessions,
      )
    ]

-- A native session keeps the first identifier it was given: after one call every later call, with
-- any other proposal and version, answers the same and changes nothing, unless the identifier is
-- the empty string.
pub resolve_session_identity-stable :
    (context : TenantContext) (identity : Identity) (proposed other version : Str)
    (tables : MemoryTables)
    → truthy proposed ≡ true
    → resolve_session_identity context
        (record identity { source_version = version })
        other
        (resolve_session_identity context identity proposed tables).0
      ≡ resolve_session_identity context identity proposed tables
unfolding resolve_session_identity identity_key
resolve_session_identity-stable context identity proposed other version tables h =
    ground (arith, get-set_self (identity_key context identity) proposed tables.session_identities)
